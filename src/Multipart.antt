-- ===== src/Multipart.antt =====
-- app/envelope/multipart_codec.py. Starlette's parsing of the outer body is outside: a form is what
-- `form.get` gives for each name.
pub mod Missing
pub mod Carried
use naesb_edi.Base.{
  Option, none, some, List, [], ◌∷◌, ◌++◌, Text, Bytes, Python, Result, ok, err, map_err, ◌>>=◌,
  codes, crlf, strip, Bool, true, ◌&&◌, all, if◌then◌else◌,
}
use naesb_edi.Base.Utf8.{encode, is_scalar}
use naesb_edi.ErrorCodes.{missing, invalid}
use naesb_edi.Exceptions.{Exception, envelope_error, value_error}
use naesb_edi.Fields.{
  EnvelopeField, from_field, to_field, version_field, receipt_disposition_to_field,
  receipt_report_type_field, input_format_field, input_data_field, receipt_security_selection_field,
  transaction_set_field, refnum_field, refnum_orig_field, field_name, InputFormat, format_value,
  input_format_of, EnvelopeFields, Fault, envelope_fields,
}
use naesb_edi.PgpMime.{wrap_pgp_encrypted, unwrap_pgp_encrypted, get_or_empty}

-- A value of the form: a text, or an upload with its bytes and its content type.
pub data FormValue : Type 0 where
  text : Text → FormValue
  upload : Bytes → Option Text → FormValue

abbrev pub Form : Type 0
Form = Text → Option FormValue

abbrev pub nonempty : Text → Option Text
nonempty [] = none
nonempty (c ∷ cs) = some (c ∷ cs)

abbrev pub text_value : Option FormValue → Option Text
text_value (some (text v)) = nonempty (strip v)
text_value _ = none

unfoldable pub get_str : Form → EnvelopeField → Option Text
get_str form field = text_value (form (field_name field))

abbrev pub or_missing : EnvelopeField → Option Text → Result Exception Text
or_missing field none = err (envelope_error (field_name field) missing none)
or_missing field (some v) = ok v

unfoldable pub require : Form → EnvelopeField → Result Exception Text
unfolding get_str
require form field = or_missing field (get_str form field)

abbrev pub format_or_error : Text → Option InputFormat → Result Exception InputFormat
format_or_error raw none = err (envelope_error (field_name input_format_field) invalid (some raw))
format_or_error raw (some f) = ok f

-- `print` is pydantic's text of a `ValidationError`.
module _ (py : Python) (print : List Fault → Text) where
  abbrev pub read_upload : Option FormValue → Result Exception Bytes
  read_upload (some (upload raw content_type)) =
      map_err (λ m. envelope_error (field_name input_data_field) invalid (some m))
        (unwrap_pgp_encrypted py raw (get_or_empty content_type))
  read_upload _ = err (envelope_error (field_name input_data_field) missing none)

  unfoldable pub parse_multipart_form : Form → Result Exception (EnvelopeFields × Bytes)
  parse_multipart_form form = do
    from_id ← require form from_field
    to_id ← require form to_field
    version ← require form version_field
    receipt_disposition_to ← require form receipt_disposition_to_field
    receipt_report_type ← require form receipt_report_type_field
    input_format_raw ← require form input_format_field
    receipt_security_selection ← require form receipt_security_selection_field
    input_format ← format_or_error input_format_raw (input_format_of input_format_raw)
    ciphertext ← read_upload (form (field_name input_data_field))
    fields ←
        map_err
          (λ faults.
            envelope_error (field_name transaction_set_field) invalid (some (print faults)))
          (envelope_fields py (record {
            from_id = from_id;
            to_id = to_id;
            version = version;
            receipt_disposition_to = receipt_disposition_to;
            receipt_report_type = receipt_report_type;
            input_format = input_format;
            receipt_security_selection = receipt_security_selection;
            transaction_set = get_str form transaction_set_field;
            refnum = get_str form refnum_field;
            refnum_orig = get_str form refnum_orig_field;
          }))
    ok (fields, ciphertext)

unfoldable pub form_boundary : Text → Text
form_boundary token = codes "----naesb-form-" ++ token

unfoldable pub field_part : Text → EnvelopeField → Text → Bytes
field_part token field v =
    codes "--"
    ++ (encode (form_boundary token)
        ++ (crlf
            ++ (codes "content-disposition: form-data; name=\""
                ++ (encode (field_name field)
                    ++ (codes "\"" ++ (crlf ++ (crlf ++ (encode v ++ crlf))))))))

-- A part of the body: a field with its text, or a file with its name, its bytes and its content type.
pub data BodyPart : Type 0 where
  field : EnvelopeField → Text → BodyPart
  file : EnvelopeField → Text → Bytes → Text → BodyPart

unfoldable pub render_part : Text → BodyPart → Bytes
unfolding field_part
render_part token (field f v) = field_part token f v
render_part token (file f filename body content_type) =
    codes "--"
    ++ (encode (form_boundary token)
        ++ (crlf
            ++ (encode (
                  codes "content-disposition: form-data; name=\""
                  ++ (field_name f ++ (codes "\"; filename=\"" ++ (filename ++ codes "\""))))
                ++ (crlf
                    ++ (encode (codes "content-type: " ++ content_type)
                        ++ (crlf ++ (crlf ++ (body ++ crlf))))))))

-- `b"".join(parts)`
unfoldable pub render_parts : Text → List BodyPart → Bytes
unfolding render_part
render_parts token [] = []
render_parts token (p ∷ ps) = render_part token p ++ render_parts token ps

abbrev pub optional_part : EnvelopeField → Option Text → List BodyPart
optional_part f none = []
optional_part f (some v) = field f v ∷ []

-- The list `parts`, in the order of the protocol.
unfoldable pub parts_of : Text → EnvelopeFields → Bytes → Text → List BodyPart
parts_of inner_token fields payload_ciphertext filename =
    let (encrypted_body, encrypted_content_type) =
      wrap_pgp_encrypted inner_token payload_ciphertext in
    field from_field fields.from_id
    ∷ field to_field fields.to_id
    ∷ field version_field fields.version
    ∷ field receipt_disposition_to_field fields.receipt_disposition_to
    ∷ field receipt_report_type_field fields.receipt_report_type
    ∷ field input_format_field (format_value fields.input_format)
    ∷ file input_data_field filename encrypted_body encrypted_content_type
    ∷ field receipt_security_selection_field fields.receipt_security_selection
    ∷ (optional_part transaction_set_field fields.transaction_set
        ++ (optional_part refnum_field fields.refnum
            ++ optional_part refnum_orig_field fields.refnum_orig))

-- The body of fields that can be encoded. The tokens of the outer and of the inner boundary are two
-- draws.
unfoldable pub build_multipart_body : Text → Text → EnvelopeFields → Bytes → Text → Bytes × Text
unfolding parts_of render_parts
build_multipart_body token inner_token fields payload_ciphertext filename = (
  render_parts token (parts_of inner_token fields payload_ciphertext filename)
      ++ (codes "--" ++ (encode (form_boundary token) ++ (codes "--" ++ crlf))),
  codes "multipart/form-data; boundary=\"" ++ (form_boundary token ++ codes "\""),
)

abbrev pub option_scalar : Option Text → Bool
option_scalar none = true
option_scalar (some v) = all is_scalar v

-- `.encode()` takes the fields: none of them holds a lone surrogate.
unfoldable pub fields_scalar : EnvelopeFields → Bool
unfolding is_scalar
fields_scalar fields =
    all is_scalar fields.from_id
    && (all is_scalar fields.to_id
        && (all is_scalar fields.version
            && (all is_scalar fields.receipt_disposition_to
                && (all is_scalar fields.receipt_report_type
                    && (all is_scalar fields.receipt_security_selection
                        && (option_scalar fields.transaction_set
                            && (option_scalar fields.refnum
                                && option_scalar fields.refnum_orig)))))))

-- The call of `build_multipart_body`, with the `UnicodeEncodeError` that it may raise.
unfoldable pub multipart_body :
    Text → Text → EnvelopeFields → Bytes → Text → Result Exception (Bytes × Text)
unfolding fields_scalar
multipart_body token inner_token fields payload_ciphertext filename =
    if fields_scalar fields
    then ok (build_multipart_body token inner_token fields payload_ciphertext filename)
    else err (value_error (codes "surrogates not allowed"))
