-- ===== src/Multipart/Carried.antt =====
-- app/envelope/multipart_codec.py: what `build_multipart_body` puts into a form and
-- `parse_multipart_form` takes out of it. Starlette's parsing of the outer body, which is outside, gives
-- for the name of each part its text, or the upload with its bytes and its content type.
use naesb_edi.Base.{
  ◌≡◌, true, Option, none, some, List, [], ◌∷◌, Text, Bytes, ◌>>=◌, if◌then◌else◌, strip, truthy,
  equal,
}
use naesb_edi.Fields.{
  from_field, to_field, version_field, receipt_disposition_to_field, receipt_report_type_field,
  input_format_field, input_data_field, receipt_security_selection_field, transaction_set_field,
  refnum_field, refnum_orig_field, field_name, format_value, EnvelopeFields,
}
use naesb_edi.Multipart.{FormValue, text, upload, Form, BodyPart, field, file}

-- A text that stripping leaves as it is, and that is not empty.
pub record IsClean (v : Text) : Type 0 where
  pub stripped : strip v ≡ v
  pub full : truthy v ≡ true

abbrev pub IsCleanIfGiven : Option Text → Type 0
IsCleanIfGiven none = Unit
IsCleanIfGiven (some v) = IsClean v

abbrev pub text_if_given : Option Text → Option FormValue
text_if_given none = none
text_if_given (some v) = some (text v)

-- The form of the parts that were built.
pub record Carries (form : Form) (fields : EnvelopeFields) (body : Bytes) (content_type : Text)
    : Type 0 where
  pub from_id : form (field_name from_field) ≡ some (text fields.from_id)
  pub to_id : form (field_name to_field) ≡ some (text fields.to_id)
  pub version : form (field_name version_field) ≡ some (text fields.version)
  pub receipt_disposition_to :
      form (field_name receipt_disposition_to_field) ≡ some (text fields.receipt_disposition_to)
  pub receipt_report_type :
      form (field_name receipt_report_type_field) ≡ some (text fields.receipt_report_type)
  pub input_format :
      form (field_name input_format_field) ≡ some (text (format_value fields.input_format))
  pub input_data : form (field_name input_data_field) ≡ some (upload body (some content_type))
  pub receipt_security_selection :
      form (field_name receipt_security_selection_field)
      ≡ some (text fields.receipt_security_selection)
  pub transaction_set :
      form (field_name transaction_set_field) ≡ text_if_given fields.transaction_set
  pub refnum : form (field_name refnum_field) ≡ text_if_given fields.refnum
  pub refnum_orig : form (field_name refnum_orig_field) ≡ text_if_given fields.refnum_orig

pub record AreClean (fields : EnvelopeFields) : Type 0 where
  pub from_id : IsClean fields.from_id
  pub to_id : IsClean fields.to_id
  pub version : IsClean fields.version
  pub receipt_disposition_to : IsClean fields.receipt_disposition_to
  pub receipt_report_type : IsClean fields.receipt_report_type
  pub receipt_security_selection : IsClean fields.receipt_security_selection
  pub transaction_set : IsCleanIfGiven fields.transaction_set
  pub refnum : IsCleanIfGiven fields.refnum
  pub refnum_orig : IsCleanIfGiven fields.refnum_orig

-- What `request.form()` gives of parts that were sent: under the name of each its text, or the upload
-- with its bytes and its content type.
unfoldable pub form_of : List BodyPart → Form
unfolding equal field_name
form_of [] name = none
form_of (field f v ∷ ps) name =
    let rest = form_of ps name in if equal name (field_name f) then some (text v) else rest
form_of (file f filename body content_type ∷ ps) name =
    let rest = form_of ps name in
    if equal name (field_name f) then some (upload body (some content_type)) else rest
