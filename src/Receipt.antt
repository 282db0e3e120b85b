-- ===== src/Receipt.antt =====
-- app/envelope/receipt.py: the `gisb-acknowledgement-receipt`. A token is what
-- `secrets.token_hex(16)` returned, and a time is the text that `strftime(TIME_C_FORMAT)` gave.
pub mod Fields
pub mod RoundTrip
pub mod Rejected
pub mod Signed
pub mod Delivered
pub mod Apart
pub mod Encodable
use naesb_edi.Base.{
  ℕ, ◌≡◌, refl, Bool, true, false, not, ◌&&◌, ◌||◌, all, Option, none, some, List, [], ◌∷◌, ◌++◌,
  map, String, Text, Bytes, Python, Result, ok, err, map_err, ◌>>=◌, length, if◌then◌else◌, codes,
  crlf, starts_with, truthy, decimal, equal, crlf_to_lf, split_on, strip, partition, has, rstrip_of,
  ◌==◌,
}
use naesb_edi.Base.Dict.{Dict, lookup, insert}
use naesb_edi.Base.Utf8.{encode, decode, is_scalar}
use naesb_edi.ErrorCodes.{ErrorCode, value, describe}
use naesb_edi.Exceptions.{Exception, value_error}
use naesb_edi.Mime.{content_type_param, split_mime_parts, is_newline}
use naesb_edi.PgpMime.{get_or_empty}

pub is_unsafe : ℕ → Bool
is_unsafe c = c == b'*' || c == 13 || c == 10

unfoldable pub sanitize_receipt_text : Text → Text
unfolding is_unsafe
sanitize_receipt_text = map (λ c. if is_unsafe c then b' ' else c)

pub record NaesbReceipt : Type 0 where
  pub time_c : Text
  pub request_status : Text
  pub server_id : Text
  pub trans_id : Text

unfoldable pub receipt_ok : Text → ℕ → Text → NaesbReceipt
receipt_ok server_id trans_id time_c = record {
  time_c = time_c;
  request_status = codes "ok";
  server_id = server_id;
  trans_id = decimal trans_id;
}

-- `safe_description or describe(code)`
unfoldable pub description_or_default : ErrorCode → Option Text → Text
description_or_default code none = describe code
description_or_default code (some d) =
    if truthy (sanitize_receipt_text d) then sanitize_receipt_text d else describe code

unfoldable pub receipt_rejected : Text → ℕ → ErrorCode → Option Text → Text → NaesbReceipt
receipt_rejected server_id trans_id code description time_c = record {
  time_c = time_c;
  request_status = value code ++ (codes ": " ++ description_or_default code description);
  server_id = server_id;
  trans_id = decimal trans_id;
}

unfoldable pub is_ok : NaesbReceipt → Bool
is_ok r = equal r.request_status (codes "ok")

abbrev pub line_of : String → Text → Text
line_of key v = codes key ++ (b'=' ∷ (v ++ codes "*"))

unfoldable pub fields_text : NaesbReceipt → Bytes
fields_text r =
    encode (line_of "time-c" r.time_c)
    ++ (crlf
        ++ (encode (line_of "request-status" r.request_status)
            ++ (crlf
                ++ (encode (line_of "server-id" r.server_id)
                    ++ (crlf ++ (encode (line_of "trans-id" r.trans_id) ++ crlf))))))

unfoldable pub report_boundary : Text → Text
report_boundary token = codes "----naesb-report-" ++ token

-- Of a receipt whose fields can be encoded.
unfoldable pub encode_report_part : Text → NaesbReceipt → Bytes × Text
encode_report_part token r =
    let marker = codes "--" ++ encode (report_boundary token) in
    let html_body =
      codes "<HTML><HEAD><TITLE>Acknowledgement Receipt</TITLE></HEAD><BODY><P>"
      ++ (crlf ++ (fields_text r ++ (codes "</P></BODY></HTML>" ++ crlf))) in
    (
      marker
          ++ (crlf
              ++ (codes "content-type: text/html"
                  ++ (crlf
                      ++ (crlf
                          ++ (html_body
                              ++ (marker
                                  ++ (crlf
                                      ++ (codes "content-type: text/plain"
                                          ++ (crlf
                                              ++ (crlf
                                                  ++ (fields_text r
                                                      ++ (marker
                                                          ++ (codes "--" ++ crlf))))))))))))),
      codes "multipart/report; report-type=\"gisb-acknowledgement-receipt\"; boundary=\""
          ++ (report_boundary token ++ codes "\""),
    )

-- `.encode()` takes the four fields: none of them holds a lone surrogate.
unfoldable pub can_encode : NaesbReceipt → Bool
unfolding is_scalar
can_encode r =
    all is_scalar r.time_c
    && (all is_scalar r.request_status && (all is_scalar r.server_id && all is_scalar r.trans_id))

-- Python's `UnicodeEncodeError`, a `ValueError`.
abbrev pub unicode_encode_error : Exception
unicode_encode_error = value_error (codes "surrogates not allowed")

-- The call of `encode_report_part` with the exception that it may raise.
unfoldable pub encoded_report : Text → NaesbReceipt → Result Exception (Bytes × Text)
unfolding can_encode
encoded_report token r =
    if can_encode r then ok (encode_report_part token r) else err unicode_encode_error

-- One piece of the text between two `*`.
unfoldable pub add_chunk : Text → Dict Text → Dict Text
add_chunk chunk values =
    let chunk' = strip chunk in
    if not (truthy chunk') || not (has b'=' chunk')
    then values
    else let (key, v) = partition b'=' chunk' in insert (strip key) (strip v) values

unfoldable pub add_chunks : List Text → Dict Text → Dict Text
add_chunks [] values = values
add_chunks (chunk ∷ chunks) values = add_chunks chunks (add_chunk chunk values)

-- `values[key]`, whose `KeyError` becomes a `ReceiptDecodeError` with this message.
unfoldable pub require_value : Text → Dict Text → Result Text Text
require_value key values = elim (lookup key values) [
  | some v ↦ ok v
  | none ↦ err (codes "missing required receipt field: '" ++ (key ++ codes "'"))
]

unfoldable pub receipt_of : Dict Text → Result Text NaesbReceipt
receipt_of values = do
  time_c ← require_value (codes "time-c") values
  request_status ← require_value (codes "request-status") values
  server_id ← require_value (codes "server-id") values
  trans_id ← require_value (codes "trans-id") values
  ok (record {
    time_c = time_c;
    request_status = request_status;
    server_id = server_id;
    trans_id = trans_id;
  })

unfoldable pub parse_fields : Text → Result Text NaesbReceipt
parse_fields text = receipt_of (add_chunks (split_on b'*' (crlf_to_lf text)) [])

module _ (py : Python) where
  abbrev pub has_type : String → Dict Text → Bool
  has_type kind headers =
      starts_with (codes kind) (py.lower (get_or_empty (lookup (codes "content-type") headers)))

  -- The loop that looks for the text/plain part.
  unfoldable pub find_text : List (Dict Text × Bytes) → Option Bytes
  find_text [] = none
  find_text ((headers, body) ∷ parts) =
      if has_type "text/plain" headers then some body else find_text parts

  abbrev decode_text : Option Bytes → Result Text NaesbReceipt
  decode_text none = err (codes "no text/plain sub-part found in multipart/report")
  decode_text (some body) = parse_fields (decode body)

  abbrev decode_at : Bytes → Option Text → Result Text NaesbReceipt
  decode_at body none = err (codes "multipart/report content-type is missing a boundary parameter")
  decode_at body (some b) = do parts ← split_mime_parts py body b; decode_text (find_text parts)

  unfoldable pub decode_report_part : Bytes → Text → Result Text NaesbReceipt
  decode_report_part body content_type =
      decode_at body (content_type_param py content_type (codes "boundary"))

unfoldable pub signed_boundary : Text → Text
signed_boundary token = codes "----naesb-signed-" ++ token

unfoldable pub build_signed_mime : Text → Bytes → Text → Bytes → Text → Bytes × Text
build_signed_mime token report_body report_content_type signature micalg =
    let marker = codes "--" ++ encode (signed_boundary token) in
    (
      marker
          ++ (crlf
              ++ (codes "content-type: "
                  ++ (encode report_content_type
                      ++ (crlf
                          ++ (crlf
                              ++ (report_body
                                  ++ (crlf
                                      ++ (marker
                                          ++ (crlf
                                              ++ (codes "content-type: application/pgp-signature"
                                                  ++ (crlf
                                                      ++ (crlf
                                                          ++ (rstrip_of is_newline signature
                                                            ++ (crlf
                                                            ++ (marker
                                                            ++ (codes "--" ++ crlf)))))))))))))))),
      codes "multipart/signed; micalg=\""
          ++ (micalg
              ++ (codes "\"; protocol=\"application/pgp-signature\"; boundary=\""
                  ++ (signed_boundary token ++ codes "\""))),
    )

module _ (py : Python) where
  abbrev checked_signature :
      Option Text → Bytes → Dict Text → Bytes → Result Text (Bytes × Text × Bytes)
  checked_signature (some (c ∷ cs)) report_body sig_headers sig_body =
      if not (has_type py "application/pgp-signature" sig_headers)
      then err (codes "second multipart/signed part must be application/pgp-signature")
      else ok (report_body, c ∷ cs, sig_body)
  checked_signature _ report_body sig_headers sig_body =
      err (codes "multipart/report part is missing a content-type header")

  unfoldable pub signed_parts : List (Dict Text × Bytes) → Result Text (Bytes × Text × Bytes)
  signed_parts ((report_headers, report_body) ∷ (sig_headers, sig_body) ∷ []) =
      checked_signature (lookup (codes "content-type") report_headers) report_body sig_headers
        sig_body
  signed_parts parts =
      err (codes "expected 2 parts in multipart/signed, got " ++ decimal (length parts))

  abbrev signed_at : Bytes → Option Text → Result Text (Bytes × Text × Bytes)
  signed_at body none = err (codes "multipart/signed content-type is missing a boundary parameter")
  signed_at body (some b) = do parts ← split_mime_parts py body b; signed_parts parts

  unfoldable pub parse_signed_mime : Bytes → Text → Result Text (Bytes × Text × Bytes)
  parse_signed_mime body content_type =
      signed_at body (content_type_param py content_type (codes "boundary"))
