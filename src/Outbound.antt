-- ===== src/Outbound.antt =====
-- app/outbound/client.py: one delivery attempt. httpx and `base64.b64encode` are outside, and with
-- them the transport that `_build_transport` configures.
use naesb_edi.Base.{
  not, Option, none, some, ◌∷◌, ◌++◌, Text, Bytes, Result, ok, err, map_err, ◌>>=◌, codes,
  if◌then◌else◌,
}
use naesb_edi.Crypto.Gpg.{verify_detached}
use naesb_edi.Crypto.Policy.{enforce_digest_policy}
use naesb_edi.Exceptions.{Exception, delivery_attempt, weak_algorithm, value_error}
use naesb_edi.Fields.{InputFormat, input_format_of, EnvelopeFields, envelope_fields}
use naesb_edi.Gateway.{Outside}
use naesb_edi.Multipart.{multipart_body}
use naesb_edi.Partners.{AuthConfig, basic_auth, api_key_auth, PartnerConfig, partner_digests}
use naesb_edi.PgpMime.{get_or_empty}
use naesb_edi.Receipt.{NaesbReceipt, parse_signed_mime, decode_report_part}
use naesb_edi.Settings.{Environ, Settings, resolve_env}
use naesb_edi.Tracking.Jobs.{OutboundJob}

-- A response's body and its content type.
pub record HttpResponse : Type 0 where
  pub content : Bytes
  pub content_type : Option Text

pub record Http : Type 0 where
  pub b64encode : Text → Text
  -- URL, content type, authorization and body; the inner error is the text of an `HTTPError`,
  -- that of `raise_for_status` included
  pub post : Text → Text → Text → Bytes → Result Exception (Result Text HttpResponse)

unfoldable pub auth_header : Http → Environ → AuthConfig → Result Exception Text
auth_header http environ (basic_auth username password_env) = do
  password ← resolve_env environ password_env
  ok (codes "Basic " ++ http.b64encode (username ++ (b':' ∷ password)))
auth_header http environ (api_key_auth key_env) = do
  key ← resolve_env environ key_env
  ok (codes "Bearer " ++ key)

abbrev format_or_error : Text → Option InputFormat → Result Exception InputFormat
format_or_error raw none = err (value_error raw)
format_or_error raw (some f) = ok f

-- A `ValidationError` is a `ValueError`; nothing here makes it a `DeliveryAttemptError`.
unfoldable pub envelope_fields_from_job :
    Outside → OutboundJob → Settings → Result Exception EnvelopeFields
envelope_fields_from_job outside job settings = do
  input_format ← format_or_error job.input_format (input_format_of job.input_format)
  map_err (λ faults. value_error (outside.print_faults faults))
      (envelope_fields outside.py (record {
        from_id = job.from_id;
        to_id = job.to_id;
        version = job.version;
        receipt_disposition_to = job.from_id;
        receipt_report_type = codes "gisb-acknowledgement-receipt";
        input_format = input_format;
        receipt_security_selection = settings.envelope.receipt_security_selection;
        transaction_set = job.transaction_set;
        refnum = job.refnum;
        refnum_orig = job.refnum_orig;
      }))

abbrev pub posted : Result Exception (Result Text HttpResponse) → Result Exception HttpResponse
posted (ok (ok response)) = ok response
posted (ok (err message)) = err (delivery_attempt (codes "HTTP request failed: " ++ message))
posted (err e) = err e

abbrev not_weak : Outside → Result Exception (Unit {0}) → Result Exception (Unit {0})
not_weak outside (ok _) = ok tt
not_weak outside (err (weak_algorithm weakness)) = err (
    delivery_attempt
      (codes "partner receipt used a weak digest algorithm: " ++ outside.weakness_text weakness))
not_weak outside (err e) = err e

-- The checks of a receipt that was split: its signature, the digest, and its fields.
unfoldable pub read_receipt :
    Outside → Settings → PartnerConfig → Text → Bytes × Text × Bytes → Result Exception NaesbReceipt
read_receipt outside settings partner partner_fingerprint
      (report_body, report_content_type, signature) =
    do
      verify_result ←
          verify_detached outside.py outside.gnupg report_body signature partner_fingerprint
      (if not verify_result.valid
          then err (delivery_attempt (codes "partner receipt signature missing or invalid"))
          else (do
            not_weak outside (
                  enforce_digest_policy verify_result.algo_info.hash_algo
                    (partner_digests partner settings.crypto.allowed_digests))
                >>= λ _.
                    map_err
                      (λ m.
                        delivery_attempt (codes "partner receipt body was not decodable: " ++ m))
                      (decode_report_part outside.py report_body report_content_type)))

-- The two tokens are the boundaries' draws.
unfoldable pub send_once :
    Outside
    → Http
    → Text
    → Text
    → OutboundJob
    → PartnerConfig
    → Settings
    → Text
    → Result Exception NaesbReceipt
unfolding multipart_body
send_once outside http token inner_token job partner settings partner_fingerprint = do
  fields ← envelope_fields_from_job outside job settings
  (body, content_type) ←
      multipart_body token inner_token fields job.payload_ciphertext (codes "payload.pgp")
  authorization ← auth_header http outside.environ partner.outbound_auth
  response ← posted (http.post partner.endpoint_url content_type authorization body)
  parts ←
      map_err
        (λ m.
          delivery_attempt
            (codes "partner response was not a valid multipart/signed receipt: " ++ m))
        (parse_signed_mime outside.py response.content (get_or_empty response.content_type))
  read_receipt outside settings partner partner_fingerprint parts
