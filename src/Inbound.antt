-- ===== src/Inbound.antt =====
-- app/inbound/routes.py: `receive`, in the order of its steps. Logging is left out. Other requests
-- and the worker may change the table while the route waits: `others` is what they did between its
-- look for a duplicate and its insert.
pub mod Receive
pub mod Signing
pub mod Answer
pub mod Known
pub mod Answered
use naesb_edi.Base.{
  ℕ, ◌≡◌, refl, Bool, true, false, not, ◌&&◌, ◌||◌, Option, none, some, List, [], ◌∷◌, ◌++◌, map,
  Text, Bytes, Result, ok, err, codes, equal, contains, truthy, length, ltb, ℤ, pos, if◌then◌else◌,
  Python,
}
use naesb_edi.Base.Dict.{Dict, lookup}
use naesb_edi.Auth.{authenticate_inbound}
use naesb_edi.Crypto.Gpg.{DecryptResult, decrypt_and_verify, same_fingerprint}
use naesb_edi.Crypto.Policy.{enforce_policy, int_lt}
use naesb_edi.Effects.{Action, pure, raise, lift, modify, catch, ◌>>=◌, ◌>>◌}
use naesb_edi.ErrorCodes.{
  ErrorCode, naesb, gateway, value, error_code_for_field, no_parameters_supplied,
  sender_not_associated, invalid_to, invalid_version, invalid_receipt_security_selection,
  refnum_not_present, duplicate_refnum, duplicate_digest, decryption_error, signature_not_matched,
  sink_failure, system_error, weak_algorithm as weak_algorithm_code,
}
use naesb_edi.Exceptions.{
  Exception, http, envelope_error, envelope_message, weak_algorithm, unique_violation, value_error,
}
use naesb_edi.Fields.{EnvelopeFields, format_value}
use naesb_edi.Gateway.{App, World, Response, signed_receipt}
use naesb_edi.Multipart.{Form, parse_multipart_form}
use naesb_edi.Partners.{
  PartnerConfig, PartnerRegistry, use_refnum, partner_version, partner_ciphers, partner_digests,
}
use naesb_edi.Receipt.{receipt_ok, receipt_rejected}
use naesb_edi.Settings.{passphrase}
use naesb_edi.Sinks.{InboundMessage, Sink, SinkResult, fan_out, has_durable_success}
use naesb_edi.Tracking.{
  inbound, processing, rejected, accepted, SinkStatus, MessageRecord, Messages, StatusUpdate,
  to_status, find_duplicate, find_refnum_reuse, next_trans_id, create, update_status,
  update_sinks_status,
}

pub record Request : Type 0 where
  pub content_length : Option Text
  pub authorization : Option Text
  pub headers : Dict Text
  pub body : Bytes
  -- what `request.form()` returned or raised
  pub form : Result Exception Form
  -- the clock when the body was complete
  pub received_at : ℕ

-- A receipt's context: the partner is authenticated and the number drawn.
pub record Context : Type 0 where
  pub partner : PartnerConfig
  pub trans_id : ℕ
  pub received_at : ℕ

abbrev too_large : Exception
too_large = http 413 (codes "payload too large")

abbrev checked_length : ℕ → Option ℤ → Result Exception (Unit {0})
checked_length limit none = err (value_error (codes "content-length"))
checked_length limit (some n) = if int_lt (pos limit) n then err too_large else ok tt

-- The header first, then the body itself.
abbrev check_header : Python → ℕ → Option Text → Result Exception (Unit {0})
check_header py limit none = ok tt
check_header py limit (some header) = checked_length limit (py.int_of header)

unfoldable pub check_body : ℕ → Bytes → Result Exception (Unit {0})
check_body limit body = if ltb limit (length body) then err too_large else ok tt

-- The closure `reject`.
unfoldable pub reject : App → Context → ErrorCode → Option Text → Action World Response
reject app ctx code message = signed_receipt app (
    receipt_rejected app.settings.envelope.server_id ctx.trans_id code message
      (app.outside.strftime ctx.received_at))

-- A failed envelope check: its code and its message.
abbrev Refusal : Type 0
Refusal = ErrorCode × Option Text

-- What `except EnvelopeError` and `except Exception` make of a failed parse.
unfoldable pub parse_refusal : App → Exception → ErrorCode × Option Text
parse_refusal app (envelope_error field problem detail) =
    (naesb (error_code_for_field field problem), some (envelope_message field problem detail))
parse_refusal app e = (
  naesb no_parameters_supplied,
  some (codes "malformed multipart body: " ++ app.outside.exception_text e),
)

abbrev pub given : Option Text → Bool
given none = false
given (some v) = truthy v

-- The identity, version, receipt security and refnum checks, in order.
unfoldable pub check_envelope :
    App → PartnerConfig → EnvelopeFields → Option (ErrorCode × Option Text)
check_envelope app partner fields =
    let expected = partner_version partner app.settings.envelope.default_version in
    if not (equal fields.from_id partner.duns)
    then some (
      naesb sender_not_associated,
      some (codes "'from' does not match the authenticated partner"),
    )
    else if not (equal fields.to_id app.settings.identity.duns)
    then some (naesb invalid_to, some (codes "'to' does not match this gateway's identity"))
    else if not (equal fields.version expected)
    then some (
      naesb invalid_version,
      some (
          codes "expected version "
          ++ (app.outside.py.repr expected
              ++ (codes ", got " ++ app.outside.py.repr fields.version))),
    )
    else if not
        (contains (codes "pgp-signature") (app.outside.py.lower fields.receipt_security_selection))
    then some (
      naesb invalid_receipt_security_selection,
      some (codes "only a pgp-signature receipt protocol is supported"),
    )
    else if use_refnum partner && not (given fields.refnum)
    then some (naesb refnum_not_present, none)
    else none

-- The partner tracks by refnum, and the transmission carries one.
abbrev pub by_refnum : PartnerConfig → EnvelopeFields → Bool
by_refnum partner fields = use_refnum partner && given fields.refnum

abbrev pub reuse_of : Text → Option Text → Messages → Bool
reuse_of partner_name none m = false
reuse_of partner_name (some refnum) m = find_refnum_reuse partner_name refnum inbound m

unfoldable pub duplicate_code : PartnerConfig → EnvelopeFields → ErrorCode
duplicate_code partner fields =
    if by_refnum partner fields then naesb duplicate_refnum else gateway duplicate_digest

-- Whether the table already holds the transmission.
unfoldable pub is_known : PartnerConfig → EnvelopeFields → Text → Messages → Bool
is_known partner fields content_digest m =
    if by_refnum partner fields
    then reuse_of partner.name fields.refnum m
    else find_duplicate partner.name content_digest inbound m

unfoldable pub message_record : Request → Context → EnvelopeFields → Text → MessageRecord
message_record req ctx fields content_digest = record {
  direction = inbound;
  partner_name = ctx.partner.name;
  content_digest = content_digest;
  transaction_set = fields.transaction_set;
  input_format = some (format_value fields.input_format);
  status = processing;
  error_code = none;
  receipt_verified = none;
  trans_id = some ctx.trans_id;
  refnum = fields.refnum;
  refnum_orig = fields.refnum_orig;
  sinks_status = [];
  raw_headers = some req.headers;
  received_at = some ctx.received_at;
  sent_at = none;
  receipt_sent_at = none;
  receipt_received_at = none;
}

abbrev pub set_status : ℕ → StatusUpdate → Action World (Unit {0})
set_status id u = modify (λ w. record w { messages = update_status id u w.messages })

abbrev pub rejection : ErrorCode → StatusUpdate
rejection code = record (to_status rejected) { error_code = some (value code) }

-- `update_status(...)` and `reject(...)`, as each failing step of the processing does.
abbrev refuse : App → Context → ℕ → ErrorCode → Option Text → Action World Response
refuse app ctx id code message = do set_status id (rejection code); reject app ctx code message

abbrev pub sinks_status_of : Dict SinkResult → Dict SinkStatus
sinks_status_of = map λ (name, r). (name, record { ok = r.ok; error = r.error })

-- Steps 7 and 8: the sinks, and the acceptance.
unfoldable pub deliver : App → Context → ℕ → Bool → InboundMessage → Action World Response
deliver app ctx id signature_ok message = do
  let results = fan_out app.sinks message
  modify (λ w. record w {
    deliveries = w.deliveries ++ message ∷ [];
    messages = update_sinks_status id (sinks_status_of results) w.messages;
  })
  if app.settings.sinks.require_at_least_one_durable_success
        && not (has_durable_success app.sinks results)
      then refuse app ctx id (gateway sink_failure) none
      else do
        set_status id (record (to_status accepted) { receipt_verified = some signature_ok })
        signed_receipt app (
            receipt_ok app.settings.envelope.server_id ctx.trans_id
              (app.outside.strftime ctx.received_at))

abbrev pub on_policy :
    App → Context → ℕ → Action World Response → Result Exception (Unit {0}) → Action World Response
on_policy app ctx id rest (ok _) = rest
on_policy app ctx id rest (err (weak_algorithm weakness)) =
    refuse app ctx id (gateway weak_algorithm_code) (some (app.outside.weakness_text weakness))
on_policy app ctx id rest (err e) = raise e

abbrev pub signature_ok : App → Context → DecryptResult → Bool
signature_ok app ctx r =
    r.signature_valid
    && same_fingerprint r.signer_fingerprint (lookup ctx.partner.name app.fingerprints)

-- Steps 5 and 6: the decryption, the signature and the policy.
unfoldable pub check_payload :
    App → Context → ℕ → EnvelopeFields → Text → DecryptResult → Action World Response
check_payload app ctx id fields content_digest r =
    if not r.ok
    then refuse app ctx id (naesb decryption_error) none
    else if not (signature_ok app ctx r) && ctx.partner.require_signature
    then (do
      set_status id
          (record (rejection (naesb signature_not_matched)) { receipt_verified = some false })
      reject app ctx (naesb signature_not_matched) none)
    else on_policy app ctx id
        (deliver app ctx id (signature_ok app ctx r) (record {
          partner_name = ctx.partner.name;
          content_digest = content_digest;
          envelope = fields;
          plaintext = r.plaintext;
          received_at = ctx.received_at;
        }))
        (enforce_policy r.algo_info
          (partner_ciphers ctx.partner app.settings.crypto.allowed_ciphers)
          (partner_digests ctx.partner app.settings.crypto.allowed_digests)
          ctx.partner.require_signature)

-- The body of the `try`.
unfoldable pub process : App → Context → ℕ → EnvelopeFields → Text → Bytes → Action World Response
process app ctx id fields content_digest ciphertext = do
  secret ← lift (passphrase app.outside.environ app.settings)
  r ← lift (decrypt_and_verify app.outside.py app.outside.gnupg ciphertext secret)
  check_payload app ctx id fields content_digest r

-- The `try` with its handler.
unfoldable pub process_safely :
    App → Context → ℕ → EnvelopeFields → Text → Bytes → Action World Response
process_safely app ctx id fields content_digest ciphertext =
    catch (process app ctx id fields content_digest ciphertext)
      (λ e. refuse app ctx id (naesb system_error) none)
