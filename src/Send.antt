-- ===== src/Send.antt =====
-- app/api/send.py, behind the internal API's authentication: `trigger_send` and `get_job_status`.
use naesb_edi.Base.{ℕ, Option, none, some, [], ◌++◌, Text, Bytes, Result, ok, err, codes}
use naesb_edi.Base.Dict.{lookup}
use naesb_edi.Crypto.Gpg.{encrypt_and_sign}
use naesb_edi.Effects.{Action, lift, ◌>>=◌}
use naesb_edi.Exceptions.{Exception, http, unique_violation}
use naesb_edi.Fields.{InputFormat, format_value}
use naesb_edi.Gateway.{or_key_error}
use naesb_edi.Partners.{PartnerConfig, get_by_name, partner_version}
use naesb_edi.Settings.{passphrase}
use naesb_edi.Tracking.{
  outbound, queued as message_queued, MessageRecord, Messages, UniqueViolation, create,
}
use naesb_edi.Tracking.Jobs.{OutboundJob, JobStatus, Jobs, get, queued, create as create_job}
use naesb_edi.Worker.{Config, Desk}

pub record SendRequest : Type 0 where
  pub partner_name : Text
  pub input_format : InputFormat
  pub transaction_set : Option Text
  pub refnum : Option Text
  pub refnum_orig : Option Text
  pub payload_base64 : Text

-- The response, or a job as `get_job_status` shows it.
pub record JobStatusResponse : Type 0 where
  pub job_id : ℕ
  pub status : JobStatus
  pub attempt_count : ℕ
  pub last_error_code : Option Text
  pub last_error_description : Option Text
  pub receipt_trans_id : Option Text
  pub receipt_server_id : Option Text
  pub receipt_time_c : Option Text

unfoldable pub sent_record : SendRequest → PartnerConfig → Text → MessageRecord
sent_record body partner content_digest = record {
  direction = outbound;
  partner_name = partner.name;
  content_digest = content_digest;
  transaction_set = body.transaction_set;
  input_format = some (format_value body.input_format);
  status = message_queued;
  error_code = none;
  receipt_verified = none;
  trans_id = none;
  refnum = body.refnum;
  refnum_orig = body.refnum_orig;
  sinks_status = [];
  raw_headers = none;
  received_at = none;
  sent_at = none;
  receipt_sent_at = none;
  receipt_received_at = none;
}

-- `id` is not read: the database gives the id.
unfoldable pub job_for : Config → SendRequest → PartnerConfig → Bytes → Text → ℕ → OutboundJob
job_for c body partner encrypted content_digest message_id = record {
  id = 0;
  partner_name = partner.name;
  from_id = c.settings.identity.duns;
  to_id = partner.duns;
  version = partner_version partner c.settings.envelope.default_version;
  input_format = format_value body.input_format;
  payload_ciphertext = encrypted;
  content_digest = content_digest;
  status = queued;
  transaction_set = body.transaction_set;
  refnum = body.refnum;
  refnum_orig = body.refnum_orig;
  attempt_count = 0;
  last_error_code = none;
  last_error_description = none;
  receipt_trans_id = none;
  receipt_server_id = none;
  receipt_time_c = none;
  message_id = some message_id;
}

abbrev inserted : Desk → Result UniqueViolation (ℕ × Messages) → Result Exception ℕ × Desk
inserted d (ok (id, m)) = (ok id, record d { messages = m })
inserted d (err _) = (err unique_violation, d)

unfoldable pub create_message : MessageRecord → Action Desk ℕ
create_message r d = inserted d (create r d.messages)

unfoldable pub enqueue : OutboundJob → ℕ → Action Desk ℕ
enqueue job now d = let (id, jobs) = create_job job now d.jobs in (ok id, record d { jobs = jobs })

-- `base64.b64decode(..., validate=True)`; `none` for its `binascii.Error`.
abbrev decoded : Option Bytes → Result Exception Bytes
decoded none = err (http 400 (codes "invalid payload_base64"))
decoded (some payload) = ok payload

abbrev known : Text → Option PartnerConfig → Result Exception PartnerConfig
known name none = err (http 404 (codes "unknown partner " ++ name))
known name (some partner) = ok partner

unfoldable pub trigger_send : Config → (Text → Option Bytes) → SendRequest → ℕ → Action Desk ℕ
trigger_send c b64decode body now = do
  partner ←
      lift (known (c.outside.py.repr body.partner_name) (get_by_name c.partners body.partner_name))
  payload ← lift (decoded (b64decode body.payload_base64))
  recipient ← lift (or_key_error partner.name (lookup partner.name c.fingerprints))
  signer ← lift (or_key_error (codes "_self") (lookup (codes "_self") c.fingerprints))
  secret ← lift (passphrase c.outside.environ c.settings)
  encrypted ← lift (encrypt_and_sign c.outside.gnupg payload recipient signer secret)
  let content_digest = c.outside.sha256_hexdigest encrypted
  message_id ← create_message (sent_record body partner content_digest)
  enqueue (job_for c body partner encrypted content_digest message_id) now

abbrev status_of : Option OutboundJob → Result Exception JobStatusResponse
status_of none = err (http 404 (codes "unknown job"))
status_of (some job) = ok (record {
  job_id = job.id;
  status = job.status;
  attempt_count = job.attempt_count;
  last_error_code = job.last_error_code;
  last_error_description = job.last_error_description;
  receipt_trans_id = job.receipt_trans_id;
  receipt_server_id = job.receipt_server_id;
  receipt_time_c = job.receipt_time_c;
})

unfoldable pub get_job_status : ℕ → Jobs → Result Exception JobStatusResponse
get_job_status id jobs = status_of (get id jobs)
