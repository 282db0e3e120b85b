-- ===== src/Tests/Exchange.antt =====
-- The gateway of the fixtures sends to one like itself.
use naesb_edi.Base.{
  ◌≡◌, refl, true, none, some, ok, codes, pos, Python, IsPython, ascii_python, contains,
  starts_with, rstrip_of, has, equal,
}
use naesb_edi.Base.Dict.{lookup}
use naesb_edi.Crypto.Gpg.{detached_sign, verify_detached}
use naesb_edi.Crypto.Policy.{parse_status, enforce_digest_policy, digest_algo_ids, ids_of}
use naesb_edi.Exchange.{Answers, Trusts, stripped, response, send_once-signed_receipt}
use naesb_edi.Fields.{input_format_of, envelope_fields}
use naesb_edi.Gateway.{Outside, signed_receipt}
use naesb_edi.Inbound.Signing.{CanSign}
use naesb_edi.Mime.{is_newline}
use naesb_edi.Outbound.{Http, send_once, envelope_fields_from_job, auth_header}
use naesb_edi.Multipart.{fields_scalar}
use naesb_edi.Partners.{partner_digests}
use naesb_edi.Receipt.{signed_boundary, encode_report_part}
use naesb_edi.Receipt.Apart.{encode_report_part-AvoidsSigned}
use naesb_edi.Receipt.Signed.{AvoidsSigned}
use naesb_edi.Receipt.RoundTrip.{IsReadable}
use naesb_edi.Settings.{passphrase, resolve_env}
use naesb_edi.Tracking.Jobs.{OutboundJob}
use naesb_edi.Tests.Fixtures.{outside, settings, partner, app, decrypted, world}
use naesb_edi.Tests.Jobs.{job}
use naesb_edi.Tests.Texts.{receipt, time-IsLine, server-IsLine}

-- The gateway signs as gpg of the fixtures does.
unfoldable signer : CanSign app
unfolding lookup equal passphrase resolve_env detached_sign naesb_edi.Base.Utf8.is_scalar
signer = record {
  own_fingerprint = codes "F0";
  secret = codes "key";
  has_key = refl;
  has_passphrase = refl;
  signs = λ body. (codes "sig", refl);
  server_scalar = refl;
  time_scalar = λ t. refl;
  weakness_scalar = λ x. refl;
}

unfoldable answers : Answers app
unfolding contains starts_with rstrip_of is_newline signed_boundary has signer
answers = record {
  signer = signer;
  tokens = λ n. refl;
  armored = λ body n. refl;
  digest_ascii = refl;
  digest_word = refl;
}

-- A sender whose `int` reads the number of SHA256 from the status line.
abbrev py : Python
py = record ascii_python { int_of = λ t. some (pos 8) }

py-IsPython : IsPython py
py-IsPython = record { is_digit-ascii = λ c h. refl; lower-ascii = λ s h. refl }

abbrev sender : Outside
sender = record outside { py = py }

trusts : Trusts app signer sender settings partner (codes "F1")
unfolding verify_detached parse_status enforce_digest_policy digest_algo_ids ids_of partner_digests
    lookup equal
trusts = record {
  verdict = λ body. record {
    valid = true;
    plaintext = body;
    signer_fingerprint = some (codes "F1");
    algo_info = parse_status py decrypted.stderr;
  };
  verified = λ body. refl;
  valid = λ body. refl;
  allowed = λ body. refl;
}

readable : IsReadable receipt
readable = record {
  time_c = time-IsLine;
  request_status = server-IsLine;
  server_id = server-IsLine;
  trans_id = server-IsLine;
}

abbrev due_job : OutboundJob
due_job = record job { transaction_set = none }

-- The transport hands the response over.
abbrev http : Http
unfolding answers
http = record {
  b64encode = λ t. t;
  post = λ url content_type authorization body. ok (
      ok (record {
        content = (response app answers receipt world).content;
        content_type = some (response app answers receipt world).media_type;
      }));
}

send_once-signed_receipt_example :
    send_once sender http (codes "ab") (codes "ab") due_job partner settings (codes "F1")
    ≡ ok (stripped receipt)
unfolding fields_scalar naesb_edi.Base.Utf8.is_scalar envelope_fields_from_job auth_header answers
    signer signed_receipt input_format_of envelope_fields equal resolve_env
    naesb_edi.Duns.normalize_duns
send_once-signed_receipt_example =
    send_once-signed_receipt app answers receipt readable world sender py-IsPython settings partner
      (codes "F1") trusts http (codes "ab") (codes "ab") due_job _ _
      (response app answers receipt world) refl refl refl refl refl

encode_report_part-AvoidsSigned_example :
    AvoidsSigned (codes "cd") (encode_report_part (codes "ab") receipt).0
encode_report_part-AvoidsSigned_example =
    encode_report_part-AvoidsSigned (codes "ab") (codes "cd") refl receipt readable
