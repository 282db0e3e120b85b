-- ===== src/Exchange.antt =====
-- Two gateways: app/inbound/routes.py signs a receipt, and app/outbound/client.py of the other one
-- reads it from the response.
use naesb_edi.Base.{
  ℕ, suc, ◌≡◌, refl, sym, ap, ◌∙◌, true, false, some, ◌++◌, Text, Bytes, IsPython, ok, ok-injective,
  map_err, codes, all, is_ascii, has, strip, rstrip_of,
}
use naesb_edi.Crypto.Gpg.{VerifyResult, verify_detached}
use naesb_edi.Crypto.Policy.{enforce_digest_policy}
use naesb_edi.Fields.{EnvelopeFields}
use naesb_edi.Gateway.{Outside, App, World, Response, draw_token, signed_receipt}
use naesb_edi.Inbound.Signing.{CanSign}
use naesb_edi.Mime.{is_newline}
use naesb_edi.Mime.Param.{IsToken}
use naesb_edi.Multipart.{build_multipart_body, fields_scalar, multipart_body}
use naesb_edi.Outbound.{Http, auth_header, envelope_fields_from_job, read_receipt, send_once}
use naesb_edi.Partners.{PartnerConfig, partner_digests}
use naesb_edi.Receipt.{
  NaesbReceipt, encode_report_part, can_encode, encoded_report, build_signed_mime,
  parse_signed_mime,
}
use naesb_edi.Receipt.Encodable.{IsReadable-can_encode}
use naesb_edi.Receipt.Delivered.{parse-sent}
use naesb_edi.Receipt.RoundTrip.{IsReadable, decode-encode_report_part}
use naesb_edi.Receipt.Signed.{AvoidsSigned}
use naesb_edi.Settings.{Settings}
use naesb_edi.Tracking.Jobs.{OutboundJob}

-- What a sender decodes of a receipt: its fields without the blanks around them.
abbrev pub stripped : NaesbReceipt → NaesbReceipt
stripped r = record {
  time_c = strip r.time_c;
  request_status = strip r.request_status;
  server_id = strip r.server_id;
  trans_id = strip r.trans_id;
}

-- The answering gateway signs and draws hexadecimal tokens; GnuPG's signatures are armored, so that
-- no line of one begins with a boundary, and its digest's name is one word of ASCII.
pub record Answers (app : App) : Type 0 where
  pub signer : CanSign app
  pub tokens : (n : ℕ) → IsToken (app.outside.token_hex n)
  pub armored :
      (body : Bytes) (n : ℕ)
      → AvoidsSigned (app.outside.token_hex n) (rstrip_of is_newline (signer.signs body).0)
  pub digest_ascii : all is_ascii (app.outside.py.lower app.settings.crypto.digest_algo) ≡ true
  pub digest_word : has b';' (app.outside.py.lower app.settings.crypto.digest_algo) ≡ false

-- The sending gateway's GnuPG finds these signatures good, under an allowed digest; they are verified
-- without the line ends behind them.
pub record Trusts (app : App) (signer : CanSign app) (outside : Outside) (settings : Settings)
    (partner : PartnerConfig) (fingerprint : Text) : Type 0 where
  pub verdict : Bytes → VerifyResult
  pub verified :
      (body : Bytes)
      → verify_detached outside.py outside.gnupg body
          (rstrip_of is_newline (signer.signs body).0)
          fingerprint
        ≡ ok (verdict body)
  pub valid : (body : Bytes) → (verdict body).valid ≡ true
  pub allowed :
      (body : Bytes)
      → enforce_digest_policy
          (verdict body).algo_info.hash_algo
          (partner_digests partner settings.crypto.allowed_digests)
        ≡ ok tt

module _ (app : App) (a : Answers app) (receipt : NaesbReceipt) (w : World) where
  abbrev report : Bytes × Text
  report = encode_report_part (app.outside.token_hex w.drawn) receipt

  abbrev micalg : Text
  micalg = codes "pgp-" ++ app.outside.py.lower app.settings.crypto.digest_algo

  abbrev sent : Bytes × Text
  sent =
      build_signed_mime (app.outside.token_hex (suc w.drawn)) report.0 report.1
        (a.signer.signs report.0).0 micalg

  abbrev pub response : Response
  response = record { status_code = 200; content = sent.0; media_type = sent.1 }

  signed_receipt-sent : can_encode receipt ≡ true → (signed_receipt app receipt w).0 ≡ ok response
  unfolding signed_receipt draw_token encoded_report
  signed_receipt-sent encodable =
      rw (encodable, a.signer.has_key, a.signer.has_passphrase, (a.signer.signs report.0).1) refl

  micalg-ascii : all is_ascii micalg ≡ true
  micalg-ascii = a.digest_ascii

  micalg-word : has b';' micalg ≡ false
  unfolding has
  micalg-word = a.digest_word

module _ (app : App) (a : Answers app) (receipt : NaesbReceipt) (readable : IsReadable receipt)
    (w : World) (outside : Outside) (law : IsPython outside.py) (settings : Settings)
    (partner : PartnerConfig) (fingerprint : Text)
    (trust : Trusts app a.signer outside settings partner fingerprint) where
  parse-response :
      parse_signed_mime outside.py
        (response app a receipt w).content
        (response app a receipt w).media_type
      ≡ ok (
        (report app a receipt w).0,
        (report app a receipt w).1,
        rstrip_of is_newline (a.signer.signs (report app a receipt w).0).0,
      )
  parse-response =
      parse-sent outside.py law (app.outside.token_hex w.drawn)
        (app.outside.token_hex (suc w.drawn)) (a.tokens w.drawn) (a.tokens (suc w.drawn)) receipt
        readable (a.signer.signs (report app a receipt w).0).0 (micalg app a receipt w)
        (micalg-ascii app a receipt w) (micalg-word app a receipt w)
        (a.armored (report app a receipt w).0 (suc w.drawn))

  read_receipt-report :
      read_receipt outside settings partner fingerprint (
        (report app a receipt w).0,
        (report app a receipt w).1,
        rstrip_of is_newline (a.signer.signs (report app a receipt w).0).0,
      )
      ≡ ok (stripped receipt)
  unfolding read_receipt
  read_receipt-report =
      rw
        (
          trust.verified (report app a receipt w).0,
          trust.valid (report app a receipt w).0,
          trust.allowed (report app a receipt w).0,
        )
        (ap (map_err _) (
          decode-encode_report_part outside.py law (app.outside.token_hex w.drawn)
            (a.tokens w.drawn) receipt readable))

  -- One gateway's attempt to deliver a job returns the receipt that the other one signed, with the
  -- blanks around its fields stripped: if the job's fields are valid and hold no surrogates, the
  -- credentials are set, the
  -- transport hands over the signed response as it was sent, the sender trusts the signatures of the
  -- answering gateway, and the receipt's fields stay on their lines.
  pub send_once-signed_receipt :
      (http : Http) (token inner_token : Text) (job : OutboundJob) (fields : EnvelopeFields)
      (authorization : Text) (r : Response)
      → (signed_receipt app receipt w).0 ≡ ok r
      → envelope_fields_from_job outside job settings ≡ ok fields
      → fields_scalar fields ≡ true
      → auth_header http outside.environ partner.outbound_auth ≡ ok authorization
      → http.post partner.endpoint_url
          (build_multipart_body token inner_token fields job.payload_ciphertext
            (codes "payload.pgp")).1
          authorization
          (build_multipart_body token inner_token fields job.payload_ciphertext
            (codes "payload.pgp")).0
        ≡ ok (ok (record { content = r.content; content_type = some r.media_type }))
      → send_once outside http token inner_token job partner settings fingerprint
        ≡ ok (stripped receipt)
  unfolding send_once multipart_body
  send_once-signed_receipt http token inner_token job fields authorization r answered built
        encodable authorised carried =
      let same : r ≡ response app a receipt w = ok-injective (
        sym answered
        ∙ signed_receipt-sent app a receipt w (IsReadable-can_encode receipt readable)) in
      let content = ap (λ (x : Response). x.content) same in
      let kind = ap (λ (x : Response). x.media_type) same in
      rw (built, encodable, authorised, carried, content, kind)
        (rw parse-response read_receipt-report)
