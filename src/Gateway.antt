-- ===== src/Gateway.antt =====
-- What the inbound route and the worker call outside the repository, and the receipt that the
-- route signs (`_signed_receipt` of app/inbound/routes.py).
use naesb_edi.Base.{
  ℕ, suc, Option, none, some, List, ◌++◌, Text, Bytes, Python, Result, ok, err, codes,
}
use naesb_edi.Base.Dict.{Dict, lookup}
use naesb_edi.Auth.{AuthEnv}
use naesb_edi.Crypto.Gpg.{Gnupg, detached_sign}
use naesb_edi.Effects.{Action, pure, lift, ◌>>=◌}
use naesb_edi.Exceptions.{Exception, Weakness, key_error}
use naesb_edi.Fields.{Fault}
use naesb_edi.Receipt.{NaesbReceipt, encoded_report, build_signed_mime}
use naesb_edi.Settings.{Environ, Settings, passphrase}
use naesb_edi.Sinks.{InboundMessage, Sink}
use naesb_edi.Tracking.{Messages}

pub record Outside : Type 0 where
  pub py : Python
  pub gnupg : Gnupg
  pub auth : AuthEnv
  pub environ : Environ
  -- `hashlib.sha256(b).hexdigest()`
  pub sha256_hexdigest : Bytes → Text
  -- the draws of `secrets.token_hex(16)`, in order
  pub token_hex : ℕ → Text
  -- `strftime(TIME_C_FORMAT)`
  pub strftime : ℕ → Text
  -- pydantic's text of a `ValidationError`
  pub print_faults : List Fault → Text
  -- `str(exc)` of a `WeakAlgorithmError`, which prints a set, and of any other exception
  pub weakness_text : Weakness → Text
  pub exception_text : Exception → Text

-- What `app.state` holds besides the tracker.
pub record App : Type 0 where
  pub outside : Outside
  pub settings : Settings
  pub fingerprints : Dict Text
  pub sinks : List Sink

-- The tracker's table, what was handed to the sinks, and the tokens drawn so far.
pub record World : Type 0 where
  pub messages : Messages
  pub deliveries : List InboundMessage
  pub drawn : ℕ

pub record Response : Type 0 where
  pub status_code : ℕ
  pub content : Bytes
  pub media_type : Text

unfoldable pub draw_token : App → Action World Text
draw_token app w = (ok (app.outside.token_hex w.drawn), record w { drawn = suc w.drawn })

abbrev pub or_key_error : Text → Option Text → Result Exception Text
or_key_error key none = err (key_error key)
or_key_error key (some v) = ok v

unfoldable pub signed_receipt : App → NaesbReceipt → Action World Response
unfolding draw_token encoded_report
signed_receipt app receipt = do
  token ← draw_token app
  (report_body, report_content_type) ← lift (encoded_report token receipt)
  own_fingerprint ← lift (or_key_error (codes "_self") (lookup (codes "_self") app.fingerprints))
  secret ← lift (passphrase app.outside.environ app.settings)
  signature ← lift (detached_sign app.outside.gnupg report_body own_fingerprint secret)
  signed_token ← draw_token app
  let micalg = codes "pgp-" ++ app.outside.py.lower app.settings.crypto.digest_algo
  let (signed_body, content_type) =
      build_signed_mime signed_token report_body report_content_type signature micalg
  pure (record { status_code = 200; content = signed_body; media_type = content_type })
