-- ===== src/Inbound/Receive.antt =====
-- `receive` of app/inbound/routes.py: the whole handler.
use naesb_edi.Base.{ℕ, Option, none, some, Text, Bytes, Result, ok, err, codes, if◌then◌else◌}
use naesb_edi.Auth.{authenticate_inbound}
use naesb_edi.Effects.{Action, raise, lift, ◌>>=◌, ◌>>◌}
use naesb_edi.ErrorCodes.{ErrorCode}
use naesb_edi.Exceptions.{Exception, http}
use naesb_edi.Fields.{EnvelopeFields}
use naesb_edi.Gateway.{App, World, Response}
use naesb_edi.Inbound.{
  Request, Context, check_header, check_body, reject, parse_refusal, check_envelope, is_known,
  duplicate_code, message_record, process_safely,
}
use naesb_edi.Multipart.{Form, parse_multipart_form}
use naesb_edi.Partners.{PartnerConfig, PartnerRegistry}
use naesb_edi.Tracking.{Messages, UniqueViolation, MessageRecord, next_trans_id, create}

unfoldable pub draw_trans_id : Action World ℕ
draw_trans_id w = let (n, m) = next_trans_id w.messages in (ok n, record w { messages = m })

abbrev pub parse_form : App → Result Exception Form → Result Exception (EnvelopeFields × Bytes)
parse_form app (ok form) = parse_multipart_form app.outside.py app.outside.print_faults form
parse_form app (err e) = err e

-- The insert: the new id, or `none` for a `UniqueViolation`.
abbrev pub inserted :
    World → Result UniqueViolation (ℕ × Messages) → Result Exception (Option ℕ) × World
inserted w (ok (id, m)) = (ok (some id), record w { messages = m })
inserted w (err _) = (ok none, w)

unfoldable pub insert_message : MessageRecord → Action World (Option ℕ)
insert_message r w = inserted w (create r w.messages)

abbrev pub on_inserted :
    App → Context → EnvelopeFields → Text → Bytes → Option ℕ → Action World Response
on_inserted app ctx fields content_digest ciphertext none =
    reject app ctx (duplicate_code ctx.partner fields) none
on_inserted app ctx fields content_digest ciphertext (some id) =
    process_safely app ctx id fields content_digest ciphertext

-- Steps 4 to 8, on a parsed and addressed transmission.
unfoldable pub accept :
    App → (Messages → Messages) → Request → Context → EnvelopeFields → Bytes → Action World Response
accept app others req ctx fields ciphertext w =
    let content_digest = app.outside.sha256_hexdigest ciphertext in
    if is_known ctx.partner fields content_digest w.messages
    then reject app ctx (duplicate_code ctx.partner fields) none w
    else (insert_message (message_record req ctx fields content_digest)
          >>= on_inserted app ctx fields content_digest ciphertext)
        (record w { messages = others w.messages })

abbrev pub on_checked :
    App
    → (Messages → Messages)
    → Request
    → Context
    → EnvelopeFields
    → Bytes
    → Option (ErrorCode × Option Text)
    → Action World Response
on_checked app others req ctx fields ciphertext (some (code, message)) = reject app ctx code message
on_checked app others req ctx fields ciphertext none = accept app others req ctx fields ciphertext

abbrev pub on_parsed :
    App
    → (Messages → Messages)
    → Request
    → Context
    → Result Exception (EnvelopeFields × Bytes)
    → Action World Response
on_parsed app others req ctx (ok (fields, ciphertext)) =
    on_checked app others req ctx fields ciphertext (check_envelope app ctx.partner fields)
on_parsed app others req ctx (err e) =
    let (code, message) = parse_refusal app e in reject app ctx code message

-- Steps 2 to 8, for an authenticated partner.
unfoldable pub receive_from :
    App → (Messages → Messages) → Request → Context → Action World Response
receive_from app others req ctx = on_parsed app others req ctx (parse_form app req.form)

abbrev pub on_authenticated :
    App → (Messages → Messages) → Request → Option PartnerConfig → Action World Response
on_authenticated app others req none = raise (http 401 (codes "unauthorized"))
on_authenticated app others req (some partner) = do
  trans_id ← draw_trans_id
  receive_from app others req
      (record { partner = partner; trans_id = trans_id; received_at = req.received_at })

unfoldable pub receive :
    App → PartnerRegistry → (Messages → Messages) → Request → Action World Response
receive app partners others req = do
  lift (check_header app.outside.py app.settings.server.max_body_size_bytes req.content_length)
  lift (check_body app.settings.server.max_body_size_bytes req.body)
  partner ← lift (
      authenticate_inbound app.outside.py app.outside.auth app.outside.environ req.authorization
        partners)
  on_authenticated app others req partner
