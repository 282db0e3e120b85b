-- ===== src/Inbound/Answered.antt =====
-- app/inbound/routes.py: the answer of the whole handler to an authenticated partner.
use naesb_edi.Base.{
  ℕ, ◌≡◌, inl, inr, ◌<◌, Option, none, some, List, [], ◌∷◌, ◌++◌, Text, Bytes, Result, ok, err, ◌⊎◌,
  suc, false, all, decimal, refl, All, Bool-cases, Result-cases, ◌==◌, arith,
}
use naesb_edi.Auth.{authenticate_inbound}
use naesb_edi.Effects.{Action, ◌>>=◌}
use naesb_edi.ErrorCodes.{ErrorCode}
use naesb_edi.Exceptions.{Exception}
use naesb_edi.Fields.{EnvelopeFields}
use naesb_edi.Gateway.{App, World, Response}
use naesb_edi.Inbound.{
  parse_refusal, check_envelope, Request, Context, reject, message_record, is_known, check_header,
  check_body,
}
use naesb_edi.Inbound.Answer.{receipt_rejected-number, process_safely-settles}
use naesb_edi.Inbound.Signing.{CanSign, IsReceipt, signed_receipt-answers, signed_receipt-raises}
use naesb_edi.Inbound.Receive.{
  parse_form, draw_trans_id, insert_message, on_inserted, accept, on_checked, on_parsed,
  receive_from, receive,
}
use naesb_edi.Partners.{PartnerConfig, PartnerRegistry}
use naesb_edi.Receipt.{unicode_encode_error}
use naesb_edi.Receipt.Encodable.{rejected-can_encode, rejected-not_encoded}
use naesb_edi.Receipt.Rejected.{IsScalarOption}
use naesb_edi.Base.Utf8.{is_scalar}
use naesb_edi.Tracking.{MessageRecord, Messages, Row, create, find_row, next_trans_id}
use naesb_edi.Tracking.Unique.{IsSound, create-eq-ok}

-- A new row is the one under its id.
find_row-snoc :
    (rows : List Row) (n : ℕ) (r : MessageRecord)
    → All (λ row. row.id < n) rows
    → find_row n (rows ++ record { id = n; record_of = r } ∷ []) ≡ some r
unfolding find_row
find_row-snoc [] n r h = ground arith
find_row-snoc (row ∷ rows) n r h =
    let miss : row.id == n ≡ false = ground arith in rw miss (find_row-snoc rows n r h.1)

-- Why the envelope is refused, and with what text: the form's parsing failed, or its checks.
abbrev pub refusal_of :
    App
    → PartnerConfig
    → Result Exception (EnvelopeFields × Bytes)
    → Option (ErrorCode × Option Text)
refusal_of app partner (ok (fields, ciphertext)) = check_envelope app partner fields
refusal_of app partner (err e) = some (parse_refusal app e)

module _ (app : App) (s : CanSign app) where
  -- The action returns a signed receipt with the transmission's number.
  abbrev pub Answers : ℕ → Action World Response → World → Type 0
  Answers trans_id m w =
      (r : Response) × (w' : World) × (m w ≡ (ok r, w')) × IsReceipt app (decimal trans_id) r w'

  -- A refusal has a text with a lone surrogate: its encoding raises, and the table stays.
  abbrev pub Raises : Option (ErrorCode × Option Text) → Action World Response → World → Type 0
  Raises refusal m w =
      (code : ErrorCode) × (message : Text) × (w' : World) × (refusal ≡ some (code, some message))
      × (all is_scalar message ≡ false)
      × (m w ≡ (err unicode_encode_error, w'))
      × (w'.messages ≡ w.messages)

  reject-Answers :
      (ctx : Context) (code : ErrorCode) (message : Option Text) (w : World)
      → IsScalarOption message
      → Answers ctx.trans_id (reject app ctx code message) w
  unfolding reject
  reject-Answers ctx code message w scalar =
      let (r, e, c) = signed_receipt-answers app s _ w (
        rejected-can_encode app.settings.envelope.server_id (app.outside.strftime ctx.received_at)
          s.server_scalar (s.time_scalar ctx.received_at) ctx.trans_id code message scalar) in
      (
        r,
        _,
        e,
        record {
          receipt = _;
          before = w;
          signed = e;
          numbered = receipt_rejected-number _ ctx.trans_id code message _;
          status = c;
        },
      )

  refusal-Answers :
      (ctx : Context) (code : ErrorCode) (message : Option Text) (w : World)
      → Answers ctx.trans_id (reject app ctx code message) w
        ⊎ Raises (some (code, message)) (reject app ctx code message) w
  unfolding reject
  refusal-Answers ctx code none w = inl (reject-Answers ctx code none w tt)
  refusal-Answers ctx code (some message) w = elim (Bool-cases (all is_scalar message)) [
    | inl plain ↦ inl (reject-Answers ctx code (some message) w plain)
    | inr bad ↦ inr (
      code,
      message,
      _,
      refl,
      bad,
      signed_receipt-raises app _ w (
          rejected-not_encoded app.settings.envelope.server_id
            (app.outside.strftime ctx.received_at) s.server_scalar (s.time_scalar ctx.received_at)
            ctx.trans_id code message bad),
      refl,
    )
  ]

  module _ (others : Messages → Messages)
      (others-keep : (m : Messages) → IsSound m → IsSound (others m)) (req : Request) where
    module _ (ctx : Context) where
      new-Answers :
          (fields : EnvelopeFields) (content_digest : Text) (ciphertext : Bytes) (w : World)
          → IsSound w.messages
          → Answers ctx.trans_id
              (insert_message (message_record req ctx fields content_digest)
                >>= on_inserted app ctx fields content_digest ciphertext)
              w
      unfolding insert_message
      new-Answers fields content_digest ciphertext w sound =
          let r = message_record req ctx fields content_digest in
          elim (Result-cases (create r w.messages)) [
            | inr (v, e) ↦ rw e (reject-Answers ctx _ none w tt)
            | inl ((id, m), e) ↦
                let (free, same_id, same_m) = create-eq-ok r w.messages e in
                let w' : World = record w { messages = m } in
                let h : find_row id m.rows ≡ some r =
                  rw (same_id, same_m)
                    (find_row-snoc w.messages.rows w.messages.next_id r sound.ids_below) in
                let (a, x, row, q, c, f, p) =
                  process_safely-settles app s ctx id fields content_digest ciphertext w' r h in
                rw e (a, x, q, c)
          ]

      accept-Answers :
          (fields : EnvelopeFields) (ciphertext : Bytes) (w : World)
          → IsSound w.messages
          → Answers ctx.trans_id (accept app others req ctx fields ciphertext) w
      unfolding accept
      accept-Answers fields ciphertext w sound =
          let content_digest = app.outside.sha256_hexdigest ciphertext in
          elim (Bool-cases (is_known ctx.partner fields content_digest w.messages)) [
            | inl known ↦ rw known (reject-Answers ctx _ none w tt)
            | inr new ↦ rw new (
                new-Answers fields content_digest ciphertext
                  (record w { messages = others w.messages }) (others-keep w.messages sound))
          ]

      on_checked-Answers :
          (fields : EnvelopeFields) (ciphertext : Bytes)
          (refusal : Option (ErrorCode × Option Text)) (w : World)
          → IsSound w.messages
          → Answers ctx.trans_id (on_checked app others req ctx fields ciphertext refusal) w
            ⊎ Raises refusal (on_checked app others req ctx fields ciphertext refusal) w
      on_checked-Answers fields ciphertext (some (code, message)) w sound =
          refusal-Answers ctx code message w
      on_checked-Answers fields ciphertext none w sound =
          inl (accept-Answers fields ciphertext w sound)

      on_parsed-Answers :
          (parsed : Result Exception (EnvelopeFields × Bytes)) (w : World)
          → IsSound w.messages
          → Answers ctx.trans_id (on_parsed app others req ctx parsed) w
            ⊎ Raises (refusal_of app ctx.partner parsed) (on_parsed app others req ctx parsed) w
      on_parsed-Answers (ok (fields, ciphertext)) w sound =
          on_checked-Answers fields ciphertext _ w sound
      on_parsed-Answers (err e) w sound = refusal-Answers ctx _ _ w

    -- On a sound table, a gateway that can sign, and whose own texts hold no surrogates, answers
    -- every request of an authenticated partner whose body is within the limit with a signed
    -- receipt of status 200 that carries the number drawn for it, whatever the form, the
    -- decryption, the policy and the sinks return or raise, if what others do meanwhile leaves the
    -- table sound. The one exception is a form that is refused, by its parsing or by the checks of
    -- its envelope, with a text that holds a lone surrogate: its receipt cannot be encoded, so
    -- that the route raises a `UnicodeEncodeError`, and of the table only the supply of numbers
    -- has changed.
    pub receive-Answers :
        (partners : PartnerRegistry) (partner : PartnerConfig) (w : World)
        → IsSound w.messages
        → check_header app.outside.py app.settings.server.max_body_size_bytes req.content_length
          ≡ ok tt
        → check_body app.settings.server.max_body_size_bytes req.body ≡ ok tt
        → authenticate_inbound app.outside.py app.outside.auth app.outside.environ req.authorization
            partners
          ≡ ok (some partner)
        → Answers w.messages.next_trans (receive app partners others req) w
          ⊎ ((code : ErrorCode) × (message : Text) × (w' : World) × (refusal_of app partner
                  (parse_form app req.form)
                ≡ some (code, some message))
              × (all is_scalar message ≡ false)
              × (receive app partners others req w ≡ (err unicode_encode_error, w'))
              × (w'.messages ≡ record w.messages { next_trans = suc w.messages.next_trans }))
    unfolding receive draw_trans_id next_trans_id receive_from
    receive-Answers partners partner w sound h b a =
        rw (h, b, a)
          (on_parsed-Answers
            (record {
              partner = partner;
              trans_id = w.messages.next_trans;
              received_at = req.received_at;
            })
            _ _ (record { unique = sound.unique; ids_below = sound.ids_below }))
