-- ===== src/Inbound/Answer.antt =====
-- app/inbound/routes.py: how a stored transmission ends, and with what answer.
use naesb_edi.Base.{
  ℕ, ◌≡◌, refl, ◌∙◌, ◌⊎◌, inl, inr, true, false, not, ◌&&◌, Option, none, some, [], ◌∷◌, ◌++◌, Text,
  Bytes, Result, ok, err, Result-cases, Bool-cases, decimal,
}
use naesb_edi.Crypto.Gpg.{DecryptResult, decrypt_and_verify}
use naesb_edi.Crypto.Policy.{enforce_policy}
use naesb_edi.Effects.{Action, ◌>>◌}
use naesb_edi.ErrorCodes.{
  ErrorCode, gateway, naesb, sink_failure, signature_not_matched, system_error,
}
use naesb_edi.Exceptions.{
  Exception, http, envelope_error, weak_algorithm, missing_env_var, gpg_error, delivery_attempt,
  unique_violation, key_error, value_error, other,
}
use naesb_edi.Fields.{EnvelopeFields}
use naesb_edi.Gateway.{App, World, Response, signed_receipt}
use naesb_edi.Inbound.{
  Context, sinks_status_of, on_policy, set_status, refuse, rejection, reject, deliver,
  check_payload, process, process_safely, signature_ok,
}
use naesb_edi.Partners.{partner_ciphers, partner_digests}
use naesb_edi.Receipt.{NaesbReceipt, can_encode, receipt_ok, receipt_rejected}
use naesb_edi.Receipt.Encodable.{ok-can_encode, rejected-can_encode}
use naesb_edi.Receipt.Rejected.{IsScalarOption}
use naesb_edi.Sinks.{InboundMessage, fan_out, has_durable_success}
use naesb_edi.Tracking.{
  to_status, rejected, accepted, MessageRecord, StatusUpdate, apply_status, update_status,
  update_sinks_status, find_row,
}
use naesb_edi.Inbound.Signing.{
  CanSign, IsReceipt, drawn_twice, find_row-update_rows, signed_receipt-answers,
}

-- A receipt has the number of its transmission.
pub receipt_rejected-number :
    (server_id : Text) (n : ℕ) (code : ErrorCode) (message : Option Text) (time_c : Text)
    → (receipt_rejected server_id n code message time_c).trans_id ≡ decimal n
unfolding receipt_rejected
receipt_rejected-number server_id n code message time_c = refl

receipt_ok-number :
    (server_id : Text) (n : ℕ) (time_c : Text)
    → (receipt_ok server_id n time_c).trans_id ≡ decimal n
unfolding receipt_ok
receipt_ok-number server_id n time_c = refl

module _ (app : App) (s : CanSign app) where
  -- The answer of an action, and how it leaves the row under an id.
  abbrev pub Ends : ℕ → ℕ → (MessageRecord → Type 0) → Action World Response → World → Type 0
  Ends trans_id id P m w =
      (r : Response) × (w' : World) × (row : MessageRecord) × (m w ≡ (ok r, w'))
      × IsReceipt app (decimal trans_id) r w'
      × (find_row id w'.messages.rows ≡ some row)
      × P row

  -- A status written and a receipt sent.
  update-Ends :
      (trans_id id : ℕ) (u : StatusUpdate) (receipt : NaesbReceipt) (P : MessageRecord → Type 0)
      (w : World) (row : MessageRecord)
      → can_encode receipt ≡ true
      → receipt.trans_id ≡ decimal trans_id
      → find_row id w.messages.rows ≡ some row
      → P (apply_status u row)
      → Ends trans_id id P (set_status id u >> signed_receipt app receipt) w
  unfolding update_status
  update-Ends trans_id id u receipt P w row encodable number h p =
      let w' : World = record w { messages = update_status id u w.messages } in
      let (r, e, c) = signed_receipt-answers app s receipt w' encodable in
      (
        r,
        drawn_twice w',
        apply_status u row,
        e,
        record { receipt = receipt; before = w'; signed = e; numbered = number; status = c },
        find_row-update_rows id (apply_status u) w.messages.rows h,
        p,
      )

module _ (app : App) (s : CanSign app) (ctx : Context) (id : ℕ) (fields : EnvelopeFields)
    (content_digest : Text) where
  abbrev message_of : DecryptResult → InboundMessage
  message_of r = record {
    partner_name = ctx.partner.name;
    content_digest = content_digest;
    envelope = fields;
    plaintext = r.plaintext;
    received_at = ctx.received_at;
  }

  -- What an accepted transmission has passed: the decryption, the signature where the partner
  -- requires one, the algorithm policy, and a durable sink where the configuration requires one.
  pub record IsPassed (r : DecryptResult) : Type 0 where
    pub decrypted : r.ok ≡ true
    pub signed : not (signature_ok app ctx r) && ctx.partner.require_signature ≡ false
    pub strong :
        enforce_policy r.algo_info
          (partner_ciphers ctx.partner app.settings.crypto.allowed_ciphers)
          (partner_digests ctx.partner app.settings.crypto.allowed_digests)
          ctx.partner.require_signature
        ≡ ok tt
    pub durable :
        app.settings.sinks.require_at_least_one_durable_success
          && not (has_durable_success app.sinks (fan_out app.sinks (message_of r)))
        ≡ false

  -- The row is rejected; or it is accepted, and the ciphertext decrypted to what passed.
  abbrev pub IsSettled : Bytes → MessageRecord → Type 0
  IsSettled ciphertext row =
      (row.status ≡ rejected)
      ⊎ ((row.status ≡ accepted)
          × (r : DecryptResult) × (decrypt_and_verify app.outside.py app.outside.gnupg ciphertext
                s.secret
              ≡ ok r)
          × IsPassed r)

module _ (app : App) (s : CanSign app) (ctx : Context) (id : ℕ) (fields : EnvelopeFields)
    (content_digest : Text) (ciphertext : Bytes) (w : World) (row : MessageRecord)
    (h : find_row id w.messages.rows ≡ some row) where
  abbrev pub IsDone : MessageRecord → Type 0
  IsDone = IsSettled app s ctx id fields content_digest ciphertext

  refuse-Ends :
      (code : ErrorCode) (message : Option Text)
      → IsScalarOption message
      → Ends app s ctx.trans_id id IsDone (refuse app ctx id code message) w
  unfolding reject
  refuse-Ends code message scalar =
      update-Ends app s ctx.trans_id id (rejection code) _ IsDone w row
        (rejected-can_encode _ _ s.server_scalar (s.time_scalar ctx.received_at) ctx.trans_id code
          message scalar)
        (receipt_rejected-number _ ctx.trans_id code message _) h (inl refl)

  deliver-Ends :
      (r : DecryptResult)
      → decrypt_and_verify app.outside.py app.outside.gnupg ciphertext s.secret ≡ ok r
      → r.ok ≡ true
      → not (signature_ok app ctx r) && ctx.partner.require_signature ≡ false
      → enforce_policy r.algo_info
          (partner_ciphers ctx.partner app.settings.crypto.allowed_ciphers)
          (partner_digests ctx.partner app.settings.crypto.allowed_digests)
          ctx.partner.require_signature
        ≡ ok tt
      → Ends app s ctx.trans_id id IsDone
          (deliver app ctx id
            (signature_ok app ctx r)
            (message_of app s ctx id fields content_digest r))
          w
  unfolding deliver reject update_sinks_status
  deliver-Ends r e d g p =
      let message = message_of app s ctx id fields content_digest r in
      let results = fan_out app.sinks message in
      let status = sinks_status_of results in
      let w1 : World = record w {
        deliveries = w.deliveries ++ message ∷ [];
        messages = update_sinks_status id status w.messages;
      } in
      let row1 : MessageRecord = record row { sinks_status = status } in
      let h1 =
        find_row-update_rows id (λ (x : MessageRecord). record x { sinks_status = status })
          w.messages.rows h in
      elim (Bool-cases (
        app.settings.sinks.require_at_least_one_durable_success
        && not (has_durable_success app.sinks results))) [
          | inl bad ↦ rw bad (
              update-Ends app s ctx.trans_id id (rejection (gateway sink_failure)) _ IsDone w1 row1
                (rejected-can_encode _ _ s.server_scalar (s.time_scalar ctx.received_at)
                  ctx.trans_id (gateway sink_failure) none tt)
                (receipt_rejected-number _ ctx.trans_id _ none _) h1 (inl refl))
          | inr good ↦ rw good (
              update-Ends app s ctx.trans_id id
                (record (to_status accepted) { receipt_verified = some (signature_ok app ctx r) }) _
                IsDone w1 row1
                (ok-can_encode _ _ s.server_scalar (s.time_scalar ctx.received_at) ctx.trans_id)
                (receipt_ok-number _ ctx.trans_id _) h1
                (inr
                  (refl, r, e, record { decrypted = d; signed = g; strong = p; durable = good })))
        ]

  -- The action ends the row, or it raises with the world as it was.
  abbrev pub EndsOrRaises : Action World Response → Type 0
  EndsOrRaises m = Ends app s ctx.trans_id id IsDone m w ⊎ ((e : Exception) × (m w ≡ (err e, w)))

  on_policy-Ends :
      (rest : Action World Response) (p : Result Exception (Unit {0}))
      → (p ≡ ok tt → Ends app s ctx.trans_id id IsDone rest w)
      → EndsOrRaises (on_policy app ctx id rest p)
  on_policy-Ends rest (ok tt) k = inl (k refl)
  on_policy-Ends rest (err (weak_algorithm x)) k = inl (refuse-Ends _ _ (s.weakness_scalar x))
  on_policy-Ends rest (err (http c d)) k = inr (_, refl)
  on_policy-Ends rest (err (envelope_error f p d)) k = inr (_, refl)
  on_policy-Ends rest (err (missing_env_var v)) k = inr (_, refl)
  on_policy-Ends rest (err gpg_error) k = inr (_, refl)
  on_policy-Ends rest (err (delivery_attempt t)) k = inr (_, refl)
  on_policy-Ends rest (err unique_violation) k = inr (_, refl)
  on_policy-Ends rest (err (key_error t)) k = inr (_, refl)
  on_policy-Ends rest (err (value_error t)) k = inr (_, refl)
  on_policy-Ends rest (err (other t)) k = inr (_, refl)

  check_payload-Ends :
      (r : DecryptResult)
      → decrypt_and_verify app.outside.py app.outside.gnupg ciphertext s.secret ≡ ok r
      → EndsOrRaises (check_payload app ctx id fields content_digest r)
  unfolding check_payload reject
  check_payload-Ends r e = elim (Bool-cases r.ok) [
    | inr bad ↦ rw bad (inl (refuse-Ends _ none tt))
    | inl good ↦ elim (Bool-cases (not (signature_ok app ctx r) && ctx.partner.require_signature)) [
      | inl unsigned ↦
          rw (good, unsigned)
            (inl (
              update-Ends app s ctx.trans_id id
                (record (rejection (naesb signature_not_matched)) { receipt_verified = some false })
                _ IsDone w row
                (rejected-can_encode _ _ s.server_scalar (s.time_scalar ctx.received_at)
                  ctx.trans_id (naesb signature_not_matched) none tt)
                (receipt_rejected-number _ ctx.trans_id _ none _) h (inl refl)))
      | inr signed ↦ rw (good, signed) (on_policy-Ends _ _ (deliver-Ends r e good signed))
    ]
  ]

  same-Ends : (m n : Action World Response) → m w ≡ n w → EndsOrRaises n → EndsOrRaises m
  same-Ends m n q (inl (r, w', row', e, c, f, p)) = inl (r, w', row', q ∙ e, c, f, p)
  same-Ends m n q (inr (x, e)) = inr (x, q ∙ e)

  process-Ends : EndsOrRaises (process app ctx id fields content_digest ciphertext)
  unfolding process
  process-Ends =
      elim (Result-cases
        (decrypt_and_verify app.outside.py app.outside.gnupg ciphertext s.secret)) [
          | inl (r, e) ↦
              same-Ends (process app ctx id fields content_digest ciphertext)
                (check_payload app ctx id fields content_digest r) (rw (s.has_passphrase, e) refl)
                (check_payload-Ends r e)
          | inr (x, e) ↦ rw (s.has_passphrase, e) (inr (x, refl))
        ]

  -- A gateway that can sign, and whose own texts hold no surrogates, answers every stored
  -- transmission with a signed receipt of status 200 that carries the transmission's number,
  -- whatever the decryption, the policy and the sinks return or raise, and leaves its row rejected
  -- or accepted; the row is accepted only if the ciphertext decrypted, the signature matched where
  -- the partner requires one, the algorithms were allowed, and a durable sink succeeded where one
  -- is required.
  pub process_safely-settles :
      Ends app s ctx.trans_id id IsDone
        (process_safely app ctx id fields content_digest ciphertext)
        w
  unfolding process_safely
  process_safely-settles = elim process-Ends [
    | inl (r, w', row', e, c, f, p) ↦ (r, w', row', rw e refl, c, f, p)
    | inr (x, e) ↦ rw e (refuse-Ends (naesb system_error) none tt)
  ]
