-- ===== src/Inbound/Signing.antt =====
-- app/inbound/routes.py: the signed receipt that a gateway with its key and passphrase answers with.
use naesb_edi.Base.{
  ℕ, suc, ◌≡◌, refl, inl, inr, some, List, [], ◌∷◌, Text, Bytes, ◌==◌, true, false, all, ok, err,
  codes, arith, Bool-cases,
}
use naesb_edi.Base.Dict.{lookup}
use naesb_edi.Base.Utf8.{is_scalar}
use naesb_edi.Crypto.Gpg.{detached_sign}
use naesb_edi.Exceptions.{Weakness}
use naesb_edi.Gateway.{App, World, Response, draw_token, signed_receipt}
use naesb_edi.Receipt.{
  NaesbReceipt, encode_report_part, can_encode, encoded_report, unicode_encode_error,
}
use naesb_edi.Settings.{passphrase}
use naesb_edi.Tracking.{MessageRecord, Row, update_rows, find_row}

-- The gateway holds its own key and passphrase, and gpg signs with them; its id, its times and the texts
-- of its own policy's errors hold no surrogates.
pub record CanSign (app : App) : Type 0 where
  pub own_fingerprint : Text
  pub secret : Text
  pub has_key : lookup (codes "_self") app.fingerprints ≡ some own_fingerprint
  pub has_passphrase : passphrase app.outside.environ app.settings ≡ ok secret
  pub signs :
      (body : Bytes)
      → (signature : Bytes) × (detached_sign app.outside.gnupg body own_fingerprint secret
          ≡ ok signature)
  pub server_scalar : all is_scalar app.settings.envelope.server_id ≡ true
  pub time_scalar : (t : ℕ) → all is_scalar (app.outside.strftime t) ≡ true
  pub weakness_scalar : (x : Weakness) → all is_scalar (app.outside.weakness_text x) ≡ true

-- Two tokens are drawn, and nothing else of the world changes.
abbrev pub drawn_twice : World → World
drawn_twice w = record w { drawn = suc (suc w.drawn) }

-- The response is that of a signed receipt with the transmission's number.
pub record IsReceipt (app : App) (trans_id : Text) (r : Response) (w : World) : Type 0 where
  pub receipt : NaesbReceipt
  pub before : World
  pub signed : signed_receipt app receipt before ≡ (ok r, w)
  pub numbered : receipt.trans_id ≡ trans_id
  pub status : r.status_code ≡ 200

pub signed_receipt-answers :
    (app : App)
    → CanSign app
    → (receipt : NaesbReceipt) (w : World) → can_encode receipt ≡ true
    → (r : Response) × (signed_receipt app receipt w ≡ (ok r, drawn_twice w))
      × (r.status_code ≡ 200)
unfolding signed_receipt draw_token encoded_report
signed_receipt-answers app s receipt w h =
    let body = (encode_report_part (app.outside.token_hex w.drawn) receipt).0 in
    rw (h, s.has_key, s.has_passphrase, (s.signs body).1) (_, refl, refl)

-- A receipt that cannot be encoded is not sent.
pub signed_receipt-raises :
    (app : App) (receipt : NaesbReceipt) (w : World)
    → can_encode receipt ≡ false
    → signed_receipt app receipt w ≡ (err unicode_encode_error, record w { drawn = suc w.drawn })
unfolding signed_receipt draw_token encoded_report
signed_receipt-raises app receipt w h = rw h refl

-- The row under an id, after a statement on that id.
pub find_row-update_rows :
    (id : ℕ) (f : MessageRecord → MessageRecord) (rows : List Row) {r : MessageRecord}
    → find_row id rows ≡ some r
    → find_row id (update_rows id f rows) ≡ some (f r)
unfolding find_row update_rows
find_row-update_rows id f [] h = absurd (ground arith)
find_row-update_rows id f (row ∷ rows) h = elim (Bool-cases (row.id == id)) [
  | inl hit ↦ rw hit (rw hit (ground arith))
  | inr miss ↦ rw miss (rw miss (find_row-update_rows id f rows (ground arith)))
]
