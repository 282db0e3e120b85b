-- ===== src/Receipt/Encodable.antt =====
-- app/envelope/receipt.py: which receipts can be encoded.
use naesb_edi.Base.{
  ℕ, ◌≡◌, refl, ◌∙◌, Bool, true, false, ◌&&◌, Option, some, [], ◌∷◌, ◌++◌, Text, all, all-append,
  codes, truthy, arith,
}
use naesb_edi.Base.Line.{decimal-IsLine}
use naesb_edi.Base.Utf8.{is_scalar}
use naesb_edi.ErrorCodes.{ErrorCode, value}
use naesb_edi.ErrorCodes.Printable.{value-IsLine}
use naesb_edi.Receipt.{
  NaesbReceipt, sanitize_receipt_text, description_or_default, receipt_ok, receipt_rejected,
  can_encode,
}
use naesb_edi.Receipt.Rejected.{IsScalarOption, description-IsLine}
use naesb_edi.Receipt.RoundTrip.{IsReadable}

pub IsReadable-can_encode : (r : NaesbReceipt) → IsReadable r → can_encode r ≡ true
unfolding can_encode
IsReadable-can_encode r h =
    rw (h.time_c.scalar, h.request_status.scalar, h.server_id.scalar, h.trans_id.scalar) refl

-- Sanitising neither brings nor takes a surrogate.
sanitize-scalar : (s : Text) → all is_scalar (sanitize_receipt_text s) ≡ all is_scalar s
unfolding sanitize_receipt_text is_scalar
sanitize-scalar [] = refl
sanitize-scalar (c ∷ s) = ground (arith, sanitize-scalar s)

full : (s : Text) → all is_scalar s ≡ false → truthy s ≡ true
full [] h = absurd (ground arith)
full (c ∷ s) h = refl

last_false : (a b : Bool) → b ≡ false → (a && b) ≡ false
last_false true b h = h
last_false false b h = refl

module _ (server_id time_c : Text) (hs : all is_scalar server_id ≡ true)
    (ht : all is_scalar time_c ≡ true) (n : ℕ) where
  pub ok-can_encode : can_encode (receipt_ok server_id n time_c) ≡ true
  unfolding can_encode receipt_ok is_scalar
  ok-can_encode = rw (hs, ht, (decimal-IsLine n).scalar) refl

  status-scalar :
      (code : ErrorCode) (d : Text)
      → all is_scalar (value code ++ (codes ": " ++ d)) ≡ all is_scalar d
  unfolding is_scalar
  status-scalar code d =
      all-append is_scalar (value code) (codes ": " ++ d) ∙ rw (value-IsLine code).scalar refl

  pub rejected-can_encode :
      (code : ErrorCode) (d : Option Text)
      → IsScalarOption d
      → can_encode (receipt_rejected server_id n code d time_c) ≡ true
  unfolding can_encode receipt_rejected
  rejected-can_encode code d h =
      rw
        (
          hs,
          ht,
          (decimal-IsLine n).scalar,
          status-scalar code (description_or_default code d),
          (description-IsLine code d h).scalar,
        )
        refl

  -- A description with a surrogate is not encoded.
  pub rejected-not_encoded :
      (code : ErrorCode) (d : Text)
      → all is_scalar d ≡ false
      → can_encode (receipt_rejected server_id n code (some d) time_c) ≡ false
  unfolding can_encode receipt_rejected description_or_default
  rejected-not_encoded code d h =
      let bad : all is_scalar (sanitize_receipt_text d) ≡ false = sanitize-scalar d ∙ h in
      rw (ht, full (sanitize_receipt_text d) bad, status-scalar code (sanitize_receipt_text d), bad)
        refl
