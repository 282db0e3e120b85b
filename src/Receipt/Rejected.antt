-- ===== src/Receipt/Rejected.antt =====
-- The receipts that the gateway builds, as a partner reads them.
use naesb_edi.Base.{
  ℕ, ◌≡◌, refl, ◌∙◌, ap, true, false, Option, none, some, [], ◌∷◌, ◌++◌, Text, codes, has, all,
  strip, lstrip_of, rstrip_of, is_space, truthy, arith, equal, ok, Python, IsPython, partition,
  decimal, Bool-cases, inl, inr,
}
use naesb_edi.Base.Line.{IsLine, IsLine-append, decimal-IsLine}
use naesb_edi.Base.StringLaws.{rstrip_of-append, partition-append, strip-decimal}
use naesb_edi.Base.Utf8.{is_scalar}
use naesb_edi.ErrorCodes.{
  NaesbErrorCode, GatewayExtensionCode, ErrorCode, naesb, gateway, missing_from, duplicate_digest,
  value,
}
use naesb_edi.ErrorCodes.Printable.{value-IsLine, describe-IsLine}
use naesb_edi.Mime.Param.{IsToken}
use naesb_edi.Receipt.{
  NaesbReceipt, is_ok, sanitize_receipt_text, description_or_default, receipt_rejected, receipt_ok,
  encode_report_part, decode_report_part,
}
use naesb_edi.Receipt.RoundTrip.{IsReadable, decode-encode_report_part}

-- The description is made to stay on its line, whatever the text was.
pub sanitize-IsLine : (s : Text) → all is_scalar s ≡ true → IsLine (sanitize_receipt_text s)
unfolding sanitize_receipt_text has is_scalar
sanitize-IsLine [] h = record { unstarred = refl; no_cr = refl; no_lf = refl; scalar = refl }
sanitize-IsLine (c ∷ s) h =
    let ih = sanitize-IsLine s (ground arith) in
    record {
      unstarred = ground (arith, ih.unstarred);
      no_cr = ground (arith, ih.no_cr);
      no_lf = ground (arith, ih.no_lf);
      scalar = ground (arith, ih.scalar);
    }

abbrev pub IsScalarOption : Option Text → Type 0
IsScalarOption none = Unit {0}
IsScalarOption (some d) = all is_scalar d ≡ true

pub description-IsLine :
    (code : ErrorCode) (d : Option Text) → IsScalarOption d → IsLine (description_or_default code d)
unfolding description_or_default
description-IsLine code none h = describe-IsLine code
description-IsLine code (some d) h = elim (Bool-cases (truthy (sanitize_receipt_text d))) [
  | inl full ↦ rw full (sanitize-IsLine d h)
  | inr empty ↦ rw empty (describe-IsLine code)
]

strip-naesb :
    (c : NaesbErrorCode) (v : Text)
    → strip (value (naesb c) ++ b':' ∷ v) ≡ value (naesb c) ++ b':' ∷ rstrip_of is_space v
unfolding strip lstrip_of value
strip-naesb missing_from v = rstrip_of-append is_space (value (naesb missing_from)) b':' v refl
strip-naesb c v = rstrip_of-append is_space (value (naesb c)) b':' v refl

strip-gateway :
    (c : GatewayExtensionCode) (v : Text)
    → strip (value (gateway c) ++ b':' ∷ v) ≡ value (gateway c) ++ b':' ∷ rstrip_of is_space v
unfolding strip lstrip_of value
strip-gateway duplicate_digest v =
    rstrip_of-append is_space (value (gateway duplicate_digest)) b':' v refl
strip-gateway c v = rstrip_of-append is_space (value (gateway c)) b':' v refl

strip-value :
    (c : ErrorCode) (v : Text)
    → strip (value c ++ b':' ∷ v) ≡ value c ++ b':' ∷ rstrip_of is_space v
strip-value (naesb c) v = strip-naesb c v
strip-value (gateway c) v = strip-gateway c v

no_colon_naesb : (c : NaesbErrorCode) → has b':' (value (naesb c)) ≡ false
unfolding has value
no_colon_naesb missing_from = refl
no_colon_naesb _ = refl

no_colon_gateway : (c : GatewayExtensionCode) → has b':' (value (gateway c)) ≡ false
unfolding has value
no_colon_gateway duplicate_digest = refl
no_colon_gateway _ = refl

no_colon : (c : ErrorCode) → has b':' (value c) ≡ false
no_colon (naesb c) = no_colon_naesb c
no_colon (gateway c) = no_colon_gateway c

not_ok_naesb : (c : NaesbErrorCode) (v : Text) → equal (value (naesb c) ++ v) (codes "ok") ≡ false
unfolding equal value
not_ok_naesb missing_from v = refl
not_ok_naesb _ v = refl

not_ok_gateway :
    (c : GatewayExtensionCode) (v : Text) → equal (value (gateway c) ++ v) (codes "ok") ≡ false
unfolding equal value
not_ok_gateway duplicate_digest v = refl
not_ok_gateway _ v = refl

not_ok : (c : ErrorCode) (v : Text) → equal (value c ++ v) (codes "ok") ≡ false
not_ok (naesb c) v = not_ok_naesb c v
not_ok (gateway c) v = not_ok_gateway c v

module _ (server_id time_c : Text) (hs : IsLine server_id) (ht : IsLine time_c) (n : ℕ) where
  ok-IsReadable : IsReadable (receipt_ok server_id n time_c)
  unfolding receipt_ok has is_scalar
  ok-IsReadable = record {
    time_c = ht;
    request_status = record { unstarred = refl; no_cr = refl; no_lf = refl; scalar = refl };
    server_id = hs;
    trans_id = decimal-IsLine n;
  }

  rejected-IsReadable :
      (code : ErrorCode) (d : Option Text)
      → IsScalarOption d
      → IsReadable (receipt_rejected server_id n code d time_c)
  unfolding receipt_rejected has is_scalar
  rejected-IsReadable code d h = record {
    time_c = ht;
    request_status =
        IsLine-append (value code) (codes ": " ++ description_or_default code d) (value-IsLine code)
          (IsLine-append (codes ": ") (description_or_default code d)
            (record { unstarred = refl; no_cr = refl; no_lf = refl; scalar = refl })
            (description-IsLine code d h));
    server_id = hs;
    trans_id = decimal-IsLine n;
  }

strip-ok : strip (codes "ok") ≡ codes "ok"
unfolding strip
strip-ok = refl

-- What the sender makes of a receipt's status: whether it is `ok`, and the code in front of the colon.
pub record Reads (server_id time_c : Text) (n : ℕ) (r : NaesbReceipt) : Type 0 where
  pub server : r.server_id ≡ strip server_id
  pub time : r.time_c ≡ strip time_c
  pub trans : r.trans_id ≡ decimal n

module _ (py : Python) (law : IsPython py) (token : Text) (t : IsToken token)
    (server_id time_c : Text) (hs : IsLine server_id) (ht : IsLine time_c) (n : ℕ) where
  -- For every hexadecimal token, and a server's id and a time that stay on their lines, the receipt
  -- of an accepted transmission is read as accepted, with its number, its server and its time.
  pub decode_ok :
      (let (body, content_type) = encode_report_part token (receipt_ok server_id n time_c) in
        (r : NaesbReceipt) × (decode_report_part py body content_type ≡ ok r)
        × (is_ok r ≡ true)
        × Reads server_id time_c n r)
  unfolding is_ok receipt_ok
  decode_ok = (
    record {
      time_c = strip time_c;
      request_status = codes "ok";
      server_id = strip server_id;
      trans_id = decimal n;
    },
    decode-encode_report_part py law token t _ (ok-IsReadable server_id time_c hs ht n)
        ∙ rw (strip-ok, strip-decimal n),
    (unfold equal in refl),
    record { server = refl; time = refl; trans = refl },
  )

  -- For every hexadecimal token, and a server's id and a time that stay on their lines, the receipt
  -- of a rejected transmission is not read as accepted, and the code in front of its first colon is
  -- the code of the rejection, whatever characters other than surrogates the description holds.
  pub decode_rejected :
      (code : ErrorCode) (d : Option Text)
      → IsScalarOption d
      → (let (body, content_type) =
            encode_report_part token (receipt_rejected server_id n code d time_c) in
          (r : NaesbReceipt) × (decode_report_part py body content_type ≡ ok r)
          × (is_ok r ≡ false)
          × ((partition b':' r.request_status).0 ≡ value code)
          × Reads server_id time_c n r)
  unfolding is_ok receipt_rejected
  decode_rejected code d h = (
    record {
      time_c = strip time_c;
      request_status =
          value code ++ b':' ∷ rstrip_of is_space (b' ' ∷ description_or_default code d);
      server_id = strip server_id;
      trans_id = decimal n;
    },
    decode-encode_report_part py law token t _
          (rejected-IsReadable server_id time_c hs ht n code d h)
        ∙ rw (strip-value code (b' ' ∷ description_or_default code d), strip-decimal n),
    not_ok code _,
    ap (λ (p : Text × Text). p.0) (partition-append b':' (value code) _ (no_colon code)),
    record { server = refl; time = refl; trans = refl },
  )
