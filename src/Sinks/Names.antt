-- ===== src/Sinks/Names.antt =====
-- app/sinks/filesystem_sink.py and app/sinks/s3_sink.py: the name of the file, or of the object below
-- the partner's prefix.
use naesb_edi.Base.{
  ℕ, zero, suc, ◌≡◌, refl, ◌∙◌, inl, inr, true, false, Option, none, some, [], ◌∷◌, ◌++◌, Text,
  codes, all, has, take, arith,
}
use naesb_edi.Base.StringLaws.{has-append}
use naesb_edi.Fields.{matches_transaction_set, is_set_char, none_or}
use naesb_edi.Fields.Valid.{matches_transaction_set_lem}
use naesb_edi.Partners.{or_default}
use naesb_edi.Sinks.{InboundMessage}
use naesb_edi.Sinks.Backends.{BackendEnv, filename}

has-take : (c n : ℕ) (a : Text) → has c a ≡ false → has c (take n a) ≡ false
unfolding has
has-take c zero a h = refl
has-take c (suc n) [] h = refl
has-take c (suc n) (x ∷ a) h = ground (arith, has-take c n a)

no_slash-set : (w : Text) → all is_set_char w ≡ true → has b'/' w ≡ false
unfolding has is_set_char
no_slash-set [] h = refl
no_slash-set (x ∷ w) h = ground (arith, no_slash-set w)

no_slash : (w : Text) → matches_transaction_set w ≡ true → has b'/' w ≡ false
unfolding has
no_slash v h =
    let (w, len, safe, shape) = matches_transaction_set_lem v h in
    elim shape [
      | inl same ↦ rw same (no_slash-set w safe)
      | inr longer ↦ rw longer (has-append b'/' w (10 ∷ []) ∙ rw (no_slash-set w safe) refl)
    ]

set_or-no_slash :
    (o : Option Text)
    → none_or matches_transaction_set o ≡ true
    → has b'/' (or_default o (codes "unspecified")) ≡ false
unfolding has
set_or-no_slash none h = refl
set_or-no_slash (some []) h = refl
set_or-no_slash (some (x ∷ w)) h = no_slash (x ∷ w) h

joined : (c : ℕ) (a b : Text) → has c a ≡ false → has c b ≡ false → has c (a ++ b) ≡ false
joined c a b h k = has-append c a b ∙ rw (h, k) refl

-- The name of a message's file has no slash, so that the file stands in the partner's directory: for a
-- transaction set that is absent or passes its check, and where the time's and the digest's text
-- have no slash.
pub filename-no_slash :
    (env : BackendEnv) (message : InboundMessage)
    → has b'/' (env.strftime message.received_at) ≡ false
    → has b'/' message.content_digest ≡ false
    → none_or matches_transaction_set message.envelope.transaction_set ≡ true
    → has b'/' (filename env message) ≡ false
unfolding filename has
filename-no_slash env message t d m =
    let set_text = or_default message.envelope.transaction_set (codes "unspecified") in
    let digest = take 16 message.content_digest in
    let end_text = codes "_" ++ (set_text ++ codes ".edi") in
    let ended = joined b'/' (codes "_") (set_text ++ codes ".edi") refl (
      joined b'/' set_text (codes ".edi") (set_or-no_slash message.envelope.transaction_set m)
        refl) in
    joined b'/' (env.strftime message.received_at) (codes "_" ++ (digest ++ end_text)) t (
      joined b'/' (codes "_") (digest ++ end_text) refl
        (joined b'/' digest end_text (has-take b'/' 16 message.content_digest d) ended))
