-- ===== src/Base/Line.antt =====
-- Texts that stay on one `key=value*` line of a receipt.
use naesb_edi.Base.{
  ℕ, zero, suc, ◌+◌, ◌/◌, ◌%◌, ◌≡◌, refl, true, false, [], ◌∷◌, ◌++◌, Text, has, all, all-append,
  arith, decimal, decimal_onto, ltb, Bool-cases, inl, inr,
}
use naesb_edi.Base.StringLaws.{has-append}
use naesb_edi.Base.Utf8.{is_scalar}

-- It holds no `*`, CR or LF, and no surrogate.
pub record IsLine (v : Text) : Type 0 where
  pub unstarred : has b'*' v ≡ false
  pub no_cr : has 13 v ≡ false
  pub no_lf : has 10 v ≡ false
  pub scalar : all is_scalar v ≡ true

pub IsLine-append : (a b : Text) → IsLine a → IsLine b → IsLine (a ++ b)
IsLine-append a b ha hb = record {
  unstarred = rw has-append (ground arith);
  no_cr = rw has-append (ground arith);
  no_lf = rw has-append (ground arith);
  scalar = rw all-append (ground arith);
}

digit-IsLine : (n : ℕ) (acc : Text) → IsLine acc → IsLine ((48 + n % 10) ∷ acc)
unfolding has is_scalar
digit-IsLine n acc h = record {
  unstarred = ground arith;
  no_cr = ground arith;
  no_lf = ground arith;
  scalar = ground arith;
}

decimal_onto-IsLine : (fuel n : ℕ) (acc : Text) → IsLine acc → IsLine (decimal_onto fuel n acc)
unfolding decimal_onto
decimal_onto-IsLine zero n acc h = h
decimal_onto-IsLine (suc fuel) n acc h = elim (Bool-cases (ltb n 10)) [
  | inl last ↦ rw last (digit-IsLine n acc h)
  | inr more ↦ rw more (decimal_onto-IsLine fuel (n / 10) _ (digit-IsLine n acc h))
]

pub decimal-IsLine : (n : ℕ) → IsLine (decimal n)
unfolding decimal has is_scalar
decimal-IsLine n =
    decimal_onto-IsLine (suc n) n []
      (record { unstarred = refl; no_cr = refl; no_lf = refl; scalar = refl })
