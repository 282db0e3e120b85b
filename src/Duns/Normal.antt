-- ===== src/Duns/Normal.antt =====
-- What normalising a DUNS identifier gives.
use naesb_edi.Base.{
  ℕ, Bool, ◌⊎◌, zero, suc, ◌-◌, ◌≤◌, ◌<◌, ◌≡◌, refl, true, false, ◌&&◌, [], ◌∷◌, ◌++◌, Text, Python,
  IsPython, truthy, all, all-append, length, length-append, length-replicate, replicate, ltb, zfill,
  arith, Bool-cases, inl, inr,
}
use naesb_edi.Duns.{is_digits, normalize_duns}

length-zfill : (n : ℕ) (v : Text) → length v ≤ n → length (zfill n v) ≡ n
unfolding zfill
length-zfill n v h = omega (
  arith,
  length-append (replicate (n - length v) b'0') v,
  length-replicate {A = ℕ} (n - length v) b'0',
)

all-replicate : (p : ℕ → Bool) (c n : ℕ) → p c ≡ true → all p (replicate n c) ≡ true
all-replicate p c zero h = refl
all-replicate p c (suc n) h = rw (h, all-replicate p c n h)

truthy-append : (a v : Text) → truthy v ≡ true → truthy (a ++ v) ≡ true
truthy-append [] v h = h
truthy-append (c ∷ a) v h = refl

module _ (py : Python) (law : IsPython py) where
  is_digits-zfill : (n : ℕ) (v : Text) → is_digits py v ≡ true → is_digits py (zfill n v) ≡ true
  unfolding zfill
  is_digits-zfill n v h =
      let zeros =
        all-replicate py.is_digit b'0' (n - length v) (law.is_digit-ascii b'0' (omega arith)) in
      ground (
        arith,
        zeros,
        all-append py.is_digit (replicate (n - length v) b'0') v,
        truthy-append (replicate (n - length v) b'0') v,
      )

  -- A second normalisation changes nothing.
  pub normalize_duns_idem :
      (v : Text) → normalize_duns py (normalize_duns py v) ≡ normalize_duns py v
  unfolding normalize_duns
  normalize_duns_idem v = elim (Bool-cases (is_digits py v && ltb (length v) 9)) [
    | inl short ↦ rw short (rw (length-zfill 9 v (ground arith)) (ground arith))
    | inr other ↦ rw other (rw other)
  ]

  -- A text of fewer than nine digits, and at least one, comes out as nine digits, with zeros in front of
  -- its own; any other text comes out as it went in.
  pub normalize_duns_lem :
      (v : Text)
      → ((is_digits py v ≡ true)
          × (length v < 9)
          × (length (normalize_duns py v) ≡ 9)
          × (is_digits py (normalize_duns py v) ≡ true)
          × ((k : ℕ) × (normalize_duns py v ≡ replicate k b'0' ++ v)))
        ⊎ (((is_digits py v ≡ false) ⊎ (9 ≤ length v)) × (normalize_duns py v ≡ v))
  unfolding normalize_duns
  normalize_duns_lem v = elim (Bool-cases (is_digits py v)) [
    | inl digits ↦ elim (Bool-cases (ltb (length v) 9)) [
      | inl short ↦
          rw (digits, short)
            (inl (
              refl,
              ground arith,
              length-zfill 9 v (ground arith),
              is_digits-zfill 9 v digits,
              (9 - length v, unfold zfill in refl),
            ))
      | inr long ↦ rw (digits, long) (inr (inr (ground arith), refl))
    ]
    | inr other ↦ rw other (inr (inl refl, refl))
  ]
