-- ===== src/Fields/Valid.antt =====
-- app/envelope/fields.py: what the validators let through.
use naesb_edi.Base.{
  ℕ, zero, suc, ap, append-nil, length-append, ◌≤◌, ◌≡◌, refl, ◌∙◌, sym, inl, inr, ◌⊎◌, Bool, true,
  false, ◌&&◌, ◌||◌, List, [], ◌∷◌, ◌++◌, Text, Python, IsPython, ok, all, length, take, drop,
  equal_iff, ◌==◌, ==_iff, Bool-cases, arith,
}
use mathlib.Core.Path.{subst}
use naesb_edi.Duns.{normalize_duns}
use naesb_edi.Duns.Normal.{normalize_duns_idem}
use naesb_edi.Fields.{
  EnvelopeFields, bad_transaction_set, bad_refnum, bad_refnum_orig, fault_if, unless_faults,
  is_set_char, matches_transaction_set, is_refnum, faults, none_or, envelope_fields,
}

take-drop {ℓ} : {A : Type ℓ} (n : ℕ) (xs : List A) → take n xs ++ drop n xs ≡ xs
take-drop zero xs = refl
take-drop (suc n) [] = refl
take-drop (suc n) (x ∷ xs) = ap (λ t. x ∷ t) (take-drop n xs)

length-take {ℓ} : {A : Type ℓ} (n : ℕ) (xs : List A) → n ≤ length xs → length (take n xs) ≡ n
length-take zero xs h = refl
length-take (suc n) [] h = absurd (omega (arith, h))
length-take (suc n) (x ∷ xs) h = omega (arith, length-take n xs (omega (arith, h)))

empty {ℓ} : {A : Type ℓ} (xs : List A) → length xs ≡ 0 → xs ≡ []
empty [] h = refl
empty (x ∷ xs) h = absurd (omega (arith, h))

both : (a b : Bool) → a && b ≡ true → (a ≡ true) × (b ≡ true)
both a b h = ground arith

right : (a b c : Bool) → a ≡ false → a || (b && c) ≡ true → (b ≡ true) × (c ≡ true)
right a b c n h = ground arith

-- A transaction set that the pattern matches is eight safe characters, with or without a line feed
-- behind them.
pub matches_transaction_set_lem :
    (v : Text)
    → matches_transaction_set v ≡ true
    → (w : Text) × (length w ≡ 8) × (all is_set_char w ≡ true) × ((v ≡ w) ⊎ (v ≡ w ++ 10 ∷ []))
unfolding matches_transaction_set
matches_transaction_set_lem v h =
    let split = take-drop 8 v in
    let total = ap length split in
    let parts = length-append (take 8 v) (drop 8 v) in
    elim (Bool-cases (length v == 8)) [
      | inl exact ↦
          let n : length v ≡ 8 = (==_iff (length v) 8).0 exact in
          let w = length-take 8 v (omega (arith, n)) in
          let none_left = empty (drop 8 v) (omega (arith, n, w, total, parts)) in
          (
            take 8 v,
            w,
            (both _ _ h).0,
            inl (sym split ∙ ap (λ t. take 8 v ++ t) none_left ∙ append-nil (take 8 v)),
          )
      | inr longer ↦
          let (nine, line_feed) = right _ _ _ longer (both _ _ h).1 in
          let n : length v ≡ 9 = (==_iff (length v) 9).0 nine in
          let t : drop 8 v ≡ 10 ∷ [] = (equal_iff (drop 8 v) (10 ∷ [])).0 line_feed in
          (
            take 8 v,
            length-take 8 v (omega (arith, n)),
            (both _ _ h).0,
            inr (sym split ∙ ap (λ t. take 8 v ++ t) t),
          )
    ]

module _ (py : Python) where
  no_faults :
      (a b c : Bool) (x s : EnvelopeFields)
      → unless_faults py
          (fault_if py a bad_transaction_set
            ++ (fault_if py b bad_refnum ++ fault_if py c bad_refnum_orig))
          x
        ≡ ok s
      → (a ≡ true) × (b ≡ true) × (c ≡ true) × (x ≡ s)
  no_faults true true true x s h = (refl, refl, refl, cc)
  no_faults true true false x s h = absurd (ground arith)
  no_faults true false _ x s h = absurd (ground arith)
  no_faults false _ _ x s h = absurd (ground arith)

  -- Fields that were built stay as they are when they are built again, and each is valid: the
  -- transaction set, the refnum and the original refnum match their rules if they are given.
  pub envelope_fields_lem :
      IsPython py
      → (r s : EnvelopeFields) → envelope_fields py r ≡ ok s
      → (envelope_fields py s ≡ ok s)
        × (none_or matches_transaction_set s.transaction_set ≡ true)
        × (none_or (is_refnum py) s.refnum ≡ true)
        × (none_or (is_refnum py) s.refnum_orig ≡ true)
  unfolding envelope_fields faults
  envelope_fields_lem law r s h =
      let x : EnvelopeFields = record r {
        from_id = normalize_duns py r.from_id;
        to_id = normalize_duns py r.to_id;
      } in
      let (a, b, c, e) = no_faults _ _ _ x s h in
      let again : envelope_fields py x ≡ ok x =
        rw (a, b, c, normalize_duns_idem py law r.from_id, normalize_duns_idem py law r.to_id)
          refl in
      subst
        (λ y.
          (envelope_fields py y ≡ ok y)
          × (none_or matches_transaction_set y.transaction_set ≡ true)
          × (none_or (is_refnum py) y.refnum ≡ true)
          × (none_or (is_refnum py) y.refnum_orig ≡ true))
        e (again, a, b, c)
