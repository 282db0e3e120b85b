-- ===== src/Crypto/Policy/Laws.antt =====
-- app/crypto/policy.py: what the policy lets through, and that the check of the configuration keeps
-- it from raising a `KeyError`.
use naesb_edi.Base.{
  ℕ, ◌≡◌, refl, ◌∙◌, sym, ap, inl, inr, Bool, true, false, Option, none, some, List, [], ◌∷◌, Text,
  ℤ, pos, negsuc, ok, err, equal, equal_refl, any, arith, Bool-cases, Option-cases, ◌>>=◌,
  >>=-eq-ok, if◌then◌else◌, ◌||◌,
}
use naesb_edi.Base.Dict.{Dict, lookup}
use naesb_edi.Crypto.Policy.{
  AlgorithmInfo, cipher_algo_ids, digest_algo_ids, ids_of, is_id, enforce_digest_policy,
  enforce_policy,
}
use naesb_edi.Exceptions.{key_error, value_error}
use naesb_edi.Settings.{unknown_names, check_known_algo_names}

-- The algorithm is the one of an allowed name.
abbrev pub IsAllowed : Dict ℕ → List Text → Option ℤ → Type 0
IsAllowed known names algo =
    (name : Text) × (n : ℕ) × (any (equal name) names ≡ true)
    × (lookup name known ≡ some n)
    × (algo ≡ some (pos n))

is_id-eq : (algo : Option ℤ) (n : ℕ) → is_id algo n ≡ true → algo ≡ some (pos n)
is_id-eq none n h = absurd (ground arith)
is_id-eq (some (negsuc k)) n h = absurd (ground arith)
is_id-eq (some (pos k)) n h = let e : k ≡ n = ground arith in rw e refl

-- What one more name allows is still allowed.
IsAllowed-cons :
    (known : Dict ℕ) (x : Text) (names : List Text) (algo : Option ℤ)
    → IsAllowed known names algo
    → IsAllowed known (x ∷ names) algo
IsAllowed-cons known x names algo (name, n, m, l, e) = (name, n, ground arith, l, e)

ids_of-IsAllowed :
    (known : Dict ℕ) (names : List Text) (algo : Option ℤ) {ids : List ℕ}
    → ids_of known names ≡ ok ids
    → any (is_id algo) ids ≡ true
    → IsAllowed known names algo
unfolding ids_of
ids_of-IsAllowed known [] algo {ids} q h =
    let none_left : any (is_id algo) ids ≡ false = ground arith in absurd (ground arith)
ids_of-IsAllowed known (x ∷ names) algo {ids} q h = elim (Option-cases (lookup x known)) [
  | inl missing ↦
      let e : ids_of known (x ∷ names) ≡ err (key_error x) = rw (missing, ids_of) refl in
      absurd (ground arith)
  | inr (n, found) ↦
      let e : ids_of known (x ∷ names) ≡ (ids_of known names >>= λ ids. ok (n ∷ ids)) =
        rw (found, ids_of) refl in
      let (rest, r, s) = >>=-eq-ok (ids_of known names) (λ ids. ok (n ∷ ids)) (sym e ∙ q) in
      let here : ids ≡ n ∷ rest = ground arith in
      let h' : is_id algo n || any (is_id algo) rest ≡ true =
        sym (ap (any (is_id algo)) here) ∙ h in
      elim (Bool-cases (is_id algo n)) [
        | inl hit ↦ (x, n, rw (equal_refl x) refl, found, is_id-eq algo n hit)
        | inr miss ↦
            IsAllowed-cons known x names algo (ids_of-IsAllowed known names algo r (ground arith))
      ]
]

-- A message whose digest the policy lets through has the digest algorithm of an allowed name.
enforce_digest_policy-IsAllowed :
    (hash_algo : Option ℤ) (allowed_digests : List Text)
    → enforce_digest_policy hash_algo allowed_digests ≡ ok tt
    → IsAllowed digest_algo_ids allowed_digests hash_algo
unfolding enforce_digest_policy
enforce_digest_policy-IsAllowed hash_algo allowed_digests q =
    let (ids, e, t) = >>=-eq-ok (ids_of digest_algo_ids allowed_digests) _ q in
    ids_of-IsAllowed digest_algo_ids allowed_digests hash_algo e
      (elim (Bool-cases (any (is_id hash_algo) ids)) [
        | inl hit ↦ hit
        | inr miss ↦ absurd (ground arith)
      ])

abbrev pub SignedAllowed : Bool → List Text → Option ℤ → Type 0
SignedAllowed true allowed_digests hash_algo = IsAllowed digest_algo_ids allowed_digests hash_algo
SignedAllowed false allowed_digests hash_algo = Unit

signed_allowed :
    (require_signature : Bool) (hash_algo : Option ℤ) (allowed_digests : List Text)
    → (if require_signature then enforce_digest_policy hash_algo allowed_digests else ok tt) ≡ ok tt
    → SignedAllowed require_signature allowed_digests hash_algo
signed_allowed true hash_algo allowed_digests q =
    enforce_digest_policy-IsAllowed hash_algo allowed_digests q
signed_allowed false hash_algo allowed_digests q = tt

-- A message that the policy lets through was encrypted by the algorithm of an allowed name and, if
-- a signature is required, has the digest algorithm of an allowed name.
pub enforce_policy-IsAllowed :
    (info : AlgorithmInfo) (allowed_ciphers allowed_digests : List Text) (require_signature : Bool)
    → enforce_policy info allowed_ciphers allowed_digests require_signature ≡ ok tt
    → IsAllowed cipher_algo_ids allowed_ciphers info.cipher_algo
      × SignedAllowed require_signature allowed_digests info.hash_algo
unfolding enforce_policy
enforce_policy-IsAllowed info allowed_ciphers allowed_digests require_signature q =
    let (ids, e, t) = >>=-eq-ok (ids_of cipher_algo_ids allowed_ciphers) _ q in
    elim (Bool-cases (any (is_id info.cipher_algo) ids)) [
      | inl hit ↦ (
        ids_of-IsAllowed cipher_algo_ids allowed_ciphers info.cipher_algo e hit,
        signed_allowed require_signature info.hash_algo allowed_digests (ground arith),
      )
      | inr miss ↦ absurd (ground arith)
    ]

-- If the configuration's check lets the names through, the policy finds the id of each of them.
pub known-ids_of :
    (names : List Text) (known : Dict ℕ) (field_name : Text)
    → check_known_algo_names names known field_name ≡ ok tt
    → (ids : List ℕ) × (ids_of known names ≡ ok ids)
unfolding check_known_algo_names unknown_names ids_of
known-ids_of [] known field_name h = ([], refl)
known-ids_of (x ∷ names) known field_name h = elim (Option-cases (lookup x known)) [
  | inl missing ↦
      let e : check_known_algo_names (x ∷ names) known field_name ≡ err (value_error field_name) =
        rw missing refl in
      absurd (ground arith)
  | inr (n, found) ↦
      let e : check_known_algo_names (x ∷ names) known field_name
          ≡ check_known_algo_names names known field_name =
        rw found refl in
      let (ids, q) = known-ids_of names known field_name (sym e ∙ h) in
      (n ∷ ids, rw (found, q, ids_of) refl)
]
