-- ===== src/Crypto/Keyring/Strong.antt =====
-- app/crypto/keyring.py: what a bootstrap that returns says of the keyring and the fingerprints.
use naesb_edi.Base.{
  ◌≡◌, refl, sym, ap, ◌∙◌, ◌⊎◌, inl, inr, true, false, Option, none, some, List, [], ◌∷◌, All, Text,
  Python, ℤ, ok, >>=-eq-ok, Option-cases, Bool-cases, map_err, map_err-ok, arith,
}
use naesb_edi.Base.Dict.{Dict, lookup}
use naesb_edi.Crypto.Policy.{check_key_length, int_lt, is_rsa_pubkey_algo}
use naesb_edi.Partners.{PartnerConfig}
use naesb_edi.Partners.Named.{AreNamed}
use naesb_edi.Crypto.Keyring.{
  ListedKey, KeyringEnv, rejected, other_error, Warning, key_length, effective_min_bits, check_key,
  check_keys, first_of, or_else, all_keys, validate_key_lengths, import_partners, bootstrap_keyring,
}
use naesb_edi.Crypto.Keyring.Imported.{
  IsOverride, IsStrong, import_partners-IsOverride, import_partners-found,
}

-- A key that the check lets through.
check_key_length-ok :
    (algo : Text) (bits least : ℤ)
    → check_key_length algo bits least ≡ ok tt
    → (is_rsa_pubkey_algo algo ≡ true) × (int_lt bits least ≡ false)
unfolding check_key_length
check_key_length-ok algo bits least h = elim (Bool-cases (is_rsa_pubkey_algo algo)) [
  | inr other ↦ absurd (ground (arith, other))
  | inl rsa ↦ elim (Bool-cases (int_lt bits least)) [
    | inl short ↦ absurd (ground (arith, rsa, short))
    | inr long ↦ (rsa, long)
  ]
]

module _ (py : Python) (partners : List PartnerConfig) (fingerprints : Dict Text) (per_key : Dict ℤ)
    (min_bits recommended : ℤ) where
  -- The minimum of a key is the global one or an override.
  effective_min_bits-cases :
      ((g : Text) (m : ℤ) → lookup g per_key ≡ some m → IsOverride partners fingerprints g m)
      → (o : Option Text) (bits : ℤ) → int_lt bits (effective_min_bits per_key min_bits o) ≡ false
      → (int_lt bits min_bits ≡ false)
        ⊎ ((fingerprint : Text) × (m : ℤ) × (o ≡ some fingerprint)
            × IsOverride partners fingerprints fingerprint m
            × (int_lt bits m ≡ false))
  unfolding effective_min_bits
  effective_min_bits-cases k none bits h = inl h
  effective_min_bits-cases k (some g) bits h = elim (Option-cases (lookup g per_key)) [
    | inl gone ↦ inl (sym (ap (λ o. int_lt bits (or_else o min_bits)) gone) ∙ h)
    | inr (m, found) ↦
        inr (g, m, refl, k g m found, sym (ap (λ o. int_lt bits (or_else o min_bits)) found) ∙ h)
  ]

  check_key-IsStrong :
      ((g : Text) (m : ℤ) → lookup g per_key ≡ some m → IsOverride partners fingerprints g m)
      → (key : ListedKey) (ws : List Warning)
      → check_key py per_key min_bits recommended key ≡ ok ws
      → IsStrong py partners fingerprints min_bits key
  unfolding check_key
  check_key-IsStrong k key ws h =
      let (bits, h1, h2) = >>=-eq-ok (map_err other_error (key_length py key.length)) _ h in
      let (u, h3, h4) =
        >>=-eq-ok
          (map_err (rejected key.fingerprint)
            (check_key_length key.algo bits (effective_min_bits per_key min_bits key.fingerprint)))
          _ h2 in
      let (rsa, long) =
        check_key_length-ok key.algo bits (effective_min_bits per_key min_bits key.fingerprint)
          (map_err-ok (rejected key.fingerprint) _ u h3) in
      record {
        bits = bits;
        has_length = map_err-ok other_error (key_length py key.length) bits h1;
        is_rsa = rsa;
        long_enough = effective_min_bits-cases k key.fingerprint bits long;
      }

  check_keys-IsStrong :
      ((g : Text) (m : ℤ) → lookup g per_key ≡ some m → IsOverride partners fingerprints g m)
      → (keys : List ListedKey) (ws : List Warning)
      → check_keys py per_key min_bits recommended keys ≡ ok ws
      → All (IsStrong py partners fingerprints min_bits) keys
  unfolding check_keys
  check_keys-IsStrong k [] ws h = tt
  check_keys-IsStrong k (key ∷ keys) ws h =
      let (warned, h1, h2) = >>=-eq-ok (check_key py per_key min_bits recommended key) _ h in
      let (more, h3, h4) = >>=-eq-ok (check_keys py per_key min_bits recommended keys) _ h2 in
      (check_key-IsStrong k key warned h1, check_keys-IsStrong k keys more h3)

no_entry : (g : Text) (m : ℤ) → lookup g [] ≡ some m → ⊥
unfolding lookup
no_entry g m h = ground arith

-- A bootstrap that returns leaves a keyring in which every key that gpg lists, secret or public, is an
-- RSA key that is at least as long as the global minimum or as an override of a partner whose
-- key it is, and finds a fingerprint for every partner. No two partners share a name.
pub bootstrap_keyring-IsStrong :
    {K : Type 0} (env : KeyringEnv K) (path : Text) (partners : List PartnerConfig)
    (min_bits recommended : ℤ) (before after : K) (fingerprints : Dict Text)
    (warnings : List Warning)
    → AreNamed partners
    → bootstrap_keyring env path partners min_bits recommended before
      ≡ ok (fingerprints, after, warnings)
    → All (IsStrong env.py partners fingerprints min_bits) (all_keys env after)
      × All (λ (p : PartnerConfig). (f : Text) × (lookup p.name fingerprints ≡ some f)) partners
unfolding bootstrap_keyring validate_key_lengths
bootstrap_keyring-IsStrong {K} env path partners min_bits recommended before after fingerprints
      warnings named h =
    let (key_data, h1, h2) = >>=-eq-ok (map_err other_error (env.read_text path)) _ h in
    let (own, h3, h4) = >>=-eq-ok (first_of _ (env.import_keys key_data before).0) _ h2 in
    let (i, h5, h6) = >>=-eq-ok (import_partners env partners _) _ h4 in
    let (ws, h7, h8) =
      >>=-eq-ok (check_keys env.py i.per_key_min_bits min_bits recommended (all_keys env i.keys)) _
        h6 in
    let fps : i.fingerprints ≡ fingerprints = ground arith in
    let ring : i.keys ≡ after = ground arith in
    let strong =
      check_keys-IsStrong env.py partners i.fingerprints i.per_key_min_bits min_bits recommended
        (λ g m e. elim (import_partners-IsOverride env partners _ i named h5 g m e) [
          | inl nothing ↦ absurd (no_entry g m nothing)
          | inr override ↦ override
        ])
        (all_keys env i.keys) ws h7 in
    rw (sym fps, sym ring) (strong, import_partners-found env partners _ i named h5)
