-- ===== src/Crypto/Keyring/Imported.antt =====
-- app/crypto/keyring.py: what the imports enter under the partners' names, and the minima that they
-- note.
use naesb_edi.Base.{
  ◌≡◌, refl, sym, ap, ◌∙◌, ◌⊎◌, inl, inr, true, false, Option, none, some, List, [], ◌∷◌, All, Text,
  Python, ℤ, ok, >>=-eq-ok, Bool-cases, map_err, equal, equal_refl, equal_iff, arith,
}
use naesb_edi.Base.Dict.{Dict, lookup, insert, lookup-insert}
use naesb_edi.Crypto.Policy.{int_lt, is_rsa_pubkey_algo}
use naesb_edi.Partners.{PartnerConfig}
use naesb_edi.Partners.Named.{AreNamed}
use naesb_edi.Crypto.Keyring.{
  ListedKey, KeyringEnv, other_error, key_length, own_min_bits, note_min_bits, first_of, Imports,
  import_partner, import_partners,
}

-- Some partner's override is `m`, and `fingerprint` is that of the partner's key.
abbrev pub IsOverride : List PartnerConfig → Dict Text → Text → ℤ → Type 0
IsOverride [] fingerprints fingerprint m = ⊥
IsOverride (p ∷ ps) fingerprints fingerprint m =
    ((own_min_bits p ≡ some m) × (lookup p.name fingerprints ≡ some fingerprint))
    ⊎ IsOverride ps fingerprints fingerprint m

-- An RSA key that is as long as the minimum, or as an override of the partner whose key it is.
pub record IsStrong (py : Python) (partners : List PartnerConfig) (fingerprints : Dict Text)
    (min_bits : ℤ) (key : ListedKey) : Type 0 where
  pub bits : ℤ
  pub has_length : key_length py key.length ≡ ok bits
  pub is_rsa : is_rsa_pubkey_algo key.algo ≡ true
  pub long_enough :
      (int_lt bits min_bits ≡ false)
      ⊎ ((fingerprint : Text) × (m : ℤ) × (key.fingerprint ≡ some fingerprint)
          × IsOverride partners fingerprints fingerprint m
          × (int_lt bits m ≡ false))

module _ {K : Type 0} (env : KeyringEnv K) where
  -- What one partner adds.
  abbrev Adds : PartnerConfig → Imports K → Imports K → Text → Type 0
  Adds p i r f =
      (r.fingerprints ≡ insert p.name f i.fingerprints)
      × (r.per_key_min_bits ≡ note_min_bits (own_min_bits p) f i.per_key_min_bits)

  import_partner-Adds :
      (p : PartnerConfig) (i r : Imports K)
      → import_partner env p i ≡ ok r
      → (f : Text) × Adds p i r f
  unfolding import_partner
  import_partner-Adds p i r h =
      let (key_data, h1, h2) =
        >>=-eq-ok (map_err other_error (env.read_text p.pgp_public_key_path)) _ h in
      let (f, h3, h4) = >>=-eq-ok (first_of _ (env.import_keys key_data i.keys).0) _ h2 in
      (f, (ground arith, ground arith))

  -- The other partners' imports keep a name's fingerprint.
  import_partners-keeps :
      (name : Text) (ps : List PartnerConfig) (i r : Imports K)
      → All (λ (q : PartnerConfig). equal q.name name ≡ false) ps
      → import_partners env ps i ≡ ok r
      → lookup name r.fingerprints ≡ lookup name i.fingerprints
  unfolding import_partners
  import_partners-keeps name [] i r apart h = let same : i ≡ r = ground arith in rw same refl
  import_partners-keeps name (p ∷ ps) i r apart h =
      let (next, h1, h2) = >>=-eq-ok (import_partner env p i) _ h in
      let (f, (added, noted)) = import_partner-Adds p i next h1 in
      import_partners-keeps name ps next r apart.1 h2
      ∙ ap (lookup name) added
      ∙ lookup-insert p.name name f i.fingerprints
      ∙ rw apart.0 refl

  own-fingerprint :
      (p : PartnerConfig) (ps : List PartnerConfig) (i next r : Imports K) (f : Text)
      → AreNamed (p ∷ ps)
      → import_partners env ps next ≡ ok r
      → Adds p i next f
      → lookup p.name r.fingerprints ≡ some f
  own-fingerprint p ps i next r f named h (added, noted) =
      import_partners-keeps p.name ps next r named.0 h
      ∙ ap (lookup p.name) added
      ∙ lookup-insert p.name p.name f i.fingerprints
      ∙ rw (equal_refl p.name) refl

  noted-cases :
      (own : Option ℤ) (f g : Text) (m : ℤ) (d : Dict ℤ)
      → lookup g (note_min_bits own f d) ≡ some m
      → (lookup g d ≡ some m) ⊎ ((own ≡ some m) × (f ≡ g))
  noted-cases none f g m d h = inl h
  noted-cases (some n) f g m d h = elim (Bool-cases (equal f g)) [
    | inl hit ↦
        let same : some n ≡ some m = sym (lookup-insert f g n d ∙ rw hit refl) ∙ h in
        inr (same, (equal_iff f g).0 hit)
    | inr miss ↦ inl (sym (lookup-insert f g n d ∙ rw miss refl) ∙ h)
  ]

  -- Each minimum that the imports note is an override, and every partner gets a fingerprint.
  pub import_partners-IsOverride :
      (ps : List PartnerConfig) (i r : Imports K)
      → AreNamed ps
      → import_partners env ps i ≡ ok r
      → (g : Text) (m : ℤ) → lookup g r.per_key_min_bits ≡ some m
      → (lookup g i.per_key_min_bits ≡ some m) ⊎ IsOverride ps r.fingerprints g m
  unfolding import_partners
  import_partners-IsOverride [] i r named h g m e =
      let same : i ≡ r = ground arith in
      inl (ap (λ (x : Imports K). lookup g x.per_key_min_bits) same ∙ e)
  import_partners-IsOverride (p ∷ ps) i r named h g m e =
      let (next, h1, h2) = >>=-eq-ok (import_partner env p i) _ h in
      let (f, adds) = import_partner-Adds p i next h1 in
      elim (import_partners-IsOverride ps next r named.1 h2 g m e) [
        | inr later ↦ inr (inr later)
        | inl noted ↦
            elim (noted-cases (own_min_bits p) f g m i.per_key_min_bits
              (sym (ap (lookup g) adds.1) ∙ noted)) [
                | inl before ↦ inl before
                | inr (own, hit) ↦
                    inr (inl (own, own-fingerprint p ps i next r f named h2 adds ∙ ap some hit))
              ]
      ]

  pub import_partners-found :
      (ps : List PartnerConfig) (i r : Imports K)
      → AreNamed ps
      → import_partners env ps i ≡ ok r
      → All (λ (p : PartnerConfig). (f : Text) × (lookup p.name r.fingerprints ≡ some f)) ps
  unfolding import_partners
  import_partners-found [] i r named h = tt
  import_partners-found (p ∷ ps) i r named h =
      let (next, h1, h2) = >>=-eq-ok (import_partner env p i) _ h in
      let (f, adds) = import_partner-Adds p i next h1 in
      (
        (f, own-fingerprint p ps i next r f named h2 adds),
        import_partners-found ps next r named.1 h2,
      )
