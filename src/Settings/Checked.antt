-- ===== src/Settings/Checked.antt =====
-- The validators of app/settings.py and app/partners.py: the names that they let through are known
-- to the policy of app/crypto/policy.py.
use naesb_edi.Base.{
  ◌≡◌, sym, ap, ◌∙◌, ℕ, Option, none, some, List, [], ◌∷◌, All, Text, Python, Result, ok, >>=-eq-ok,
  codes, arith,
}
use naesb_edi.Base.Dict.{Dict}
use naesb_edi.Crypto.Policy.{cipher_algo_ids, digest_algo_ids, ids_of}
use naesb_edi.Crypto.Policy.Laws.{known-ids_of}
use naesb_edi.Exceptions.{Exception}
use naesb_edi.Partners.{CryptoOverrides, PartnerConfig, or_default}
use naesb_edi.Partners.Load.{
  validate_optional, validate_overrides, validate_given, validate_partner, validate_partners,
}
use naesb_edi.Settings.{check_known_algo_names}
use naesb_edi.Settings.Load.{validate_allowed_ciphers, validate_allowed_digests}

abbrev pub IsKnown : Dict ℕ → List Text → Type 0
IsKnown known names = (ids : List ℕ) × (ids_of known names ≡ ok ids)

pub validate_allowed_ciphers-IsKnown :
    (v w : List Text) → validate_allowed_ciphers v ≡ ok w → IsKnown cipher_algo_ids w
unfolding validate_allowed_ciphers
validate_allowed_ciphers-IsKnown v w h =
    let (u, h1, h2) =
      >>=-eq-ok (check_known_algo_names v cipher_algo_ids (codes "allowed_ciphers")) _ h in
    let same : v ≡ w = ground arith in
    rw (sym same) (known-ids_of v cipher_algo_ids (codes "allowed_ciphers") h1)

pub validate_allowed_digests-IsKnown :
    (v w : List Text) → validate_allowed_digests v ≡ ok w → IsKnown digest_algo_ids w
unfolding validate_allowed_digests
validate_allowed_digests-IsKnown v w h =
    let (u, h1, h2) =
      >>=-eq-ok (check_known_algo_names v digest_algo_ids (codes "allowed_digests")) _ h in
    let same : v ≡ w = ground arith in
    rw (sym same) (known-ids_of v digest_algo_ids (codes "allowed_digests") h1)

-- An override is known, or there is none.
abbrev IsKnownIfGiven : Dict ℕ → Option (List Text) → Type 0
IsKnownIfGiven known none = Unit
IsKnownIfGiven known (some names) = IsKnown known names

validate_optional-IsKnownIfGiven :
    (known : Dict ℕ) (check : List Text → Result Exception (List Text))
    → ((v w : List Text) → check v ≡ ok w → IsKnown known w)
    → (v w : Option (List Text)) → validate_optional check v ≡ ok w
    → IsKnownIfGiven known w
validate_optional-IsKnownIfGiven known check k none none h = tt
validate_optional-IsKnownIfGiven known check k none (some w) h = absurd (ground arith)
validate_optional-IsKnownIfGiven known check k (some v) none h =
    let (w, h1, h2) = >>=-eq-ok (check v) _ h in absurd (ground arith)
validate_optional-IsKnownIfGiven known check k (some v) (some x) h =
    let (w, h1, h2) = >>=-eq-ok (check v) _ h in
    let same : w ≡ x = ground arith in k v x (h1 ∙ ap ok same)

pub or_default-IsKnown :
    (known : Dict ℕ) (o : Option (List Text)) (d : List Text)
    → IsKnownIfGiven known o
    → IsKnown known d
    → IsKnown known (or_default o d)
or_default-IsKnown known none d k h = h
or_default-IsKnown known (some []) d k h = h
or_default-IsKnown known (some (x ∷ xs)) d k h = k

-- The overrides of a partner.
abbrev pub HasKnown : Option CryptoOverrides → Type 0
HasKnown none = Unit
HasKnown (some o) =
    IsKnownIfGiven cipher_algo_ids o.allowed_ciphers
    × IsKnownIfGiven digest_algo_ids o.allowed_digests

validate_given-HasKnown : (o w : Option CryptoOverrides) → validate_given o ≡ ok w → HasKnown w
unfolding validate_overrides
validate_given-HasKnown none none h = tt
validate_given-HasKnown none (some w) h = absurd (ground arith)
validate_given-HasKnown (some o) none h =
    let (x, h1, h2) = >>=-eq-ok (validate_overrides o) _ h in absurd (ground arith)
validate_given-HasKnown (some o) (some w) h =
    let (x, h1, h2) = >>=-eq-ok (validate_overrides o) _ h in
    let (cs, h3, h4) =
      >>=-eq-ok (validate_optional validate_allowed_ciphers o.allowed_ciphers) _ h1 in
    let (ds, h5, h6) =
      >>=-eq-ok (validate_optional validate_allowed_digests o.allowed_digests) _ h4 in
    let cs_eq : cs ≡ w.allowed_ciphers = ground arith in
    let ds_eq : ds ≡ w.allowed_digests = ground arith in
    (
      validate_optional-IsKnownIfGiven cipher_algo_ids validate_allowed_ciphers
          validate_allowed_ciphers-IsKnown o.allowed_ciphers w.allowed_ciphers (h3 ∙ ap ok cs_eq),
      validate_optional-IsKnownIfGiven digest_algo_ids validate_allowed_digests
          validate_allowed_digests-IsKnown o.allowed_digests w.allowed_digests (h5 ∙ ap ok ds_eq),
    )

pub validate_partners-HasKnown :
    (py : Python) (raw parsed : List PartnerConfig)
    → validate_partners py raw ≡ ok parsed
    → All (λ (p : PartnerConfig). HasKnown p.crypto_overrides) parsed
unfolding validate_partners validate_partner
validate_partners-HasKnown py [] parsed h =
    let same : [] ≡ parsed = ground arith in rw (sym same) tt
validate_partners-HasKnown py (p ∷ raw) parsed h =
    let (checked, h1, h2) = >>=-eq-ok (validate_partner py p) _ h in
    let (more, h3, h4) = >>=-eq-ok (validate_partners py raw) _ h2 in
    let (overrides, h5, h6) = >>=-eq-ok (validate_given p.crypto_overrides) _ h1 in
    let own : overrides ≡ checked.crypto_overrides = ground arith in
    let same : checked ∷ more ≡ parsed = ground arith in
    rw (sym same) (
      validate_given-HasKnown p.crypto_overrides checked.crypto_overrides (h5 ∙ ap ok own),
      validate_partners-HasKnown py raw more h3,
    )
