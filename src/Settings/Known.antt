-- ===== src/Settings/Known.antt =====
-- The configuration's names of algorithms in the policy of app/crypto/policy.py: a gateway that
-- started from its files never meets a name that the policy does not know.
use naesb_edi.Base.{
  ◌≡◌, refl, ap, ◌∙◌, ◌⊎◌, inl, inr, Bool, true, false, Option, none, some, List, [], All,
  All-change, Text, Python, Result, ok, err, >>=-eq-ok, any, if◌then◌else◌, arith,
}
use naesb_edi.Base.Dict.{values}
use naesb_edi.Crypto.Policy.{
  AlgorithmInfo, cipher_algo_ids, digest_algo_ids, is_id, enforce_policy, enforce_digest_policy,
}
use naesb_edi.Exceptions.{Exception, Weakness, weak_algorithm}
use naesb_edi.Partners.{
  CryptoOverrides, PartnerConfig, PartnerRegistry, index_by, overrides_ciphers, overrides_digests,
  or_default, partner_ciphers, partner_digests, partners_of, registry,
}
use naesb_edi.Partners.Found.{All-index_by, load_partners-checked}
use naesb_edi.Partners.Load.{validate_partners, load_partners_file}
use naesb_edi.Settings.{Settings}
use naesb_edi.Settings.Load.{
  validate_allowed_ciphers, validate_allowed_digests, model_validate, load_settings,
}
use naesb_edi.Settings.Checked.{
  HasKnown, IsKnown, or_default-IsKnown, validate_allowed_ciphers-IsKnown,
  validate_allowed_digests-IsKnown, validate_partners-HasKnown,
}

-- With known names the policy decides.
abbrev pub Decides : Result Exception (Unit {0}) → Type 0
Decides r = (r ≡ ok tt) ⊎ ((w : Weakness) × (r ≡ err (weak_algorithm w)))

if-Decides :
    (b : Bool) (r s : Result Exception (Unit {0}))
    → Decides r
    → Decides s
    → Decides (if b then r else s)
if-Decides true r s h k = h
if-Decides false r s h k = k

enforce_digest_policy-Decides :
    (info : AlgorithmInfo) (digests : List Text)
    → IsKnown digest_algo_ids digests
    → Decides (enforce_digest_policy info.hash_algo digests)
unfolding enforce_digest_policy
enforce_digest_policy-Decides info digests (ids, e) =
    rw e (if-Decides (any (is_id info.hash_algo) ids) _ _ (inl refl) (inr (_, refl)))

enforce_policy-Decides :
    (info : AlgorithmInfo) (ciphers digests : List Text) (require_signature : Bool)
    → IsKnown cipher_algo_ids ciphers
    → IsKnown digest_algo_ids digests
    → Decides (enforce_policy info ciphers digests require_signature)
unfolding enforce_policy
enforce_policy-Decides info ciphers digests require_signature (ids, e) k = rw e (
    if-Decides (any (is_id info.cipher_algo) ids) _ _
      (if-Decides require_signature _ _ (enforce_digest_policy-Decides info digests k) (inl refl))
      (inr (_, refl)))

partner_ciphers-IsKnown :
    (p : PartnerConfig) (d : List Text)
    → HasKnown p.crypto_overrides
    → IsKnown cipher_algo_ids d
    → IsKnown cipher_algo_ids (partner_ciphers p d)
unfolding partner_ciphers
partner_ciphers-IsKnown p d k h = go p.crypto_overrides k
  where
    go :
        (o : Option CryptoOverrides)
        → HasKnown o
        → IsKnown cipher_algo_ids (or_default (overrides_ciphers o) d)
    go none k = h
    go (some o) k = or_default-IsKnown cipher_algo_ids o.allowed_ciphers d k.0 h

partner_digests-IsKnown :
    (p : PartnerConfig) (d : List Text)
    → HasKnown p.crypto_overrides
    → IsKnown digest_algo_ids d
    → IsKnown digest_algo_ids (partner_digests p d)
unfolding partner_digests
partner_digests-IsKnown p d k h = go p.crypto_overrides k
  where
    go :
        (o : Option CryptoOverrides)
        → HasKnown o
        → IsKnown digest_algo_ids (or_default (overrides_digests o) d)
    go none k = h
    go (some o) k = or_default-IsKnown digest_algo_ids o.allowed_digests d k.1 h

loaded-IsKnown :
    (py : Python) (read_file : Text → Result Exception Settings) (path : Text) (settings : Settings)
    → load_settings py read_file path ≡ ok settings
    → IsKnown cipher_algo_ids settings.crypto.allowed_ciphers
      × IsKnown digest_algo_ids settings.crypto.allowed_digests
unfolding load_settings model_validate
loaded-IsKnown py read_file path settings h =
    let (raw, h1, h2) = >>=-eq-ok (read_file path) _ h in
    let (cs, h3, h4) = >>=-eq-ok (validate_allowed_ciphers raw.crypto.allowed_ciphers) _ h2 in
    let (ds, h5, h6) = >>=-eq-ok (validate_allowed_digests raw.crypto.allowed_digests) _ h4 in
    let cs_eq : cs ≡ settings.crypto.allowed_ciphers = ground arith in
    let ds_eq : ds ≡ settings.crypto.allowed_digests = ground arith in
    (
      validate_allowed_ciphers-IsKnown raw.crypto.allowed_ciphers settings.crypto.allowed_ciphers
          (h3 ∙ ap ok cs_eq),
      validate_allowed_digests-IsKnown raw.crypto.allowed_digests settings.crypto.allowed_digests
          (h5 ∙ ap ok ds_eq),
    )

-- With settings and partners that were loaded from their files, the policy's check of any message
-- of any partner passes or raises `WeakAlgorithmError`: it never meets the `KeyError` of a name that it
-- does not know.
pub enforce_policy-loaded :
    (py : Python) (read_settings : Text → Result Exception Settings)
    (read_partners : Text → Result Exception (List PartnerConfig)) (path : Text)
    (settings : Settings) (reg : PartnerRegistry) (info : AlgorithmInfo) (require_signature : Bool)
    → load_settings py read_settings path ≡ ok settings
    → load_partners_file py read_partners settings.partners_file ≡ ok reg
    → All
        (λ (p : PartnerConfig). Decides (
          enforce_policy info
            (partner_ciphers p settings.crypto.allowed_ciphers)
            (partner_digests p settings.crypto.allowed_digests)
            require_signature))
        (partners_of reg)
unfolding load_partners_file partners_of registry values
enforce_policy-loaded py read_settings read_partners path settings reg info require_signature h g =
    let (ciphers, digests) = loaded-IsKnown py read_settings path settings h in
    let (raw, h1, h2) = >>=-eq-ok (read_partners settings.partners_file) _ g in
    let (parsed, h3, h4) = >>=-eq-ok (validate_partners py raw) _ h2 in
    let (checked, e) = load_partners-checked parsed reg h4 in
    rw e (
      All-change (λ (p : PartnerConfig). HasKnown p.crypto_overrides) _
        (values (index_by (λ p. p.name) [] parsed))
        (λ p k.
          enforce_policy-Decides info (partner_ciphers p settings.crypto.allowed_ciphers)
            (partner_digests p settings.crypto.allowed_digests) require_signature
            (partner_ciphers-IsKnown p settings.crypto.allowed_ciphers k ciphers)
            (partner_digests-IsKnown p settings.crypto.allowed_digests k digests))
        (All-index_by (λ (p : PartnerConfig). HasKnown p.crypto_overrides) (λ p. p.name) [] parsed
          (validate_partners-HasKnown py raw parsed h3) tt))
