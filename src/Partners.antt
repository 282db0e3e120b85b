-- ===== src/Partners.antt =====
-- app/partners.py: a partner's configuration, and the registry with its two indexes.
pub mod Load
pub mod Found
pub mod Named
use naesb_edi.Base.{
  ℤ, Bool, false, Option, none, some, List, [], ◌∷◌, Text, Python, Result, ok, err,
}
use naesb_edi.Base.Dict.{Dict, lookup, insert, values}
use naesb_edi.Duns.{normalize_duns}
use naesb_edi.Exceptions.{Exception, value_error}

pub data AuthConfig : Type 0 where
  -- username, and the variable that holds the password
  basic_auth : Text → Text → AuthConfig
  -- the variable that holds the key
  api_key_auth : Text → AuthConfig

pub record EnvelopeOverrides : Type 0 where
  pub version : Option Text
  pub agreed_transaction_sets : Option (List Text)
  pub use_refnum : Bool

pub record CryptoOverrides : Type 0 where
  pub allowed_ciphers : Option (List Text)
  pub allowed_digests : Option (List Text)
  pub min_rsa_key_bits : Option ℤ

pub record PartnerConfig : Type 0 where
  pub name : Text
  pub duns : Text
  pub endpoint_url : Text
  pub pgp_public_key_path : Text
  pub outbound_auth : AuthConfig
  pub inbound_auth : AuthConfig
  pub envelope_overrides : Option EnvelopeOverrides
  pub crypto_overrides : Option CryptoOverrides
  pub require_signature : Bool

abbrev overrides_use_refnum : Option EnvelopeOverrides → Bool
overrides_use_refnum none = false
overrides_use_refnum (some o) = o.use_refnum

unfoldable pub use_refnum : PartnerConfig → Bool
use_refnum partner = overrides_use_refnum partner.envelope_overrides

-- `a if a else b` of an optional text or list, where an empty one counts as absent.
abbrev pub or_default {ℓ} : {A : Type ℓ} → Option (List A) → List A → List A
or_default (some (x ∷ xs)) d = x ∷ xs
or_default _ d = d

abbrev overrides_version : Option EnvelopeOverrides → Option Text
overrides_version none = none
overrides_version (some o) = o.version

abbrev pub overrides_ciphers : Option CryptoOverrides → Option (List Text)
overrides_ciphers none = none
overrides_ciphers (some o) = o.allowed_ciphers

abbrev pub overrides_digests : Option CryptoOverrides → Option (List Text)
overrides_digests none = none
overrides_digests (some o) = o.allowed_digests

-- The version that a partner's transmissions carry, given the global default.
unfoldable pub partner_version : PartnerConfig → Text → Text
partner_version partner default_version =
    or_default (overrides_version partner.envelope_overrides) default_version

unfoldable pub partner_ciphers : PartnerConfig → List Text → List Text
partner_ciphers partner allowed = or_default (overrides_ciphers partner.crypto_overrides) allowed

unfoldable pub partner_digests : PartnerConfig → List Text → List Text
partner_digests partner allowed = or_default (overrides_digests partner.crypto_overrides) allowed

pub record PartnerRegistry : Type 0 where
  pub by_name : Dict PartnerConfig
  pub by_duns : Dict PartnerConfig

-- `{key(p): p for p in partners}`
unfoldable pub index_by :
    (PartnerConfig → Text) → Dict PartnerConfig → List PartnerConfig → Dict PartnerConfig
index_by key d [] = d
index_by key d (p ∷ ps) = index_by key (insert (key p) p d) ps

unfoldable pub registry : List PartnerConfig → PartnerRegistry
unfolding index_by
registry partners = record {
  by_name = index_by (λ p. p.name) [] partners;
  by_duns = index_by (λ p. p.duns) [] partners;
}

unfoldable pub get_by_name : PartnerRegistry → Text → Option PartnerConfig
get_by_name r name = lookup name r.by_name

unfoldable pub get_by_duns : Python → PartnerRegistry → Text → Option PartnerConfig
get_by_duns py r duns = lookup (normalize_duns py duns) r.by_duns

-- `iter(registry)`
unfoldable pub partners_of : PartnerRegistry → List PartnerConfig
partners_of r = values r.by_name

-- The loop of `load_partners`: the name seen for each DUNS, or the error for one seen twice.
unfoldable pub check_duns : Dict Text → List PartnerConfig → Result Exception (Unit {0})
check_duns seen [] = ok tt
check_duns seen (p ∷ ps) = elim (lookup p.duns seen) [
  | some _ ↦ err (value_error p.duns)
  | none ↦ check_duns (insert p.duns p.name seen) ps
]

abbrev registered :
    List PartnerConfig → Result Exception (Unit {0}) → Result Exception PartnerRegistry
registered partners (ok _) = ok (registry partners)
registered partners (err e) = err e

-- `load_partners` behind the reading of the file: pydantic has normalised each DUNS.
unfoldable pub load_partners : List PartnerConfig → Result Exception PartnerRegistry
unfolding check_duns
load_partners partners = registered partners (check_duns [] partners)
