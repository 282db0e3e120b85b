-- ===== src/Partners/Load.antt =====
-- `load_partners` of app/partners.py with the validators of `CryptoOverrides` and `PartnerConfig`.
-- Reading YAML is a library's; pydantic's one error for all faults is represented by the first.
use naesb_edi.Base.{Option, none, some, List, [], ◌∷◌, Text, Python, Result, ok, ◌>>=◌}
use naesb_edi.Duns.{normalize_duns}
use naesb_edi.Exceptions.{Exception}
use naesb_edi.Partners.{CryptoOverrides, PartnerConfig, PartnerRegistry, load_partners}
use naesb_edi.Settings.Load.{validate_allowed_ciphers, validate_allowed_digests}

-- `if value is not None: check_known_algo_names(...)`
abbrev pub validate_optional :
    (List Text → Result Exception (List Text))
    → Option (List Text)
    → Result Exception (Option (List Text))
validate_optional check none = ok none
validate_optional check (some value) = do checked ← check value; ok (some checked)

unfoldable pub validate_overrides : CryptoOverrides → Result Exception CryptoOverrides
unfolding validate_allowed_ciphers validate_allowed_digests
validate_overrides o = do
  ciphers ← validate_optional validate_allowed_ciphers o.allowed_ciphers
  digests ← validate_optional validate_allowed_digests o.allowed_digests
  ok (record o { allowed_ciphers = ciphers; allowed_digests = digests })

abbrev pub validate_given : Option CryptoOverrides → Result Exception (Option CryptoOverrides)
validate_given none = ok none
validate_given (some o) = do checked ← validate_overrides o; ok (some checked)

module _ (py : Python) where
  unfoldable pub validate_partner : PartnerConfig → Result Exception PartnerConfig
  unfolding validate_overrides normalize_duns
  validate_partner p = do
    overrides ← validate_given p.crypto_overrides
    ok (record p { duns = normalize_duns py p.duns; crypto_overrides = overrides })

  -- `PartnersFile.model_validate`
  unfoldable pub validate_partners : List PartnerConfig → Result Exception (List PartnerConfig)
  unfolding validate_partner
  validate_partners [] = ok []
  validate_partners (p ∷ ps) = do
    checked ← validate_partner p
    more ← validate_partners ps
    ok (checked ∷ more)

  -- The reading of the file and of its YAML is a parameter.
  unfoldable pub load_partners_file :
      (Text → Result Exception (List PartnerConfig)) → Text → Result Exception PartnerRegistry
  unfolding validate_partners load_partners
  load_partners_file read_file path = do
    raw ← read_file path
    parsed ← validate_partners raw
    load_partners parsed
