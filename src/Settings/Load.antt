-- ===== src/Settings/Load.antt =====
-- `load_settings` and the validators of app/settings.py, with those of `CryptoOverrides` and
-- `PartnerConfig` in app/partners.py. Reading YAML is a library's; pydantic's one error for all
-- faults is represented by the first of them.
use naesb_edi.Base.{List, Text, Python, Result, ok, ◌>>=◌, codes}
use naesb_edi.Crypto.Policy.{cipher_algo_ids, digest_algo_ids}
use naesb_edi.Duns.{normalize_duns}
use naesb_edi.Exceptions.{Exception}
use naesb_edi.Settings.{Settings, check_known_algo_names}

-- `CryptoConfig._validate_allowed_ciphers` and `CryptoConfig._validate_allowed_digests`
unfoldable pub validate_allowed_ciphers : List Text → Result Exception (List Text)
unfolding cipher_algo_ids check_known_algo_names
validate_allowed_ciphers value = do
  _ ← check_known_algo_names value cipher_algo_ids (codes "allowed_ciphers")
  ok value

unfoldable pub validate_allowed_digests : List Text → Result Exception (List Text)
unfolding digest_algo_ids check_known_algo_names
validate_allowed_digests value = do
  _ ← check_known_algo_names value digest_algo_ids (codes "allowed_digests")
  ok value

-- `Settings.model_validate` of what the file holds.
unfoldable pub model_validate : Python → Settings → Result Exception Settings
unfolding validate_allowed_ciphers validate_allowed_digests normalize_duns
model_validate py raw = do
  ciphers ← validate_allowed_ciphers raw.crypto.allowed_ciphers
  digests ← validate_allowed_digests raw.crypto.allowed_digests
  ok (record raw {
    identity = record raw.identity { duns = normalize_duns py raw.identity.duns };
    crypto = record raw.crypto { allowed_ciphers = ciphers; allowed_digests = digests };
  })

-- `load_settings`, with the reading of the file and of its YAML as a parameter.
unfoldable pub load_settings :
    Python → (Text → Result Exception Settings) → Text → Result Exception Settings
unfolding model_validate
load_settings py read_file path = do raw ← read_file path; model_validate py raw
