-- ===== src/Settings.antt =====
-- app/settings.py: the configuration, and the values that it reads from the environment. Left out
-- are the timeouts, the poll interval and the logging, which only libraries read.
pub mod Load
pub mod Database
pub mod Checked
pub mod Known
use naesb_edi.Base.{
  ℕ, ℤ, Bool, Option, none, some, List, [], ◌∷◌, Text, Result, ok, err, if◌then◌else◌, is_some,
}
use naesb_edi.Base.Dict.{Dict, lookup}
use naesb_edi.Exceptions.{Exception, missing_env_var, value_error}

-- `os.environ.get`
abbrev pub Environ : Type 0
Environ = Text → Option Text

abbrev found : Text → Option Text → Result Exception Text
found var_name none = err (missing_env_var var_name)
found var_name (some v) = ok v

unfoldable pub resolve_env : Environ → Text → Result Exception Text
resolve_env environ var_name = found var_name (environ var_name)

-- The names that are not known.
unfoldable pub unknown_names : Dict ℕ → List Text → List Text
unknown_names known [] = []
unknown_names known (name ∷ names) =
    let rest = unknown_names known names in
    if is_some (lookup name known) then rest else name ∷ rest

abbrev none_unknown : Text → List Text → Result Exception (Unit {0})
none_unknown field_name [] = ok tt
none_unknown field_name (_ ∷ _) = err (value_error field_name)

unfoldable pub check_known_algo_names : List Text → Dict ℕ → Text → Result Exception (Unit {0})
unfolding unknown_names
check_known_algo_names names known_ids field_name =
    none_unknown field_name (unknown_names known_ids names)

pub record IdentityConfig : Type 0 where
  pub name : Text
  pub duns : Text

pub record ServerConfig : Type 0 where
  pub host : Text
  pub port : ℤ
  pub inbound_path : Text
  pub max_body_size_bytes : ℕ
  pub outbound_source_address : Option Text

pub record CryptoConfig : Type 0 where
  pub private_key_path : Text
  pub passphrase_env : Text
  pub gnupg_home : Text
  pub min_rsa_key_bits : ℤ
  pub recommended_rsa_key_bits : ℤ
  pub cipher_algo : Text
  pub digest_algo : Text
  pub compress_algo : Text
  pub tls_min_version : Text
  pub allowed_ciphers : List Text
  pub allowed_digests : List Text

pub record EnvelopeConfig : Type 0 where
  pub server_id : Text
  pub default_version : Text
  pub receipt_security_selection : Text

pub record FilesystemSinkConfig : Type 0 where
  pub enabled : Bool
  pub durable : Bool
  pub base_dir : Text

pub record S3SinkConfig : Type 0 where
  pub enabled : Bool
  pub durable : Bool
  pub endpoint_url : Option Text
  pub bucket : Text
  pub prefix : Text
  pub region : Text
  pub access_key_env : Text
  pub secret_key_env : Text

pub record WebhookSinkConfig : Type 0 where
  pub enabled : Bool
  pub durable : Bool
  pub url : Option Text

pub record SinksConfig : Type 0 where
  pub require_at_least_one_durable_success : Bool
  pub filesystem : FilesystemSinkConfig
  pub s3 : Option S3SinkConfig
  pub webhook : WebhookSinkConfig

pub record DatabaseConfig : Type 0 where
  pub url_env : Text
  pub username_env : Option Text
  pub password_env : Option Text

pub record InternalApiConfig : Type 0 where
  pub username_env : Text
  pub password_env : Text

pub record OutboundConfig : Type 0 where
  pub retry_schedule_seconds : List ℤ

pub record Settings : Type 0 where
  pub identity : IdentityConfig
  pub server : ServerConfig
  pub crypto : CryptoConfig
  pub envelope : EnvelopeConfig
  pub sinks : SinksConfig
  pub database : DatabaseConfig
  pub internal_api : InternalApiConfig
  pub outbound : OutboundConfig
  pub partners_file : Text

-- `CryptoConfig.passphrase`
unfoldable pub passphrase : Environ → Settings → Result Exception Text
unfolding resolve_env
passphrase environ settings = resolve_env environ settings.crypto.passphrase_env

-- `S3SinkConfig.access_key`, `S3SinkConfig.secret_key`, `InternalApiConfig.username` and
-- `InternalApiConfig.password`
unfoldable pub access_key : Environ → S3SinkConfig → Result Exception Text
unfolding resolve_env
access_key environ c = resolve_env environ c.access_key_env

unfoldable pub secret_key : Environ → S3SinkConfig → Result Exception Text
unfolding resolve_env
secret_key environ c = resolve_env environ c.secret_key_env

unfoldable pub username : Environ → InternalApiConfig → Result Exception Text
unfolding resolve_env
username environ c = resolve_env environ c.username_env

unfoldable pub password : Environ → InternalApiConfig → Result Exception Text
unfolding resolve_env
password environ c = resolve_env environ c.password_env
