-- ===== src/Wiring.antt =====
-- app/main.py: the sinks that the configuration asks for, and the start of the gateway. The
-- construction of the clients, the pool and the logging are left out.
pub mod Built
pub mod Ready
pub mod Run
use naesb_edi.Base.{
  ℕ, Bool, true, false, Option, none, some, List, [], ◌∷◌, ◌++◌, Text, Python, Result, ok, err,
  ◌>>=◌, map_err, codes, if◌then◌else◌,
}
use naesb_edi.Base.Dict.{Dict}
use naesb_edi.Crypto.Keyring.{KeyringEnv, KeyringError, Warning, bootstrap_keyring}
use naesb_edi.Exceptions.{Exception, other}
use naesb_edi.Gateway.{Outside, App}
use naesb_edi.Partners.{PartnerConfig, PartnerRegistry, partners_of}
use naesb_edi.Partners.Load.{load_partners_file}
use naesb_edi.Settings.{
  Environ, FilesystemSinkConfig, S3SinkConfig, WebhookSinkConfig, Settings, access_key, secret_key,
}
use naesb_edi.Settings.Database.{UrlEnv, database_url}
use naesb_edi.Settings.Load.{load_settings}
use naesb_edi.Sinks.{Sink}
use naesb_edi.Sinks.Backends.{
  BackendEnv, FilesystemSink, S3Sink, WebhookSink, filesystem_sink, s3_sink, webhook_sink,
}
use naesb_edi.Tracking.Migrations.{Migration, Database, run_migrations}

module _ (env : BackendEnv) (environ : Environ) where
  unfoldable pub build_filesystem : FilesystemSinkConfig → List Sink
  unfolding filesystem_sink
  build_filesystem c =
      if c.enabled
      then filesystem_sink env (record { base_dir = c.base_dir; durable = c.durable }) ∷ []
      else []

  -- The configuration's keys are read from the environment here.
  unfoldable pub s3_of : S3SinkConfig → Result Exception (List Sink)
  unfolding access_key secret_key s3_sink
  s3_of c = do
    access ← access_key environ c
    secret ← secret_key environ c
    ok (
        s3_sink env (record {
          bucket = c.bucket;
          prefix = c.prefix;
          region = c.region;
          endpoint_url = c.endpoint_url;
          access_key = access;
          secret_key = secret;
          durable = c.durable;
        })
        ∷ [])

  unfoldable pub build_s3 : Option S3SinkConfig → Result Exception (List Sink)
  unfolding s3_of
  build_s3 none = ok []
  build_s3 (some c) = if c.enabled then s3_of c else ok []

  -- `assert webhook_cfg.url is not None`
  abbrev pub webhook_of : Option Text → Result Exception (List Sink)
  webhook_of none = err (other [])
  webhook_of (some url) = ok (webhook_sink env (record { url = url }) ∷ [])

  unfoldable pub build_webhook : WebhookSinkConfig → Result Exception (List Sink)
  unfolding webhook_sink
  build_webhook c = if c.enabled then webhook_of c.url else ok []

  unfoldable pub build_sinks : Settings → Result Exception (List Sink)
  unfolding build_filesystem build_s3 build_webhook
  build_sinks settings = do
    s3 ← build_s3 settings.sinks.s3
    webhook ← build_webhook settings.sinks.webhook
    ok (build_filesystem settings.sinks.filesystem ++ (s3 ++ webhook))

-- What the start reads and calls outside the repository.
pub record StartEnv (K S : Type 0) : Type 0 where
  pub outside : Outside
  pub backends : BackendEnv
  pub keyring : KeyringEnv K
  pub urls : UrlEnv
  pub read_settings : Text → Result Exception Settings
  pub read_partners : Text → Result Exception (List PartnerConfig)
  -- `MIGRATIONS_DIR.glob("*.sql")`, and what a file's SQL does
  pub migrations : List Migration
  pub execute : Text → S → Result Exception S

pub data StartError : Type 0 where
  raised : Exception → StartError
  keyring_error : KeyringError → StartError

-- What `app.state` holds, and the keyring and the database as the start leaves them.
pub record Started (K S : Type 0) : Type 0 where
  pub app : App
  pub partners : PartnerRegistry
  pub keys : K
  pub database : Database S

abbrev pub migrated {ℓ} : {S : Type ℓ} → Result Exception (Unit {0}) × S → Result StartError S
migrated (ok u, db) = ok db
migrated (err e, db) = err (raised e)

-- `load_settings` at the import of the module, and `lifespan` up to its `yield`.
unfoldable pub start :
    {K S : Type 0} → StartEnv K S → Text → K → Database S → Result StartError (Started K S)
unfolding load_settings load_partners_file bootstrap_keyring database_url run_migrations build_sinks
start env config_path keys database = do
  settings ← map_err raised (load_settings env.outside.py env.read_settings config_path)
  partners ←
      map_err raised (load_partners_file env.outside.py env.read_partners settings.partners_file)
  (fingerprints, imported, warnings) ← map_err keyring_error (
      bootstrap_keyring env.keyring settings.crypto.private_key_path (partners_of partners)
        settings.crypto.min_rsa_key_bits settings.crypto.recommended_rsa_key_bits keys)
  url ← map_err raised (database_url env.urls env.outside.environ settings.database)
  current ← migrated (run_migrations env.execute env.migrations database)
  sinks ← map_err raised (build_sinks env.backends env.outside.environ settings)
  ok (record {
    app = record {
      outside = env.outside;
      settings = settings;
      fingerprints = fingerprints;
      sinks = sinks;
    };
    partners = partners;
    keys = imported;
    database = current;
  })
