-- ===== src/Wiring/Run.antt =====
-- `run_worker` of app/worker.py: the start of the worker, which is the gateway's without the sinks, and
-- its loop.
use mathlib.Core.Path.{subst}
use naesb_edi.Base.{
  ℕ, ◌≡◌, refl, sym, [], err, Option, some, All, Text, Result, ok, ◌>>=◌, >>=-eq-ok, ok-injective,
  map_err, map_err-ok,
}
use naesb_edi.Base.Dict.{lookup}
use naesb_edi.Crypto.Keyring.{bootstrap_keyring}
use naesb_edi.Crypto.Keyring.Strong.{bootstrap_keyring-IsStrong}
use naesb_edi.Exceptions.{Exception}
use naesb_edi.Outbound.{Http}
use naesb_edi.Partners.{PartnerConfig, partners_of}
use naesb_edi.Partners.Load.{load_partners_file}
use naesb_edi.Settings.{Settings}
use naesb_edi.Settings.Database.{database_url}
use naesb_edi.Tracking.Migrations.{Database, run_migrations}
use naesb_edi.Worker.{Config, Desk, Cycle, Loop, run_cycles}
use naesb_edi.Worker.Fleet.Runs.{Leads, run_cycles-Leads}
use naesb_edi.Wiring.{StartEnv, StartError, raised, keyring_error, migrated}
use naesb_edi.Wiring.Ready.{load_partners_file-AreNamed}

-- What the worker's loop runs with.
unfoldable pub start_worker :
    {K S : Type 0} → StartEnv K S → Http → Settings → K → Database S → Result StartError Config
unfolding load_partners_file bootstrap_keyring database_url run_migrations
start_worker env http settings keys database = do
  partners ←
      map_err raised (load_partners_file env.outside.py env.read_partners settings.partners_file)
  (fingerprints, imported, warnings) ← map_err keyring_error (
      bootstrap_keyring env.keyring settings.crypto.private_key_path (partners_of partners)
        settings.crypto.min_rsa_key_bits settings.crypto.recommended_rsa_key_bits keys)
  url ← map_err raised (database_url env.urls env.outside.environ settings.database)
  current ← migrated (run_migrations env.execute env.migrations database)
  ok (record {
    outside = env.outside;
    http = http;
    settings = settings;
    fingerprints = fingerprints;
    partners = partners;
  })

-- The loop begins with its count at 0. `fuel` is how often its condition is tested at most.
unfoldable pub run_worker :
    {K S : Type 0}
    → StartEnv K S
    → Http
    → Settings
    → (ℕ → Cycle)
    → Option ℕ
    → ℕ
    → K
    → Database S
    → Desk
    → Result StartError (Option (Result Exception (Unit {0})) × Loop)
unfolding start_worker run_cycles
run_worker env http settings cycles iterations fuel keys database desk = do
  config ← start_worker env http settings keys database
  ok (run_cycles config cycles iterations fuel (record { desk = desk; count = 0; slept = 0 }))

-- A worker that started has a fingerprint for every partner, and its settings; so an attempt for a
-- partner of its registry does not raise a `KeyError`.
pub start_worker-found :
    {K S : Type 0} (env : StartEnv K S) (http : Http) (settings : Settings) (keys : K)
    (database : Database S) (config : Config)
    → start_worker env http settings keys database ≡ ok config
    → All
        (λ (p : PartnerConfig). (f : Text) × (lookup p.name config.fingerprints ≡ some f))
        (partners_of config.partners)
      × (config.settings ≡ settings)
unfolding start_worker
start_worker-found env http settings keys database config h =
    let (reg, h1, h2) =
      >>=-eq-ok
        (map_err raised
          (load_partners_file env.outside.py env.read_partners settings.partners_file))
        _ h in
    let ((fingerprints, imported, warnings), h3, h4) =
      >>=-eq-ok
        (map_err keyring_error (
          bootstrap_keyring env.keyring settings.crypto.private_key_path (partners_of reg)
            settings.crypto.min_rsa_key_bits settings.crypto.recommended_rsa_key_bits keys))
        _ h2 in
    let (url, h5, h6) =
      >>=-eq-ok (map_err raised (database_url env.urls env.outside.environ settings.database)) _
        h4 in
    let (current, h7, h8) =
      >>=-eq-ok (migrated (run_migrations env.execute env.migrations database)) _ h6 in
    let loaded =
      map_err-ok raised (load_partners_file env.outside.py env.read_partners settings.partners_file)
        reg h1 in
    let ring =
      map_err-ok keyring_error
        (bootstrap_keyring env.keyring settings.crypto.private_key_path (partners_of reg)
          settings.crypto.min_rsa_key_bits settings.crypto.recommended_rsa_key_bits keys)
        (fingerprints, imported, warnings) h3 in
    rw (sym (ok-injective h8)) (
      (bootstrap_keyring-IsStrong env.keyring settings.crypto.private_key_path (partners_of reg)
          settings.crypto.min_rsa_key_bits settings.crypto.recommended_rsa_key_bits keys imported
          fingerprints warnings
          (load_partners_file-AreNamed env.outside.py env.read_partners settings.partners_file reg
            loaded)
          ring).1,
      refl,
    )

-- If the worker starts, it runs under the configuration of that start, and whatever time is observed what
-- it has done to the table of jobs is a run of its own statements: with no job left it claims at most
-- ten, and otherwise it attempts the first of those that it holds. Unless an exception ended its loop, it
-- then holds none.
pub run_worker-Leads :
    {K S : Type 0} (env : StartEnv K S) (http : Http) (settings : Settings) (cycles : ℕ → Cycle)
    (iterations : Option ℕ) (fuel : ℕ) (keys : K) (database : Database S) (desk : Desk)
    (r : Option (Result Exception (Unit {0})) × Loop)
    → run_worker env http settings cycles iterations fuel keys database desk ≡ ok r
    → (config : Config) × (start_worker env http settings keys database ≡ ok config)
      × Leads config desk.jobs [] ((e : Exception) × (r.0 ≡ some (err e))) r.1.desk.jobs
unfolding run_worker
run_worker-Leads env http settings cycles iterations fuel keys database desk r h =
    let (config, started, ran) = >>=-eq-ok (start_worker env http settings keys database) _ h in
    (
      config,
      started,
      subst (λ x. Leads config desk.jobs [] ((e : Exception) × (x.0 ≡ some (err e))) x.1.desk.jobs)
          (ok-injective ran)
          (run_cycles-Leads config cycles iterations fuel
            (record { desk = desk; count = 0; slept = 0 })),
    )
