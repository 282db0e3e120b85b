-- ===== src/Wiring/Ready.antt =====
-- app/main.py: what a start that returns has made sure of.
use mathlib.Core.Path.{subst}
use naesb_edi.Base.{
  ◌≡◌, sym, ap, Bool, not, ◌&&◌, ◌||◌, some, List, All, Text, Python, Result, ok, err, >>=-eq-ok,
  ok-injective, map_err, map_err-ok, any, arith,
}
use naesb_edi.Base.Dict.{lookup}
use naesb_edi.Crypto.Keyring.{all_keys, bootstrap_keyring}
use naesb_edi.Crypto.Keyring.Strong.{bootstrap_keyring-IsStrong}
use naesb_edi.Crypto.Keyring.Imported.{IsStrong}
use naesb_edi.Crypto.Policy.{AlgorithmInfo, enforce_policy}
use naesb_edi.Exceptions.{Exception}
use naesb_edi.Partners.{
  PartnerConfig, PartnerRegistry, partners_of, partner_ciphers, partner_digests,
}
use naesb_edi.Partners.Named.{AreNamed, registry-AreNamed}
use naesb_edi.Partners.Load.{validate_partners, load_partners_file}
use naesb_edi.Partners.Found.{load_partners-checked}
use naesb_edi.Settings.Database.{database_url}
use naesb_edi.Settings.Known.{Decides, enforce_policy-loaded}
use naesb_edi.Settings.Load.{load_settings}
use naesb_edi.Sinks.{InboundMessage, Sink, fan_out, deliver_safely, has_durable_success}
use naesb_edi.Sinks.Kept.{has_durable_success_lem}
use naesb_edi.Tracking.Migrations.{Migration, Database, run_migrations}
use naesb_edi.Tracking.Migrations.Again.{run_migrations-again}
use naesb_edi.Wiring.{
  build_sinks, StartEnv, Started, raised as start_raised, keyring_error, migrated, start,
}
use naesb_edi.Wiring.Built.{build_sinks-AreDifferent}

-- What the gateway relies on while it runs.
pub record IsReady {K S : Type 0} (env : StartEnv K S) (message : InboundMessage)
    (info : AlgorithmInfo) (require_signature : Bool) (st : Started K S) : Type 0 where
  pub keys :
      All
        (IsStrong env.keyring.py
          (partners_of st.partners)
          st.app.fingerprints
          st.app.settings.crypto.min_rsa_key_bits)
        (all_keys env.keyring st.keys)
  pub fingerprints :
      All
        (λ (p : PartnerConfig). (f : Text) × (lookup p.name st.app.fingerprints ≡ some f))
        (partners_of st.partners)
  pub policy :
      All
        (λ (p : PartnerConfig). Decides (
          enforce_policy info
            (partner_ciphers p st.app.settings.crypto.allowed_ciphers)
            (partner_digests p st.app.settings.crypto.allowed_digests)
            require_signature))
        (partners_of st.partners)
  pub sinks :
      All
        (λ (s : Sink).
          lookup s.name (fan_out st.app.sinks message) ≡ some (deliver_safely s message))
        st.app.sinks
  pub durable : has_durable_success st.app.sinks (fan_out st.app.sinks message) ≡ (
      not (any (λ s. s.durable) st.app.sinks)
      || any (λ s. s.durable && (deliver_safely s message).ok) st.app.sinks)
  pub migrated : run_migrations env.execute env.migrations st.database ≡ (ok tt, st.database)

pub load_partners_file-AreNamed :
    (py : Python) (read_file : Text → Result Exception (List PartnerConfig)) (path : Text)
    (reg : PartnerRegistry)
    → load_partners_file py read_file path ≡ ok reg
    → AreNamed (partners_of reg)
unfolding load_partners_file
load_partners_file-AreNamed py read_file path reg h =
    let (raw, h1, h2) = >>=-eq-ok (read_file path) _ h in
    let (parsed, h3, h4) = >>=-eq-ok (validate_partners py raw) _ h2 in
    let (checked, e) = load_partners-checked parsed reg h4 in rw e (registry-AreNamed parsed)

migrated-ok :
    {S : Type 0} (r : Result Exception (Unit {0}) × S) (db : S)
    → migrated r ≡ ok db
    → r ≡ (ok tt, db)
migrated-ok (ok u, x) db h = ap (λ y. (ok tt, y)) (ok-injective h)
migrated-ok (err e, x) db h = absurd (ground arith)

again :
    {S : Type 0} (execute : Text → S → Result Exception S) (files : List Migration)
    (database current : Database S)
    → run_migrations execute files database ≡ (ok tt, current)
    → run_migrations execute files current ≡ (ok tt, current)
again execute files database current e =
    let next : (run_migrations execute files database).1 ≡ current = ap (λ r. r.1) e in
    subst (λ db. run_migrations execute files db ≡ (ok tt, db)) next
      (run_migrations-again execute files database (ap (λ r. r.0) e))

-- A start that returns leaves a gateway whose keyring has strong keys only, with a fingerprint
-- for every partner; the policy decides about every message of every partner without a `KeyError`; each
-- sink's result is found under its name, and the check for a durable success says whether
-- there is no durable sink or one of them took the message; a further run of the migrations changes nothing.
pub start-IsReady :
    {K S : Type 0} (env : StartEnv K S) (path : Text) (keys : K) (database : Database S)
    (st : Started K S) (message : InboundMessage) (info : AlgorithmInfo) (require_signature : Bool)
    → start env path keys database ≡ ok st
    → IsReady env message info require_signature st
unfolding start
start-IsReady {K} {S} env path keys database st message info require_signature h =
    let (settings, h1, h2) =
      >>=-eq-ok (map_err start_raised (load_settings env.outside.py env.read_settings path)) _ h in
    let (reg, h3, h4) =
      >>=-eq-ok
        (map_err start_raised
          (load_partners_file env.outside.py env.read_partners settings.partners_file))
        _ h2 in
    let ((fingerprints, imported, warnings), h5, h6) =
      >>=-eq-ok
        (map_err keyring_error (
          bootstrap_keyring env.keyring settings.crypto.private_key_path (partners_of reg)
            settings.crypto.min_rsa_key_bits settings.crypto.recommended_rsa_key_bits keys))
        _ h4 in
    let (url, u1, u2) =
      >>=-eq-ok (map_err start_raised (database_url env.urls env.outside.environ settings.database))
        _ h6 in
    let (current, h7, h8) =
      >>=-eq-ok (migrated (run_migrations env.execute env.migrations database)) _ u2 in
    let (sinks, h9, h10) =
      >>=-eq-ok (map_err start_raised (build_sinks env.backends env.outside.environ settings)) _
        h8 in
    let loaded =
      map_err-ok start_raised (load_settings env.outside.py env.read_settings path) settings h1 in
    let partners =
      map_err-ok start_raised
        (load_partners_file env.outside.py env.read_partners settings.partners_file) reg h3 in
    let ring =
      map_err-ok keyring_error
        (bootstrap_keyring env.keyring settings.crypto.private_key_path (partners_of reg)
          settings.crypto.min_rsa_key_bits settings.crypto.recommended_rsa_key_bits keys)
        (fingerprints, imported, warnings) h5 in
    let ran = migrated-ok (run_migrations env.execute env.migrations database) current h7 in
    let built =
      map_err-ok start_raised (build_sinks env.backends env.outside.environ settings) sinks h9 in
    let (named, different) =
      build_sinks-AreDifferent env.backends env.outside.environ message settings sinks built in
    let (kept, durable) = has_durable_success_lem message sinks named different in
    let (strong, found) =
      bootstrap_keyring-IsStrong env.keyring settings.crypto.private_key_path (partners_of reg)
        settings.crypto.min_rsa_key_bits settings.crypto.recommended_rsa_key_bits keys imported
        fingerprints warnings
        (load_partners_file-AreNamed env.outside.py env.read_partners settings.partners_file reg
          partners)
        ring in
    rw (sym (ok-injective h10)) (record {
      keys = strong;
      fingerprints = found;
      policy =
          enforce_policy-loaded env.outside.py env.read_settings env.read_partners path settings reg
            info require_signature loaded partners;
      sinks = kept;
      durable = durable;
      migrated = again env.execute env.migrations database current ran;
    })
