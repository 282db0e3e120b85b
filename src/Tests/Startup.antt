-- ===== src/Tests/Startup.antt =====
-- Starting the gateway of the fixtures.
use naesb_edi.Base.{
  ◌≡◌, refl, true, Option, none, some, List, [], ◌∷◌, All, Text, equal, ◌++◌, if◌then◌else◌, Result,
  ok, codes, pos, ascii_python,
}
use naesb_edi.Base.Dict.{lookup, insert, values}
use naesb_edi.Crypto.Policy.{
  cipher_algo_ids, digest_algo_ids, enforce_policy, check_key_length, int_lt, is_rsa_pubkey_algo,
}
use naesb_edi.Crypto.Keyring.{
  ListedKey, KeyringEnv, all_keys, bootstrap_keyring, Warning, import_partners, import_partner,
  validate_key_lengths, check_key, key_length, effective_min_bits, own_min_bits,
}
use naesb_edi.Crypto.Keyring.Strong.{bootstrap_keyring-IsStrong}
use naesb_edi.Crypto.Keyring.Imported.{IsStrong}
use naesb_edi.Partners.{
  PartnerConfig, partners_of, get_by_duns, partner_ciphers, partner_digests, load_partners,
  registry, check_duns,
}
use naesb_edi.Partners.Found.{AreApart, load_partners_file-finds}
use naesb_edi.Partners.Load.{load_partners_file, validate_partners, validate_partner}
use naesb_edi.Exceptions.{Exception}
use naesb_edi.Settings.{Settings}
use naesb_edi.Settings.Known.{Decides, enforce_policy-loaded}
use naesb_edi.Settings.Load.{
  load_settings, model_validate, validate_allowed_ciphers, validate_allowed_digests,
}
use naesb_edi.Settings.Database.{UrlEnv}
use naesb_edi.Sinks.Backends.{filesystem_sink, webhook_sink}
use naesb_edi.Tracking.Migrations.{run_migrations}
use naesb_edi.Wiring.{StartEnv, Started, start, build_sinks}
use naesb_edi.Wiring.Ready.{IsReady, start-IsReady}
use naesb_edi.Tests.Sinks.{backends, message, execute}
use naesb_edi.Tests.Fixtures.{outside, settings, partner, ascii_python-IsPython}

-- A keyring that lists what was imported, with 2048 bits for a partner's key.
abbrev pub keyring : KeyringEnv (List ListedKey)
keyring = record {
  py = record ascii_python { int_of = λ t. some (pos 2048) };
  read_text = λ path. ok path;
  import_keys = λ key_data keys. (
    key_data ∷ [],
    record { fingerprint = some key_data; algo = codes "1"; length = codes "2048" } ∷ keys,
  );
  list_keys = λ secret keys. keys;
}

abbrev key_of : Text → ListedKey
key_of t = record { fingerprint = some t; algo = codes "1"; length = codes "2048" }

abbrev keys : List ListedKey
keys = key_of (codes "acme.asc") ∷ key_of (codes "own.asc") ∷ []

abbrev warned : Text → Warning
warned t = record { fingerprint = some t; length = pos 2048; recommended = pos 4096 }

abbrev warnings : List Warning
warnings =
    warned (codes "acme.asc")
    ∷ warned (codes "own.asc")
    ∷ warned (codes "acme.asc")
    ∷ warned (codes "own.asc")
    ∷ []

bootstrap_keyring-IsStrong_example :
    All
      (IsStrong keyring.py
        (partner ∷ [])
        ((codes "_self", codes "own.asc") ∷ (codes "acme", codes "acme.asc") ∷ [])
        (pos 2048))
      (all_keys keyring keys)
    × All
        (λ (p : PartnerConfig).
          (f : Text) × (lookup p.name
              ((codes "_self", codes "own.asc") ∷ (codes "acme", codes "acme.asc") ∷ [])
            ≡ some f))
        (partner ∷ [])
unfolding bootstrap_keyring import_partners validate_key_lengths lookup insert check_key_length
    int_lt is_rsa_pubkey_algo check_key key_length effective_min_bits import_partner own_min_bits
    equal
bootstrap_keyring-IsStrong_example =
    bootstrap_keyring-IsStrong keyring (codes "own.asc") (partner ∷ []) (pos 2048) (pos 4096) []
      keys ((codes "_self", codes "own.asc") ∷ (codes "acme", codes "acme.asc") ∷ []) warnings
      (tt, tt) refl

abbrev read_partners : Text → Result Exception (List PartnerConfig)
read_partners path = ok (partner ∷ [])

abbrev read_settings : Text → Result Exception Settings
read_settings path = ok settings

load_partners_file-finds_example :
    (parsed : List PartnerConfig) × (validate_partners ascii_python (partner ∷ []) ≡ ok parsed)
    × AreApart parsed
    × All
        (λ (q : PartnerConfig). get_by_duns ascii_python (registry (partner ∷ [])) q.duns ≡ some q)
        parsed
unfolding load_partners_file load_partners validate_partners validate_partner lookup insert
    check_duns equal naesb_edi.Duns.normalize_duns
load_partners_file-finds_example =
    load_partners_file-finds ascii_python ascii_python-IsPython read_partners
      (codes "partners.yaml") (partner ∷ []) (registry (partner ∷ [])) refl refl

enforce_policy-loaded_example :
    All
      (λ (p : PartnerConfig). Decides (
        enforce_policy
          (record { cipher_algo = some (pos 2); hash_algo = none })
          (partner_ciphers p settings.crypto.allowed_ciphers)
          (partner_digests p settings.crypto.allowed_digests)
          true))
      (partners_of (registry (partner ∷ [])))
unfolding load_partners_file load_partners validate_partners validate_partner lookup insert
    check_duns equal naesb_edi.Duns.normalize_duns load_settings model_validate
    validate_allowed_ciphers validate_allowed_digests cipher_algo_ids digest_algo_ids
    naesb_edi.Settings.check_known_algo_names naesb_edi.Settings.unknown_names
enforce_policy-loaded_example =
    enforce_policy-loaded ascii_python read_settings read_partners (codes "config.yaml") settings
      (registry (partner ∷ [])) (record { cipher_algo = some (pos 2); hash_algo = none }) true refl
      refl

abbrev url_env : UrlEnv
url_env = record {
  urlsplit = λ url. ok (record {
    scheme = codes "postgresql";
    username = some (codes "old");
    password = none;
    hostname = some (codes "db");
    port = some 5432;
    path = codes "/naesb";
    query = [];
    fragment = [];
  });
  urlunsplit = λ scheme location path query fragment. scheme ++ (codes "://" ++ (location ++ path));
}

abbrev environ : Text → Option Text
environ v =
    if equal v (codes "URL")
    then some (codes "postgresql://old@db:5432/naesb")
    else if equal v (codes "U")
    then some (codes "me")
    else some (codes "pw")

abbrev pub start_env : StartEnv (List ListedKey) (List Text)
start_env = record {
  outside = record outside { py = keyring.py };
  backends = backends;
  keyring = keyring;
  urls = url_env;
  read_settings = read_settings;
  read_partners = read_partners;
  migrations = record { name = codes "0001_init.sql"; text = ok (codes "CREATE") } ∷ [];
  execute = execute;
}

unfoldable started : Started (List ListedKey) (List Text)
unfolding filesystem_sink webhook_sink
started = record {
  app = record {
    outside = start_env.outside;
    settings = settings;
    fingerprints = (codes "_self", codes "own.asc") ∷ (codes "acme", codes "acme.asc") ∷ [];
    sinks =
        filesystem_sink backends (record { base_dir = codes "/data"; durable = true })
        ∷ webhook_sink backends (record { url = codes "https://hook" })
        ∷ [];
  };
  partners = registry (partner ∷ []);
  keys = keys;
  database = record { schema = codes "CREATE" ∷ []; applied = codes "0001_init.sql" ∷ [] };
}

start-IsReady_example :
    IsReady start_env message (record { cipher_algo = some (pos 2); hash_algo = none }) true started
unfolding start started load_settings load_partners_file bootstrap_keyring run_migrations
    build_sinks equal lookup partners_of values registry insert
start-IsReady_example =
    start-IsReady start_env (codes "config.yaml") [] (record { schema = []; applied = [] }) started
      message (record { cipher_algo = some (pos 2); hash_algo = none }) true refl
