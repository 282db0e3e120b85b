-- ===== src/Tests/Fixtures.antt =====
-- A gateway with one partner: gpg decrypts to a fixed message, and signs with a fixed signature.
use naesb_edi.Base.{
  refl, true, false, pos, none, some, [], ◌∷◌, IsPython, ascii_python, ok, codes, equal,
}
use naesb_edi.Crypto.Gpg.{GnupgResult, Gnupg, detached_sign}
use naesb_edi.Fields.{EnvelopeFields, x12}
use naesb_edi.Gateway.{Outside, App, World}
use naesb_edi.Inbound.{Request, Context}
use naesb_edi.Inbound.Signing.{CanSign}
use naesb_edi.Partners.{PartnerConfig, api_key_auth}
use naesb_edi.Settings.{Settings}
use naesb_edi.Base.Dict.{lookup}
use naesb_edi.Tracking.{Messages}

pub ascii_python-IsPython : IsPython ascii_python
ascii_python-IsPython = record { is_digit-ascii = λ c h. refl; lower-ascii = λ s h. refl }

abbrev pub decrypted : GnupgResult
decrypted = record {
  ok = true;
  plaintext = codes "ISA";
  valid = true;
  fingerprint = some (codes "F1");
  stderr = codes "[GNUPG:] DECRYPTION_INFO 2 9\n[GNUPG:] VALIDSIG A 1 2 3 4 5 6 8 00\n";
  status = none;
}

abbrev pub gnupg : Gnupg
gnupg = record {
  decrypt = λ c p. ok decrypted;
  verify_data = λ s b. ok decrypted;
  encrypt = λ d r s p. ok (true, codes "cipher");
  sign = λ d k p. ok (codes "sig");
}

abbrev pub outside : Outside
outside = record {
  py = ascii_python;
  gnupg = gnupg;
  auth = record { b64decode = λ t. ok none; compare_digest = λ a b. ok (equal a b) };
  environ = λ v. some (codes "key");
  sha256_hexdigest = λ b. codes "d1";
  token_hex = λ n. codes "ab";
  strftime = λ t. codes "20260101000000";
  print_faults = λ fs. [];
  weakness_text = λ w. [];
  exception_text = λ e. [];
}

abbrev pub settings : Settings
settings = record {
  identity = record { name = codes "gateway"; duns = codes "987654321" };
  server = record {
    host = codes "0.0.0.0";
    port = pos 8000;
    inbound_path = codes "/inbound";
    max_body_size_bytes = 100;
    outbound_source_address = none;
  };
  crypto = record {
    private_key_path = codes "own.asc";
    passphrase_env = codes "PASS";
    gnupg_home = codes "/gnupg";
    min_rsa_key_bits = pos 2048;
    recommended_rsa_key_bits = pos 4096;
    cipher_algo = codes "AES256";
    digest_algo = codes "SHA256";
    compress_algo = codes "ZIP";
    tls_min_version = codes "1.2";
    allowed_ciphers = codes "AES256" ∷ [];
    allowed_digests = codes "SHA256" ∷ [];
  };
  envelope = record {
    server_id = codes "gw";
    default_version = codes "4.0";
    receipt_security_selection = codes "signed-receipt-protocol=required, pgp-signature";
  };
  sinks = record {
    require_at_least_one_durable_success = true;
    filesystem = record { enabled = true; durable = true; base_dir = codes "/data" };
    s3 = none;
    webhook = record { enabled = true; durable = false; url = some (codes "https://hook") };
  };
  database = record { url_env = codes "URL"; username_env = none; password_env = none };
  internal_api = record { username_env = codes "USER"; password_env = codes "PASSWORD" };
  outbound = record { retry_schedule_seconds = pos 0 ∷ pos 900 ∷ pos 2700 ∷ [] };
  partners_file = codes "partners.yaml";
}

abbrev pub app : App
app = record {
  outside = outside;
  settings = settings;
  fingerprints = (codes "_self", codes "F0") ∷ (codes "acme", codes "F1") ∷ [];
  sinks = [];
}

pub app-CanSign : CanSign app
unfolding lookup equal naesb_edi.Settings.passphrase naesb_edi.Settings.resolve_env detached_sign
    naesb_edi.Base.Utf8.is_scalar
app-CanSign = record {
  own_fingerprint = codes "F0";
  secret = codes "key";
  has_key = refl;
  has_passphrase = refl;
  signs = λ body. (codes "sig", refl);
  server_scalar = refl;
  time_scalar = λ t. refl;
  weakness_scalar = λ x. refl;
}

abbrev pub partner : PartnerConfig
partner = record {
  name = codes "acme";
  duns = codes "123456789";
  endpoint_url = codes "https://acme";
  pgp_public_key_path = codes "acme.asc";
  outbound_auth = api_key_auth (codes "OUT");
  inbound_auth = api_key_auth (codes "IN");
  envelope_overrides = none;
  crypto_overrides = none;
  require_signature = true;
}

abbrev pub fields : EnvelopeFields
fields = record {
  from_id = codes "123456789";
  to_id = codes "987654321";
  version = codes "4.0";
  receipt_disposition_to = codes "123456789";
  receipt_report_type = codes "gisb-acknowledgement-receipt";
  input_format = x12;
  receipt_security_selection = codes "signed-receipt-protocol=required, pgp-signature";
  transaction_set = some (codes "G814_E01");
  refnum = some (codes "7");
  refnum_orig = none;
}

abbrev pub no_messages : Messages
no_messages = record { rows = []; next_trans = 1; next_id = 0 }

abbrev pub world : World
world = record { messages = no_messages; deliveries = []; drawn = 0 }

abbrev pub context : Context
context = record { partner = partner; trans_id = 1; received_at = 5 }

abbrev pub request : Request
request = record {
  content_length = none;
  authorization = some (codes "Bearer key");
  headers = [];
  body = codes "body";
  form = ok (λ name. none);
  received_at = 5;
}
