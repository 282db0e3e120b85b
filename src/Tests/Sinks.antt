-- ===== src/Tests/Sinks.antt =====
-- The sinks of the fixtures' configuration, and the migrations.
use naesb_edi.Base.{
  ◌≡◌, refl, true, false, not, ◌&&◌, ◌||◌, some, List, [], ◌∷◌, ◌++◌, All, Text, Result, ok, any,
  codes, has, equal,
}
use naesb_edi.Base.Dict.{lookup}
use naesb_edi.Exceptions.{Exception}
use naesb_edi.Fields.{matches_transaction_set, is_set_char}
use naesb_edi.Sinks.{InboundMessage, Sink, fan_out, deliver_safely, has_durable_success}
use naesb_edi.Sinks.Backends.{
  BackendEnv, done, failed, filename, filesystem_sink, webhook_sink, write,
}
use naesb_edi.Sinks.Kept.{has_durable_success_lem}
use naesb_edi.Sinks.Names.{filename-no_slash}
use naesb_edi.Tracking.Migrations.{
  Migration, Database, run_migrations, sorted, insert_by_name, text_le, apply_files, apply_file,
  holds,
}
use naesb_edi.Tracking.Migrations.Order.{IsSorted, IsWhole, pending, run_migrations-IsWhole}
use naesb_edi.Tracking.Migrations.Again.{run_migrations-again}
use naesb_edi.Tests.Fixtures.{fields}

-- The disk is full, and the hook answers.
abbrev pub backends : BackendEnv
backends = record {
  strftime = λ t. codes "20260101T000000Z";
  isoformat = λ t. codes "2026-01-01";
  b64encode = λ bytes. bytes;
  join = λ base name. base ++ (codes "/" ++ name);
  mkdir = λ dir. done;
  write_bytes = λ path bytes. failed (codes "No space left on device");
  put_object = λ sink key bytes. done;
  post_json = λ url payload. done;
}

abbrev pub message : InboundMessage
message = record {
  partner_name = codes "acme";
  content_digest = codes "0123456789abcdef0123";
  envelope = fields;
  plaintext = codes "ISA";
  received_at = 5;
}

abbrev sinks : List Sink
unfolding filesystem_sink webhook_sink
sinks =
    filesystem_sink backends (record { base_dir = codes "/data"; durable = true })
    ∷ webhook_sink backends (record { url = codes "https://hook" })
    ∷ []

has_durable_success_lem_example :
    All
      (λ (s : Sink). lookup s.name (fan_out sinks message) ≡ some (deliver_safely s message))
      sinks
    × (has_durable_success sinks (fan_out sinks message) ≡ (
        not (any (λ s. s.durable) sinks)
        || any (λ s. s.durable && (deliver_safely s message).ok) sinks))
unfolding sinks filesystem_sink webhook_sink write equal
has_durable_success_lem_example =
    has_durable_success_lem message sinks (refl, (refl, tt)) ((refl, tt), (tt, tt))

filename-no_slash_example : has b'/' (filename backends message) ≡ false
unfolding has matches_transaction_set is_set_char
filename-no_slash_example = filename-no_slash backends message refl refl refl

abbrev file : Text → Migration
file name = record { name = name; text = ok name }

abbrev files : List Migration
files = file (codes "0002_b.sql") ∷ file (codes "0001_a.sql") ∷ []

-- The schema is the list of the texts that were run.
abbrev pub execute : Text → List Text → Result Exception (List Text)
execute sql schema = ok (schema ++ sql ∷ [])

abbrev database : Database (List Text)
database = record { schema = []; applied = [] }

run_test : (run_migrations execute files database).1 ≡ record {
  schema = codes "0001_a.sql" ∷ codes "0002_b.sql" ∷ [];
  applied = codes "0001_a.sql" ∷ codes "0002_b.sql" ∷ [];
}
unfolding run_migrations apply_files apply_file holds sorted insert_by_name text_le equal
run_test = refl

run_migrations-IsWhole_example :
    IsSorted (sorted files)
    × IsWhole execute
        (pending database.applied (sorted files))
        database
        (run_migrations execute files database)
run_migrations-IsWhole_example = run_migrations-IsWhole execute files database

run_migrations-again_example :
    run_migrations execute files (run_migrations execute files database).1
    ≡ (ok tt, (run_migrations execute files database).1)
unfolding run_migrations apply_files apply_file holds sorted insert_by_name text_le equal
run_migrations-again_example = run_migrations-again execute files database refl
