-- ===== src/Tests/Workers.antt =====
-- A worker that starts with the fixtures' files and runs two cycles.
use naesb_edi.Base.{◌≡◌, refl, some, ok, err, [], ◌∷◌, codes, equal}
use naesb_edi.Base.Dict.{lookup, insert, values}
use naesb_edi.Crypto.Keyring.{bootstrap_keyring}
use naesb_edi.Exceptions.{Exception}
use naesb_edi.Partners.{partners_of, registry}
use naesb_edi.Partners.Load.{load_partners_file}
use naesb_edi.Settings.{resolve_env}
use naesb_edi.Settings.Database.{database_url}
use naesb_edi.Tracking.Migrations.{run_migrations}
use naesb_edi.Worker.{Config, run_cycles}
use naesb_edi.Worker.Fleet.{System}
use naesb_edi.Worker.Fleet.Runs.{Leads, at}
use naesb_edi.Wiring.Run.{run_worker, start_worker, run_worker-Leads}
use naesb_edi.Tests.Fixtures.{settings, partner}
use naesb_edi.Tests.Fleet.{cycles, loop}
use naesb_edi.Tests.Jobs.{http}
use naesb_edi.Tests.Startup.{start_env}

abbrev config : Config
config = record {
  outside = start_env.outside;
  http = http;
  settings = settings;
  fingerprints = (codes "_self", codes "own.asc") ∷ (codes "acme", codes "acme.asc") ∷ [];
  partners = registry (partner ∷ []);
}

run_worker-Leads_example :
    (c : Config) × (start_worker start_env http settings [] (record { schema = []; applied = [] })
      ≡ ok c)
    × Leads c loop.desk.jobs []
        ((e : Exception) × ((run_cycles config cycles (some 2) 3 loop).0 ≡ some (err e)))
        (run_cycles config cycles (some 2) 3 loop).1.desk.jobs
unfolding run_worker start_worker load_partners_file bootstrap_keyring database_url run_migrations
    equal lookup partners_of values registry insert resolve_env
run_worker-Leads_example =
    run_worker-Leads start_env http settings cycles (some 2) 3 []
      (record { schema = []; applied = [] }) loop.desk (run_cycles config cycles (some 2) 3 loop)
      refl

-- The worker claims the sender's job while another one holds a job.
abbrev start_system : System
start_system = at loop.desk.jobs []
