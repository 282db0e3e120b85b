-- ===== src/Tests/Fleet.antt =====
-- Runs of a sender and a worker on the jobs of the tests.
use naesb_edi.Base.{ℕ, ◌≡◌, refl, false, [], ◌∷◌, ◌++◌, arith, some, none}
use naesb_edi.Tracking.Jobs.{
  delivered, OutboundJob, create, find_job, claim_due_jobs, select_rows, select_due, order_by_time,
  insert_by_time, start_attempts,
}
use naesb_edi.Worker.{Desk, process_job, Cycle, Loop, run_cycles}
use naesb_edi.Worker.Ends.{Ends, RunsOn, run_cycles-Ends, run_cycles-RunsOn}
use naesb_edi.Worker.Fleet.{System, inserts, claims, attempts, Reaches, here, next, IsOrderly}
use naesb_edi.Worker.Fleet.Bounded.{Reaches-IsOrderly}
use naesb_edi.Worker.Fleet.Phases.{finished, phase_of}
use naesb_edi.Worker.Fleet.Lives.{Life, Reaches-Life, Reaches-finished}
use naesb_edi.Tests.Fixtures.{no_messages}
use naesb_edi.Tests.Jobs.{config, job}

abbrev start : System
start = record { jobs = record { rows = []; next_id = 0 }; held = [] }

abbrev sent : System
sent = record start { jobs = (create job 3 start.jobs).1 }

abbrev picked : System
picked = record {
  jobs = (claim_due_jobs 10 5 (λ id. false) sent.jobs).1;
  held = sent.held ++ (claim_due_jobs 10 5 (λ id. false) sent.jobs).0;
}

abbrev mine : OutboundJob
mine = record job { attempt_count = 1 }

abbrev desk : Desk
desk = record { jobs = picked.jobs; messages = no_messages; drawn = 0 }

abbrev attempted : System
attempted = record { jobs = ((process_job config 5 mine desk).1).jobs; held = [] }

run : Reaches 3 start attempted
unfolding create claim_due_jobs select_rows select_due order_by_time insert_by_time start_attempts
run =
    next (next (next here (inserts job 3 start)) (claims 10 5 (λ id. false) sent))
      (attempts config 5 mine [] [] desk picked attempted refl refl refl refl)

start-IsOrderly : IsOrderly 3 start
start-IsOrderly = record {
  keyed = tt;
  distinct = tt;
  below = tt;
  within = tt;
  held_rows = tt;
  held_once = tt;
}

Reaches-IsOrderly_example : IsOrderly 3 attempted
Reaches-IsOrderly_example = Reaches-IsOrderly 3 start attempted (omega arith) start-IsOrderly run

Reaches-Life_example : Life 3 (phase_of 0 start) (phase_of 0 attempted)
Reaches-Life_example = Reaches-Life 3 0 start attempted (omega arith) start-IsOrderly run

-- A table with one job that is delivered.
abbrev done : System
done = record {
  jobs = record {
    rows = record { job = record job { status = delivered }; next_attempt_at = 3 } ∷ [];
    next_id = 1;
  };
  held = [];
}

done-IsOrderly : IsOrderly 3 done
unfolding find_job
done-IsOrderly = record {
  keyed = (refl, tt);
  distinct = (tt, tt);
  below = (omega arith, tt);
  within = (omega arith, tt);
  held_rows = tt;
  held_once = tt;
}

Reaches-finished_example :
    phase_of 0 (record done { jobs = (create job 9 done.jobs).1 }) ≡ finished delivered
unfolding find_job
Reaches-finished_example =
    Reaches-finished 3 0 done (record done { jobs = (create job 9 done.jobs).1 }) delivered
      (omega arith) done-IsOrderly (next here (inserts job 9 done)) refl

-- A worker's loop of two cycles on the sender's job; the partner's server does not answer.
abbrev pub cycles : ℕ → Cycle
cycles n = record { now = 5; locked = λ id. false; clock = λ place. 6 }

abbrev pub loop : Loop
loop = record {
  desk = record { jobs = sent.jobs; messages = no_messages; drawn = 0 };
  count = 0;
  slept = 0;
}

run_cycles-Ends_example : Ends 2 loop (run_cycles config cycles (some 2) 3 loop)
run_cycles-Ends_example = run_cycles-Ends config cycles 2 3 loop (omega arith) (omega arith)

run_cycles-RunsOn_example : RunsOn config cycles 3 loop (run_cycles config cycles none 3 loop)
run_cycles-RunsOn_example = run_cycles-RunsOn config cycles 3 loop
