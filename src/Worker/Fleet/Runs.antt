-- ===== src/Worker/Fleet/Runs.antt =====
-- The loop of `run_worker` in app/worker.py as a run of statements on the table of jobs: each cycle claims
-- jobs and attempts them one after the other.
use mathlib.Core.Path.{subst}
use naesb_edi.Base.{
  ℕ, zero, suc, ◌≡◌, refl, sym, ap, ◌⊎◌, inl, inr, Bool, true, false, Option, some, List, [], ◌∷◌,
  Bool-cases, Result, ok, err, arith,
}
use naesb_edi.Effects.{continue}
use naesb_edi.Exceptions.{Exception}
use naesb_edi.Tracking.Jobs.{OutboundJob, Jobs, claim_due_jobs}
use naesb_edi.Worker.{
  Config, Desk, process_job, process_jobs, claim as claim_jobs, Cycle, poll, Loop, sleep_if,
  goes_on, next_cycle, run_cycles,
}
use naesb_edi.Worker.Fleet.{System}

abbrev pub at : Jobs → List OutboundJob → System
at jobs held = record { jobs = jobs; held = held }

-- One statement of a worker: with no job left it claims at most ten, and otherwise it attempts the first
-- of those that it holds.
pub data WorkStep (c : Config) : System → System → Type 0 where
  claims_ten :
      (now : ℕ) (locked : ℕ → Bool) (jobs : Jobs)
      → WorkStep c
          (at jobs [])
          (at (claim_due_jobs 10 now locked jobs).1 (claim_due_jobs 10 now locked jobs).0)
  attempts_first :
      (now : ℕ) (job : OutboundJob) (rest : List OutboundJob) (d : Desk)
      → WorkStep c (at d.jobs (job ∷ rest)) (at ((process_job c now job d).1).jobs rest)

pub data Works (c : Config) : System → System → Type 0 where
  no_step : {s : System} → Works c s s
  then_step : {s t u : System} → WorkStep c s t → Works c t u → Works c s u

Works-trans : (c : Config) (s t u : System) → Works c s t → Works c t u → Works c s u
Works-trans c s t u no_step q = q
Works-trans c s t u (then_step {t = m} step p) q = then_step step (Works-trans c m t u p q)

-- How a run from a table ends: with no job left, or by an exception, which leaves some.
pub record Leads (c : Config) (jobs : Jobs) (held : List OutboundJob) (raised : Type 0)
    (last : Jobs) : Type 0 where
  pub left : List OutboundJob
  pub works : Works c (at jobs held) (at last left)
  pub outcome : raised ⊎ (left ≡ [])

module _ (c : Config) where
  abbrev Raised : Result Exception (Unit {0}) × Desk → Type 0
  Raised r = (e : Exception) × (r.0 ≡ err e)

  first-WorkStep :
      (now : ℕ) (job : OutboundJob) (rest : List OutboundJob) (d d' : Desk)
      (r : Result Exception (Unit {0}))
      → process_job c now job d ≡ (r, d')
      → WorkStep c (at d.jobs (job ∷ rest)) (at d'.jobs rest)
  first-WorkStep now job rest d d' r e =
      let jobs : ((process_job c now job d).1).jobs ≡ d'.jobs = ap (λ r. r.1.jobs) e in
      rw (sym jobs) (attempts_first now job rest d)

  -- After one attempt: the others follow, or its exception ends the cycle.
  after_attempt :
      (now : ℕ) (clock : ℕ → ℕ) (todo : List OutboundJob) (job : OutboundJob) (d : Desk)
      → ((d' : Desk)
          → Leads c d'.jobs todo
              (Raised (process_jobs c clock todo d'))
              ((process_jobs c clock todo d').1).jobs)
      → (r : Result Exception (Unit {0}) × Desk) → process_job c now job d ≡ r
      → Leads c d.jobs
          (job ∷ todo)
          (Raised (continue r (λ _. process_jobs c clock todo)))
          ((continue r (λ _. process_jobs c clock todo)).1).jobs
  after_attempt now clock todo job d others (ok u, d') e =
      let rest = others d' in
      record {
        left = rest.left;
        works = then_step (first-WorkStep now job todo d d' (ok u) e) rest.works;
        outcome = rest.outcome;
      }
  after_attempt now clock todo job d others (err x, d') e = record {
    left = todo;
    works = then_step (first-WorkStep now job todo d d' (err x) e) no_step;
    outcome = inl (x, refl);
  }

  process_jobs-Leads :
      (clock : ℕ → ℕ) (todo : List OutboundJob) (d : Desk)
      → Leads c d.jobs todo
          (Raised (process_jobs c clock todo d))
          ((process_jobs c clock todo d).1).jobs
  unfolding process_jobs
  process_jobs-Leads clock [] d = record { left = []; works = no_step; outcome = inr refl }
  process_jobs-Leads clock (job ∷ todo) d =
      after_attempt (clock 0) (λ n. clock (suc n)) todo job d
        (process_jobs-Leads (λ n. clock (suc n)) todo) (process_job c (clock 0) job d) refl

  poll-Leads :
      (cycle : Cycle) (d : Desk)
      → Leads c d.jobs [] (Raised (poll c cycle d)) ((poll c cycle d).1).jobs
  unfolding poll claim_jobs
  poll-Leads cycle d =
      let claimed = claim_due_jobs 10 cycle.now cycle.locked d.jobs in
      let rest = process_jobs-Leads cycle.clock claimed.0 (record d { jobs = claimed.1 }) in
      record {
        left = rest.left;
        works = then_step (claims_ten cycle.now cycle.locked d.jobs) rest.works;
        outcome = rest.outcome;
      }

  abbrev pub Stopped : Option (Result Exception (Unit {0})) × Loop → Type 0
  Stopped r = (e : Exception) × (r.0 ≡ some (err e))

  -- A cycle that returned has no job left.
  none_left :
      (left : List OutboundJob) (u : Unit {0}) (d : Desk)
      → Raised (ok u, d) ⊎ (left ≡ [])
      → left ≡ []
  none_left left u d (inl (e, h)) = absurd (ground arith)
  none_left left u d (inr h) = h

  -- After one cycle: the others follow, or its exception ends the loop.
  after_cycle :
      (iterations : Option ℕ) (l : Loop) (rest : Loop → Option (Result Exception (Unit {0})) × Loop)
      (cycle : Cycle)
      → ((l' : Loop) → Leads c l'.desk.jobs [] (Stopped (rest l')) (rest l').1.desk.jobs)
      → (r : Result Exception (Unit {0}) × Desk) → poll c cycle l.desk ≡ r
      → Leads c l.desk.jobs []
          (Stopped (next_cycle iterations l r rest))
          (next_cycle iterations l r rest).1.desk.jobs
  after_cycle iterations l rest cycle others (ok u, d) e =
      let first : Leads c l.desk.jobs [] (Raised (ok u, d)) d.jobs =
        subst (λ r. Leads c l.desk.jobs [] (Raised r) r.1.jobs) e (poll-Leads cycle l.desk) in
      let start : Works c (at l.desk.jobs []) (at d.jobs []) =
        subst (λ left. Works c (at l.desk.jobs []) (at d.jobs left))
          (none_left first.left u d first.outcome) first.works in
      let l' : Loop = record l { desk = d; count = suc l.count } in
      let paused = sleep_if (goes_on iterations (suc l.count)) l' in
      let go = others paused in
      let same : (sleep_if (goes_on iterations (suc l.count)) l').desk.jobs ≡ d.jobs =
        sleeps (goes_on iterations (suc l.count)) l' in
      record {
        left = go.left;
        works = Works-trans c _ (at d.jobs []) _ start (
            subst (λ jobs. Works c (at jobs []) (at (rest paused).1.desk.jobs go.left)) same
              go.works);
        outcome = go.outcome;
      }
    where
      sleeps : (b : Bool) (l' : Loop) → (sleep_if b l').desk.jobs ≡ l'.desk.jobs
      sleeps true l' = refl
      sleeps false l' = refl
  after_cycle iterations l rest cycle others (err x, d) e =
      let first : Leads c l.desk.jobs [] (Raised (err x, d)) d.jobs =
        subst (λ r. Leads c l.desk.jobs [] (Raised r) r.1.jobs) e (poll-Leads cycle l.desk) in
      record { left = first.left; works = first.works; outcome = inl (x, refl) }

  -- However many cycles the loop runs, what it does to the table is a run of the worker's statements.
  pub run_cycles-Leads :
      (cycles : ℕ → Cycle) (iterations : Option ℕ) (fuel : ℕ) (l : Loop)
      → Leads c l.desk.jobs []
          (Stopped (run_cycles c cycles iterations fuel l))
          (run_cycles c cycles iterations fuel l).1.desk.jobs
  unfolding run_cycles
  run_cycles-Leads cycles iterations zero l = record {
    left = [];
    works = no_step;
    outcome = inr refl;
  }
  run_cycles-Leads cycles iterations (suc fuel) l = elim (Bool-cases (goes_on iterations l.count)) [
    | inl more ↦ rw more (
        after_cycle iterations l (run_cycles c cycles iterations fuel) (cycles l.count)
          (run_cycles-Leads cycles iterations fuel) (poll c (cycles l.count) l.desk) refl)
    | inr done ↦ rw done (record { left = []; works = no_step; outcome = inr refl })
  ]
