-- ===== src/Worker/Fleet.antt =====
-- app/worker.py with app/tracking/repository.py and app/api/send.py: any number of workers and
-- senders on one table of jobs, their statements in any order.
pub mod Claims
pub mod Changes
pub mod Inserts
pub mod Claiming
pub mod Attempting
pub mod Bounded
pub mod Phases
pub mod Lives
pub mod Runs
use naesb_edi.Base.{
  ℕ, ◌+◌, ◌≤◌, ◌<◌, ◌≡◌, Bool, false, Option, some, List, [], ◌∷◌, ◌++◌, map, length, All, ◌==◌,
}
use naesb_edi.Tracking.Jobs.{
  in_progress, OutboundJob, JobRow, Jobs, create, find_job, claim_due_jobs,
}
use naesb_edi.Worker.{Config, Desk, process_job}
use naesb_edi.Worker.Conclude.{to_come}
use naesb_edi.Worker.Rows.{IsKeyed}

-- The table, and the jobs that workers have claimed and not yet dealt with.
pub record System : Type 0 where
  pub jobs : Jobs
  pub held : List OutboundJob

-- The jobs as a claim returns them.
abbrev pub counted : JobRow → OutboundJob
counted c = record c.job { attempt_count = c.job.attempt_count + 1 }

abbrev pub counted_jobs : List JobRow → List OutboundJob
counted_jobs = map counted

-- One statement of a sender or a worker. All workers have schedules of one length.
pub data Step (limit : ℕ) : System → System → Type 0 where
  inserts :
      (job : OutboundJob) (now : ℕ) (s : System)
      → Step limit s (record s { jobs = (create job now s.jobs).1 })
  claims :
      (most now : ℕ) (locked : ℕ → Bool) (s : System)
      → Step limit s (record {
        jobs = (claim_due_jobs most now locked s.jobs).1;
        held = s.held ++ (claim_due_jobs most now locked s.jobs).0;
      })
  -- A worker makes its attempt, which returns or raises, and at its end writes one statement, if any,
  -- on the table as it then stands.
  attempts :
      (c : Config) (now : ℕ) (job : OutboundJob) (before after : List OutboundJob) (d : Desk)
      (s s' : System)
      → length c.settings.outbound.retry_schedule_seconds ≡ limit
      → s.held ≡ before ++ job ∷ after
      → d.jobs ≡ s.jobs
      → s' ≡ record { jobs = ((process_job c now job d).1).jobs; held = before ++ after }
      → Step limit s s'

pub data Reaches (limit : ℕ) (s : System) : System → Type 0 where
  here : Reaches limit s s
  next : {t u : System} → Reaches limit s t → Step limit t u → Reaches limit s u

abbrev pub IsDistinct : List JobRow → Type 0
IsDistinct [] = Unit
IsDistinct (r ∷ rows) = All (λ (x : JobRow). r.job.id == x.job.id ≡ false) rows × IsDistinct rows

abbrev pub AreDistinct : List OutboundJob → Type 0
AreDistinct [] = Unit
AreDistinct (j ∷ js) = All (λ (x : OutboundJob). j.id == x.id ≡ false) js × AreDistinct js

-- The row of a claimed job is in progress, and counts the attempt as the claim did.
pub record IsHeld (rows : List JobRow) (job : OutboundJob) : Type 0 where
  pub row : JobRow
  pub found : find_job job.id rows ≡ some row
  pub running : row.job.status ≡ in_progress
  pub counted : row.job.attempt_count ≡ job.attempt_count

abbrev pub IsWithin : ℕ → JobRow → Type 0
IsWithin limit r = r.job.attempt_count + to_come r.job.status ≤ limit

-- An orderly table: ids are distinct and below the supply, no row has had more attempts than the
-- limit (one less, if it is queued), and every held job is in progress and held once.
pub record IsOrderly (limit : ℕ) (s : System) : Type 0 where
  pub keyed : IsKeyed s.jobs.rows
  pub distinct : IsDistinct s.jobs.rows
  pub below : All (λ r. r.job.id < s.jobs.next_id) s.jobs.rows
  pub within : All (IsWithin limit) s.jobs.rows
  pub held_rows : All (IsHeld s.jobs.rows) s.held
  pub held_once : AreDistinct s.held
