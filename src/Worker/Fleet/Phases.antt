-- ===== src/Worker/Fleet/Phases.antt =====
-- The life of one job, as senders and workers see it through the table: a small machine that the
-- table implements, for each id.
use mathlib.Core.Path.{subst}
use naesb_edi.Base.{
  ℕ, ◌+◌, ◌<◌, ◌≡◌, refl, sym, ap, ◌∙◌, ◌⊎◌, inl, inr, true, Option, none, some, List, [], ◌∷◌,
  ◌++◌, map, All, ◌==◌, ==_iff, arith, Bool-cases, Option-cases,
}
use naesb_edi.Tracking.Jobs.{
  JobStatus, queued, in_progress, delivered, failed_nack, exchange_failure, OutboundJob, JobRow,
  Jobs, create, find_job, select_rows, claim_due_jobs,
}
use naesb_edi.Worker.{process_job}
use naesb_edi.Worker.Conclude.{is_final, to_come, IsUpdate, process_job-Concludes}
use naesb_edi.Worker.Rows.{
  find_job-id, find_job-map, updated, update_job-map, claimed_by, started, start_attempts-map,
  updated-KeepsId, started-KeepsId,
}
use naesb_edi.Worker.Fleet.{System, Step, inserts, claims, attempts, IsHeld, IsWithin, IsOrderly}
use naesb_edi.Worker.Fleet.Claims.{IsTaken, select_rows-IsTaken, claimed_by-queued}
use naesb_edi.Worker.Fleet.Attempting.{kept_rows}

pub data Phase : Type 0 where
  absent : Phase
  waiting : ℕ → Phase
  attempting : ℕ → Phase
  finished : JobStatus → Phase

-- The moves of a job, with a schedule of `limit` delays: it waits, is attempted, and then is finished
-- for good or waits again, as long as the schedule has a delay.
pub data Moves (limit : ℕ) : Phase → Phase → Type 0 where
  enqueued : Moves limit absent (waiting 0)
  begun : (k : ℕ) → k < limit → Moves limit (waiting k) (attempting (k + 1))
  rescheduled : (k : ℕ) → k < limit → Moves limit (attempting k) (waiting k)
  concluded : (k : ℕ) (s : JobStatus) → is_final s ≡ true → Moves limit (attempting k) (finished s)

abbrev phase : JobStatus → ℕ → Phase
phase queued k = waiting k
phase in_progress k = attempting k
phase s _ = finished s

abbrev row_phase : Option JobRow → Phase
row_phase none = absent
row_phase (some r) = phase r.job.status r.job.attempt_count

abbrev pub phase_of : ℕ → System → Phase
phase_of id s = row_phase (find_job id s.jobs.rows)

-- A job stays in its phase, or makes one move.
abbrev Moved : ℕ → Option JobRow → Option JobRow → Type 0
Moved limit a b = (row_phase a ≡ row_phase b) ⊎ Moves limit (row_phase a) (row_phase b)

create-Moved :
    (limit id n : ℕ) (rows : List JobRow) (new : JobRow)
    → new.job.status ≡ queued
    → new.job.attempt_count ≡ 0
    → Moved limit (find_job id rows) (find_job id (rows ++ new ∷ []))
unfolding find_job
create-Moved limit id n [] new e z = elim (Bool-cases (new.job.id == id)) [
  | inl hit ↦ rw (hit, e, z) (inr enqueued)
  | inr miss ↦ rw miss (inl refl)
]
create-Moved limit id n (r ∷ rows) new e z = elim (Bool-cases (r.job.id == id)) [
  | inl hit ↦ rw hit (inl refl)
  | inr miss ↦ rw miss (create-Moved limit id n rows new e z)
]

All-find :
    (P : JobRow → Type 0) (id : ℕ) (rows : List JobRow) (r : JobRow)
    → All P rows
    → find_job id rows ≡ some r
    → P r
unfolding find_job
All-find P id [] r h e = absurd (ground arith)
All-find P id (x ∷ rows) r h e = elim (Bool-cases (x.job.id == id)) [
  | inl hit ↦ let same : x ≡ r = ground arith in subst P same h.0
  | inr miss ↦ All-find P id rows r h.1 (ground arith)
]

claim-Moved :
    (limit id : ℕ) (rows claimed : List JobRow)
    → All (IsWithin limit) rows
    → All (IsTaken rows) claimed
    → Moved limit (find_job id rows) (find_job id (map (started claimed) rows))
claim-Moved limit id rows claimed within t =
    rw (find_job-map (started claimed) (started-KeepsId claimed) id rows)
      (elim (Option-cases (find_job id rows)) [
        | inl gone ↦ rw gone (inl refl)
        | inr (r, found) ↦ rw found (elim (Bool-cases (claimed_by claimed r.job.id)) [
          | inr miss ↦ rw miss (inl refl)
          | inl hit ↦
              let by_id : claimed_by claimed id ≡ true =
                ap (claimed_by claimed) (sym (find_job-id id rows r found)) ∙ hit in
              let waits = claimed_by-queued rows claimed id r t found by_id in
              let room = All-find (IsWithin limit) id rows r within found in
              rw (hit, waits)
                (inr (begun r.job.attempt_count (omega (arith, room, ap to_come waits))))
        ])
      ])

final-phase : (s : JobStatus) (k : ℕ) → is_final s ≡ true → phase s k ≡ finished s
final-phase queued k h = absurd (ground arith)
final-phase in_progress k h = absurd (ground arith)
final-phase delivered k h = refl
final-phase failed_nack k h = refl
final-phase exchange_failure k h = refl

end_of :
    (limit : ℕ) (a b : JobStatus) (m n k : ℕ)
    → a ≡ in_progress
    → m ≡ k
    → n ≡ k
    → (is_final b ≡ true) ⊎ ((b ≡ queued) × (k < limit))
    → (phase a m ≡ phase b n) ⊎ Moves limit (phase a m) (phase b n)
end_of limit a b m n k ea em en (inl ended) =
    rw (ea, em, final-phase b n ended) (inr (concluded k b ended))
end_of limit a b m n k ea em en (inr (again, left)) =
    rw (ea, em, again, en) (inr (rescheduled k left))

update-Moved :
    (limit id : ℕ) (rows : List JobRow) (job : OutboundJob) (mine : IsHeld rows job) (j j' : Jobs)
    (u : IsUpdate limit job j j')
    → Moved limit (find_job id rows) (find_job id (map (updated job.id u.update) rows))
update-Moved limit id rows job mine j j' u =
    rw (find_job-map (updated job.id u.update) (updated-KeepsId job.id u.update u.keeps_id) id rows)
      (elim (Option-cases (find_job id rows)) [
        | inl gone ↦ rw gone (inl refl)
        | inr (r, found) ↦ rw found (elim (Bool-cases (r.job.id == job.id)) [
          | inr miss ↦ rw miss (inl refl)
          | inl hit ↦
              let own : id ≡ job.id =
                sym (find_job-id id rows r found) ∙ (==_iff r.job.id job.id).0 hit in
              let one : some r ≡ some mine.row =
                sym found ∙ ap (λ i. find_job i rows) own ∙ mine.found in
              let same : r ≡ mine.row = ground arith in
              let count : r.job.attempt_count ≡ job.attempt_count =
                ap (λ (x : JobRow). x.job.attempt_count) same ∙ mine.counted in
              let runs : r.job.status ≡ in_progress =
                ap (λ (x : JobRow). x.job.status) same ∙ mine.running in
              rw hit (
                end_of limit r.job.status (u.update r).job.status r.job.attempt_count
                  (u.update r).job.attempt_count job.attempt_count runs count
                  (u.keeps_count r ∙ count) (u.outcome r))
        ])
      ])

-- Each insertion, claim and attempt, on an orderly table, leaves each job in its phase or makes one move
-- of the job's machine.
pub Step-Moves :
    (limit id : ℕ) (s t : System)
    → IsOrderly limit s
    → Step limit s t
    → (phase_of id s ≡ phase_of id t) ⊎ Moves limit (phase_of id s) (phase_of id t)
unfolding create claim_due_jobs
Step-Moves limit id s t h (inserts job now _) =
    create-Moved limit id s.jobs.next_id s.jobs.rows _ refl refl
Step-Moves limit id s t h (claims most now locked _) =
    let rows = s.jobs.rows in
    let picked = select_rows most now locked rows in
    rw (start_attempts-map picked rows)
      (claim-Moved limit id rows picked h.within (select_rows-IsTaken most now locked rows h.keyed))
Step-Moves limit id s t h (attempts c now job before after d _ _ len eq same target) =
    rw target (elim (process_job-Concludes c now job d) [
      | inl stays ↦ rw (stays, same) (inl refl)
      | inr u ↦
          let u' : IsUpdate limit job s.jobs ((process_job c now job d).1).jobs =
            rw (sym len, sym same) u in
          rw (u'.rows_eq ∙ update_job-map job.id u'.update s.jobs.rows) (
            update-Moved limit id s.jobs.rows job (kept_rows limit job before after s eq h).0 s.jobs
              ((process_job c now job d).1).jobs u')
    ])
