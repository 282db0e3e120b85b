-- ===== src/Worker/Fleet/Claiming.antt =====
-- A worker's claim on an orderly table.
use naesb_edi.Base.{
  ℕ, ◌≡◌, refl, ap, ◌∙◌, inl, inr, Bool, true, false, some, List, [], ◌∷◌, ◌++◌, map, All,
  All-change, All-both, All-append, ◌==◌, arith, Bool-cases,
}
use naesb_edi.Tracking.Jobs.{
  OutboundJob, JobRow, find_job, select_rows, start_attempt, claim_due_jobs,
}
use naesb_edi.Worker.Conclude.{to_come}
use naesb_edi.Worker.Rows.{
  on_row, find_job-id, find_job-map, All-map, map-IsKeyed, claimed_by, started, start_attempts-map,
  started-KeepsId,
}
use naesb_edi.Worker.Fleet.{
  counted, System, counted_jobs, IsDistinct, AreDistinct, IsHeld, IsWithin, IsOrderly,
}
use naesb_edi.Worker.Fleet.Claims.{
  IsTaken, select_rows-IsTaken, select_rows-IsDistinct, claimed_by-queued, claimed_by_self,
}
use naesb_edi.Worker.Fleet.Changes.{map-IsDistinct, map-below, AreDistinct-append}

-- A worker's claim.
counted-All :
    (P : OutboundJob → Type 0) (rows : List JobRow)
    → All (λ r. P (counted r)) rows
    → All P (counted_jobs rows)
counted-All P [] h = tt
counted-All P (r ∷ rows) h = (h.0, counted-All P rows h.1)

module _ (limit : ℕ) (rows claimed : List JobRow) (taken : All (IsTaken rows) claimed) where
  started-IsWithin :
      (r : JobRow)
      → IsWithin limit r × (find_job r.job.id rows ≡ some r)
      → IsWithin limit (started claimed r)
  started-IsWithin r (w, f) = elim (Bool-cases (claimed_by claimed r.job.id)) [
    | inl hit ↦
        let waits : to_come r.job.status ≡ 1 =
          ap to_come (claimed_by-queued rows claimed r.job.id r taken f hit) in
        rw hit (omega (arith, waits, w))
    | inr miss ↦ rw miss w
  ]

  not_claimed : (job : OutboundJob) (h : IsHeld rows job) → claimed_by claimed job.id ≡ false
  not_claimed job h = elim (Bool-cases (claimed_by claimed job.id)) [
    | inl hit ↦
        let waits = claimed_by-queued rows claimed job.id h.row taken h.found hit in
        absurd (cc (waits, h.running))
    | inr miss ↦ miss
  ]

  IsHeld-started : (job : OutboundJob) → IsHeld rows job → IsHeld (map (started claimed) rows) job
  IsHeld-started job h =
      let miss : claimed_by claimed h.row.job.id ≡ false =
        ap (claimed_by claimed) (find_job-id job.id rows h.row h.found) ∙ not_claimed job h in
      let same : started claimed h.row ≡ h.row = rw miss refl in
      record {
        row = h.row;
        found =
            find_job-map (started claimed) (started-KeepsId claimed) job.id rows
            ∙ ap (on_row (started claimed)) h.found
            ∙ ap some same;
        running = h.running;
        counted = h.counted;
      }

  IsHeld-counted :
      (c : JobRow)
      → IsTaken rows c × (claimed_by claimed c.job.id ≡ true)
      → IsHeld (map (started claimed) rows) (counted c)
  IsHeld-counted c (t, hit) =
      let same : started claimed c ≡ start_attempt c = rw hit refl in
      record {
        row = start_attempt c;
        found =
            find_job-map (started claimed) (started-KeepsId claimed) c.job.id rows
            ∙ ap (on_row (started claimed)) t.0
            ∙ ap some same;
        running = refl;
        counted = refl;
      }

counted-AreDistinct :
    (claimed : List JobRow) → IsDistinct claimed → AreDistinct (counted_jobs claimed)
counted-AreDistinct [] h = tt
counted-AreDistinct (c ∷ cs) h =
    (counted-All (λ (y : OutboundJob). c.job.id == y.id ≡ false) cs h.0, counted-AreDistinct cs h.1)

none_apart :
    (claimed : List JobRow) (id : ℕ)
    → claimed_by claimed id ≡ false
    → All (λ (r : JobRow). id == r.job.id ≡ false) claimed
none_apart [] id h = tt
none_apart (c ∷ cs) id h = (ground arith, none_apart cs id (ground arith))

pub claim-IsOrderly :
    (limit most now : ℕ) (locked : ℕ → Bool) (s : System)
    → IsOrderly limit s
    → IsOrderly limit (record {
      jobs = (claim_due_jobs most now locked s.jobs).1;
      held = s.held ++ (claim_due_jobs most now locked s.jobs).0;
    })
unfolding claim_due_jobs
claim-IsOrderly limit most now locked s h =
    let rows = s.jobs.rows in
    let claimed = select_rows most now locked rows in
    let taken = select_rows-IsTaken most now locked rows h.keyed in
    let g = started claimed in
    let k = started-KeepsId claimed in
    rw (start_attempts-map claimed rows) (record {
      keyed = map-IsKeyed g k rows h.keyed;
      distinct = map-IsDistinct g k rows h.distinct;
      below = map-below g k s.jobs.next_id rows h.below;
      within =
          All-map (λ r. IsWithin limit r × (find_job r.job.id rows ≡ some r)) (IsWithin limit) g
            (started-IsWithin limit rows claimed taken) rows
            (All-both (IsWithin limit) (λ r. find_job r.job.id rows ≡ some r) rows h.within
              h.keyed);
      held_rows =
          All-append (IsHeld (map g rows)) s.held (counted_jobs claimed)
            (All-change (IsHeld rows) (IsHeld (map g rows)) s.held
              (IsHeld-started limit rows claimed taken) h.held_rows)
            (counted-All (IsHeld (map g rows)) claimed (
              All-change (λ c. IsTaken rows c × (claimed_by claimed c.job.id ≡ true))
                (λ c. IsHeld (map g rows) (counted c)) claimed
                (IsHeld-counted limit rows claimed taken)
                (All-both (IsTaken rows) (λ c. claimed_by claimed c.job.id ≡ true) claimed taken
                  (claimed_by_self claimed))));
      held_once =
          AreDistinct-append s.held (counted_jobs claimed) h.held_once
            (counted-AreDistinct claimed (select_rows-IsDistinct most now locked rows h.distinct))
            (All-change (IsHeld rows)
              (λ x. All (λ (y : OutboundJob). x.id == y.id ≡ false) (counted_jobs claimed)) s.held
              (λ x e.
                counted-All (λ (y : OutboundJob). x.id == y.id ≡ false) claimed
                  (none_apart claimed x.id (not_claimed limit rows claimed taken x e)))
              h.held_rows);
    })
