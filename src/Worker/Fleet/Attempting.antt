-- ===== src/Worker/Fleet/Attempting.antt =====
-- A worker's attempt on an orderly table, whether it returns or raises.
use naesb_edi.Base.{
  ℕ, ◌≡◌, refl, sym, ap, ◌∙◌, inl, inr, true, false, some, List, ◌∷◌, ◌++◌, map, length, All,
  All-change, All-both, ◌==◌, ==_iff, arith, Bool-cases,
}
use naesb_edi.Tracking.Jobs.{
  JobStatus, queued, in_progress, delivered, failed_nack, exchange_failure, OutboundJob, JobRow,
  Jobs, find_job,
}
use naesb_edi.Worker.{Config, Desk, process_job}
use naesb_edi.Worker.Conclude.{to_come, is_final, IsUpdate, process_job-Concludes}
use naesb_edi.Worker.Rows.{
  on_row, find_job-id, find_job-map, All-map, map-IsKeyed, updated, update_job-map, updated-KeepsId,
}
use naesb_edi.Worker.Fleet.{System, AreDistinct, IsHeld, IsWithin, IsOrderly}
use naesb_edi.Worker.Fleet.Changes.{map-IsDistinct, map-below, All-middle, AreDistinct-middle}

-- A worker's attempt.
final-to_come : (s : JobStatus) → is_final s ≡ true → to_come s ≡ 0
final-to_come queued h = absurd (ground arith)
final-to_come in_progress h = refl
final-to_come delivered h = refl
final-to_come failed_nack h = refl
final-to_come exchange_failure h = refl

module _ (limit : ℕ) (rows : List JobRow) (job : OutboundJob) (mine : IsHeld rows job) (j j' : Jobs)
    (u : IsUpdate limit job j j') where
  changed-IsWithin :
      (r : JobRow)
      → IsWithin limit r × (find_job r.job.id rows ≡ some r)
      → IsWithin limit (updated job.id u.update r)
  changed-IsWithin r (w, f) = elim (Bool-cases (r.job.id == job.id)) [
    | inr miss ↦ rw miss w
    | inl hit ↦
        let one : some r ≡ some mine.row =
          sym f ∙ ap (λ i. find_job i rows) ((==_iff r.job.id job.id).0 hit) ∙ mine.found in
        let same : r ≡ mine.row = ground arith in
        let count : r.job.attempt_count ≡ job.attempt_count =
          ap (λ (x : JobRow). x.job.attempt_count) same ∙ mine.counted in
        rw hit (elim (u.outcome r) [
          | inl ended ↦
              omega (arith, w, final-to_come (u.update r).job.status ended, u.keeps_count r)
          | inr (again, left) ↦ omega (arith, left, count, u.keeps_count r, ap to_come again)
        ])
  ]

  IsHeld-changed :
      (x : OutboundJob)
      → IsHeld rows x × (job.id == x.id ≡ false)
      → IsHeld (map (updated job.id u.update) rows) x
  IsHeld-changed x (h, apart) =
      let own : h.row.job.id ≡ x.id = find_job-id x.id rows h.row h.found in
      let miss : h.row.job.id == job.id ≡ false = ground arith in
      let same : updated job.id u.update h.row ≡ h.row = rw miss refl in
      record {
        row = h.row;
        found =
            find_job-map (updated job.id u.update) (updated-KeepsId job.id u.update u.keeps_id) x.id
              rows
            ∙ ap (on_row (updated job.id u.update)) h.found
            ∙ ap some same;
        running = h.running;
        counted = h.counted;
      }

module _ (limit : ℕ) (job : OutboundJob) (before after : List OutboundJob) (s : System)
    (eq : s.held ≡ before ++ job ∷ after) (h : IsOrderly limit s) where
  pub kept_rows : IsHeld s.jobs.rows job × All (IsHeld s.jobs.rows) (before ++ after)
  kept_rows = All-middle (IsHeld s.jobs.rows) before after job (rw (sym eq) h.held_rows)

  kept_once :
      All (λ (x : OutboundJob). job.id == x.id ≡ false) (before ++ after)
      × AreDistinct (before ++ after)
  kept_once = AreDistinct-middle before after job (rw (sym eq) h.held_once)

  unchanged-IsOrderly : IsOrderly limit (record { jobs = s.jobs; held = before ++ after })
  unchanged-IsOrderly = record {
    keyed = h.keyed;
    distinct = h.distinct;
    below = h.below;
    within = h.within;
    held_rows = kept_rows.1;
    held_once = kept_once.1;
  }

  update-IsOrderly :
      (j' : Jobs)
      → IsUpdate limit job s.jobs j'
      → IsOrderly limit (record { jobs = j'; held = before ++ after })
  update-IsOrderly j' u =
      let rows = s.jobs.rows in
      let g = updated job.id u.update in
      let k = updated-KeepsId job.id u.update u.keeps_id in
      let rows_eq : j'.rows ≡ map g rows = u.rows_eq ∙ update_job-map job.id u.update rows in
      record {
        keyed = rw rows_eq (map-IsKeyed g k rows h.keyed);
        distinct = rw rows_eq (map-IsDistinct g k rows h.distinct);
        below = rw (rows_eq, u.next_eq) (map-below g k s.jobs.next_id rows h.below);
        within = rw rows_eq (
            All-map (λ r. IsWithin limit r × (find_job r.job.id rows ≡ some r)) (IsWithin limit) g
              (changed-IsWithin limit rows job kept_rows.0 s.jobs j' u) rows
              (All-both (IsWithin limit) (λ r. find_job r.job.id rows ≡ some r) rows h.within
                h.keyed));
        held_rows = rw rows_eq (
            All-change (λ x. IsHeld rows x × (job.id == x.id ≡ false)) (IsHeld (map g rows))
              (before ++ after) (IsHeld-changed limit rows job kept_rows.0 s.jobs j' u)
              (All-both (IsHeld rows) (λ (x : OutboundJob). job.id == x.id ≡ false)
                (before ++ after) kept_rows.1 kept_once.0));
        held_once = kept_once.1;
      }

  pub attempt-IsOrderly :
      (c : Config) (now : ℕ) (d : Desk)
      → length c.settings.outbound.retry_schedule_seconds ≡ limit
      → d.jobs ≡ s.jobs
      → IsOrderly limit
          (record { jobs = ((process_job c now job d).1).jobs; held = before ++ after })
  attempt-IsOrderly c now d len same = elim (process_job-Concludes c now job d) [
    | inl stays ↦ rw (stays, same) unchanged-IsOrderly
    | inr u ↦ update-IsOrderly ((process_job c now job d).1).jobs (rw (sym len, sym same) u)
  ]
