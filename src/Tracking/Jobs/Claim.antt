-- ===== src/Tracking/Jobs/Claim.antt =====
-- `claim_due_jobs` of app/tracking/repository.py: what is claimed, and what that does to the rows.
use naesb_edi.Base.{
  ℕ, zero, suc, ◌+◌, ◌≡◌, refl, inl, inr, Bool, true, false, ◌&&◌, List, [], ◌∷◌, map, take, All,
  any, leb, ◌==◌, arith, Bool-cases,
}
use naesb_edi.Tracking.Jobs.{
  JobRow, Jobs, is_due, select_due, insert_by_time, order_by_time, select_rows, start_attempts,
  claim_due_jobs,
}

module _ (now : ℕ) (locked : ℕ → Bool) where
  abbrev pub IsDue : JobRow → Type 0
  IsDue row = is_due now locked row ≡ true

  pub select_due-IsDue : (rows : List JobRow) → All IsDue (select_due now locked rows)
  unfolding select_due
  select_due-IsDue [] = tt
  select_due-IsDue (row ∷ rows) = elim (Bool-cases (is_due now locked row)) [
    | inl due ↦ rw due (due, select_due-IsDue rows)
    | inr not_due ↦ rw not_due (select_due-IsDue rows)
  ]

module _ (P : JobRow → Type 0) where
  pub insert_by_time-All :
      (row : JobRow) (rows : List JobRow) → P row → All P rows → All P (insert_by_time row rows)
  unfolding insert_by_time
  insert_by_time-All row [] p h = (p, tt)
  insert_by_time-All row (r ∷ rows) p h =
      elim (Bool-cases (leb row.next_attempt_at r.next_attempt_at)) [
        | inl first ↦ rw first (p, h)
        | inr later ↦ rw later (h.0, insert_by_time-All row rows p h.1)
      ]

  pub order_by_time-All : (rows : List JobRow) → All P rows → All P (order_by_time rows)
  unfolding order_by_time
  order_by_time-All [] h = tt
  order_by_time-All (row ∷ rows) h =
      insert_by_time-All row (order_by_time rows) h.0 (order_by_time-All rows h.1)

  pub take-All : (n : ℕ) (rows : List JobRow) → All P rows → All P (take n rows)
  take-All zero rows h = tt
  take-All (suc n) [] h = tt
  take-All (suc n) (row ∷ rows) h = (h.0, take-All n rows h.1)

-- The jobs that a claim returns are those of these rows.
any-map :
    (id : ℕ) (claimed : List JobRow)
    → any
        (λ j. j.id == id)
        (map (λ c. record c.job { attempt_count = c.job.attempt_count + 1 }) claimed)
      ≡ any (λ c. c.job.id == id) claimed
any-map id [] = refl
any-map id (c ∷ cs) = ground (arith, any-map id cs)

start_attempts-excludes :
    (later : ℕ) (locked : ℕ → Bool) (claimed rows : List JobRow)
    → All
        (λ row.
          (any
              (λ j. j.id == row.job.id)
              (map (λ c. record c.job { attempt_count = c.job.attempt_count + 1 }) claimed)
            && is_due later locked row)
          ≡ false)
        (start_attempts claimed rows)
unfolding start_attempts
start_attempts-excludes later locked claimed [] = tt
start_attempts-excludes later locked claimed (row ∷ rows) =
    elim (Bool-cases (any (λ c. c.job.id == row.job.id) claimed)) [
      | inl hit ↦ rw hit (
        rw (any-map row.job.id claimed, hit) refl,
        start_attempts-excludes later locked claimed rows,
      )
      | inr miss ↦ rw miss (
        rw (any-map row.job.id claimed, miss) refl,
        start_attempts-excludes later locked claimed rows,
      )
    ]

-- After a claim no row of a job that it returned is due, whatever the clock and the locks are then.
pub claim_due_jobs-excludes :
    (limit now : ℕ) (locked : ℕ → Bool) (j : Jobs) (later : ℕ) (locked' : ℕ → Bool)
    → All
        (λ row.
          (any (λ job. job.id == row.job.id) (claim_due_jobs limit now locked j).0
            && is_due later locked' row)
          ≡ false)
        ((claim_due_jobs limit now locked j).1).rows
unfolding claim_due_jobs
claim_due_jobs-excludes limit now locked j later locked' =
    start_attempts-excludes later locked' (select_rows limit now locked j.rows) j.rows
