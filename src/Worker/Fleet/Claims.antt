-- ===== src/Worker/Fleet/Claims.antt =====
-- `claim_due_jobs` of app/tracking/repository.py: the rows that a claim takes, in a table where ids
-- are distinct.
use naesb_edi.Base.{
  ℕ, zero, suc, ◌≡◌, refl, sym, ap, ◌∙◌, inl, inr, Bool, true, false, some, List, [], ◌∷◌, All,
  All-change, All-both, take, leb, ◌==◌, ==_iff, arith, Bool-cases,
}
use naesb_edi.Tracking.Jobs.{
  JobStatus, queued, in_progress, delivered, failed_nack, exchange_failure, JobRow, find_job,
  is_queued, is_due, select_due, order_by_time, insert_by_time, select_rows,
}
use naesb_edi.Worker.Rows.{IsKeyed, claimed_by}
use naesb_edi.Worker.Fleet.{IsDistinct}
use naesb_edi.Tracking.Jobs.Claim.{
  insert_by_time-All, order_by_time-All, take-All, select_due-IsDue, IsDue,
}

==_swap : (a b : ℕ) → a == b ≡ false → b == a ≡ false
==_swap a b h = ground arith

-- A selection keeps what holds of all rows, and that ids are distinct.
module _ (now : ℕ) (locked : ℕ → Bool) where
  select_due-All :
      (P : JobRow → Type 0) (rows : List JobRow) → All P rows → All P (select_due now locked rows)
  unfolding select_due
  select_due-All P [] h = tt
  select_due-All P (r ∷ rows) h = elim (Bool-cases (is_due now locked r)) [
    | inl due ↦ rw due (h.0, select_due-All P rows h.1)
    | inr not_due ↦ rw not_due (select_due-All P rows h.1)
  ]

  select_due-IsDistinct :
      (rows : List JobRow) → IsDistinct rows → IsDistinct (select_due now locked rows)
  unfolding select_due
  select_due-IsDistinct [] h = tt
  select_due-IsDistinct (r ∷ rows) h = elim (Bool-cases (is_due now locked r)) [
    | inl due ↦ rw due (
      select_due-All (λ x. r.job.id == x.job.id ≡ false) rows h.0,
      select_due-IsDistinct rows h.1,
    )
    | inr not_due ↦ rw not_due (select_due-IsDistinct rows h.1)
  ]

insert_by_time-IsDistinct :
    (row : JobRow) (rows : List JobRow)
    → All (λ x. row.job.id == x.job.id ≡ false) rows
    → IsDistinct rows
    → IsDistinct (insert_by_time row rows)
unfolding insert_by_time
insert_by_time-IsDistinct row [] k h = (tt, tt)
insert_by_time-IsDistinct row (r ∷ rows) k h =
    elim (Bool-cases (leb row.next_attempt_at r.next_attempt_at)) [
      | inl first ↦ rw first (k, h)
      | inr later ↦ rw later (
        insert_by_time-All (λ x. r.job.id == x.job.id ≡ false) row rows
            (==_swap row.job.id r.job.id k.0) h.0,
        insert_by_time-IsDistinct row rows k.1 h.1,
      )
    ]

order_by_time-IsDistinct : (rows : List JobRow) → IsDistinct rows → IsDistinct (order_by_time rows)
unfolding order_by_time
order_by_time-IsDistinct [] h = tt
order_by_time-IsDistinct (r ∷ rows) h =
    insert_by_time-IsDistinct r (order_by_time rows)
      (order_by_time-All (λ x. r.job.id == x.job.id ≡ false) rows h.0)
      (order_by_time-IsDistinct rows h.1)

take-IsDistinct : (n : ℕ) (rows : List JobRow) → IsDistinct rows → IsDistinct (take n rows)
take-IsDistinct zero rows h = tt
take-IsDistinct (suc n) [] h = tt
take-IsDistinct (suc n) (r ∷ rows) h =
    (take-All (λ x. r.job.id == x.job.id ≡ false) n rows h.0, take-IsDistinct n rows h.1)

-- A taken row is the table's row of its id, and is queued.
abbrev pub IsTaken : List JobRow → JobRow → Type 0
IsTaken rows c = (find_job c.job.id rows ≡ some c) × (c.job.status ≡ queued)

is_queued-queued : (s : JobStatus) → is_queued s ≡ true → s ≡ queued
is_queued-queued queued h = refl
is_queued-queued in_progress h = absurd (ground arith)
is_queued-queued delivered h = absurd (ground arith)
is_queued-queued failed_nack h = absurd (ground arith)
is_queued-queued exchange_failure h = absurd (ground arith)

due-queued :
    (now : ℕ) (locked : ℕ → Bool) (r : JobRow) → is_due now locked r ≡ true → r.job.status ≡ queued
due-queued now locked r h = is_queued-queued r.job.status (ground arith)

module _ (most now : ℕ) (locked : ℕ → Bool) (rows : List JobRow) where
  pub select_rows-IsTaken : IsKeyed rows → All (IsTaken rows) (select_rows most now locked rows)
  unfolding select_rows
  select_rows-IsTaken k =
      let due = select_due now locked rows in
      take-All (IsTaken rows) most (order_by_time due) (
        order_by_time-All (IsTaken rows) due (
          All-both (λ r. find_job r.job.id rows ≡ some r) (λ r. r.job.status ≡ queued) due
            (select_due-All now locked (λ r. find_job r.job.id rows ≡ some r) rows k)
            (All-change (IsDue now locked) (λ r. r.job.status ≡ queued) due (due-queued now locked)
              (select_due-IsDue now locked rows))))

  pub select_rows-IsDistinct : IsDistinct rows → IsDistinct (select_rows most now locked rows)
  unfolding select_rows
  select_rows-IsDistinct h = take-IsDistinct most (order_by_time (select_due now locked rows)) (
      order_by_time-IsDistinct (select_due now locked rows)
        (select_due-IsDistinct now locked rows h))

-- The row of a claimed id is queued.
pub claimed_by-queued :
    (rows claimed : List JobRow) (id : ℕ) (row : JobRow)
    → All (IsTaken rows) claimed
    → find_job id rows ≡ some row
    → claimed_by claimed id ≡ true
    → row.job.status ≡ queued
claimed_by-queued rows [] id row h e k = absurd (ground arith)
claimed_by-queued rows (c ∷ cs) id row h e k = elim (Bool-cases (c.job.id == id)) [
  | inl hit ↦
      let same : some c ≡ some row =
        sym h.0.0 ∙ ap (λ i. find_job i rows) ((==_iff c.job.id id).0 hit) ∙ e in
      let same' : c ≡ row = ground arith in ap (λ (x : JobRow). x.job.status) (sym same') ∙ h.0.1
  | inr miss ↦ claimed_by-queued rows cs id row h.1 e (ground arith)
]

pub claimed_by_self :
    (claimed : List JobRow) → All (λ c. claimed_by claimed c.job.id ≡ true) claimed
claimed_by_self [] = tt
claimed_by_self (c ∷ cs) =
    let self : c.job.id == c.job.id ≡ true = (==_iff c.job.id c.job.id).1 refl in
    (
      rw self refl,
      All-change (λ x. claimed_by cs x.job.id ≡ true) (λ x. claimed_by (c ∷ cs) x.job.id ≡ true) cs
          (λ x e. ground arith) (claimed_by_self cs),
    )
