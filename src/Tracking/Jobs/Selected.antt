-- ===== src/Tracking/Jobs/Selected.antt =====
-- `claim_due_jobs` of app/tracking/repository.py: the rows that its `SELECT` returns.
use naesb_edi.Base.{
  ℕ, zero, suc, ◌≤◌, ◌≡◌, refl, sym, ap, ◌⊎◌, inl, inr, Bool, ◌&&◌, not, if◌then◌else◌, List, [],
  ◌∷◌, ◌++◌, length, take, drop, All, leb, arith, Bool-cases,
}
use naesb_edi.Tracking.Jobs.{
  JobRow, is_queued, select_due, insert_by_time, order_by_time, select_rows,
}
use naesb_edi.Tracking.Jobs.Claim.{insert_by_time-All, take-All}

-- Ascending by the time of the next attempt.
abbrev pub IsOrdered : List JobRow → Type 0
IsOrdered [] = Unit
IsOrdered (row ∷ rows) = All (λ r. row.next_attempt_at ≤ r.next_attempt_at) rows × IsOrdered rows

weaken :
    (a b : ℕ) (rows : List JobRow)
    → a ≤ b
    → All (λ r. b ≤ r.next_attempt_at) rows
    → All (λ r. a ≤ r.next_attempt_at) rows
weaken a b [] h p = tt
weaken a b (row ∷ rows) h p = (omega (arith, h, p.0), weaken a b rows h p.1)

insert_by_time-IsOrdered :
    (row : JobRow) (rows : List JobRow) → IsOrdered rows → IsOrdered (insert_by_time row rows)
unfolding insert_by_time
insert_by_time-IsOrdered row [] h = (tt, tt)
insert_by_time-IsOrdered row (r ∷ rows) h =
    elim (Bool-cases (leb row.next_attempt_at r.next_attempt_at)) [
      | inl first ↦
          let le : row.next_attempt_at ≤ r.next_attempt_at = ground arith in
          rw first ((le, weaken row.next_attempt_at r.next_attempt_at rows le h.0), h)
      | inr later ↦ rw later (
        insert_by_time-All (λ x. r.next_attempt_at ≤ x.next_attempt_at) row rows (ground arith) h.0,
        insert_by_time-IsOrdered row rows h.1,
      )
    ]

order_by_time-IsOrdered : (rows : List JobRow) → IsOrdered (order_by_time rows)
unfolding order_by_time
order_by_time-IsOrdered [] = tt
order_by_time-IsOrdered (row ∷ rows) =
    insert_by_time-IsOrdered row (order_by_time rows) (order_by_time-IsOrdered rows)

take-IsOrdered : (n : ℕ) (rows : List JobRow) → IsOrdered rows → IsOrdered (take n rows)
take-IsOrdered zero rows h = tt
take-IsOrdered (suc n) [] h = tt
take-IsOrdered (suc n) (row ∷ rows) h =
    (take-All (λ r. row.next_attempt_at ≤ r.next_attempt_at) n rows h.0, take-IsOrdered n rows h.1)

length-take_le : (n : ℕ) (rows : List JobRow) → length (take n rows) ≤ n
length-take_le zero rows = omega arith
length-take_le (suc n) [] = omega arith
length-take_le (suc n) (row ∷ rows) = omega (arith, length-take_le n rows)

-- The same rows in another order.
pub data Reorders : List JobRow → List JobRow → Type 0 where
  same : (rows : List JobRow) → Reorders rows rows
  cons : {row : JobRow} {a b : List JobRow} → Reorders a b → Reorders (row ∷ a) (row ∷ b)
  swap : (r s : JobRow) (rows : List JobRow) → Reorders (r ∷ s ∷ rows) (s ∷ r ∷ rows)
  trans : {a b c : List JobRow} → Reorders a b → Reorders b c → Reorders a c

insert_by_time-Reorders :
    (row : JobRow) (rows : List JobRow) → Reorders (row ∷ rows) (insert_by_time row rows)
unfolding insert_by_time
insert_by_time-Reorders row [] = same (row ∷ [])
insert_by_time-Reorders row (r ∷ rows) =
    elim (Bool-cases (leb row.next_attempt_at r.next_attempt_at)) [
      | inl first ↦ rw first (same (row ∷ r ∷ rows))
      | inr later ↦ rw later (trans (swap row r rows) (cons (insert_by_time-Reorders row rows)))
    ]

order_by_time-Reorders : (rows : List JobRow) → Reorders rows (order_by_time rows)
unfolding order_by_time
order_by_time-Reorders [] = same []
order_by_time-Reorders (row ∷ rows) =
    trans (cons (order_by_time-Reorders rows)) (insert_by_time-Reorders row (order_by_time rows))

take-drop : (n : ℕ) (rows : List JobRow) → take n rows ++ drop n rows ≡ rows
take-drop zero rows = refl
take-drop (suc n) [] = refl
take-drop (suc n) (row ∷ rows) = ap (λ xs. row ∷ xs) (take-drop n rows)

drop-All : (P : JobRow → Type 0) (n : ℕ) (rows : List JobRow) → All P rows → All P (drop n rows)
drop-All P zero rows h = h
drop-All P (suc n) [] h = tt
drop-All P (suc n) (row ∷ rows) h = drop-All P n rows h.1

-- No row of the second list is due before one of the first.
abbrev pub AreFirst : List JobRow → List JobRow → Type 0
AreFirst [] later = Unit
AreFirst (row ∷ rows) later =
    All (λ r. row.next_attempt_at ≤ r.next_attempt_at) later × AreFirst rows later

take-AreFirst : (n : ℕ) (rows : List JobRow) → IsOrdered rows → AreFirst (take n rows) (drop n rows)
take-AreFirst zero rows h = tt
take-AreFirst (suc n) [] h = tt
take-AreFirst (suc n) (row ∷ rows) h =
    (drop-All (λ r. row.next_attempt_at ≤ r.next_attempt_at) n rows h.0, take-AreFirst n rows h.1)

take_full : (n : ℕ) (rows : List JobRow) → (drop n rows ≡ []) ⊎ (length (take n rows) ≡ n)
take_full zero rows = inr refl
take_full (suc n) [] = inl refl
take_full (suc n) (row ∷ rows) = elim (take_full n rows) [
  | inl none_left ↦ inl none_left
  | inr full ↦ inr (omega (arith, full))
]

-- What a claim selects of the rows, and what it leaves.
pub record IsSelection (limit : ℕ) (due selected : List JobRow) : Type 0 where
  pub left : List JobRow
  pub all_rows : Reorders due (selected ++ left)
  pub bounded : length selected ≤ limit
  pub full : (left ≡ []) ⊎ (length selected ≡ limit)
  pub ordered : IsOrdered selected
  pub first : AreFirst selected left

-- The rows of a table that a condition holds of.
abbrev pub satisfying : (JobRow → Bool) → List JobRow → List JobRow
satisfying p [] = []
satisfying p (row ∷ rows) = let rest = satisfying p rows in if p row then row ∷ rest else rest

select_due-satisfying :
    (now : ℕ) (locked : ℕ → Bool) (rows : List JobRow)
    → select_due now locked rows
      ≡ satisfying
          (λ r. is_queued r.job.status && (leb r.next_attempt_at now && not (locked r.job.id)))
          rows
unfolding select_due
select_due-satisfying now locked [] = refl
select_due-satisfying now locked (row ∷ rows) = rw (select_due-satisfying now locked rows) refl

-- A claim selects, of the rows that are queued, due and not locked by another worker, at most `limit`,
-- in the order of their next attempts: all of them, or as many as the limit says, and then none that it
-- leaves is due before one that it selects.
pub select_rows-IsSelection :
    (limit now : ℕ) (locked : ℕ → Bool) (rows : List JobRow)
    → IsSelection limit
        (satisfying
          (λ r. is_queued r.job.status && (leb r.next_attempt_at now && not (locked r.job.id)))
          rows)
        (select_rows limit now locked rows)
unfolding select_rows
select_rows-IsSelection limit now locked rows =
    let due = select_due now locked rows in
    rw (sym (select_due-satisfying now locked rows)) (record {
      left = drop limit (order_by_time due);
      all_rows = rw (take-drop limit (order_by_time due)) (order_by_time-Reorders due);
      bounded = length-take_le limit (order_by_time due);
      full = take_full limit (order_by_time due);
      ordered = take-IsOrdered limit (order_by_time due) (order_by_time-IsOrdered due);
      first = take-AreFirst limit (order_by_time due) (order_by_time-IsOrdered due);
    })
