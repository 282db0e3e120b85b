-- ===== src/Worker/Rows.antt =====
-- The table `outbound_jobs` as a map from ids to rows: what an update and a claim do to it.
use naesb_edi.Base.{
  ℕ, ◌<◌, ◌≡◌, refl, sym, ap, ◌∙◌, inl, inr, Bool, true, false, Option, none, some, List, [], ◌∷◌,
  ◌++◌, map, any, All, All-change, All-append, ◌==◌, ==_iff, arith, Bool-cases, if◌then◌else◌,
}
use naesb_edi.Tracking.Jobs.{JobRow, find_job, update_job, start_attempt, start_attempts}

-- Every row is the one that its id finds.
abbrev pub IsKeyed : List JobRow → Type 0
IsKeyed rows = All (λ r. find_job r.job.id rows ≡ some r) rows

abbrev pub KeepsId : (JobRow → JobRow) → Type 0
KeepsId g = (r : JobRow) → (g r).job.id ≡ r.job.id

abbrev pub on_row : (JobRow → JobRow) → Option JobRow → Option JobRow
on_row g none = none
on_row g (some r) = some (g r)

pub find_job-id :
    (id : ℕ) (rows : List JobRow) (row : JobRow) → find_job id rows ≡ some row → row.job.id ≡ id
unfolding find_job
find_job-id id [] row h = absurd (ground arith)
find_job-id id (r ∷ rows) row h = elim (Bool-cases (r.job.id == id)) [
  | inl hit ↦
      let same : r ≡ row = ground arith in
      ap (λ (x : JobRow). x.job.id) (sym same) ∙ (==_iff r.job.id id).0 hit
  | inr miss ↦ find_job-id id rows row (ground arith)
]

pub find_job-map :
    (g : JobRow → JobRow)
    → KeepsId g
    → (id : ℕ) (rows : List JobRow) → find_job id (map g rows) ≡ on_row g (find_job id rows)
unfolding find_job
find_job-map g k id [] = refl
find_job-map g k id (r ∷ rows) = elim (Bool-cases (r.job.id == id)) [
  | inl hit ↦
      let hit' : (g r).job.id == id ≡ true = ap (λ i. i == id) (k r) ∙ hit in rw (hit, hit') refl
  | inr miss ↦
      let miss' : (g r).job.id == id ≡ false = ap (λ i. i == id) (k r) ∙ miss in
      rw (miss, miss') (find_job-map g k id rows)
]

pub All-map :
    (P Q : JobRow → Type 0) (g : JobRow → JobRow)
    → ((r : JobRow) → P r → Q (g r))
    → (rows : List JobRow) → All P rows
    → All Q (map g rows)
All-map P Q g k [] h = tt
All-map P Q g k (r ∷ rows) h = (k r h.0, All-map P Q g k rows h.1)

pub map-IsKeyed :
    (g : JobRow → JobRow) → KeepsId g → (rows : List JobRow) → IsKeyed rows → IsKeyed (map g rows)
map-IsKeyed g k rows h =
    All-map (λ r. find_job r.job.id rows ≡ some r) (λ r. find_job r.job.id (map g rows) ≡ some r) g
      (λ r e.
        ap (λ i. find_job i (map g rows)) (k r) ∙ find_job-map g k r.job.id rows ∙ ap (on_row g) e)
      rows h

-- An update and a claim change each row by itself.
abbrev pub updated : ℕ → (JobRow → JobRow) → JobRow → JobRow
updated id f r = if r.job.id == id then f r else r

pub update_job-map :
    (id : ℕ) (f : JobRow → JobRow) (rows : List JobRow)
    → update_job id f rows ≡ map (updated id f) rows
unfolding update_job
update_job-map id f [] = refl
update_job-map id f (r ∷ rows) = ap (λ rs. updated id f r ∷ rs) (update_job-map id f rows)

abbrev pub claimed_by : List JobRow → ℕ → Bool
claimed_by claimed id = any (λ c. c.job.id == id) claimed

abbrev pub started : List JobRow → JobRow → JobRow
started claimed r = if claimed_by claimed r.job.id then start_attempt r else r

pub start_attempts-map :
    (claimed rows : List JobRow) → start_attempts claimed rows ≡ map (started claimed) rows
unfolding start_attempts
start_attempts-map claimed [] = refl
start_attempts-map claimed (r ∷ rows) =
    ap (λ rs. started claimed r ∷ rs) (start_attempts-map claimed rows)

pub updated-KeepsId : (id : ℕ) (f : JobRow → JobRow) → KeepsId f → KeepsId (updated id f)
updated-KeepsId id f k r = elim (Bool-cases (r.job.id == id)) [
  | inl hit ↦ rw hit (k r)
  | inr miss ↦ rw miss refl
]

pub started-KeepsId : (claimed : List JobRow) → KeepsId (started claimed)
started-KeepsId claimed r = elim (Bool-cases (claimed_by claimed r.job.id)) [
  | inl hit ↦ rw hit refl
  | inr miss ↦ rw miss refl
]

-- No row has an id that all are below.
find_job_above :
    (n : ℕ) (rows : List JobRow) → All (λ r. r.job.id < n) rows → find_job n rows ≡ none
unfolding find_job
find_job_above n [] h = refl
find_job_above n (r ∷ rows) h =
    let miss : r.job.id == n ≡ false = ground arith in rw miss (find_job_above n rows h.1)

pub find_job-append :
    (id : ℕ) (rows more : List JobRow) (row : JobRow)
    → find_job id rows ≡ some row
    → find_job id (rows ++ more) ≡ some row
unfolding find_job
find_job-append id [] more row h = absurd (ground arith)
find_job-append id (r ∷ rows) more row h = elim (Bool-cases (r.job.id == id)) [
  | inl hit ↦ rw hit (ground arith)
  | inr miss ↦ rw miss (find_job-append id rows more row (ground arith))
]

pub find_job-snoc :
    (n : ℕ) (rows : List JobRow) (new : JobRow)
    → All (λ r. r.job.id < n) rows
    → new.job.id ≡ n
    → find_job n (rows ++ new ∷ []) ≡ some new
unfolding find_job
find_job-snoc n [] new h e = let hit : new.job.id == n ≡ true = ground arith in rw hit refl
find_job-snoc n (r ∷ rows) new h e =
    let miss : r.job.id == n ≡ false = ground arith in rw miss (find_job-snoc n rows new h.1 e)

pub snoc-IsKeyed :
    (n : ℕ) (rows : List JobRow) (new : JobRow)
    → All (λ r. r.job.id < n) rows
    → new.job.id ≡ n
    → IsKeyed rows
    → IsKeyed (rows ++ new ∷ [])
snoc-IsKeyed n rows new h e k =
    All-append (λ r. find_job r.job.id (rows ++ new ∷ []) ≡ some r) rows (new ∷ [])
      (All-change (λ r. find_job r.job.id rows ≡ some r)
        (λ r. find_job r.job.id (rows ++ new ∷ []) ≡ some r) rows
        (λ r. find_job-append r.job.id rows (new ∷ []) r) k)
      (ap (λ i. find_job i (rows ++ new ∷ [])) e ∙ find_job-snoc n rows new h e, tt)
