-- ===== src/Tracking/Migrations/Order.antt =====
-- app/tracking/db.py: what a run of the migrations leaves, whether it ends or raises, and a second run.
use naesb_edi.Base.{
  ◌≡◌, refl, ap, ◌⊎◌, inl, inr, true, false, List, [], ◌∷◌, ◌++◌, map, All, All-change, Text,
  Result, ok, err, Result-cases, arith, Bool-cases, if◌then◌else◌,
}
use naesb_edi.Exceptions.{Exception}
use naesb_edi.Tracking.Migrations.{
  Migration, Database, holds, text_le, insert_by_name, sorted, apply_file, apply_files, committed,
  run_migrations,
}

-- The files that are still to be applied.
abbrev pub pending : List Text → List Migration → List Migration
pending before [] = []
pending before (m ∷ ms) =
    let rest = pending before ms in if holds m.name before then rest else m ∷ rest

abbrev pub names : List Migration → List Text
names = map (λ m. m.name)

module _ {S : Type 0} (execute : Text → S → Result Exception S) where
  -- The files' transactions one after the other.
  pub data Applies : List Migration → Database S → Database S → Type 0 where
    nothing : {db : Database S} → Applies [] db db
    first :
        {m : Migration} {ms : List Migration} {db next last : Database S}
        → apply_file execute m db ≡ ok next
        → Applies ms next last
        → Applies (m ∷ ms) db last

  -- The loop ended on a database: the files were applied one after the other. Or it raised: the files
  -- in front of one were applied, and that one raised on what they left.
  abbrev pub Ran : List Migration → Database S → Result Exception (Database S) → Type 0
  Ran todo db r =
      ((last : Database S) × (r ≡ ok last) × Applies todo db last)
      ⊎ ((done : List Migration) × (m : Migration) × (rest : List Migration) × (last : Database S)
          × (e : Exception) × (todo ≡ done ++ m ∷ rest)
          × Applies done db last
          × (apply_file execute m last ≡ err e)
          × (r ≡ err e))

  apply_files-Ran :
      (before : List Text) (ms : List Migration) (db : Database S)
      → Ran (pending before ms) db (apply_files execute before ms db)
  unfolding apply_files
  apply_files-Ran before [] db = inl (db, refl, nothing)
  apply_files-Ran before (m ∷ ms) db = elim (Bool-cases (holds m.name before)) [
    | inl old ↦ rw old (apply_files-Ran before ms db)
    | inr new ↦ rw new (elim (Result-cases (apply_file execute m db)) [
      | inr (e, raised) ↦
          rw raised (inr ([], m, pending before ms, db, e, refl, nothing, raised, refl))
      | inl (next, went) ↦ rw went (elim (apply_files-Ran before ms next) [
        | inl (last, returned, rest) ↦ inl (last, returned, first went rest)
        | inr (done, x, rest, last, e, split, applied, failed, raised) ↦ inr (
          m ∷ done,
          x,
          rest,
          last,
          e,
          ap (λ xs. m ∷ xs) split,
          first went applied,
          failed,
          raised,
        )
      ])
    ])
  ]

  -- A run of the migrations: all of them and the database that they leave, or an exception of one of
  -- them and the database as it was.
  abbrev pub IsWhole :
      List Migration → Database S → Result Exception (Unit {0}) × Database S → Type 0
  IsWhole todo db r =
      ((r.0 ≡ ok tt) × Applies todo db r.1)
      ⊎ ((done : List Migration) × (m : Migration) × (rest : List Migration) × (last : Database S)
          × (e : Exception) × (todo ≡ done ++ m ∷ rest)
          × Applies done db last
          × (apply_file execute m last ≡ err e)
          × (r ≡ (err e, db)))

  committed-IsWhole :
      (todo : List Migration) (db : Database S) (r : Result Exception (Database S))
      → Ran todo db r
      → IsWhole todo db (committed execute db r)
  committed-IsWhole todo db r (inl (last, returned, applied)) = rw returned (inl (refl, applied))
  committed-IsWhole todo db r (inr (done, m, rest, last, e, split, applied, failed, raised)) =
      rw raised (inr (done, m, rest, last, e, split, applied, failed, refl))

-- The order of texts.
text_le_total : (a b : Text) → text_le a b ≡ false → text_le b a ≡ true
unfolding text_le
text_le_total [] b h = absurd (ground arith)
text_le_total (x ∷ a) [] h = refl
text_le_total (x ∷ a) (y ∷ b) h = ground (arith, text_le_total a b)

text_le_trans : (a b c : Text) → text_le a b ≡ true → text_le b c ≡ true → text_le a c ≡ true
unfolding text_le
text_le_trans [] b c h k = refl
text_le_trans (x ∷ a) [] c h k = absurd (ground arith)
text_le_trans (x ∷ a) (y ∷ b) [] h k = absurd (ground arith)
text_le_trans (x ∷ a) (y ∷ b) (z ∷ c) h k = ground (arith, text_le_trans a b c)

-- In the order of the names.
abbrev pub IsSorted : List Migration → Type 0
IsSorted [] = Unit
IsSorted (m ∷ ms) = All (λ x. text_le m.name x.name ≡ true) ms × IsSorted ms

insert_by_name-All :
    (P : Migration → Type 0) (m : Migration) (ms : List Migration)
    → P m
    → All P ms
    → All P (insert_by_name m ms)
unfolding insert_by_name
insert_by_name-All P m [] p h = (p, tt)
insert_by_name-All P m (x ∷ ms) p h = elim (Bool-cases (text_le m.name x.name)) [
  | inl low ↦ rw low (p, h)
  | inr high ↦ rw high (h.0, insert_by_name-All P m ms p h.1)
]

insert_by_name-IsSorted :
    (m : Migration) (ms : List Migration) → IsSorted ms → IsSorted (insert_by_name m ms)
unfolding insert_by_name
insert_by_name-IsSorted m [] h = (tt, tt)
insert_by_name-IsSorted m (x ∷ ms) h = elim (Bool-cases (text_le m.name x.name)) [
  | inl low ↦ rw low (
    (
      low,
      All-change (λ y. text_le x.name y.name ≡ true) (λ y. text_le m.name y.name ≡ true) ms
          (λ y k. text_le_trans m.name x.name y.name low k) h.0,
    ),
    h,
  )
  | inr high ↦ rw high (
    insert_by_name-All (λ y. text_le x.name y.name ≡ true) m ms (text_le_total m.name x.name high)
        h.0,
    insert_by_name-IsSorted m ms h.1,
  )
]

sorted-IsSorted : (ms : List Migration) → IsSorted (sorted ms)
unfolding sorted
sorted-IsSorted [] = tt
sorted-IsSorted (m ∷ ms) = insert_by_name-IsSorted m (sorted ms) (sorted-IsSorted ms)

-- A run goes through the files in the order of their names. If it returns, it has applied those whose
-- name was not recorded before, one after the other. Otherwise one of them raised on what those in front
-- of it left, the run raises that exception, and the database is as it was before the run.
pub run_migrations-IsWhole :
    {S : Type 0} (execute : Text → S → Result Exception S) (files : List Migration)
    (db : Database S)
    → IsSorted (sorted files)
      × IsWhole execute (pending db.applied (sorted files)) db (run_migrations execute files db)
unfolding run_migrations
run_migrations-IsWhole execute files db = (
  sorted-IsSorted files,
  committed-IsWhole execute _ db _ (apply_files-Ran execute db.applied (sorted files) db),
)
