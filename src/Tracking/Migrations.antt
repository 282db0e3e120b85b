-- ===== src/Tracking/Migrations.antt =====
-- `run_migrations` of app/tracking/db.py: the files that were not applied before, in the order of
-- their names, each with its entry in `schema_migrations`. Reading the applied names has opened the
-- connection's transaction, so that the transaction of a file is a savepoint in it. What a file's SQL
-- does to the schema is a parameter.
pub mod Order
pub mod Again
use naesb_edi.Base.{
  ℕ, Bool, true, false, ◌&&◌, ◌||◌, List, [], ◌∷◌, ◌++◌, Text, Result, ok, err, any, equal, ltb,
  ◌==◌, if◌then◌else◌, ◌>>=◌,
}
use naesb_edi.Exceptions.{Exception, unique_violation}

-- A file of `MIGRATIONS_DIR`: its name, and what reading it gives.
pub record Migration : Type 0 where
  pub name : Text
  pub text : Result Exception Text

-- The schema, and the names in the table `schema_migrations`, whose key they are.
pub record Database (S : Type 0) : Type 0 where
  pub schema : S
  pub applied : List Text

unfoldable pub holds : Text → List Text → Bool
holds name names = any (λ n. equal n name) names

-- `a <= b` of texts
unfoldable pub text_le : Text → Text → Bool
text_le [] b = true
text_le (x ∷ a) [] = false
text_le (x ∷ a) (y ∷ b) = ltb x y || (x == y && text_le a b)

unfoldable pub insert_by_name : Migration → List Migration → List Migration
unfolding text_le
insert_by_name m [] = m ∷ []
insert_by_name m (x ∷ xs) = if text_le m.name x.name then m ∷ x ∷ xs else x ∷ insert_by_name m xs

-- `sorted(...)` of paths in one directory
unfoldable pub sorted : List Migration → List Migration
unfolding insert_by_name
sorted [] = []
sorted (m ∷ ms) = insert_by_name m (sorted ms)

module _ {S : Type 0} (execute : Text → S → Result Exception S) where
  -- The entry of a file that is applied; a second one violates the key.
  abbrev pub record_applied : Text → S → Database S → Result Exception (Database S)
  record_applied name schema db =
      if holds name db.applied
      then err unique_violation
      else ok (record { schema = schema; applied = db.applied ++ name ∷ [] })

  -- One file with its entry.
  unfoldable pub apply_file : Migration → Database S → Result Exception (Database S)
  unfolding holds
  apply_file m db = elim m.text [
    | err e ↦ err e
    | ok sql ↦ elim (execute sql db.schema) [
      | err e ↦ err e
      | ok schema ↦ record_applied m.name schema db
    ]
  ]

  -- The loop. `before` holds the names that were applied when it began. Each file is a savepoint of
  -- the connection's one transaction.
  unfoldable pub apply_files :
      List Text → List Migration → Database S → Result Exception (Database S)
  unfolding apply_file
  apply_files before [] db = ok db
  apply_files before (m ∷ ms) db =
      if holds m.name before
      then apply_files before ms db
      else do next ← apply_file m db; apply_files before ms next

  -- The end of the connection's context: it commits, or an exception rolls everything back.
  abbrev pub committed :
      Database S → Result Exception (Database S) → Result Exception (Unit {0}) × Database S
  committed db (ok next) = (ok tt, next)
  committed db (err e) = (err e, db)

  unfoldable pub run_migrations :
      List Migration → Database S → Result Exception (Unit {0}) × Database S
  unfolding apply_files sorted
  run_migrations files db = committed db (apply_files db.applied (sorted files) db)
