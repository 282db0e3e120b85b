-- ===== src/Tracking/Migrations/Again.antt =====
-- app/tracking/db.py: a second run, as at each start of the gateway and of its worker.
use naesb_edi.Base.{
  ◌≡◌, refl, sym, ap, ◌∙◌, inl, inr, Bool, true, false, ◌||◌, List, [], ◌∷◌, ◌++◌, All, Text,
  Result, ok, Result-cases, ok-injective, >>=-eq-ok, equal_refl, arith, Bool-cases,
}
use naesb_edi.Exceptions.{Exception}
use naesb_edi.Tracking.Migrations.{
  Migration, Database, holds, sorted, apply_file, record_applied, apply_files, run_migrations,
}

holds-append : (n : Text) (a b : List Text) → holds n (a ++ b) ≡ (holds n a || holds n b)
unfolding holds
holds-append n [] b = refl
holds-append n (x ∷ a) b = ground (arith, holds-append n a b)

holds_own : (n : Text) → holds n (n ∷ []) ≡ true
unfolding holds
holds_own n = rw (equal_refl n) refl

or_true : (b : Bool) → (b || true) ≡ true
or_true true = refl
or_true false = refl

module _ {S : Type 0} (execute : Text → S → Result Exception S) where
  recorded :
      (name : Text) (schema : S) (db next : Database S)
      → record_applied execute name schema db ≡ ok next
      → next.applied ≡ db.applied ++ name ∷ []
  recorded name schema db next h = elim (Bool-cases (holds name db.applied)) [
    | inl old ↦ absurd (ground (arith, old))
    | inr new ↦ ground (arith, new)
  ]

  apply_file-applied :
      (m : Migration) (db next : Database S)
      → apply_file execute m db ≡ ok next
      → next.applied ≡ db.applied ++ m.name ∷ []
  unfolding apply_file
  apply_file-applied m db next h = elim (Result-cases m.text) [
    | inr (e, q) ↦ absurd (ground (arith, q))
    | inl (sql, q) ↦ elim (Result-cases (execute sql db.schema)) [
      | inr (e, r) ↦ absurd (ground (arith, q, r))
      | inl (schema, r) ↦ recorded m.name schema db next (ground (arith, q, r))
    ]
  ]

  -- What is recorded stays recorded, and every file is recorded.
  apply_files-records :
      (before : List Text) (ms : List Migration) (db last : Database S)
      → ((n : Text) → holds n before ≡ true → holds n db.applied ≡ true)
      → apply_files execute before ms db ≡ ok last
      → ((n : Text) → holds n db.applied ≡ true → holds n last.applied ≡ true)
        × All (λ m. holds m.name last.applied ≡ true) ms
  unfolding apply_files
  apply_files-records before [] db last k h =
      (λ n b. ap (λ (d : Database S). holds n d.applied) (sym (ok-injective h)) ∙ b, tt)
  apply_files-records before (m ∷ ms) db last k h = elim (Bool-cases (holds m.name before)) [
    | inl old ↦
        let (grows, rest) = apply_files-records before ms db last k (sym (rw old refl) ∙ h) in
        (grows, (grows m.name (k m.name old), rest))
    | inr new ↦
        let (next, went, later) =
          >>=-eq-ok (apply_file execute m db) (apply_files execute before ms)
            (sym (rw new refl) ∙ h) in
        let grown = apply_file-applied m db next went in
        let wider : (n : Text) → holds n db.applied ≡ true → holds n next.applied ≡ true =
          λ n b. ap (holds n) grown ∙ holds-append n db.applied (m.name ∷ []) ∙ rw b refl in
        let own : holds m.name next.applied ≡ true =
          ap (holds m.name) grown
          ∙ holds-append m.name db.applied (m.name ∷ [])
          ∙ rw (holds_own m.name) (or_true (holds m.name db.applied)) in
        let (grows, rest) =
          apply_files-records before ms next last (λ n b. wider n (k n b)) later in
        (λ n b. grows n (wider n b), (grows m.name own, rest))
  ]

  apply_files-skips :
      (before : List Text) (ms : List Migration) (db : Database S)
      → All (λ m. holds m.name before ≡ true) ms
      → apply_files execute before ms db ≡ ok db
  unfolding apply_files
  apply_files-skips before [] db h = refl
  apply_files-skips before (m ∷ ms) db h = rw h.0 (apply_files-skips before ms db h.1)

-- After a run that returned, a further run over the same files returns and changes nothing.
pub run_migrations-again :
    {S : Type 0} (execute : Text → S → Result Exception S) (files : List Migration)
    (db : Database S)
    → (run_migrations execute files db).0 ≡ ok tt
    → run_migrations execute files (run_migrations execute files db).1
      ≡ (ok tt, (run_migrations execute files db).1)
unfolding run_migrations
run_migrations-again execute files db h =
    elim (Result-cases (apply_files execute db.applied (sorted files) db)) [
      | inr (e, raised) ↦ absurd (ground (arith, raised))
      | inl (last, went) ↦
          let all_in =
            (apply_files-records execute db.applied (sorted files) db last (λ n b. b) went).1 in
          rw (went, apply_files-skips execute last.applied (sorted files) last all_in) refl
    ]
