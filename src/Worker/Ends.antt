-- ===== src/Worker/Ends.antt =====
-- The loop of `run_worker` in app/worker.py: with a number of iterations it ends, and without one it
-- does not return.
use naesb_edi.Base.{
  ℕ, zero, suc, ◌+◌, ◌-◌, ◌≤◌, ◌<◌, ◌≡◌, refl, ◌∙◌, ◌⊎◌, inl, inr, ltb, Bool-cases, Option, none,
  some, Result, ok, err, arith,
}
use naesb_edi.Exceptions.{Exception}
use naesb_edi.Worker.{Config, Desk, Cycle, poll, Loop, next_cycle, run_cycles}

-- An exception ended the loop, or it ran its cycles and slept between them.
abbrev pub Ends : ℕ → Loop → Option (Result Exception (Unit {0})) × Loop → Type 0
Ends iterations l r =
    ((e : Exception) × (r.0 ≡ some (err e)))
    ⊎ ((r.0 ≡ some (ok tt))
        × (r.1.count ≡ iterations)
        × (r.1.slept ≡ l.slept + (iterations - l.count - 1)))

module _ (c : Config) (cycles : ℕ → Cycle) (n : ℕ) where
  later :
      (l l' : Loop) (r : Option (Result Exception (Unit {0})) × Loop)
      → l'.slept + (n - l'.count - 1) ≡ l.slept + (n - l.count - 1)
      → Ends n l' r
      → Ends n l r
  later l l' r sleeps (inl raised) = inl raised
  later l l' r sleeps (inr (went, count, slept)) = inr (went, count, slept ∙ sleeps)

  after_cycle :
      (l : Loop) (rest : Loop → Option (Result Exception (Unit {0})) × Loop)
      → l.count < n
      → ((l' : Loop) → l'.count ≡ suc l.count → Ends n l' (rest l'))
      → (r : Result Exception (Unit {0}) × Desk) → Ends n l (next_cycle (some n) l r rest)
  after_cycle l rest under others (err e, d) = inl (e, refl)
  after_cycle l rest under others (ok u, d) =
      let l' : Loop = record l { desk = d; count = suc l.count } in
      elim (Bool-cases (ltb (suc l.count) n)) [
        | inl more ↦
            let another : suc l.count < n = ground arith in
            rw (next_cycle, more)
              (later l (record l' { slept = suc l.slept })
                (rest (record l' { slept = suc l.slept })) (omega (arith, another))
                (others (record l' { slept = suc l.slept }) refl))
        | inr last ↦
            let no_more : suc l.count ≡ n = ground (arith, under) in
            rw (next_cycle, last) (later l l' (rest l') (omega (arith, no_more)) (others l' refl))
      ]

  run-Ends :
      (fuel : ℕ) (l : Loop)
      → l.count ≤ n
      → n - l.count < fuel
      → Ends n l (run_cycles c cycles (some n) fuel l)
  unfolding run_cycles
  run-Ends zero l h f = absurd (omega (arith, f))
  run-Ends (suc fuel) l h f = elim (Bool-cases (ltb l.count n)) [
    | inl more ↦
        let under : l.count < n = ground arith in
        rw more (
          after_cycle l (run_cycles c cycles (some n) fuel) under
            (λ l' one. run-Ends fuel l' (omega (arith, one, under)) (omega (arith, one, under, f)))
            (poll c (cycles l.count) l.desk))
    | inr done ↦
        let over : l.count ≡ n = ground (arith, h) in
        rw done (inr (refl, over, omega (arith, over)))
  ]

-- With a number of iterations the worker's loop ends after at most one more test of its condition than
-- there are iterations left: either an exception ends it, or its count is then that number and it has
-- slept between each two of its cycles, not after the last.
pub run_cycles-Ends :
    (c : Config) (cycles : ℕ → Cycle) (iterations fuel : ℕ) (l : Loop)
    → l.count ≤ iterations
    → iterations - l.count < fuel
    → Ends iterations l (run_cycles c cycles (some iterations) fuel l)
run_cycles-Ends c cycles iterations fuel l h f = run-Ends c cycles iterations fuel l h f

-- Without a number of iterations.
module _ (c : Config) (cycles : ℕ → Cycle) where
  -- Still running, after so many cycles, or ended by an exception.
  abbrev pub RunsOn : ℕ → Loop → Option (Result Exception (Unit {0})) × Loop → Type 0
  RunsOn more l r =
      ((r.0 ≡ none) × (r.1.count ≡ l.count + more) × (r.1.slept ≡ l.slept + more))
      ⊎ ((e : Exception) × (r.0 ≡ some (err e)))

  on_after_cycle :
      (fuel : ℕ) (l : Loop) (rest : Loop → Option (Result Exception (Unit {0})) × Loop)
      → ((l' : Loop) → RunsOn fuel l' (rest l'))
      → (r : Result Exception (Unit {0}) × Desk) → RunsOn (suc fuel) l (next_cycle none l r rest)
  on_after_cycle fuel l rest others (err e, d) = inr (e, refl)
  on_after_cycle fuel l rest others (ok u, d) =
      elim (others (record l { desk = d; count = suc l.count; slept = suc l.slept })) [
        | inl (running, count, slept) ↦ inl (running, omega (arith, count), omega (arith, slept))
        | inr raised ↦ inr raised
      ]

  -- Without a number of iterations the worker's loop never returns: whenever its condition has been
  -- tested so many times, it has run and slept as often and is still running, or an exception has ended
  -- it.
  pub run_cycles-RunsOn : (fuel : ℕ) (l : Loop) → RunsOn fuel l (run_cycles c cycles none fuel l)
  unfolding run_cycles
  run_cycles-RunsOn zero l = inl (refl, omega arith, omega arith)
  run_cycles-RunsOn (suc fuel) l =
      on_after_cycle fuel l (run_cycles c cycles none fuel) (run_cycles-RunsOn fuel)
        (poll c (cycles l.count) l.desk)
