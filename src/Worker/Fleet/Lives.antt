-- ===== src/Worker/Fleet/Lives.antt =====
-- The life of one job in a whole run of senders and workers: its moves, and how many there are.
use mathlib.Core.Path.{subst}
use naesb_edi.Base.{◌*◌, ◌-◌, ℕ, suc, ◌+◌, ◌≤◌, ◌<◌, ◌≡◌, sym, ◌∙◌, ◌⊎◌, inl, inr, arith}
use naesb_edi.Tracking.Jobs.{JobStatus}
use naesb_edi.Worker.Fleet.{System, Reaches, here, next, IsOrderly}
use naesb_edi.Worker.Fleet.Bounded.{Reaches-IsOrderly}
use naesb_edi.Worker.Fleet.Phases.{
  Phase, absent, waiting, attempting, finished, Moves, enqueued, begun, rescheduled, concluded,
  phase_of, Step-Moves,
}

-- A number of moves one after the other.
pub data Lives (limit : ℕ) (p : Phase) : ℕ → Phase → Type 0 where
  born : Lives limit p 0 p
  moved : {n : ℕ} {q r : Phase} → Lives limit p n q → Moves limit q r → Lives limit p (suc n) r

abbrev rank : ℕ → Phase → ℕ
rank limit absent = 2 * limit + 1
rank limit (waiting k) = 2 * (limit - k)
rank limit (attempting k) = 2 * (limit - k) + 1
rank limit (finished s) = 0

rank-Moves : (limit : ℕ) (p q : Phase) → Moves limit p q → rank limit q < rank limit p
rank-Moves limit p q enqueued = omega arith
rank-Moves limit p q (begun k room) = omega (arith, room)
rank-Moves limit p q (rescheduled k room) = omega (arith, room)
rank-Moves limit p q (concluded k s ended) = omega arith

rank-Lives :
    (limit : ℕ) (p : Phase) (n : ℕ) (q : Phase)
    → Lives limit p n q
    → n + rank limit q ≤ rank limit p
rank-Lives limit p n q born = omega arith
rank-Lives limit p n q (moved {n = m} {q = r} l step) =
    omega (arith, rank-Lives limit p m r l, rank-Moves limit r q step)

rank_le : (limit : ℕ) (p : Phase) → rank limit p ≤ 2 * limit + 1
rank_le limit absent = omega arith
rank_le limit (waiting k) = omega arith
rank_le limit (attempting k) = omega arith
rank_le limit (finished s) = omega arith

-- The moves that a job makes, and how many there can be.
pub record Life (limit : ℕ) (p q : Phase) : Type 0 where
  pub count : ℕ
  pub moves : Lives limit p count q
  pub bounded : count ≤ 2 * limit + 1

life : (limit n : ℕ) (p q : Phase) → Lives limit p n q → Life limit p q
life limit n p q l = record {
  count = n;
  moves = l;
  bounded = omega (arith, rank-Lives limit p n q l, rank_le limit p);
}

-- From an orderly state, whatever senders and workers do and in whatever order, each job's phase
-- changes by moves of the job's machine only, one after the other, and at most twice as often as the
-- schedule of retries has entries, plus once. The schedule has an entry.
pub Reaches-Life :
    (limit id : ℕ) (s t : System)
    → 0 < limit
    → IsOrderly limit s
    → Reaches limit s t
    → Life limit (phase_of id s) (phase_of id t)
Reaches-Life limit id s t room h here = life limit 0 (phase_of id s) (phase_of id s) born
Reaches-Life limit id s t room h (next {t = m} r step) =
    let before = Reaches-Life limit id s m room h r in
    elim (Step-Moves limit id m t (Reaches-IsOrderly limit s m room h r) step) [
      | inl stays ↦ subst (Life limit (phase_of id s)) stays before
      | inr move ↦
          life limit (suc before.count) (phase_of id s) (phase_of id t) (moved before.moves move)
    ]

finished-stays :
    (limit : ℕ) (x : JobStatus) (p q : Phase)
    → p ≡ finished x
    → (p ≡ q) ⊎ Moves limit p q
    → q ≡ finished x
finished-stays limit x p q e (inl same) = sym same ∙ e
finished-stays limit x p q e (inr enqueued) = absurd (ground arith)
finished-stays limit x p q e (inr (begun k room)) = absurd (ground arith)
finished-stays limit x p q e (inr (rescheduled k room)) = absurd (ground arith)
finished-stays limit x p q e (inr (concluded k s ended)) = absurd (ground arith)

-- A job that is delivered, rejected by its partner or an exchange failure in an orderly state has that
-- status in every later state, whatever senders and workers do and in whatever order. The schedule
-- has an entry.
pub Reaches-finished :
    (limit id : ℕ) (s t : System) (x : JobStatus)
    → 0 < limit
    → IsOrderly limit s
    → Reaches limit s t
    → phase_of id s ≡ finished x
    → phase_of id t ≡ finished x
Reaches-finished limit id s t x room h here e = e
Reaches-finished limit id s t x room h (next {t = m} r step) e =
    finished-stays limit x (phase_of id m) (phase_of id t)
      (Reaches-finished limit id s m x room h r e)
      (Step-Moves limit id m t (Reaches-IsOrderly limit s m room h r) step)
