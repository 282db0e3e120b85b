-- ===== src/Worker/Fleet/Bounded.antt =====
-- Every state that senders and workers reach, whatever the order of their statements.
use naesb_edi.Base.{ℕ, ◌<◌}
use naesb_edi.Worker.Fleet.{System, Step, inserts, claims, attempts, Reaches, here, next, IsOrderly}
use naesb_edi.Worker.Fleet.Inserts.{enqueue-IsOrderly}
use naesb_edi.Worker.Fleet.Claiming.{claim-IsOrderly}
use naesb_edi.Worker.Fleet.Attempting.{attempt-IsOrderly}

pub Step-IsOrderly :
    (limit : ℕ) (s t : System) → 0 < limit → Step limit s t → IsOrderly limit s → IsOrderly limit t
Step-IsOrderly limit s t room (inserts job now _) h = enqueue-IsOrderly limit job now s room h
Step-IsOrderly limit s t room (claims most now locked _) h =
    claim-IsOrderly limit most now locked s h
Step-IsOrderly limit s t room (attempts c now job before after d _ _ len eq same target) h =
    rw target (attempt-IsOrderly limit job before after s eq h c now d len same)

-- From an orderly state every sequence of insertions, claims and attempts, by any number of workers in
-- any order, leads to an orderly state: ids stay distinct, no row has had more attempts than the schedule
-- of retries has entries (one less if it is queued), each held job's row is in progress with the
-- count that the claim gave, and no job is held twice. The schedule has an entry.
pub Reaches-IsOrderly :
    (limit : ℕ) (s t : System)
    → 0 < limit
    → IsOrderly limit s
    → Reaches limit s t
    → IsOrderly limit t
Reaches-IsOrderly limit s t room h here = h
Reaches-IsOrderly limit s t room h (next {t = m} r step) =
    Step-IsOrderly limit m t room step (Reaches-IsOrderly limit s m room h r)
