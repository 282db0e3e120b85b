-- ===== src/Worker/Fleet/Inserts.antt =====
-- A sender's insertion on an orderly table.
use naesb_edi.Base.{ℕ, ◌<◌, refl, List, [], ◌∷◌, ◌++◌, All-change, All-append, arith}
use naesb_edi.Tracking.Jobs.{OutboundJob, JobRow, create}
use naesb_edi.Worker.Rows.{snoc-IsKeyed, find_job-append}
use naesb_edi.Worker.Fleet.{System, IsHeld, IsWithin, IsOrderly}
use naesb_edi.Worker.Fleet.Changes.{snoc-IsDistinct, snoc-below}

-- A sender's insertion.
IsHeld-snoc :
    (rows : List JobRow) (new : JobRow) (job : OutboundJob)
    → IsHeld rows job
    → IsHeld (rows ++ new ∷ []) job
IsHeld-snoc rows new job h = record {
  row = h.row;
  found = find_job-append job.id rows (new ∷ []) h.row h.found;
  running = h.running;
  counted = h.counted;
}

pub enqueue-IsOrderly :
    (limit : ℕ) (job : OutboundJob) (now : ℕ) (s : System)
    → 0 < limit
    → IsOrderly limit s
    → IsOrderly limit (record s { jobs = (create job now s.jobs).1 })
unfolding create
enqueue-IsOrderly limit job now s room h = record {
  keyed = snoc-IsKeyed s.jobs.next_id s.jobs.rows _ h.below refl h.keyed;
  distinct = snoc-IsDistinct s.jobs.next_id _ refl s.jobs.rows h.below h.distinct;
  below = snoc-below s.jobs.next_id _ refl s.jobs.rows h.below;
  within = All-append (IsWithin limit) s.jobs.rows _ h.within (omega (arith, room), tt);
  held_rows =
      All-change (IsHeld s.jobs.rows) (IsHeld _) s.held (IsHeld-snoc s.jobs.rows _) h.held_rows;
  held_once = h.held_once;
}
