-- ===== src/Worker/Fleet/Changes.antt =====
-- What is kept by an insertion in the table `outbound_jobs`, a change of each row that keeps its id,
-- and by giving up one held job.
use naesb_edi.Base.{
  ℕ, suc, ◌<◌, ◌≡◌, ap, ◌∙◌, false, List, [], ◌∷◌, ◌++◌, map, All, All-append, ◌==◌, arith,
}
use naesb_edi.Tracking.Jobs.{OutboundJob, JobRow}
use naesb_edi.Worker.Rows.{KeepsId}
use naesb_edi.Worker.Fleet.{IsDistinct, AreDistinct}

-- Changes that keep each row's id.
module _ (g : JobRow → JobRow) (k : KeepsId g) where
  All-ids :
      (a : ℕ) (rows : List JobRow)
      → All (λ (x : JobRow). a == x.job.id ≡ false) rows
      → All (λ (x : JobRow). a == x.job.id ≡ false) (map g rows)
  All-ids a [] h = tt
  All-ids a (r ∷ rows) h = (ap (λ i. a == i) (k r) ∙ h.0, All-ids a rows h.1)

  pub map-IsDistinct : (rows : List JobRow) → IsDistinct rows → IsDistinct (map g rows)
  map-IsDistinct [] h = tt
  map-IsDistinct (r ∷ rows) h = (rw (k r) (All-ids r.job.id rows h.0), map-IsDistinct rows h.1)

  pub map-below :
      (n : ℕ) (rows : List JobRow)
      → All (λ r. r.job.id < n) rows
      → All (λ r. r.job.id < n) (map g rows)
  map-below n [] h = tt
  map-below n (r ∷ rows) h = (rw (k r) h.0, map-below n rows h.1)

-- A new row of an id that is above all.
module _ (n : ℕ) (new : JobRow) (e : new.job.id ≡ n) where
  pub snoc-IsDistinct :
      (rows : List JobRow)
      → All (λ r. r.job.id < n) rows
      → IsDistinct rows
      → IsDistinct (rows ++ new ∷ [])
  snoc-IsDistinct [] b h = (tt, tt)
  snoc-IsDistinct (r ∷ rows) b h =
      let apart : r.job.id == new.job.id ≡ false = ground arith in
      (
        All-append (λ (x : JobRow). r.job.id == x.job.id ≡ false) rows (new ∷ []) h.0 (apart, tt),
        snoc-IsDistinct rows b.1 h.1,
      )

  pub snoc-below :
      (rows : List JobRow)
      → All (λ r. r.job.id < n) rows
      → All (λ r. r.job.id < suc n) (rows ++ new ∷ [])
  snoc-below [] b = (ground arith, tt)
  snoc-below (r ∷ rows) b = (omega (arith, b.0), snoc-below rows b.1)

-- One of the held jobs is given up.
pub All-middle :
    {A : Type 0} (P : A → Type 0) (before after : List A) (x : A)
    → All P (before ++ x ∷ after)
    → P x × All P (before ++ after)
All-middle P [] after x h = h
All-middle P (b ∷ before) after x h =
    let rest = All-middle P before after x h.1 in (rest.0, (h.0, rest.1))

pub AreDistinct-middle :
    (before after : List OutboundJob) (job : OutboundJob)
    → AreDistinct (before ++ job ∷ after)
    → All (λ (x : OutboundJob). job.id == x.id ≡ false) (before ++ after)
      × AreDistinct (before ++ after)
AreDistinct-middle [] after job h = h
AreDistinct-middle (b ∷ before) after job h =
    let rest = AreDistinct-middle before after job h.1 in
    let parts = All-middle (λ (x : OutboundJob). b.id == x.id ≡ false) before after job h.0 in
    let apart : job.id == b.id ≡ false = ground (arith, parts.0) in
    ((apart, rest.0), (parts.1, rest.1))

pub AreDistinct-append :
    (xs ys : List OutboundJob)
    → AreDistinct xs
    → AreDistinct ys
    → All (λ (x : OutboundJob). All (λ (y : OutboundJob). x.id == y.id ≡ false) ys) xs
    → AreDistinct (xs ++ ys)
AreDistinct-append [] ys h k c = k
AreDistinct-append (x ∷ xs) ys h k c = (
  All-append (λ (y : OutboundJob). x.id == y.id ≡ false) xs ys h.0 c.0,
  AreDistinct-append xs ys h.1 k c.1,
)
