-- ===== src/Tracking/Unique.antt =====
-- The table `messages` under any interleaving of statements: the keys stay unique, and the ids new.
use naesb_edi.Base.{
  ℕ, suc, ◌<◌, ◌≡◌, refl, false, Option, none, some, List, [], ◌∷◌, ◌++◌, Text, ◌==◌, equal,
  equal_iff, any, All, All-append, arith, ok, Bool-cases, inl, inr,
}
use naesb_edi.Base.Dict.{Dict}
use naesb_edi.Tracking.{
  Direction, same_direction, same_refnum, MessageRecord, Row, Messages, SinkStatus, StatusUpdate,
  conflicts, create, update_rows, update_status, update_sinks_status, next_trans_id, apply_status,
}

-- No two rows have one key.
abbrev pub IsUnique : List Row → Type 0
IsUnique [] = Unit
IsUnique (row ∷ rows) = All (λ r. conflicts row.record_of r ≡ false) rows × IsUnique rows

pub record IsSound (m : Messages) : Type 0 where
  pub unique : IsUnique m.rows
  pub ids_below : All (λ row. row.id < m.next_id) m.rows

equal_sym : (a b : Text) → equal a b ≡ equal b a
equal_sym a b = ground (arith, equal_iff a b, equal_iff b a)

same_direction_sym : (a b : Direction) → same_direction a b ≡ same_direction b a
same_direction_sym a b = ground arith

same_refnum_sym : (a b : Option Text) → same_refnum a b ≡ same_refnum b a
same_refnum_sym none none = refl
same_refnum_sym none (some b) = refl
same_refnum_sym (some a) none = refl
same_refnum_sym (some a) (some b) = equal_sym a b

conflicts_sym : (a b : Row) → conflicts a.record_of b ≡ conflicts b.record_of a
unfolding conflicts
conflicts_sym a b = rw (
  equal_sym a.record_of.partner_name b.record_of.partner_name,
  equal_sym a.record_of.content_digest b.record_of.content_digest,
  same_direction_sym a.record_of.direction b.record_of.direction,
  same_refnum_sym a.record_of.refnum b.record_of.refnum,
)

-- What `conflicts` reads of a record.
abbrev pub KeepsKey : (MessageRecord → MessageRecord) → Type 0
KeepsKey f =
    (r : MessageRecord)
    → ((f r).partner_name ≡ r.partner_name)
      × ((f r).content_digest ≡ r.content_digest)
      × ((f r).direction ≡ r.direction)
      × ((f r).refnum ≡ r.refnum)

conflicts-row :
    (r : MessageRecord) (f : MessageRecord → MessageRecord) (row : Row)
    → KeepsKey f
    → conflicts r (record row { record_of = f row.record_of }) ≡ conflicts r row
unfolding conflicts
conflicts-row r f row k = let (p, d, x, n) = k row.record_of in rw (p, d, x, n)

conflicts-record :
    (r : MessageRecord) (f : MessageRecord → MessageRecord) (row : Row)
    → KeepsKey f
    → conflicts (f r) row ≡ conflicts r row
unfolding conflicts
conflicts-record r f row k = let (p, d, x, n) = k r in rw (p, d, x, n)

module _ (id : ℕ) (f : MessageRecord → MessageRecord) (k : KeepsKey f) where
  All-update :
      (r : MessageRecord) (rows : List Row)
      → All (λ row. conflicts r row ≡ false) rows
      → All (λ row. conflicts r row ≡ false) (update_rows id f rows)
  unfolding update_rows
  All-update r [] h = tt
  All-update r (row ∷ rows) h = elim (Bool-cases (row.id == id)) [
    | inl hit ↦ rw hit (rw (conflicts-row r f row k) h.0, All-update r rows h.1)
    | inr miss ↦ rw miss (h.0, All-update r rows h.1)
  ]

  All-record :
      (r : MessageRecord) (rows : List Row)
      → All (λ row. conflicts r row ≡ false) rows
      → All (λ row. conflicts (f r) row ≡ false) rows
  All-record r [] h = tt
  All-record r (row ∷ rows) h = (rw (conflicts-record r f row k) h.0, All-record r rows h.1)

  update_rows-IsUnique : (rows : List Row) → IsUnique rows → IsUnique (update_rows id f rows)
  unfolding update_rows
  update_rows-IsUnique [] h = tt
  update_rows-IsUnique (row ∷ rows) h = elim (Bool-cases (row.id == id)) [
    | inl hit ↦ rw hit (
      All-record row.record_of (update_rows id f rows) (All-update row.record_of rows h.0),
      update_rows-IsUnique rows h.1,
    )
    | inr miss ↦ rw miss (All-update row.record_of rows h.0, update_rows-IsUnique rows h.1)
  ]

  update_rows-ids :
      (n : ℕ) (rows : List Row)
      → All (λ row. row.id < n) rows
      → All (λ row. row.id < n) (update_rows id f rows)
  unfolding update_rows
  update_rows-ids n [] h = tt
  update_rows-ids n (row ∷ rows) h = elim (Bool-cases (row.id == id)) [
    | inl hit ↦ rw hit (h.0, update_rows-ids n rows h.1)
    | inr miss ↦ rw miss (h.0, update_rows-ids n rows h.1)
  ]

IsUnique-snoc :
    (rows : List Row) (new : Row)
    → IsUnique rows
    → any (conflicts new.record_of) rows ≡ false
    → IsUnique (rows ++ new ∷ [])
IsUnique-snoc [] new u h = (tt, tt)
IsUnique-snoc (row ∷ rows) new u h = (
  All-append (λ r. conflicts row.record_of r ≡ false) rows (new ∷ []) u.0
      (rw (conflicts_sym row new) (ground arith), tt),
  IsUnique-snoc rows new u.1 (ground arith),
)

ids_weaken :
    (n : ℕ) (rows : List Row) → All (λ row. row.id < n) rows → All (λ row. row.id < suc n) rows
ids_weaken n [] h = tt
ids_weaken n (row ∷ rows) h = (omega arith, ids_weaken n rows h.1)

abbrev pub inserted : MessageRecord → Messages → Messages
inserted r m = record m {
  rows = m.rows ++ record { id = m.next_id; record_of = r } ∷ [];
  next_id = suc m.next_id;
}

pub create-eq-ok :
    (r : MessageRecord) (m : Messages) {id : ℕ} {m' : Messages}
    → create r m ≡ ok (id, m')
    → (any (conflicts r) m.rows ≡ false) × (id ≡ m.next_id) × (m' ≡ inserted r m)
unfolding create
create-eq-ok r m e = elim (Bool-cases (any (conflicts r) m.rows)) [
  | inl taken ↦ absurd (ground arith)
  | inr free ↦ (free, ground arith, ground arith)
]

inserted-IsSound :
    (r : MessageRecord) (m : Messages)
    → any (conflicts r) m.rows ≡ false
    → IsSound m
    → IsSound (inserted r m)
inserted-IsSound r m free s = record {
  unique = IsUnique-snoc m.rows (record { id = m.next_id; record_of = r }) s.unique free;
  ids_below =
      All-append (λ row. row.id < suc m.next_id) m.rows
        (record { id = m.next_id; record_of = r } ∷ []) (ids_weaken m.next_id m.rows s.ids_below)
        (omega arith, tt);
}

-- An insert that the constraints let through keeps the table sound.
pub create-IsSound :
    (r : MessageRecord) (m : Messages) {id : ℕ} {m' : Messages}
    → create r m ≡ ok (id, m')
    → IsSound m
    → IsSound m'
create-IsSound r m e s =
    let (free, _, new) = create-eq-ok r m e in rw new (inserted-IsSound r m free s)

module _ (m : Messages) (s : IsSound m) where
  pub update_status-IsSound : (id : ℕ) (u : StatusUpdate) → IsSound (update_status id u m)
  unfolding update_status
  update_status-IsSound id u =
      let keeps : KeepsKey (apply_status u) = λ r. (refl, refl, refl, refl) in
      record {
        unique = update_rows-IsUnique id (apply_status u) keeps m.rows s.unique;
        ids_below = update_rows-ids id (apply_status u) keeps m.next_id m.rows s.ids_below;
      }

  pub update_sinks_status-IsSound :
      (id : ℕ) (d : Dict SinkStatus) → IsSound (update_sinks_status id d m)
  unfolding update_sinks_status
  update_sinks_status-IsSound id d =
      let f = λ (r : MessageRecord). record r { sinks_status = d } in
      let keeps : KeepsKey f = λ r. (refl, refl, refl, refl) in
      record {
        unique = update_rows-IsUnique id f keeps m.rows s.unique;
        ids_below = update_rows-ids id f keeps m.next_id m.rows s.ids_below;
      }

-- One statement of any request or worker.
pub data Statement : Messages → Messages → Type 0 where
  insert_row :
      (r : MessageRecord) (m : Messages) {id : ℕ} {m' : Messages}
      → create r m ≡ ok (id, m')
      → Statement m m'
  set_status : (id : ℕ) (u : StatusUpdate) (m : Messages) → Statement m (update_status id u m)
  set_sinks :
      (id : ℕ) (d : Dict SinkStatus) (m : Messages) → Statement m (update_sinks_status id d m)
  draw_trans_id : (m : Messages) → Statement m (next_trans_id m).1

pub data Reaches (m : Messages) : Messages → Type 0 where
  here : Reaches m m
  next : {m' m'' : Messages} → Reaches m m' → Statement m' m'' → Reaches m m''

Statement-IsSound : {m m' : Messages} → Statement m m' → IsSound m → IsSound m'
unfolding next_trans_id
Statement-IsSound (insert_row r m e) s = create-IsSound r m e s
Statement-IsSound (set_status id u m) s = update_status-IsSound m s id u
Statement-IsSound (set_sinks id d m) s = update_sinks_status-IsSound m s id d
Statement-IsSound (draw_trans_id m) s = record { unique = s.unique; ids_below = s.ids_below }

-- However the statements of concurrent requests and workers interleave, a table that starts with
-- unique keys and with ids below the supply keeps both: no two rows have one partner, digest and
-- direction, nor one partner, refnum and direction.
pub Reaches-IsSound : {m m' : Messages} → IsSound m → Reaches m m' → IsSound m'
Reaches-IsSound s here = s
Reaches-IsSound s (next r st) = Statement-IsSound st (Reaches-IsSound s r)
