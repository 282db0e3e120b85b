-- ===== src/Tracking.antt =====
-- app/tracking/models.py and `MessageTracker` of app/tracking/repository.py, over the table that
-- db/migrations lays out. A connection that fails is not modelled.
pub mod Jobs
pub mod Migrations
pub mod Unique
use naesb_edi.Base.{
  ℕ, suc, ◌≡◌, refl, Bool, true, false, ◌&&◌, ◌||◌, Option, none, some, List, [], ◌∷◌, ◌++◌, map,
  Text, ◌==◌, equal, any, Result, ok, err, if◌then◌else◌,
}
use naesb_edi.Base.Dict.{Dict}

pub data Direction : Type 0 where
  inbound : Direction
  outbound : Direction

-- The statuses that the code writes into `messages`.
pub data Status : Type 0 where
  processing : Status
  rejected : Status
  accepted : Status
  queued : Status
  delivered : Status
  failed_nack : Status
  exchange_failure : Status

-- A sink's entry in `sinks_status`.
pub record SinkStatus : Type 0 where
  pub ok : Bool
  pub error : Option Text

pub record MessageRecord : Type 0 where
  pub direction : Direction
  pub partner_name : Text
  pub content_digest : Text
  pub transaction_set : Option Text
  pub input_format : Option Text
  pub status : Status
  pub error_code : Option Text
  pub receipt_verified : Option Bool
  pub trans_id : Option ℕ
  pub refnum : Option Text
  pub refnum_orig : Option Text
  pub sinks_status : Dict SinkStatus
  pub raw_headers : Option (Dict Text)
  pub received_at : Option ℕ
  pub sent_at : Option ℕ
  pub receipt_sent_at : Option ℕ
  pub receipt_received_at : Option ℕ

-- A row of `messages`: the record under the id that the database gave it.
pub record Row : Type 0 where
  pub id : ℕ
  pub record_of : MessageRecord

-- The table `messages`, the sequence `trans_id_seq` and the supply of ids.
pub record Messages : Type 0 where
  pub rows : List Row
  pub next_trans : ℕ
  pub next_id : ℕ

abbrev pub same_direction : Direction → Direction → Bool
same_direction inbound inbound = true
same_direction outbound outbound = true
same_direction _ _ = false

abbrev pub same_refnum : Option Text → Option Text → Bool
same_refnum (some a) (some b) = equal a b
same_refnum _ _ = false

abbrev pub is_duplicate : Text → Text → Direction → Row → Bool
is_duplicate partner_name content_digest direction row =
    equal row.record_of.partner_name partner_name
    && (equal row.record_of.content_digest content_digest
        && same_direction row.record_of.direction direction)

-- A comparison with NULL is not true.
abbrev pub is_reuse : Text → Option Text → Direction → Row → Bool
is_reuse partner_name refnum direction row =
    equal row.record_of.partner_name partner_name
    && (same_refnum row.record_of.refnum refnum && same_direction row.record_of.direction direction)

unfoldable pub find_duplicate : Text → Text → Direction → Messages → Bool
find_duplicate partner_name content_digest direction m =
    any (is_duplicate partner_name content_digest direction) m.rows

unfoldable pub find_refnum_reuse : Text → Text → Direction → Messages → Bool
find_refnum_reuse partner_name refnum direction m =
    any (is_reuse partner_name (some refnum) direction) m.rows

unfoldable pub next_trans_id : Messages → ℕ × Messages
next_trans_id m = (m.next_trans, record m { next_trans = suc m.next_trans })

-- The table's keys: `UNIQUE (partner_name, content_digest, direction)` of
-- db/migrations/0001_init.sql, and the unique index on `(partner_name, refnum, direction) WHERE refnum
-- IS NOT NULL` of db/migrations/0004_unique_refnum.sql.
unfoldable pub conflicts : MessageRecord → Row → Bool
conflicts r row =
    is_duplicate r.partner_name r.content_digest r.direction row
    || is_reuse r.partner_name r.refnum r.direction row

pub data UniqueViolation : Type 0 where
  unique_violation : UniqueViolation

-- `INSERT INTO messages ... RETURNING id`
unfoldable pub create : MessageRecord → Messages → Result UniqueViolation (ℕ × Messages)
create r m =
    if any (conflicts r) m.rows
    then err unique_violation
    else ok (
      m.next_id,
      record m {
        rows = m.rows ++ record { id = m.next_id; record_of = r } ∷ [];
        next_id = suc m.next_id;
      },
    )

-- `UPDATE messages SET ... WHERE id = ...`
unfoldable pub update_rows : ℕ → (MessageRecord → MessageRecord) → List Row → List Row
update_rows id f [] = []
update_rows id f (row ∷ rows) =
    (if row.id == id then record row { record_of = f row.record_of } else row)
    ∷ update_rows id f rows

-- `COALESCE(new, old)`
abbrev pub coalesce {ℓ} : {A : Type ℓ} → Option A → Option A → Option A
coalesce none old = old
coalesce (some new) old = some new

-- The keyword arguments of `update_status`.
pub record StatusUpdate : Type 0 where
  pub status : Status
  pub error_code : Option Text
  pub receipt_verified : Option Bool
  pub trans_id : Option ℕ
  pub receipt_sent_at : Option ℕ
  pub receipt_received_at : Option ℕ

-- A status alone, with the defaults for the rest.
abbrev pub to_status : Status → StatusUpdate
to_status s = record {
  status = s;
  error_code = none;
  receipt_verified = none;
  trans_id = none;
  receipt_sent_at = none;
  receipt_received_at = none;
}

abbrev pub apply_status : StatusUpdate → MessageRecord → MessageRecord
apply_status u r = record r {
  status = u.status;
  error_code = u.error_code;
  receipt_verified = u.receipt_verified;
  trans_id = coalesce u.trans_id r.trans_id;
  receipt_sent_at = coalesce u.receipt_sent_at r.receipt_sent_at;
  receipt_received_at = coalesce u.receipt_received_at r.receipt_received_at;
}

unfoldable pub update_status : ℕ → StatusUpdate → Messages → Messages
update_status id u m = record m { rows = update_rows id (apply_status u) m.rows }

unfoldable pub update_sinks_status : ℕ → Dict SinkStatus → Messages → Messages
update_sinks_status id s m = record m {
  rows = update_rows id (λ r. record r { sinks_status = s }) m.rows;
}

-- The record under an id.
unfoldable pub find_row : ℕ → List Row → Option MessageRecord
find_row id [] = none
find_row id (row ∷ rows) = if row.id == id then some row.record_of else find_row id rows
