-- ===== src/Tracking/Jobs.antt =====
-- `OutboundJobRepository` of app/tracking/repository.py: the table `outbound_jobs`, each statement
-- as one atomic step on it.
pub mod Claim
pub mod Selected
use naesb_edi.Base.{
  ℕ, zero, suc, ◌+◌, ◌≡◌, refl, Bool, true, false, not, ◌&&◌, ◌||◌, Option, none, some, List, [],
  ◌∷◌, ◌++◌, map, Text, Bytes, ◌==◌, ltb, leb, any, take, if◌then◌else◌,
}

pub data JobStatus : Type 0 where
  queued : JobStatus
  in_progress : JobStatus
  delivered : JobStatus
  failed_nack : JobStatus
  exchange_failure : JobStatus

pub record OutboundJob : Type 0 where
  pub id : ℕ
  pub partner_name : Text
  pub from_id : Text
  pub to_id : Text
  pub version : Text
  pub input_format : Text
  pub payload_ciphertext : Bytes
  pub content_digest : Text
  pub status : JobStatus
  pub transaction_set : Option Text
  pub refnum : Option Text
  pub refnum_orig : Option Text
  pub attempt_count : ℕ
  pub last_error_code : Option Text
  pub last_error_description : Option Text
  pub receipt_trans_id : Option Text
  pub receipt_server_id : Option Text
  pub receipt_time_c : Option Text
  pub message_id : Option ℕ

-- A row: the job and the time of its next attempt.
pub record JobRow : Type 0 where
  pub job : OutboundJob
  pub next_attempt_at : ℕ

pub record Jobs : Type 0 where
  pub rows : List JobRow
  pub next_id : ℕ

-- `INSERT`, with the table's defaults for the columns that it does not name.
unfoldable pub create : OutboundJob → ℕ → Jobs → ℕ × Jobs
create job now j = (
  j.next_id,
  record {
    rows =
        j.rows
        ++ record {
          job = record job {
            id = j.next_id;
            status = queued;
            attempt_count = 0;
            last_error_code = none;
            last_error_description = none;
            receipt_trans_id = none;
            receipt_server_id = none;
            receipt_time_c = none;
          };
          next_attempt_at = now;
        }
          ∷ [];
    next_id = suc j.next_id;
  },
)

unfoldable pub find_job : ℕ → List JobRow → Option JobRow
find_job id [] = none
find_job id (row ∷ rows) = if row.job.id == id then some row else find_job id rows

abbrev job_of : Option JobRow → Option OutboundJob
job_of none = none
job_of (some row) = some row.job

unfoldable pub get : ℕ → Jobs → Option OutboundJob
unfolding find_job
get id j = job_of (find_job id j.rows)

abbrev pub is_queued : JobStatus → Bool
is_queued queued = true
is_queued _ = false

-- `status = 'queued' AND next_attempt_at <= now()`, and the row is not locked by another worker.
abbrev pub is_due : ℕ → (ℕ → Bool) → JobRow → Bool
is_due now locked row =
    is_queued row.job.status && (leb row.next_attempt_at now && not (locked row.job.id))

unfoldable pub select_due : ℕ → (ℕ → Bool) → List JobRow → List JobRow
select_due now locked [] = []
select_due now locked (row ∷ rows) =
    let rest = select_due now locked rows in if is_due now locked row then row ∷ rest else rest

unfoldable pub insert_by_time : JobRow → List JobRow → List JobRow
insert_by_time row [] = row ∷ []
insert_by_time row (r ∷ rows) =
    if leb row.next_attempt_at r.next_attempt_at
    then row ∷ r ∷ rows
    else r ∷ insert_by_time row rows

-- `ORDER BY next_attempt_at`
unfoldable pub order_by_time : List JobRow → List JobRow
unfolding insert_by_time
order_by_time [] = []
order_by_time (row ∷ rows) = insert_by_time row (order_by_time rows)

unfoldable pub update_job : ℕ → (JobRow → JobRow) → List JobRow → List JobRow
update_job id f [] = []
update_job id f (row ∷ rows) = (if row.job.id == id then f row else row) ∷ update_job id f rows

abbrev pub start_attempt : JobRow → JobRow
start_attempt row = record row {
  job = record row.job { status = in_progress; attempt_count = row.job.attempt_count + 1 };
}

-- `UPDATE ... WHERE id = ANY(ids)`
unfoldable pub start_attempts : List JobRow → List JobRow → List JobRow
start_attempts claimed [] = []
start_attempts claimed (row ∷ rows) =
    (if any (λ c. c.job.id == row.job.id) claimed then start_attempt row else row)
    ∷ start_attempts claimed rows

-- The rows that the `SELECT` of `claim_due_jobs` returns.
unfoldable pub select_rows : ℕ → ℕ → (ℕ → Bool) → List JobRow → List JobRow
unfolding select_due order_by_time
select_rows limit now locked rows = take limit (order_by_time (select_due now locked rows))

-- The jobs are returned as they were selected, with the new attempt counted.
unfoldable pub claim_due_jobs : ℕ → ℕ → (ℕ → Bool) → Jobs → List OutboundJob × Jobs
unfolding select_rows start_attempts
claim_due_jobs limit now locked j =
    let claimed = select_rows limit now locked j.rows in
    (
      map (λ c. record c.job { attempt_count = c.job.attempt_count + 1 }) claimed,
      record j { rows = start_attempts claimed j.rows },
    )

abbrev pub set_job : ℕ → (OutboundJob → OutboundJob) → Jobs → Jobs
set_job id f j = record j { rows = update_job id (λ r. record r { job = f r.job }) j.rows }

unfoldable pub mark_delivered : ℕ → Text → Text → Text → Jobs → Jobs
unfolding update_job
mark_delivered id trans_id server_id time_c = set_job id λ job. record job {
  status = delivered;
  receipt_trans_id = some trans_id;
  receipt_server_id = some server_id;
  receipt_time_c = some time_c;
}

unfoldable pub mark_failed_nack : ℕ → Text → Text → Jobs → Jobs
unfolding update_job
mark_failed_nack id error_code error_description = set_job id λ job. record job {
  status = failed_nack;
  last_error_code = some error_code;
  last_error_description = some error_description;
}

unfoldable pub reschedule : ℕ → ℕ → Text → Jobs → Jobs
unfolding update_job
reschedule id next_attempt_at error_description j = record j {
  rows =
      update_job id
        (λ r. record r {
          job = record r.job { status = queued; last_error_description = some error_description };
          next_attempt_at = next_attempt_at;
        })
        j.rows;
}

unfoldable pub mark_exchange_failure : ℕ → Text → Jobs → Jobs
unfolding update_job
mark_exchange_failure id error_description =
    set_job id λ job. record job {
      status = exchange_failure;
      last_error_description = some error_description;
    }
