-- ===== src/Tests/Jobs.antt =====
-- Jobs on the worker of the fixtures.
use naesb_edi.Base.{
  ◌≡◌, refl, ◌⊎◌, false, ◌&&◌, none, some, [], ◌∷◌, List, All, any, ◌==◌, ok, err, codes, equal,
  leb, not,
}
use naesb_edi.Base.Dict.{lookup, insert}
use naesb_edi.Exceptions.{value_error}
use naesb_edi.Fields.{Fault, input_format_of, matches_transaction_set, is_set_char}
use naesb_edi.Outbound.{Http}
use naesb_edi.Partners.{registry, index_by, get_by_name}
use naesb_edi.Tracking.Jobs.{
  OutboundJob, JobRow, Jobs, queued, is_queued, find_job, is_due, select_rows, claim_due_jobs,
}
use naesb_edi.Tracking.Jobs.Claim.{claim_due_jobs-excludes}
use naesb_edi.Tracking.Jobs.Selected.{IsSelection, satisfying, select_rows-IsSelection}
use naesb_edi.Worker.{Config, Desk, process_job}
use naesb_edi.Worker.Settled.{IsHandled, Settles, Raises, process_job-Settles, process_job-invalid}
use naesb_edi.Tests.Fixtures.{outside, settings, partner, no_messages}

-- The partner's server does not answer.
abbrev pub http : Http
http = record { b64encode = λ t. t; post = λ u c a b. ok (err (codes "timeout")) }

abbrev pub config : Config
config = record {
  outside = outside;
  http = http;
  settings = settings;
  fingerprints = (codes "acme", codes "F1") ∷ [];
  partners = registry (partner ∷ []);
}

abbrev pub job : OutboundJob
job = record {
  id = 0;
  partner_name = codes "acme";
  from_id = codes "987654321";
  to_id = codes "123456789";
  version = codes "4.0";
  input_format = codes "X12";
  payload_ciphertext = codes "cipher";
  content_digest = codes "d1";
  status = queued;
  transaction_set = some (codes "short");
  refnum = none;
  refnum_orig = none;
  attempt_count = 1;
  last_error_code = none;
  last_error_description = none;
  receipt_trans_id = none;
  receipt_server_id = none;
  receipt_time_c = none;
  message_id = some 0;
}

abbrev pub row : JobRow
row = record { job = job; next_attempt_at = 3 }

abbrev pub jobs : Jobs
jobs = record { rows = row ∷ []; next_id = 1 }

abbrev pub desk : Desk
desk = record { jobs = jobs; messages = no_messages; drawn = 0 }

process_job-Settles_example :
    Settles config 5 job (IsHandled config 5 job desk) (process_job config 5 job) desk
    ⊎ Raises config 5 job (process_job config 5 job) desk
unfolding find_job
process_job-Settles_example = process_job-Settles config 5 job desk row refl

process_job-invalid_example :
    (faults : List Fault) × ((process_job config 5 job desk).0
      ≡ err (value_error (outside.print_faults faults)))
    × (((process_job config 5 job desk).1).jobs ≡ jobs)
unfolding get_by_name registry index_by insert lookup equal input_format_of matches_transaction_set
    is_set_char
process_job-invalid_example =
    process_job-invalid config 5 job desk partner (codes "F1") (codes "short") refl refl refl refl
      refl

abbrev later_row : JobRow
later_row = record row { next_attempt_at = 4 }

select_rows-IsSelection_example :
    IsSelection 1
      (satisfying
        (λ r. is_queued r.job.status && (leb r.next_attempt_at 5 && not false))
        (later_row ∷ row ∷ []))
      (select_rows 1 5 (λ id. false) (later_row ∷ row ∷ []))
select_rows-IsSelection_example = select_rows-IsSelection 1 5 (λ id. false) (later_row ∷ row ∷ [])

claim_due_jobs-excludes_example :
    All
      (λ r.
        (any (λ j. j.id == r.job.id) (claim_due_jobs 10 5 (λ id. false) jobs).0
          && is_due 6 (λ id. false) r)
        ≡ false)
      ((claim_due_jobs 10 5 (λ id. false) jobs).1).rows
claim_due_jobs-excludes_example = claim_due_jobs-excludes 10 5 (λ id. false) jobs 6 (λ id. false)
