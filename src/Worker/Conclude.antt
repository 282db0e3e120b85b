-- ===== src/Worker/Conclude.antt =====
-- app/worker.py: what an attempt does to the table `outbound_jobs`, whether it returns or raises.
use naesb_edi.Base.{
  ℕ, suc, ◌<◌, ◌≡◌, refl, ◌⊎◌, inl, inr, Bool, true, false, Option, none, some, Text, Result, ok,
  err, length, get_elem?, leb, arith, Bool-cases, Option-cases, Result-cases, partition, strip,
}
use naesb_edi.Base.Dict.{lookup}
use naesb_edi.Effects.{Action}
use naesb_edi.Exceptions.{
  Exception, http, envelope_error, weak_algorithm, missing_env_var, gpg_error, delivery_attempt,
  unique_violation, key_error, value_error, other,
}
use naesb_edi.Gateway.{or_key_error}
use naesb_edi.Partners.{PartnerConfig, get_by_name}
use naesb_edi.Receipt.{NaesbReceipt, is_ok}
use naesb_edi.Tracking.{StatusUpdate}
use naesb_edi.Tracking.Jobs.{
  JobStatus, queued, delivered, failed_nack, exchange_failure, OutboundJob, JobRow, Jobs,
  update_job, mark_delivered, mark_failed_nack, reschedule, mark_exchange_failure,
}
use naesb_edi.Worker.{
  Config, Desk, handle_failure, handle_receipt, on_sent, on_partner, or_else, process_job,
  update_message, draw_boundaries,
}
use naesb_edi.Worker.Rows.{KeepsId}

-- A queued job is still to be attempted once, at the least.
abbrev pub to_come : JobStatus → ℕ
to_come queued = 1
to_come _ = 0

-- A job in such a status is not attempted again.
abbrev pub is_final : JobStatus → Bool
is_final delivered = true
is_final failed_nack = true
is_final exchange_failure = true
is_final _ = false

-- One row is updated: its id and its count of attempts stay, and it gets a final status, or is queued
-- again and the schedule has a delay left.
pub record IsUpdate (limit : ℕ) (job : OutboundJob) (j j' : Jobs) : Type 0 where
  pub update : JobRow → JobRow
  pub rows_eq : j'.rows ≡ update_job job.id update j.rows
  pub next_eq : j'.next_id ≡ j.next_id
  pub keeps_id : KeepsId update
  pub keeps_count : (r : JobRow) → (update r).job.attempt_count ≡ r.job.attempt_count
  pub outcome :
      (r : JobRow)
      → (is_final (update r).job.status ≡ true)
        ⊎ (((update r).job.status ≡ queued) × (job.attempt_count < limit))

module _ (c : Config) (now : ℕ) (job : OutboundJob) where
  abbrev schedule_length : ℕ
  schedule_length = length c.settings.outbound.retry_schedule_seconds

  abbrev pub Concludes : Action Desk (Unit {0}) → Desk → Type 0
  Concludes m d = (((m d).1).jobs ≡ d.jobs) ⊎ IsUpdate schedule_length job d.jobs ((m d).1).jobs

  concluded :
      (d : Desk) (j : Jobs) (id : Option ℕ) (u : StatusUpdate)
      → IsUpdate schedule_length job d.jobs j
      → Concludes (λ d. update_message id u (record d { jobs = j })) d
  unfolding update_message
  concluded d j none u h = inr h
  concluded d j (some id) u h = inr h

  module _ (d : Desk) where
    handle_failure-Concludes :
        (error : Text) → Concludes (handle_failure job c.settings now error) d
    unfolding handle_failure mark_exchange_failure reschedule
    handle_failure-Concludes error = elim (Bool-cases (leb schedule_length job.attempt_count)) [
      | inl over ↦ rw over (
          concluded d (mark_exchange_failure job.id error d.jobs) job.message_id _ (record {
            update = _;
            rows_eq = refl;
            next_eq = refl;
            keeps_id = λ r. refl;
            keeps_count = λ r. refl;
            outcome = λ r. inl refl;
          }))
      | inr under ↦
          elim (Option-cases
            (get_elem? c.settings.outbound.retry_schedule_seconds job.attempt_count)) [
              | inl past ↦ rw (under, past) (inl refl)
              | inr (delay, q) ↦
                  rw (under, q)
                    (inr (record {
                      update = _;
                      rows_eq = refl;
                      next_eq = refl;
                      keeps_id = λ r. refl;
                      keeps_count = λ r. refl;
                      outcome = λ r. inr (refl, ground arith);
                    }))
            ]
    ]

    handle_receipt-Concludes : (receipt : NaesbReceipt) → Concludes (handle_receipt job receipt) d
    unfolding handle_receipt mark_delivered mark_failed_nack
    handle_receipt-Concludes receipt = elim (Bool-cases (is_ok receipt)) [
      | inl good ↦ rw good (
          concluded d
            (mark_delivered job.id receipt.trans_id receipt.server_id receipt.time_c d.jobs)
            job.message_id _
            (record {
              update = _;
              rows_eq = refl;
              next_eq = refl;
              keeps_id = λ r. refl;
              keeps_count = λ r. refl;
              outcome = λ r. inl refl;
            }))
      | inr bad ↦ rw bad (
          concluded d
            (mark_failed_nack job.id (strip (partition b':' receipt.request_status).0)
              (or_else (strip (partition b':' receipt.request_status).1) receipt.request_status)
              d.jobs)
            job.message_id _
            (record {
              update = _;
              rows_eq = refl;
              next_eq = refl;
              keeps_id = λ r. refl;
              keeps_count = λ r. refl;
              outcome = λ r. inl refl;
            }))
    ]

    on_sent-Concludes :
        (sent : Result Exception NaesbReceipt) → Concludes (on_sent job c.settings now sent) d
    on_sent-Concludes (ok receipt) = handle_receipt-Concludes receipt
    on_sent-Concludes (err (delivery_attempt m)) = handle_failure-Concludes m
    on_sent-Concludes (err (http x y)) = inl refl
    on_sent-Concludes (err (envelope_error f p x)) = inl refl
    on_sent-Concludes (err (weak_algorithm x)) = inl refl
    on_sent-Concludes (err (missing_env_var v)) = inl refl
    on_sent-Concludes (err gpg_error) = inl refl
    on_sent-Concludes (err unique_violation) = inl refl
    on_sent-Concludes (err (key_error t)) = inl refl
    on_sent-Concludes (err (value_error t)) = inl refl
    on_sent-Concludes (err (other t)) = inl refl

  on_partner-Concludes :
      (d : Desk) (partner : Option PartnerConfig) → Concludes (on_partner c now job partner) d
  unfolding mark_exchange_failure draw_boundaries
  on_partner-Concludes d none = inr (record {
    update = _;
    rows_eq = refl;
    next_eq = refl;
    keeps_id = λ r. refl;
    keeps_count = λ r. refl;
    outcome = λ r. inl refl;
  })
  on_partner-Concludes d (some partner) =
      elim (Result-cases (or_key_error partner.name (lookup partner.name c.fingerprints))) [
        | inr (e, k) ↦ rw k (inl refl)
        | inl (fingerprint, k) ↦ rw k (on_sent-Concludes (record d { drawn = suc (suc d.drawn) }) _)
      ]

  pub process_job-Concludes : (d : Desk) → Concludes (process_job c now job) d
  unfolding process_job
  process_job-Concludes d = on_partner-Concludes d (get_by_name c.partners job.partner_name)
