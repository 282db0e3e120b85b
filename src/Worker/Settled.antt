-- ===== src/Worker/Settled.antt =====
-- app/worker.py: what a claimed job becomes.
use naesb_edi.Base.{
  ℤ, ℕ, zero, suc, ◌≤◌, ◌<◌, ◌≡◌, refl, ◌∙◌, ap, strip, partition, ◌⊎◌, inl, inr, Bool, true, false,
  if◌then◌else◌, Option, none, some, List, [], ◌∷◌, Text, Result, ok, err, length, get_elem?, leb,
  ◌==◌, arith, Bool-cases, Result-cases,
}
use naesb_edi.Base.Dict.{lookup}
use naesb_edi.Effects.{Action}
use naesb_edi.Exceptions.{
  Exception, http, envelope_error, weak_algorithm, missing_env_var, gpg_error, delivery_attempt,
  unique_violation, key_error, value_error, other,
}
use naesb_edi.Gateway.{or_key_error}
use naesb_edi.Fields.{Fault, x12, input_format_of, matches_transaction_set, envelope_fields, faults}
use naesb_edi.Outbound.{send_once, envelope_fields_from_job}
use naesb_edi.Partners.{PartnerConfig, get_by_name}
use naesb_edi.Receipt.{NaesbReceipt, is_ok}
use naesb_edi.Tracking.{StatusUpdate}
use naesb_edi.Tracking.Jobs.{
  queued, delivered, failed_nack, exchange_failure, OutboundJob, JobRow, Jobs, find_job, update_job,
  mark_delivered, mark_failed_nack, reschedule, mark_exchange_failure,
}
use naesb_edi.Worker.{
  Config, Desk, plus_delay, handle_failure, handle_receipt, on_sent, on_partner, or_else,
  process_job, update_message, draw_boundaries,
}

find_job-update_job :
    (id : ℕ) (f : JobRow → JobRow) (rows : List JobRow) (row : JobRow)
    → ((r : JobRow) → (f r).job.id ≡ r.job.id)
    → find_job id rows ≡ some row
    → find_job id (update_job id f rows) ≡ some (f row)
unfolding find_job update_job
find_job-update_job id f [] row k h = absurd (ground arith)
find_job-update_job id f (r ∷ rows) row k h = elim (Bool-cases (r.job.id == id)) [
  | inl hit ↦
      let hit' : (f r).job.id == id ≡ true = ap (λ i. i == id) (k r) ∙ hit in
      let same : r ≡ row = ground arith in rw (hit, hit') (ap (λ x. some (f x)) same)
  | inr miss ↦ rw miss (rw miss (find_job-update_job id f rows row k (ground arith)))
]

get_elem?-below {ℓ} :
    {A : Type ℓ} (xs : List A) (i : ℕ) → i < length xs → (x : A) × (get_elem? xs i ≡ some x)
get_elem?-below [] i h = absurd (omega (arith, h))
get_elem?-below (x ∷ xs) zero h = (x, refl)
get_elem?-below (x ∷ xs) (suc i) h = get_elem?-below xs i (omega (arith, h))

module _ (c : Config) (now : ℕ) (job : OutboundJob) where
  -- The attempt that was made for a known partner with its fingerprint, and how it ended.
  pub record Sent (d : Desk) (result : Result Exception NaesbReceipt) : Type 0 where
    pub partner : PartnerConfig
    pub fingerprint : Text
    pub known : get_by_name c.partners job.partner_name ≡ some partner
    pub own : lookup partner.name c.fingerprints ≡ some fingerprint
    pub outcome :
        send_once c.outside c.http
          (c.outside.token_hex d.drawn)
          (c.outside.token_hex (suc d.drawn))
          job
          partner
          c.settings
          fingerprint
        ≡ result

  -- The row of a job whose partner answered with a receipt.
  abbrev pub IsAnswered : NaesbReceipt → JobRow → Type 0
  IsAnswered receipt row =
      ((is_ok receipt ≡ true)
        × (row.job.status ≡ delivered)
        × (row.job.receipt_trans_id ≡ some receipt.trans_id)
        × (row.job.receipt_server_id ≡ some receipt.server_id)
        × (row.job.receipt_time_c ≡ some receipt.time_c))
      ⊎ ((is_ok receipt ≡ false)
          × (row.job.status ≡ failed_nack)
          × (row.job.last_error_code ≡ some (strip (partition b':' receipt.request_status).0)))

  -- The row of a job whose delivery failed.
  abbrev pub IsFailed : Text → JobRow → Type 0
  IsFailed error row =
      (row.job.last_error_description ≡ some error)
      × (((row.job.status ≡ exchange_failure)
            × (length c.settings.outbound.retry_schedule_seconds ≤ job.attempt_count))
          ⊎ ((row.job.status ≡ queued)
              × (delay : ℤ) × (get_elem? c.settings.outbound.retry_schedule_seconds
                    job.attempt_count
                  ≡ some delay)
              × (row.next_attempt_at ≡ plus_delay now delay)))

  -- The partner is not known; or it answered; or the delivery failed.
  abbrev pub IsHandled : Desk → JobRow → Type 0
  IsHandled d row =
      ((get_by_name c.partners job.partner_name ≡ none) × (row.job.status ≡ exchange_failure))
      ⊎ (((receipt : NaesbReceipt) × Sent d (ok receipt) × IsAnswered receipt row)
          ⊎ ((error : Text) × Sent d (err (delivery_attempt error)) × IsFailed error row))

  -- The action returns, and so leaves the row under the job's id.
  abbrev pub Settles : (JobRow → Type 0) → Action Desk (Unit {0}) → Desk → Type 0
  Settles P m d =
      ((m d).0 ≡ ok tt) × (row : JobRow) × (find_job job.id ((m d).1).jobs.rows ≡ some row) × P row

  abbrev pub Raises : Action Desk (Unit {0}) → Desk → Type 0
  Raises m d = (e : Exception) × ((m d).0 ≡ err e) × (((m d).1).jobs ≡ d.jobs)

  -- The message's status is written after the job's.
  finish :
      (P : JobRow → Type 0) (d : Desk) (j : Jobs) (id : Option ℕ) (u : StatusUpdate) (row : JobRow)
      → find_job job.id j.rows ≡ some row
      → P row
      → Settles P (λ d. update_message id u (record d { jobs = j })) d
  unfolding update_message
  finish P d j none u row h p = (refl, row, h, p)
  finish P d j (some id) u row h p = (refl, row, h, p)

  either-Settles :
      (P : JobRow → Type 0) (m n : Action Desk (Unit {0})) (b : Bool) (d : Desk)
      → (b ≡ true → Settles P m d)
      → (b ≡ false → Settles P n d)
      → Settles P (if b then m else n) d
  either-Settles P m n true d yes_case no_case = yes_case refl
  either-Settles P m n false d yes_case no_case = no_case refl

  module _ (d : Desk) (row : JobRow) (h : find_job job.id d.jobs.rows ≡ some row) where
    handle_failure-Settles :
        (error : Text) → Settles (IsFailed error) (handle_failure job c.settings now error) d
    unfolding handle_failure mark_exchange_failure reschedule
    handle_failure-Settles error =
        elim (Bool-cases
          (leb (length c.settings.outbound.retry_schedule_seconds) job.attempt_count)) [
            | inl over ↦ rw over (
                finish (IsFailed error) d (mark_exchange_failure job.id error d.jobs) job.message_id
                  _ _ (find_job-update_job job.id _ d.jobs.rows row (λ r. refl) h)
                  (refl, inl (refl, ground arith)))
            | inr under ↦
                let (delay, q) =
                  get_elem?-below c.settings.outbound.retry_schedule_seconds job.attempt_count
                    (ground arith) in
                rw (under, q)
                  (
                    refl,
                    _,
                    find_job-update_job job.id _ d.jobs.rows row (λ r. refl) h,
                    (refl, inr (refl, delay, refl, refl)),
                  )
          ]

    handle_receipt-Settles :
        (receipt : NaesbReceipt) → Settles (IsAnswered receipt) (handle_receipt job receipt) d
    unfolding handle_receipt mark_delivered mark_failed_nack
    handle_receipt-Settles receipt =
        either-Settles (IsAnswered receipt) _ _ (is_ok receipt) d
          (λ good.
            finish (IsAnswered receipt) d
              (mark_delivered job.id receipt.trans_id receipt.server_id receipt.time_c d.jobs)
              job.message_id _ _ (find_job-update_job job.id _ d.jobs.rows row (λ r. refl) h)
              (inl (good, refl, refl, refl, refl)))
          (λ bad.
            finish (IsAnswered receipt) d
              (mark_failed_nack job.id (strip (partition b':' receipt.request_status).0)
                (or_else (strip (partition b':' receipt.request_status).1) receipt.request_status)
                d.jobs)
              job.message_id _ _ (find_job-update_job job.id _ d.jobs.rows row (λ r. refl) h)
              (inr (bad, refl, refl)))

  change-Settles :
      (P Q : JobRow → Type 0) (m : Action Desk (Unit {0})) (d : Desk)
      → ((row : JobRow) → P row → Q row)
      → Settles P m d
      → Settles Q m d
  change-Settles P Q m d f (returned, row, found, p) = (returned, row, found, f row p)

  on_sent-Settles :
      (first d : Desk) (row : JobRow) (sent : Result Exception NaesbReceipt)
      → find_job job.id d.jobs.rows ≡ some row
      → Sent first sent
      → Settles (IsHandled first) (on_sent job c.settings now sent) d
        ⊎ Raises (on_sent job c.settings now sent) d
  on_sent-Settles first d row (ok receipt) h s = inl (
      change-Settles (IsAnswered receipt) (IsHandled first) (handle_receipt job receipt) d
        (λ r p. inr (inl (receipt, s, p))) (handle_receipt-Settles d row h receipt))
  on_sent-Settles first d row (err (delivery_attempt m)) h s = inl (
      change-Settles (IsFailed m) (IsHandled first) (handle_failure job c.settings now m) d
        (λ r p. inr (inr (m, s, p))) (handle_failure-Settles d row h m))
  on_sent-Settles first d row (err (http x y)) h s = inr (_, refl, refl)
  on_sent-Settles first d row (err (envelope_error f p x)) h s = inr (_, refl, refl)
  on_sent-Settles first d row (err (weak_algorithm x)) h s = inr (_, refl, refl)
  on_sent-Settles first d row (err (missing_env_var v)) h s = inr (_, refl, refl)
  on_sent-Settles first d row (err gpg_error) h s = inr (_, refl, refl)
  on_sent-Settles first d row (err unique_violation) h s = inr (_, refl, refl)
  on_sent-Settles first d row (err (key_error t)) h s = inr (_, refl, refl)
  on_sent-Settles first d row (err (value_error t)) h s = inr (_, refl, refl)
  on_sent-Settles first d row (err (other t)) h s = inr (_, refl, refl)

  found_key : (key : Text) (o : Option Text) (f : Text) → or_key_error key o ≡ ok f → o ≡ some f
  found_key key none f h = absurd (ground arith)
  found_key key (some g) f h = ground arith

  on_partner-Settles :
      (d : Desk) (row : JobRow) (partner : Option PartnerConfig)
      → find_job job.id d.jobs.rows ≡ some row
      → get_by_name c.partners job.partner_name ≡ partner
      → Settles (IsHandled d) (on_partner c now job partner) d
        ⊎ Raises (on_partner c now job partner) d
  unfolding mark_exchange_failure draw_boundaries
  on_partner-Settles d row none h q =
      inl (refl, _, find_job-update_job job.id _ d.jobs.rows row (λ r. refl) h, inl (q, refl))
  on_partner-Settles d row (some partner) h q =
      elim (Result-cases (or_key_error partner.name (lookup partner.name c.fingerprints))) [
        | inr (e, k) ↦ rw k (inr (e, refl, refl))
        | inl (fingerprint, k) ↦ rw k (
            on_sent-Settles d (record d { drawn = suc (suc d.drawn) }) row _ h
              (record {
                partner = partner;
                fingerprint = fingerprint;
                known = q;
                own = found_key _ _ _ k;
                outcome = refl;
              }))
      ]

  -- An attempt on a job of the table raises and leaves the jobs as they were, or it settles the
  -- job. An unknown partner's job becomes an exchange failure. If the partner answered with a
  -- receipt that says ok, the job is delivered and holds the receipt's number, server and time; if
  -- the receipt says otherwise, the job is rejected and holds the receipt's code. If the delivery
  -- failed, the job holds the error, and is an exchange failure after as many attempts as the
  -- schedule has entries, and otherwise queued again after the schedule's delay for the attempts
  -- made.
  -- An attempt on a job of the table raises and leaves the jobs as they were, or it settles the
  -- job: it is delivered, or rejected by its partner, or an exchange failure, which is declared of
  -- a partner that is not known or after as many attempts as the schedule has entries, or it is
  -- queued again after the delay that the schedule has for the attempts made.
  pub process_job-Settles :
      (d : Desk) (row : JobRow)
      → find_job job.id d.jobs.rows ≡ some row
      → Settles (IsHandled d) (process_job c now job) d ⊎ Raises (process_job c now job) d
  unfolding process_job
  process_job-Settles d row h = on_partner-Settles d row _ h refl

  -- An attempt on a job whose transaction set is not valid, with a known partner, its fingerprint
  -- and a known format, raises a `ValueError`, which is not a `DeliveryAttemptError`, and leaves
  -- the jobs as they were.
  pub process_job-invalid :
      (d : Desk) (partner : PartnerConfig) (fingerprint v : Text)
      → get_by_name c.partners job.partner_name ≡ some partner
      → lookup partner.name c.fingerprints ≡ some fingerprint
      → input_format_of job.input_format ≡ some x12
      → job.transaction_set ≡ some v
      → matches_transaction_set v ≡ false
      → (faults : List Fault) × ((process_job c now job d).0
          ≡ err (value_error (c.outside.print_faults faults)))
        × (((process_job c now job d).1).jobs ≡ d.jobs)
  unfolding process_job draw_boundaries send_once envelope_fields_from_job envelope_fields faults
  process_job-invalid d partner fingerprint v p k i t m = rw (p, k, i, t, m) (_, refl, refl)
