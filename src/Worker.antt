-- ===== src/Worker.antt =====
-- app/worker.py: the processing of claimed jobs, one cycle of the poll loop, and the loop. Logging is
-- left out; a job's exception ends the loop. The start of the worker is in Wiring/Run.
pub mod Settled
pub mod Rows
pub mod Conclude
pub mod Fleet
pub mod Ends
use naesb_edi.Base.{
  ℕ, zero, suc, ◌+◌, ltb, ◌≡◌, refl, Bool, true, false, Option, none, some, List, [], ◌∷◌, ◌++◌,
  Text, Result, ok, err, codes, leb, length, get_elem?, if◌then◌else◌, partition, strip, truthy,
  ◌-◌, ℤ, pos, negsuc,
}
use naesb_edi.Base.Dict.{Dict, lookup}
use naesb_edi.Effects.{Action, pure, raise, lift, modify, ◌>>=◌, ◌>>◌}
use naesb_edi.ErrorCodes.{ErrorCode}
use naesb_edi.Exceptions.{Exception, delivery_attempt, other}
use naesb_edi.Gateway.{Outside, or_key_error}
use naesb_edi.Outbound.{Http, send_once}
use naesb_edi.Partners.{PartnerConfig, PartnerRegistry, get_by_name}
use naesb_edi.Receipt.{NaesbReceipt, is_ok}
use naesb_edi.Settings.{Settings}
use naesb_edi.Tracking.{
  Messages, StatusUpdate, to_status, update_status, delivered as message_delivered,
  failed_nack as message_failed_nack, exchange_failure as message_exchange_failure,
}
use naesb_edi.Tracking.Jobs.{
  OutboundJob, Jobs, claim_due_jobs, mark_delivered, mark_failed_nack, reschedule,
  mark_exchange_failure,
}

-- What the worker runs with.
pub record Config : Type 0 where
  pub outside : Outside
  pub http : Http
  pub settings : Settings
  pub fingerprints : Dict Text
  pub partners : PartnerRegistry

-- The two tables and the tokens drawn so far.
pub record Desk : Type 0 where
  pub jobs : Jobs
  pub messages : Messages
  pub drawn : ℕ

abbrev pub on_jobs : (Jobs → Jobs) → Action Desk (Unit {0})
on_jobs f = modify (λ d. record d { jobs = f d.jobs })

-- `if job.message_id is not None: update_status(...)`
unfoldable pub update_message : Option ℕ → StatusUpdate → Action Desk (Unit {0})
update_message none u = pure tt
update_message (some id) u = modify (λ d. record d { messages = update_status id u d.messages })

-- `now + timedelta(seconds=delay)`; no time lies before 0.
abbrev pub plus_delay : ℕ → ℤ → ℕ
plus_delay now (pos seconds) = now + seconds
plus_delay now (negsuc n) = now - suc n

-- The schedule's delay for the attempts made, with the `IndexError` past its end.
abbrev pub or_index_error : Option ℤ → Result Exception ℤ
or_index_error none = err (other (codes "list index out of range"))
or_index_error (some delay) = ok delay

unfoldable pub handle_failure : OutboundJob → Settings → ℕ → Text → Action Desk (Unit {0})
handle_failure job settings now error =
    let schedule = settings.outbound.retry_schedule_seconds in
    if leb (length schedule) job.attempt_count
    then (do
      on_jobs (mark_exchange_failure job.id error)
      update_message job.message_id (to_status message_exchange_failure))
    else (do
      delay ← lift (or_index_error (get_elem? schedule job.attempt_count))
      on_jobs (reschedule job.id (plus_delay now delay) error))

abbrev pub or_else : Text → Text → Text
or_else [] d = d
or_else (c ∷ cs) d = c ∷ cs

-- What the worker does with a verified receipt.
unfoldable pub handle_receipt : OutboundJob → NaesbReceipt → Action Desk (Unit {0})
handle_receipt job receipt =
    if is_ok receipt
    then (do
      on_jobs (mark_delivered job.id receipt.trans_id receipt.server_id receipt.time_c)
      update_message job.message_id
          (record (to_status message_delivered) { receipt_verified = some true }))
    else (let (code, description) = partition b':' receipt.request_status in
        do
          on_jobs (
              mark_failed_nack job.id (strip code)
                (or_else (strip description) receipt.request_status))
          update_message job.message_id (record (to_status message_failed_nack) {
            error_code = some (strip code);
            receipt_verified = some true;
          }))

-- The `except DeliveryAttemptError` of `_process_job`, and what follows it.
abbrev pub on_sent :
    OutboundJob → Settings → ℕ → Result Exception NaesbReceipt → Action Desk (Unit {0})
on_sent job settings now (ok receipt) = handle_receipt job receipt
on_sent job settings now (err (delivery_attempt message)) = handle_failure job settings now message
on_sent job settings now (err e) = raise e

unfoldable pub draw_boundaries : Config → Action Desk (Text × Text)
draw_boundaries c d = (
  ok (c.outside.token_hex d.drawn, c.outside.token_hex (suc d.drawn)),
  record d { drawn = suc (suc d.drawn) },
)

abbrev pub on_partner : Config → ℕ → OutboundJob → Option PartnerConfig → Action Desk (Unit {0})
on_partner c now job none =
    on_jobs (
      mark_exchange_failure job.id (codes "unknown partner " ++ c.outside.py.repr job.partner_name))
on_partner c now job (some partner) = do
  fingerprint ← lift (or_key_error partner.name (lookup partner.name c.fingerprints))
  (token, inner_token) ← draw_boundaries c
  on_sent job c.settings now
      (send_once c.outside c.http token inner_token job partner c.settings fingerprint)

-- `now` is the clock when the attempt ends.
unfoldable pub process_job : Config → ℕ → OutboundJob → Action Desk (Unit {0})
process_job c now job = on_partner c now job (get_by_name c.partners job.partner_name)

-- `clock n` is the time when the attempt for the job at place `n` ends.
unfoldable pub process_jobs : Config → (ℕ → ℕ) → List OutboundJob → Action Desk (Unit {0})
process_jobs c clock [] = pure tt
process_jobs c clock (job ∷ jobs) =
    process_job c (clock 0) job >> process_jobs c (λ n. clock (suc n)) jobs

unfoldable pub claim : ℕ → (ℕ → Bool) → Action Desk (List OutboundJob)
claim now locked d =
    let (due, jobs) = claim_due_jobs 10 now locked d.jobs in (ok due, record d { jobs = jobs })

-- What one cycle of `run_worker` meets: the time of its claim, the rows that another worker's claim
-- holds then, and the times when its attempts end.
pub record Cycle : Type 0 where
  pub now : ℕ
  pub locked : ℕ → Bool
  pub clock : ℕ → ℕ

unfoldable pub poll : Config → Cycle → Action Desk (Unit {0})
poll c cycle = do due ← claim cycle.now cycle.locked; process_jobs c cycle.clock due

-- The loop's state: the tables, the cycles begun, and the calls of `sleep`.
pub record Loop : Type 0 where
  pub desk : Desk
  pub count : ℕ
  pub slept : ℕ

abbrev pub sleep_if : Bool → Loop → Loop
sleep_if b l = if b then record l { slept = suc l.slept } else l

-- `iterations is None or count < iterations`
abbrev pub goes_on : Option ℕ → ℕ → Bool
goes_on none count = true
goes_on (some iterations) count = ltb count iterations

-- What follows a cycle: its exception ends the loop; otherwise it is counted, and the worker sleeps if
-- there is another one.
abbrev pub next_cycle :
    Option ℕ
    → Loop
    → Result Exception (Unit {0}) × Desk
    → (Loop → Option (Result Exception (Unit {0})) × Loop)
    → Option (Result Exception (Unit {0})) × Loop
next_cycle iterations l (err e, d) rest = (some (err e), record l { desk = d })
next_cycle iterations l (ok _, d) rest =
    rest (sleep_if (goes_on iterations (suc l.count)) (record l { desk = d; count = suc l.count }))

-- The loop of `run_worker`, for as many tests of its condition as there is fuel: `none` if it is still
-- running then. `cycles n` is the cycle of number `n`.
unfoldable pub run_cycles :
    Config → (ℕ → Cycle) → Option ℕ → ℕ → Loop → Option (Result Exception (Unit {0})) × Loop
run_cycles c cycles iterations zero l = (none, l)
run_cycles c cycles iterations (suc fuel) l =
    let rest = run_cycles c cycles iterations fuel in
    if goes_on iterations l.count
    then next_cycle iterations l (poll c (cycles l.count) l.desk) rest
    else (some (ok tt), l)
