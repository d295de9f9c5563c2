-- ===== src/Admission.antt =====
-- src/lib/print-job-service.ts and src/lib/entitlements.ts: admitting a new print job. The
-- transaction holds advisory locks on the tenant, the agent, the API key and the idempotency key, so
-- it is one step on the tables.
pub mod Entitlements
pub mod Laws
mod Tests
use printer_repo.Prelude.{
  ℕ, ◌+◌, ◌-◌, ◌/◌, max, Bool, true, false, not, ◌&&◌, ◌||◌, List, [], ◌∷◌, Option, none, some,
  if◌then◌else◌, any, count, filter, length, ltb, leb, ite, arith,
}
use native.Mathlib.Decide.{ℕ_discrete}
use printer_repo.Prelude.Text.{Text, text, text_eq, trim, to_lower, not_distinct}
use printer_repo.Payload.{PrintJobPayload}
use printer_repo.Job.Status.{Status, queued, claimed, printing, ◌is◌}
use printer_repo.Job.Row.{Clock, Job, Table}
use printer_repo.Job.Insert.{NewJob, queued_row, has_same_key}
unfoldable pub use printer_repo.Admission.Entitlements.*

abbrev pub max_agent_queued_jobs : ℕ
max_agent_queued_jobs = 1000

abbrev pub max_agent_in_flight_jobs : ℕ
max_agent_in_flight_jobs = 500

-- What `idempotencyFingerprint` serialises.
pub record Fingerprint : Type 0 where
  pub printer_id : Text
  pub document_type : Text
  pub destination : Text
  pub payload : PrintJobPayload

abbrev pub word : Option Text → Text
word none = []
word (some t) = t

-- An absent text and one that trims to nothing are both null in the source, and both empty here.
unfoldable pub idempotency_fingerprint :
    Text → Option Text → Option Text → PrintJobPayload → Fingerprint
idempotency_fingerprint printer_id document_type destination payload = record {
  printer_id = printer_id;
  document_type = to_lower (trim (word document_type));
  destination = trim (word destination);
  payload = payload;
}

pub Fingerprint-discrete : Discrete Fingerprint
Fingerprint-discrete = hlevel ℕ_discrete

abbrev pub truthy : Option Text → Option Text
truthy (some []) = none
truthy t = t

abbrev pub same_request : Job → NewJob → Bool
same_request j n =
    ite
      (Fingerprint-discrete
        (idempotency_fingerprint j.printer_id j.document_type j.destination j.payload)
        (idempotency_fingerprint n.printer_id n.document_type n.destination n.payload))
      true false

-- `tenant_id = … AND api_key_id = … / IS NULL AND idempotency_key = …`
abbrev pub has_key : NewJob → Text → Job → Bool
has_key n key j =
    text_eq j.tenant_id n.tenant_id
    && not_distinct j.api_key_id (truthy n.api_key_id)
    && not_distinct j.idempotency_key (some key)

abbrev pub first_job : Table → Option Job
first_job [] = none
first_job (j ∷ js) = some j

unfoldable pub find_by_key : NewJob → Option Text → Table → Option Job
find_by_key n none jobs = none
find_by_key n (some key) jobs = first_job (filter (has_key n key) jobs)

abbrev pub is_agent_queued : NewJob → Clock → Job → Bool
is_agent_queued n clock j =
    text_eq j.tenant_id n.tenant_id
    && text_eq j.agent_id n.agent_id
    && j.status is queued
    && ltb clock.db_now j.expires_at

abbrev pub is_agent_in_flight : NewJob → Clock → Job → Bool
is_agent_in_flight n clock j =
    text_eq j.tenant_id n.tenant_id
    && text_eq j.agent_id n.agent_id
    && any (λ s. j.status is s) (claimed ∷ printing ∷ [])
    && ltb clock.db_now j.expires_at

-- The two ceilings of the agent.
unfoldable pub check_agent_load : NewJob → Clock → Table → Option AdmissionError
check_agent_load n clock jobs =
    let agent_queued = count (is_agent_queued n clock) jobs in
    let in_flight = count (is_agent_in_flight n clock) jobs in
    if leb max_agent_queued_jobs agent_queued
    then some (agent_queued_queue_full agent_queued)
    else if leb max_agent_in_flight_jobs in_flight
    then some (agent_queue_full in_flight)
    else none

-- A window that has run out starts again now, with this job as its first.
abbrev next_count : ℕ → ℕ → ℕ → ℕ
next_count window elapsed n = if leb window elapsed then 1 else n + 1

abbrev retry_seconds : ℕ → ℕ → ℕ
retry_seconds window elapsed = if leb window elapsed then 0 else (window - elapsed + 999) / 1000

-- The new row of the key's windows, or the seconds to wait. `now - started` stops at 0, as
-- `Math.max(0, …)` does.
unfoldable pub next_window : RateRow → ℕ → RateRow × Option AdmissionError
next_window r now =
    let minute_elapsed = now - r.minute_started in
    let hour_elapsed = now - r.hour_started in
    let next_minute = next_count 60_000 minute_elapsed r.minute_count in
    let next_hour = next_count 3_600_000 hour_elapsed r.hour_count in
    if ltb rate_limit_per_minute next_minute || ltb rate_limit_per_hour next_hour
    then (
      r,
      some (
          print_job_rate_limited (
            max 1
              (max (retry_seconds 60_000 minute_elapsed) (retry_seconds 3_600_000 hour_elapsed)))),
    )
    else (
      record r {
        minute_started = if leb 60_000 minute_elapsed then now else r.minute_started;
        minute_count = next_minute;
        hour_started = if leb 3_600_000 hour_elapsed then now else r.hour_started;
        hour_count = next_hour;
      },
      none,
    )

abbrev pub first_window : Text → ℕ → RateRow
first_window key now = record {
  api_key_id = key;
  minute_started = now;
  minute_count = 1;
  hour_started = now;
  hour_count = 1;
}

abbrev replace :
    (RateRow × Option AdmissionError) → List RateRow → List RateRow × Option AdmissionError
replace advanced rest = (advanced.0 ∷ rest, advanced.1)

abbrev keep_row :
    RateRow → List RateRow × Option AdmissionError → List RateRow × Option AdmissionError
keep_row r later = (r ∷ later.0, later.1)

-- The key's row is created, or advanced.
unfoldable pub charge_key : Text → ℕ → List RateRow → List RateRow × Option AdmissionError
unfolding next_window
charge_key key now [] = (first_window key now ∷ [], none)
charge_key key now (r ∷ rest) =
    let later = keep_row r (charge_key key now rest) in
    if text_eq r.api_key_id key then replace (next_window r now) rest else later

unfoldable pub charge : Option Text → ℕ → List RateRow → List RateRow × Option AdmissionError
unfolding charge_key
charge none now limits = (limits, none)
charge (some key) now limits = charge_key key now limits

pub data Admitted : Type 0 where
  created : Text → Admitted
  reused : Job → Admitted
  rejected : AdmissionError → Admitted

-- A thrown error rolls the transaction back.
abbrev insert_charged :
    Store → NewJob → Clock → List RateRow × Option AdmissionError → Store × Admitted
insert_charged store n clock (limits, some error) = (store, rejected error)
insert_charged store n clock (limits, none) =
    if any (λ (j : Job). text_eq n.id j.id) store.jobs
    then (store, rejected duplicate_id)
    else if any (has_same_key n) store.jobs
    then (store, rejected duplicate_key)
    else (record store { jobs = queued_row n clock ∷ store.jobs; limits = limits }, created n.id)

abbrev after_checks : Store → NewJob → Clock → Option AdmissionError → Store × Admitted
after_checks store n clock (some error) = (store, rejected error)
after_checks store n clock none =
    insert_charged store n clock (charge (truthy n.api_key_id) clock.app_now store.limits)

unfoldable pub admit_new : Store → NewJob → Clock → Store × Admitted
admit_new store n clock = after_checks store n clock (
    first_error (enforce_tenant_job_entitlements store n.tenant_id clock)
      (check_agent_load n clock store.jobs))

abbrev pub by_existing : Store → NewJob → Clock → Option Job → Store × Admitted
by_existing store n clock none = admit_new store n clock
by_existing store n clock (some j) =
    (store, if same_request j n then reused j else rejected idempotency_conflict)

abbrev pub is_valid_tenant : Text → Bool
is_valid_tenant [] = false
is_valid_tenant (c ∷ t) = leb (length (c ∷ t)) 128

-- `insertQueuedJobAtomically`
unfoldable pub insert_queued_job_atomically : Store → NewJob → Clock → Store × Admitted
insert_queued_job_atomically store n clock =
    if not (is_valid_tenant n.tenant_id)
    then (store, rejected invalid_tenant)
    else by_existing store n clock (find_by_key n (truthy n.idempotency_key) store.jobs)
