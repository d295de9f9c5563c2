-- ===== src/Keys/Jobs.antt =====
-- The print API of an Odoo key: src/app/api/print/jobs/route.ts and its batch-status route.
use printer_repo.Prelude.{
  ℕ, ◌+◌, ◌-◌, Bool, true, false, not, ◌&&◌, List, [], ◌∷◌, Option, none, some, if◌then◌else◌, map,
  any, filter, ltb, leb, ite, is_some,
}
use printer_repo.Prelude.Text.{Text, text, text_eq, trim, not_distinct}
use printer_repo.Payload.{PrintJobPayload}
use printer_repo.Payload.Validation.{Issue, validate_print_job_payload}
use printer_repo.Job.Status.{Status, queued}
use printer_repo.Job.Row.{Clock, Job, Table}
use printer_repo.Admission.{
  Store, Fingerprint-discrete, idempotency_fingerprint, idempotency_conflict,
}
use printer_repo.Submit.{create_print_job_for_printer}
use printer_repo.Submit.Records.{
  Surroundings, Submission, Inventory, SubmitError, not_admitted, Submitted, queued_job,
  earlier_job, failed_with,
}
use printer_repo.Keys.{ApiKey, is_odoo_key_allowed_for_document_type}

-- The body after its schema; `parse_date` of a text is its time in milliseconds, if it is one.
pub record PrintRequest : Type 0 where
  pub printer_id : Text
  pub document_type : Text
  pub destination : Option Text
  pub payload : PrintJobPayload
  pub expires_at : Option Text
  pub idempotency_key : Option Text
  pub request_id : Option Text

pub data Expiry : Type 0 where
  until : ℕ → Expiry
  not_in_future too_far : Expiry

abbrev by_time : ℕ → Option ℕ → Expiry
by_time now none = not_in_future
by_time now (some time) =
    if leb time now
    then not_in_future
    else if ltb 86_400_000 (time - now)
    then too_far
    else until time

-- `parseExpiresAt`
unfoldable pub parse_expires_at : (parse_date : Text → Option ℕ) → ℕ → Option Text → Expiry
parse_expires_at parse_date now none = until (now + 3_600_000)
parse_expires_at parse_date now (some []) = until (now + 3_600_000)
parse_expires_at parse_date now (some (c ∷ t)) = by_time now (parse_date (c ∷ t))

-- `responseForRow`
pub record JobResponse : Type 0 where
  pub job_id : Text
  pub status : Status
  pub printer_id : Text
  pub agent_id : Text
  pub destination : Option Text
  pub document_type : Option Text
  pub error : Option Text

unfoldable pub response_for_row : Job → JobResponse
response_for_row j = record {
  job_id = j.id;
  status = j.status;
  printer_id = j.printer_id;
  agent_id = j.agent_id;
  destination = j.destination;
  document_type = j.document_type;
  error = j.error;
}

-- `idempotencyMatches`
unfoldable pub idempotency_matches : Job → PrintRequest → Bool
idempotency_matches j r =
    ite
      (Fingerprint-discrete
        (idempotency_fingerprint j.printer_id j.document_type j.destination j.payload)
        (idempotency_fingerprint r.printer_id (some r.document_type) r.destination r.payload))
      true false

pub data PrintReply : Type 0 where
  unauthorized id_required not_found not_allowed conflict : PrintReply
  bad_payload : Issue → PrintReply
  bad_expiry : Expiry → PrintReply
  accepted : JobResponse → PrintReply
  known : JobResponse → PrintReply
  refused : SubmitError → PrintReply

unfoldable pub find_job : (Job → Bool) → Table → Option Job
find_job test [] = none
find_job test (j ∷ js) = let later = find_job test js in if test j then some j else later

abbrev pub has_request_key : ApiKey → Text → Job → Bool
has_request_key key idempotency_key j =
    text_eq j.tenant_id key.tenant_id
    && not_distinct j.api_key_id (some key.id)
    && not_distinct j.idempotency_key (some idempotency_key)

-- The job under the request's key, if the request has one.
abbrev pub existing_job : ApiKey → Option Text → Table → Option Job
existing_job key none jobs = none
existing_job key (some []) jobs = none
existing_job key (some (c ∷ t)) jobs = find_job (has_request_key key (c ∷ t)) jobs

abbrev pub by_match : PrintRequest → Option Job → PrintReply
by_match request none = conflict
by_match request (some j) =
    if idempotency_matches j request then known (response_for_row j) else conflict

unfoldable pub submission_of : ApiKey → PrintRequest → ℕ → Submission
submission_of key request expires_at = record {
  printer_id = request.printer_id;
  payload = request.payload;
  requested_by = text "odoo";
  idempotency_key = request.idempotency_key;
  tenant_id = key.tenant_id;
  destination = request.destination;
  document_type = some request.document_type;
  expires_at = some expires_at;
  api_key_id = some key.id;
  request_id = request.request_id;
}

abbrev pub by_reused : Option Job → PrintReply
by_reused none = conflict
by_reused (some j) = known (response_for_row j)

abbrev pub is_conflict : SubmitError → Bool
is_conflict (not_admitted idempotency_conflict) = true
is_conflict _ = false

-- The answer to what the service did; a conflict that it found is looked up again.
unfoldable pub answer : ApiKey → PrintRequest → Store × Submitted → Store × PrintReply
unfolding find_job idempotency_matches response_for_row
answer key request (store, queued_job id printer_id agent_id) = (
  store,
  accepted (record {
    job_id = id;
    status = queued;
    printer_id = printer_id;
    agent_id = agent_id;
    destination = request.destination;
    document_type = some request.document_type;
    error = none;
  }),
)
answer key request (store, earlier_job j) = (
  store,
  by_reused (find_job (λ k. text_eq k.id j.id && text_eq k.tenant_id key.tenant_id) store.jobs),
)
answer key request (store, failed_with e) = (
  store,
  if is_conflict e && is_some request.idempotency_key
      then by_match request (existing_job key request.idempotency_key store.jobs)
      else refused e,
)

abbrev pub submit_new :
    Surroundings
    → ApiKey
    → PrintRequest
    → Clock
    → Inventory
    → ℕ
    → Option Job
    → Store
    → Store × PrintReply
submit_new env key request clock inventory expires_at (some j) store =
    (store, by_match request (some j))
submit_new env key request clock inventory expires_at none store =
    answer key request (
      create_print_job_for_printer env (submission_of key request expires_at) clock inventory store)

abbrev pub with_expiry :
    Surroundings → ApiKey → PrintRequest → Clock → Inventory → Expiry → Store → Store × PrintReply
with_expiry env key request clock inventory (until expires_at) store =
    submit_new env key request clock inventory expires_at
      (existing_job key request.idempotency_key store.jobs) store
with_expiry env key request clock inventory bad store = (store, bad_expiry bad)

abbrev pub with_payload :
    Surroundings
    → (parse_date : Text → Option ℕ) → ApiKey
    → PrintRequest
    → Clock
    → Inventory
    → Option Issue
    → Store
    → Store × PrintReply
with_payload env parse_date key request clock inventory (some issue) store =
    (store, bad_payload issue)
with_payload env parse_date key request clock inventory none store =
    with_expiry env key request clock inventory
      (parse_expires_at parse_date clock.app_now request.expires_at) store

-- POST for the key of the request, if there is one.
unfoldable pub post_job :
    Surroundings
    → (parse_date : Text → Option ℕ) → Option ApiKey
    → PrintRequest
    → Clock
    → Inventory
    → Store
    → Store × PrintReply
unfolding is_odoo_key_allowed_for_document_type validate_print_job_payload parse_expires_at
    submission_of answer create_print_job_for_printer
post_job env parse_date none request clock inventory store = (store, unauthorized)
post_job env parse_date (some key) request clock inventory store =
    if not (is_odoo_key_allowed_for_document_type key (some request.document_type) true)
    then (store, not_allowed)
    else with_payload env parse_date key request clock inventory
        (validate_print_job_payload env.decode env.encode request.payload) store

abbrev pub is_own_job : ApiKey → Job → Bool
is_own_job key j = text_eq j.tenant_id key.tenant_id && not_distinct j.api_key_id (some key.id)

abbrev pub may_read : ApiKey → Option Job → PrintReply
may_read key none = not_found
may_read key (some j) =
    if is_odoo_key_allowed_for_document_type key j.document_type false
    then known (response_for_row j)
    else not_allowed

abbrev pub by_id : ApiKey → Text → Table → PrintReply
by_id key [] jobs = id_required
by_id key (c ∷ id) jobs =
    may_read key (find_job (λ j. text_eq j.id (c ∷ id) && is_own_job key j) jobs)

-- GET: `id` is the parameter, empty if it is missing.
unfoldable pub get_job : Option ApiKey → (id : Text) → Table → PrintReply
unfolding find_job is_odoo_key_allowed_for_document_type response_for_row
get_job none id jobs = unauthorized
get_job (some key) id jobs = by_id key (trim id) jobs

-- POST of the batch-status route, for at most 100 ids; the times of the rows are left out.
unfoldable pub batch_status : ApiKey → (ids : List Text) → Table → List JobResponse
unfolding is_odoo_key_allowed_for_document_type response_for_row
batch_status key ids jobs = map response_for_row (
    filter (λ (j : Job). is_odoo_key_allowed_for_document_type key j.document_type false)
      (filter (λ (j : Job). any (λ id. text_eq j.id id) ids && is_own_job key j) jobs))
