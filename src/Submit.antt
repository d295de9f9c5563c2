-- ===== src/Submit.antt =====
-- `createPrintJobForPrinter` of src/lib/print-job-service.ts: a payload for a printer of a tenant is
-- checked, admitted as a job, and pushed to the agent of the printer.
pub mod Records
pub mod Laws
pub mod Safety
pub mod TestPages
pub mod Tests
use printer_repo.Prelude.{
  ℕ, ◌+◌, Bool, true, false, not, ◌&&◌, ◌||◌, List, [], ◌∷◌, Option, none, some, if◌then◌else◌,
  length, ltb, leb,
}
use printer_repo.Prelude.Text.{Text, text, text_eq, trim}
use printer_repo.Payload.{PayloadType, ByteProtocol, PrintJobPayload}
use printer_repo.Payload.Validation.{Issue, validate_print_job_payload}
use printer_repo.Printer.Virtual.{PrinterLike, is_virtual_printer_record}
use printer_repo.Printer.Routing.{
  PayloadSpec, Target, Mismatch, Verdict, ok, mismatch, validate_payload_for_printer,
}
use printer_repo.Printer.Availability.{AgentState, equals, is_agent_available_for_job}
use printer_repo.Job.Row.{Clock, Job, Fleet, Table}
use printer_repo.Job.Insert.{NewJob}
use printer_repo.Admission.{
  AdmissionError, Store, Admitted, created, reused, rejected, insert_queued_job_atomically,
}
use printer_repo.Socket.{AgentSocket, Meanwhile, claim_and_push_job_to_agent}
unfoldable pub use printer_repo.Submit.Records.*

abbrev pub is_empty : Text → Bool
is_empty [] = true
is_empty (c ∷ t) = false

unfoldable pub find_printer : Text → Text → List PrinterRecord → Option PrinterRecord
find_printer id tenant_id [] = none
find_printer id tenant_id (p ∷ ps) =
    let later = find_printer id tenant_id ps in
    if text_eq p.id id && text_eq p.tenant_id tenant_id then some p else later

unfoldable pub find_owner : Text → Text → List AgentRecord → Option AgentRecord
find_owner id tenant_id [] = none
find_owner id tenant_id (a ∷ as') =
    let later = find_owner id tenant_id as' in
    if text_eq a.id id && text_eq a.tenant_id tenant_id then some a else later

abbrev pub kind_name : PayloadType → Text
kind_name PayloadType.raw = text "raw"
kind_name PayloadType.escpos = text "escpos"
kind_name PayloadType.pdf = text "pdf"
kind_name PayloadType.image = text "image"

abbrev pub protocol_name : Option ByteProtocol → Option Text
protocol_name none = none
protocol_name (some ByteProtocol.escpos) = some (text "escpos")
protocol_name (some ByteProtocol.zpl) = some (text "zpl")
protocol_name (some ByteProtocol.tspl) = some (text "tspl")
protocol_name (some ByteProtocol.raw) = some (text "raw")

-- `validatePayloadForPrinter(validatedPayload, …)`
abbrev pub route : PrintJobPayload → PrinterRecord → Verdict
route payload p =
    validate_payload_for_printer
      (some (record {
        kind = some (kind_name payload.kind);
        protocol = protocol_name payload.protocol;
      }))
      (record {
        protocol = p.identity.protocol;
        connection_type = p.identity.connection_type;
        supported_protocols = p.supported_protocols;
      })

-- The tests on the printer, then on its agent.
unfoldable pub printer_refusal : PrinterRecord → Option SubmitError
printer_refusal p =
    if not (text_eq p.lifecycle (text "active"))
    then some (printer_inactive p.lifecycle)
    else if is_virtual_printer_record (some p.identity)
    then some printer_virtual
    else if not (text_eq p.status (text "online"))
    then some printer_offline
    else none

abbrev by_issue : Option Issue → Option SubmitError
by_issue none = none
by_issue (some issue) = some (invalid_payload issue)

abbrev by_verdict : Verdict → Option SubmitError
by_verdict ok = none
by_verdict (mismatch reason) = some (unsupported reason)

abbrev pub first_refusal : Option SubmitError → Option SubmitError → Option SubmitError
first_refusal none later = later
first_refusal (some e) later = some e

unfoldable pub payload_refusal : Surroundings → PrintJobPayload → PrinterRecord → Option SubmitError
unfolding validate_print_job_payload
payload_refusal env payload p =
    first_refusal (by_issue (validate_print_job_payload env.decode env.encode payload))
      (by_verdict (route payload p))

unfoldable pub agent_refusal : Surroundings → AgentRecord → ℕ → Option SubmitError
agent_refusal env a now =
    if not (equals a.state.lifecycle (text "active"))
    then some (agent_inactive a.state.lifecycle)
    else if not (is_agent_available_for_job env.threshold a.state now)
    then some agent_stale
    else none

-- `options.expiresAt ?? …`: an hour from now.
abbrev pub expiry : Option ℕ → ℕ → ℕ
expiry none now = now + 3_600_000
expiry (some time) now = time

unfoldable pub request_refusal : Submission → ℕ → Option SubmitError
request_refusal s now =
    if is_empty (trim s.tenant_id)
    then some tenant_required
    else if leb (expiry s.expires_at now) now
    then some expired_already
    else none

abbrev pub new_job : Surroundings → Submission → PrinterRecord → AgentRecord → ℕ → NewJob
new_job env s p a now = record {
  id = env.new_id;
  tenant_id = s.tenant_id;
  agent_id = a.id;
  printer_id = p.id;
  api_key_id = s.api_key_id;
  document_type = s.document_type;
  destination = s.destination;
  idempotency_key = s.idempotency_key;
  request_id = s.request_id;
  requested_by = trim s.requested_by;
  payload = s.payload;
  expires_at = expiry s.expires_at now;
}

-- `claimAndPushJobToAgent`, whose outcome is only logged.
abbrev pub push : Surroundings → (job_id agent_id : Text) → Table → Table
push env job_id agent_id jobs =
    (claim_and_push_job_to_agent env.fleet env.lockable (env.sockets agent_id) job_id agent_id
      env.claim_clock env.evidence_clock env.release_clock env.token env.after_claim
      env.after_evidence (env.before_push jobs)).0

abbrev pub after_admission :
    Surroundings → PrinterRecord → AgentRecord → Store × Admitted → Store × Submitted
after_admission env p a (store, created id) =
    (record store { jobs = push env id a.id store.jobs }, queued_job id p.id a.id)
after_admission env p a (store, reused j) = (store, earlier_job j)
after_admission env p a (store, rejected e) = (store, failed_with (not_admitted e))

abbrev pub admit_or :
    Surroundings
    → Submission
    → Clock
    → Store
    → PrinterRecord
    → AgentRecord
    → Option SubmitError
    → Store × Submitted
admit_or env s clock store p a (some e) = (store, failed_with e)
admit_or env s clock store p a none =
    after_admission env p a
      (insert_queued_job_atomically store (new_job env s p a clock.app_now) clock)

unfoldable pub with_owner :
    Surroundings
    → Submission
    → Clock
    → Store
    → PrinterRecord
    → Option AgentRecord
    → Store × Submitted
unfolding agent_refusal request_refusal
with_owner env s clock store p none = (store, failed_with agent_not_found)
with_owner env s clock store p (some a) =
    admit_or env s clock store p a
      (first_refusal (agent_refusal env a clock.app_now) (request_refusal s clock.app_now))

abbrev pub own_or :
    Surroundings
    → Submission
    → Clock
    → Inventory
    → Store
    → PrinterRecord
    → Option SubmitError
    → Store × Submitted
own_or env s clock inventory store p (some e) = (store, failed_with e)
own_or env s clock inventory store p none =
    with_owner env s clock store p (find_owner p.agent_id s.tenant_id inventory.agents)

unfoldable pub with_printer :
    Surroundings → Submission → Clock → Inventory → Store → Option PrinterRecord → Store × Submitted
unfolding printer_refusal payload_refusal find_owner with_owner
with_printer env s clock inventory store none = (store, failed_with printer_not_found)
with_printer env s clock inventory store (some p) =
    own_or env s clock inventory store p
      (first_refusal (printer_refusal p) (payload_refusal env s.payload p))

-- `normalizeRequestedBy`
abbrev pub is_valid_requester : Text → Bool
is_valid_requester value = not (is_empty (trim value)) && leb (length (trim value)) 100

unfoldable pub create_print_job_for_printer :
    Surroundings → Submission → Clock → Inventory → Store → Store × Submitted
unfolding find_printer with_printer
create_print_job_for_printer env s clock inventory store =
    if is_empty (trim s.printer_id)
    then (store, failed_with printer_id_required)
    else if not (is_valid_requester s.requested_by)
    then (store, failed_with requested_by_invalid)
    else with_printer env s clock inventory store
        (find_printer (trim s.printer_id) s.tenant_id inventory.printers)
