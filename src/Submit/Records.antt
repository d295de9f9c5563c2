-- ===== src/Submit/Records.antt =====
-- What `createPrintJobForPrinter` of src/lib/print-job-service.ts reads and answers.
use printer_repo.Prelude.{ℕ, Bool, List, Option}
use printer_repo.Prelude.Text.{Text}
use printer_repo.Payload.{PrintJobPayload}
use printer_repo.Payload.Validation.{Issue}
use printer_repo.Printer.Virtual.{PrinterLike}
use printer_repo.Printer.Routing.{Mismatch}
use printer_repo.Printer.Availability.{AgentState}
use printer_repo.Job.Row.{Clock, Job, Fleet}
use printer_repo.Admission.{AdmissionError}
use printer_repo.Socket.{AgentSocket, Meanwhile}

-- The columns of `printers` that are read. `supported_protocols` is the list in the capabilities,
-- each value as a text.
pub record PrinterRecord : Type 0 where
  pub id : Text
  pub tenant_id : Text
  pub agent_id : Text
  pub lifecycle : Text
  pub status : Text
  pub identity : PrinterLike
  pub supported_protocols : Option (List Text)

pub record AgentRecord : Type 0 where
  pub id : Text
  pub tenant_id : Text
  pub state : AgentState

pub record Inventory : Type 0 where
  pub printers : List PrinterRecord
  pub agents : List AgentRecord

-- What the server reads of its surroundings: base64, the setting of the staleness threshold, the id
-- that is drawn, and what a push meets.
pub record Surroundings : Type 0 where
  pub decode : Text → List ℕ
  pub encode : List ℕ → Text
  pub threshold : Option ℕ
  pub new_id : Text
  pub fleet : Fleet
  pub lockable : Job → Bool
  pub sockets : Text → List AgentSocket
  pub claim_clock : Clock
  pub evidence_clock : Clock
  pub release_clock : Clock
  pub token : Text
  pub before_push : Meanwhile
  pub after_claim : Meanwhile
  pub after_evidence : Meanwhile

-- `CreatePrintJobOptions`, with the printer and the payload.
pub record Submission : Type 0 where
  pub printer_id : Text
  pub payload : PrintJobPayload
  pub requested_by : Text
  pub idempotency_key : Option Text
  pub tenant_id : Text
  pub destination : Option Text
  pub document_type : Option Text
  pub expires_at : Option ℕ
  pub api_key_id : Option Text
  pub request_id : Option Text

pub data SubmitError : Type 0 where
  printer_id_required requested_by_invalid printer_not_found printer_virtual : SubmitError
  printer_inactive : Text → SubmitError
  printer_offline agent_not_found agent_stale tenant_required expired_already : SubmitError
  invalid_payload : Issue → SubmitError
  unsupported : Mismatch → SubmitError
  agent_inactive : Option Text → SubmitError
  not_admitted : AdmissionError → SubmitError

pub data Submitted : Type 0 where
  queued_job : (id printer_id agent_id : Text) → Submitted
  earlier_job : Job → Submitted
  failed_with : SubmitError → Submitted
