-- ===== src/Job/Row.antt =====
-- The tables of src/db/schema.ts that the queue reads, one SQL `UPDATE`, and the fencing predicates
-- of src/lib/job-fencing.ts. Times are milliseconds since the epoch.
use printer_repo.Prelude.{
  ℕ, Bool, true, false, ◌&&◌, List, [], Option, none, some, if◌then◌else◌, any, filter, map,
}
use printer_repo.Prelude.Text.{Text, text_eq, not_distinct}
use printer_repo.Payload.{PrintJobPayload}
use printer_repo.Job.Status.{Status, ◌is◌}

-- The database's `now()` and the server process's `Date.now()`.
pub record Clock : Type 0 where
  pub db_now : ℕ
  pub app_now : ℕ

pub data Lifecycle : Type 0 where
  active disabled retired : Lifecycle

abbrev pub is_active : Lifecycle → Bool
is_active active = true
is_active _ = false

pub record Job : Type 0 where
  pub id : Text
  pub tenant_id : Text
  pub agent_id : Text
  pub printer_id : Text
  pub api_key_id : Option Text
  pub document_type : Option Text
  pub destination : Option Text
  pub idempotency_key : Option Text
  pub request_id : Option Text
  pub requested_by : Text
  pub payload : PrintJobPayload
  pub status : Status
  pub error : Option Text
  pub created_at : ℕ
  pub expires_at : ℕ
  pub updated_at : ℕ
  pub claimed_at : Option ℕ
  pub delivered_at : Option ℕ
  pub acked_at : Option ℕ
  pub claim_token : Option Text
  pub delivery_attempts : ℕ
  pub retries : ℕ

-- The columns of an agent and of a printer that the claim paths join on. `online` is the test
-- `status = 'online'`.
pub record AgentRow : Type 0 where
  pub id : Text
  pub tenant_id : Text
  pub lifecycle : Lifecycle
  pub online : Bool

pub record PrinterRow : Type 0 where
  pub id : Text
  pub tenant_id : Text
  pub lifecycle : Lifecycle
  pub online : Bool

pub record Fleet : Type 0 where
  pub agents : List AgentRow
  pub printers : List PrinterRow

abbrev pub Table : Type 0
Table = List Job

-- `UPDATE print_jobs SET … WHERE …`
pub record Statement : Type 0 where
  pub matches : Job → Bool
  pub set_row : Job → Job

abbrev pub write : Statement → Job → Job
write s j = if s.matches j then s.set_row j else j

-- The table after the statement, and the rows of `RETURNING`.
unfoldable pub execute : Statement → Table → Table × Table
execute s jobs = (map (write s) jobs, map s.set_row (filter s.matches jobs))

-- `fencedJobWrite`
unfoldable pub fenced_job_write : Text → Text → Status → Option Text → Job → Bool
fenced_job_write job_id agent_id expected_status claim_token j =
    text_eq j.id job_id
    && text_eq j.agent_id agent_id
    && j.status is expected_status
    && not_distinct j.claim_token claim_token

-- `claimToken ? claim_token = … : claim_token IS NULL`, where the empty text is falsy too.
abbrev pub delivery_token : Option Text → Option Text
delivery_token (some []) = none
delivery_token token = token

-- `fencedDeliveryWrite`
unfoldable pub fenced_delivery_write : Text → Text → Option Text → List Status → Job → Bool
fenced_delivery_write job_id agent_id claim_token statuses j =
    text_eq j.id job_id
    && text_eq j.agent_id agent_id
    && any (λ s. j.status is s) statuses
    && not_distinct j.claim_token (delivery_token claim_token)
