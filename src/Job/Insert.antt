-- ===== src/Job/Insert.antt =====
-- The row that `insertQueuedJobAtomically` of src/lib/print-job-service.ts inserts, with the column
-- defaults of src/db/schema.ts, and the insert under the primary key.
use printer_repo.Prelude.{ℕ, Bool, ◌&&◌, ◌||◌, ◌∷◌, Option, none, any, is_some, if◌then◌else◌}
use printer_repo.Prelude.Text.{Text, text_eq, not_distinct}
use printer_repo.Payload.{PrintJobPayload}
use printer_repo.Job.Status.{queued}
use printer_repo.Job.Row.{Clock, Job, Table}

pub record NewJob : Type 0 where
  pub id : Text
  pub tenant_id : Text
  pub agent_id : Text
  pub printer_id : Text
  pub api_key_id : Option Text
  pub document_type : Option Text
  pub destination : Option Text
  pub idempotency_key : Option Text
  pub request_id : Option Text
  pub requested_by : Text
  pub payload : PrintJobPayload
  pub expires_at : ℕ

unfoldable pub queued_row : NewJob → Clock → Job
queued_row n clock = record {
  id = n.id;
  tenant_id = n.tenant_id;
  agent_id = n.agent_id;
  printer_id = n.printer_id;
  api_key_id = n.api_key_id;
  document_type = n.document_type;
  destination = n.destination;
  idempotency_key = n.idempotency_key;
  request_id = n.request_id;
  requested_by = n.requested_by;
  payload = n.payload;
  status = queued;
  error = none;
  created_at = clock.db_now;
  expires_at = n.expires_at;
  updated_at = clock.db_now;
  claimed_at = none;
  delivered_at = none;
  acked_at = none;
  claim_token = none;
  delivery_attempts = 0;
  retries = 0;
}

-- The unique indexes on the idempotency key: one for the rows of an API key, one for the rows without.
unfoldable pub has_same_key : NewJob → Job → Bool
has_same_key n j =
    is_some n.idempotency_key
    && not_distinct j.idempotency_key n.idempotency_key
    && not_distinct j.api_key_id n.api_key_id

-- A second row of one id is refused by the primary key, and one of the same idempotency key by its
-- index; either fails the transaction.
unfoldable pub insert_job : NewJob → Clock → Table → Table
unfolding queued_row has_same_key
insert_job n clock jobs =
    if any (λ (j : Job). text_eq n.id j.id) jobs || any (has_same_key n) jobs
    then jobs
    else queued_row n clock ∷ jobs
