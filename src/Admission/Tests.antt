-- ===== src/Admission/Tests.antt =====
-- A job is admitted under an API key and an idempotency key, and the request is repeated.
use printer_repo.Prelude.{◌≡◌, ◌≤◌, ◌+◌, ◌*◌, refl, ℕ, [], none, some, arith}
use printer_repo.Prelude.Text.{text, text_eq, not_distinct}
use printer_repo.Payload.{PayloadType}
use printer_repo.Job.Row.{Clock, Job}
use printer_repo.Job.Insert.{NewJob, queued_row}
use printer_repo.Admission.{
  Store, RateRow, reused, insert_queued_job_atomically, admit_new, enforce_tenant_job_entitlements,
  get_tenant_entitlement_limit, check_agent_load, charge, charge_key, next_window, find_by_key,
}
use printer_repo.Admission.Laws.{admission_replay, retry_overstates}

abbrev at : ℕ → Clock
at t = record { db_now = t; app_now = t }

abbrev request : NewJob
request = record {
  id = text "j1";
  tenant_id = text "t";
  agent_id = text "a";
  printer_id = text "p";
  api_key_id = some (text "key");
  document_type = some (text "Label");
  destination = none;
  idempotency_key = some (text "order-7");
  request_id = none;
  requested_by = text "u";
  payload = record {
    kind = PayloadType.raw;
    protocol = none;
    peripherals = none;
    content = text "QQ==";
  };
  expires_at = 900_000;
}

abbrev empty_store : Store
empty_store = record { jobs = []; subscriptions = []; limits = [] }

admission_replay_example :
    insert_queued_job_atomically
      (insert_queued_job_atomically empty_store request (at 5)).0
      (record request { id = text "j2" })
      (at 700)
    ≡ (
      (insert_queued_job_atomically empty_store request (at 5)).0,
      reused (queued_row request (at 5)),
    )
unfolding insert_queued_job_atomically admit_new enforce_tenant_job_entitlements
    get_tenant_entitlement_limit check_agent_load charge charge_key find_by_key text text_eq
    not_distinct
admission_replay_example =
    admission_replay empty_store request (at 5) (at 700) (text "j2") (text "order-7") refl refl refl
      refl

abbrev busy : RateRow
busy = record {
  api_key_id = text "key";
  minute_started = 1000;
  minute_count = 60;
  hour_started = 1000;
  hour_count = 60;
}

retry_overstates_example :
    (1000 + 3_600_000 ≤ 2000 + 3599 * 1000) × ((next_window busy (2000 + 60_000)).1 ≡ none)
unfolding next_window
retry_overstates_example =
    retry_overstates busy 2000 3599 refl (ground arith) (ground arith) (ground arith)
