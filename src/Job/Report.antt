-- ===== src/Job/Report.antt =====
-- PATCH of src/app/api/agent/jobs/route.ts: an agent reports the status of a job.
-- The handler reads the row, decides, and writes in a later statement: other writers may come
-- between. So the decision (`plan_report`) is on the row that was read, and the write is on a table
-- of its own.
pub mod Body
use printer_repo.Prelude.{
  ℕ, ◌+◌, ◌-◌, Bool, true, false, not, ◌&&◌, ◌||◌, [], ◌∷◌, ◌++◌, Option, none, some, if◌then◌else◌,
  any, filter, length, take, leb, ◌==◌, or_else, is_some,
}
use printer_repo.Prelude.Text.{Text, text, text_eq, trim, not_distinct}
use printer_repo.Job.Status.{
  Status, queued, claimed, printing, success, failed, expired, Value, str, other, ◌is◌,
  PhysicalOutcome, not_printed, parse_status, derive_physical_outcome, can_transition,
  is_late_success_allowed, is_expired_late_success_allowed, agent_requeue_reasons,
  printed_post_expiration_marker,
}
use printer_repo.Job.Row.{Clock, Job, Table, Statement, execute, fenced_job_write}
use printer_repo.Job.Delivery.{first}
unfoldable pub use printer_repo.Job.Report.Body.*

-- What the handler does after its checks: answer, or run a statement and answer by its outcome.
-- A miss is answered with the status of the row that won, except by the expiry branch.
pub data Plan : Type 0 where
  refuse : Reply → Plan
  submit : Statement → (hit : Reply) → (miss : Option Reply) → Plan

abbrev pub expired_during_report : Text
expired_during_report = text "JOB_EXPIRED_DURING_PRINT: physical output is unknown"

abbrev pub expired_undelivered_report : Text
expired_undelivered_report =
    text "UNKNOWN_PARTIAL_DELIVERY: job expired after delivery without an execution report"

unfoldable pub expiry_error : Job → Option Text
expiry_error seen =
    if seen.status is printing
    then some expired_during_report
    else if seen.status is claimed && (is_some seen.delivered_at || is_some seen.acked_at)
    then some expired_undelivered_report
    else none

unfoldable pub agent_expire_statement : Reporter → Text → Option Text → Clock → Job → Statement
unfolding fenced_job_write expiry_error
agent_expire_statement agent job_id claim_token clock seen = record {
  matches = λ j.
      fenced_job_write job_id agent.id seen.status claim_token j && leb j.expires_at clock.db_now;
  set_row = λ j. record j {
    status = expired;
    error = expiry_error seen;
    updated_at = clock.app_now;
    delivered_at =
        if any (λ s. j.status is s) (claimed ∷ printing ∷ [])
        then some (or_else j.delivered_at clock.db_now)
        else j.delivered_at;
  };
}

unfoldable pub plan_expire : Reporter → Text → Option Text → Clock → Job → Plan
unfolding agent_expire_statement
plan_expire agent job_id claim_token clock seen =
    submit (agent_expire_statement agent job_id claim_token clock seen)
      (accepted expired (derive_physical_outcome expired (expiry_error seen)))
      (some not_expired_or_stale)

-- Written on rows that the fence finds `claimed`.
unfoldable pub reject_statement : Reporter → Text → Option Text → Text → Clock → Statement
unfolding fenced_job_write
reject_statement agent job_id claim_token reason clock = record {
  matches = fenced_job_write job_id agent.id claimed claim_token;
  set_row = λ j. record j {
    status = queued;
    claim_token = none;
    delivered_at = none;
    acked_at = none;
    claimed_at = none;
    error = some (text "Agent returned job before execution (" ++ (reason ++ text ")"));
    updated_at = clock.app_now;
    delivery_attempts = j.delivery_attempts - 1;
    retries = j.retries + 1;
  };
}

unfoldable pub plan_reject : Reporter → Text → Option Text → Text → Clock → Plan
unfolding reject_statement
plan_reject agent job_id claim_token reason clock =
    if any (λ r. text_eq r reason) agent_requeue_reasons
    then submit (reject_statement agent job_id claim_token reason clock)
        (accepted queued not_printed) none
    else refuse reason_required

abbrev in_brackets : Option Text → Text
in_brackets none = []
in_brackets (some e) = text " (" ++ (e ++ text ")")

unfoldable pub post_expiry_error : Option Text → Text
post_expiry_error error = take max_error_length (
    printed_post_expiration_marker
    ++ (text ": physical print completed after TTL expiry" ++ in_brackets error))

unfoldable pub post_expiration_statement :
    Reporter → Text → Option Text → Option Text → Clock → Statement
unfolding fenced_job_write post_expiry_error
post_expiration_statement agent job_id claim_token error clock = record {
  matches = fenced_job_write job_id agent.id expired claim_token;
  set_row = λ j. record j {
    status = success;
    error = some (post_expiry_error error);
    updated_at = clock.app_now;
    delivered_at = some (or_else j.delivered_at clock.db_now);
  };
}

unfoldable pub plan_post_expiration :
    Reporter → Text → Option Text → Option Text → Clock → Job → Plan
unfolding post_expiration_statement
plan_post_expiration agent job_id claim_token error clock seen =
    if is_expired_late_success_allowed seen.status seen.expires_at clock.app_now
    then submit (post_expiration_statement agent job_id claim_token error clock)
        (accepted_post_expiration
          (derive_physical_outcome success (some (post_expiry_error error))))
        none
    else refuse outside_grace_window

unfoldable pub report_statement :
    Reporter → Text → Option Text → Status → Status → Option Text → Clock → Statement
unfolding fenced_job_write
report_statement agent job_id claim_token from to next_error clock = record {
  matches = fenced_job_write job_id agent.id from claim_token;
  set_row = λ j. record j {
    status = to;
    error = next_error;
    updated_at = clock.app_now;
    delivered_at = some (or_else j.delivered_at clock.db_now);
  };
}

unfoldable pub late_success_error : Job → Text
late_success_error seen =
    text "LATE_SUCCESS: " ++ or_else seen.error (text "AGENT_EXECUTION_TIMEOUT")

abbrev pub transition :
    Reporter → Text → Option Text → Status → Bool → Option Text → Clock → Job → Plan
transition agent job_id claim_token to late next_error clock seen =
    if can_transition seen.status to late
    then submit (report_statement agent job_id claim_token seen.status to next_error clock)
        (accepted to (derive_physical_outcome to next_error)) none
    else refuse (invalid_transition seen.status to)

-- The end of the handler: the late success of a failed job, or the general transition.
unfoldable pub plan_transition :
    Reporter → Text → Option Text → Status → Option Text → Clock → Job → Plan
unfolding report_statement late_success_error
plan_transition agent job_id claim_token to error clock seen =
    if seen.status is failed && to is success
    then (if is_late_success_allowed seen.status seen.error seen.updated_at clock.app_now
        then transition agent job_id claim_token to true (some (late_success_error seen)) clock seen
        else refuse late_success_refused)
    else transition agent job_id claim_token to false error clock seen

-- `job.claimToken && claimToken !== job.claimToken`
unfoldable pub is_superseded : Option Text → Job → Bool
is_superseded claim_token seen =
    is_some seen.claim_token
    && not (not_distinct seen.claim_token (some []))
    && not (not_distinct seen.claim_token claim_token)

-- The handler's branches, on the row that it read.
unfoldable pub plan_report :
    Reporter → Text → Status → Option Text → Text → Option Text → Clock → Job → Plan
unfolding plan_expire plan_reject plan_post_expiration plan_transition is_superseded
plan_report agent job_id to error reason claim_token clock seen =
    if not (to is expired) && is_superseded claim_token seen
    then refuse (stale_claim seen.status)
    else if to is expired
    then plan_expire agent job_id claim_token clock seen
    else if to is queued && seen.status is claimed
    then plan_reject agent job_id claim_token reason clock
    else if seen.status is expired && to is success
    then plan_post_expiration agent job_id claim_token error clock seen
    else plan_transition agent job_id claim_token to error clock seen

-- `findFirst` on id, tenant and agent.
unfoldable pub find_own : Reporter → Text → Table → Option Job
find_own agent job_id jobs = first (
    filter
      (λ (j : Job).
        text_eq j.id job_id && text_eq j.tenant_id agent.tenant_id && text_eq j.agent_id agent.id)
      jobs)

abbrev status_of : Option Job → Option Status
status_of none = none
status_of (some j) = some j.status

abbrev missed : Option Reply → Option Job → Reply
missed (some reply) winner = reply
missed none winner = concurrent_transition (status_of winner)

-- `later` is the table at the time of the write.
unfoldable pub carry_out : Reporter → Text → Plan → Table → Table × Reply
unfolding execute find_own
carry_out agent job_id (refuse reply) later = (later, reply)
carry_out agent job_id (submit statement hit miss) later =
    let (jobs, rows) = execute statement later in
    (jobs, if length rows == 1 then hit else missed miss (find_own agent job_id jobs))

unfoldable pub plan_seen :
    Reporter → Text → Status → Option Text → Text → Option Text → Clock → Option Job → Plan
plan_seen agent job_id to error reason claim_token clock none = refuse job_not_found
plan_seen agent job_id to error reason claim_token clock (some seen) =
    plan_report agent job_id to error reason claim_token clock seen

abbrev pub report_as :
    Reporter → Option Text → Option Status → ReportBody → Clock → Table → Table → Table × Reply
report_as agent none to body clock earlier later = (later, job_id_required)
report_as agent (some job_id) none body clock earlier later = (later, invalid_status)
report_as agent (some job_id) (some to) body clock earlier later =
    carry_out agent job_id
      (plan_seen agent job_id to (parse_error body.error) (parse_reason body.reason)
        (parse_token body.claim_token) clock (find_own agent job_id earlier))
      later

-- The handler after authentication and the body limit: the row is read in `earlier`, the statement
-- runs on `later`.
unfoldable pub report_status : Reporter → ReportBody → Clock → Table → Table → Table × Reply
unfolding parse_job_id parse_status plan_seen plan_report carry_out find_own
report_status agent body clock earlier later =
    report_as agent (parse_job_id body.job_id) (parse_status body.status) body clock earlier later
