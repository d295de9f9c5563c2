-- ===== src/Job/Report/Body.antt =====
-- The body of PATCH in src/app/api/agent/jobs/route.ts, and its answers.
use printer_repo.Prelude.{ℕ, [], ◌∷◌, Option, none, some, if◌then◌else◌, length, take, leb}
use printer_repo.Prelude.Text.{Text, trim}
use printer_repo.Job.Status.{Status, Value, str, other, PhysicalOutcome}

abbrev pub max_error_length : ℕ
max_error_length = 2000

abbrev pub max_token_length : ℕ
max_token_length = 120

-- The fields of the request's body.
pub record ReportBody : Type 0 where
  pub job_id : Value
  pub status : Value
  pub error : Value
  pub reason : Value
  pub claim_token : Value

-- The authenticated agent.
pub record Reporter : Type 0 where
  pub id : Text
  pub tenant_id : Text

pub data Reply : Type 0 where
  job_id_required invalid_status job_not_found : Reply
  stale_claim : Status → Reply
  not_expired_or_stale : Reply
  reason_required late_success_refused outside_grace_window : Reply
  invalid_transition : Status → Status → Reply
  concurrent_transition : Option Status → Reply
  accepted : Status → PhysicalOutcome → Reply
  accepted_post_expiration : PhysicalOutcome → Reply

unfoldable pub http_status : Reply → ℕ
http_status job_id_required = 400
http_status invalid_status = 400
http_status job_not_found = 404
http_status (accepted s o) = 200
http_status (accepted_post_expiration o) = 200
http_status _ = 409

unfoldable pub parse_error : Value → Option Text
parse_error (str []) = none
parse_error (str (c ∷ s)) = some (take max_error_length (c ∷ s))
parse_error other = none

unfoldable pub parse_reason : Value → Text
parse_reason (str t) = trim t
parse_reason other = []

unfoldable pub parse_token : Value → Option Text
parse_token (str []) = none
parse_token (str (c ∷ s)) = if leb (length (c ∷ s)) max_token_length then some (c ∷ s) else none
parse_token other = none

unfoldable pub parse_job_id : Value → Option Text
parse_job_id (str []) = none
parse_job_id (str (c ∷ s)) = some (c ∷ s)
parse_job_id other = none
