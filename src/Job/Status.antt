-- ===== src/Job/Status.antt =====
-- src/lib/job-status.ts: the vocabulary of the job lifecycle and its transition table.
use printer_repo.Prelude.{
  ℕ, ◌-◌, Bool, true, false, ◌&&◌, List, [], ◌∷◌, Option, none, some, if◌then◌else◌, leb, any,
  or_else,
}
use printer_repo.Prelude.Text.{Text, text, text_eq, starts_with}

pub data Status : Type 0 where
  queued claimed printing success failed expired : Status

pub data PhysicalOutcome : Type 0 where
  not_printed printed unknown : PhysicalOutcome

-- A field of a parsed JSON body, as far as the handlers tell values apart.
pub data Value : Type 0 where
  str : Text → Value
  other : Value

infix 50 ◌is◌
abbrev pub ◌is◌ : Status → Status → Bool
queued is queued = true
claimed is claimed = true
printing is printing = true
success is success = true
failed is failed = true
expired is expired = true
_ is _ = false

-- `JOB_STATUSES`
abbrev pub job_statuses : List (Text × Status)
job_statuses =
    (text "queued", queued)
    ∷ (text "claimed", claimed)
    ∷ (text "printing", printing)
    ∷ (text "success", success)
    ∷ (text "failed", failed)
    ∷ (text "expired", expired)
    ∷ []

find_status : Text → List (Text × Status) → Option Status
find_status t [] = none
find_status t ((name, s) ∷ rest) =
    let later = find_status t rest in if text_eq name t then some s else later

-- `isJobStatus`, with the status that the text names.
unfoldable pub parse_status : Value → Option Status
unfolding find_status
parse_status (str t) = find_status t job_statuses
parse_status other = none

unfoldable pub status_text : Status → Text
status_text queued = text "queued"
status_text claimed = text "claimed"
status_text printing = text "printing"
status_text success = text "success"
status_text failed = text "failed"
status_text expired = text "expired"

abbrev pub physical_outcome_unknown_markers : List Text
physical_outcome_unknown_markers =
    text "AGENT_EXECUTION_TIMEOUT"
    ∷ text "AGENT_RESTART_DURING_PRINT"
    ∷ text "JOB_EXPIRED_DURING_PRINT"
    ∷ text "UNKNOWN_PARTIAL_DELIVERY"
    ∷ text "UNKNOWN_SUBMISSION_OUTCOME"
    ∷ []

abbrev pub has_marker : List Text → Option Text → Bool
has_marker markers error = any (λ marker. starts_with (or_else error []) marker) markers

unfoldable pub derive_physical_outcome : Status → Option Text → PhysicalOutcome
derive_physical_outcome success error = printed
derive_physical_outcome _ error =
    if has_marker physical_outcome_unknown_markers error then unknown else not_printed

unfoldable pub is_terminal : Status → Bool
is_terminal success = true
is_terminal failed = true
is_terminal expired = true
is_terminal _ = false

-- `ALLOWED_TRANSITIONS`
unfoldable pub allowed_transitions : Status → List Status
allowed_transitions claimed = printing ∷ failed ∷ queued ∷ []
allowed_transitions printing = success ∷ failed ∷ []
allowed_transitions _ = []

unfoldable pub can_transition : Status → Status → Bool → Bool
unfolding is_terminal allowed_transitions
can_transition from to allow_late_success =
    if is_terminal from
    then allow_late_success && from is failed && to is success
    else any (λ s. s is to) (allowed_transitions from)

abbrev pub late_success_error_markers : List Text
late_success_error_markers = text "AGENT_EXECUTION_TIMEOUT" ∷ text "AGENT_RESTART_DURING_PRINT" ∷ []

-- 24 hours and 5 minutes, in milliseconds.
abbrev pub late_success_max_age_ms : ℕ
late_success_max_age_ms = 86_400_000

abbrev pub expired_late_success_grace_ms : ℕ
expired_late_success_grace_ms = 300_000

abbrev pub printed_post_expiration_marker : Text
printed_post_expiration_marker = text "PRINTED_POST_EXPIRATION"

unfoldable pub is_late_success_allowed : Status → Option Text → ℕ → ℕ → Bool
is_late_success_allowed status error updated_at now =
    status is failed
    && has_marker late_success_error_markers error
    && leb updated_at now
    && leb (now - updated_at) late_success_max_age_ms

-- A stored expiry is always a finite time: the column is a non-null timestamp.
unfoldable pub is_expired_late_success_allowed : Status → ℕ → ℕ → Bool
is_expired_late_success_allowed status expires_at now =
    status is expired && leb expires_at now && leb (now - expires_at) expired_late_success_grace_ms

abbrev pub agent_requeue_reasons : List Text
agent_requeue_reasons =
    text "pending_full" ∷ text "agent_shutting_down" ∷ text "ledger_unavailable" ∷ []
