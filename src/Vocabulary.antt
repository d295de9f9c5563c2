-- ===== src/Vocabulary.antt =====
-- src/shared/job-vocabulary.ts: the words and colours that operators see for a job, a printer or an
-- agent. Desktop is src/desktop/lib/printers.ts.
pub mod Desktop
pub mod Laws
mod Tests
use printer_repo.Prelude.{
  ℕ, ◌+◌, ◌*◌, Bool, true, false, not, ◌&&◌, ◌||◌, List, [], ◌∷◌, Option, none, some, if◌then◌else◌,
  any, leb, or_else,
}
use printer_repo.Prelude.Text.{Text, text, text_eq, starts_with, to_lower}

pub data Tone : Type 0 where
  ok bad warn info neutral : Tone

abbrev pub unknown_outcome_markers : List Text
unknown_outcome_markers =
    text "AGENT_EXECUTION_TIMEOUT"
    ∷ text "AGENT_RESTART_DURING_PRINT"
    ∷ text "JOB_EXPIRED_DURING_PRINT"
    ∷ text "UNKNOWN_PARTIAL_DELIVERY"
    ∷ text "UNKNOWN_SUBMISSION_OUTCOME"
    ∷ []

pub data Outcome : Type 0 where
  printed not_printed unknown unproven : Outcome

-- `deriveOutcome`
unfoldable pub derive_outcome : Text → Option Text → Outcome
derive_outcome status error =
    if text_eq status (text "success")
    then printed
    else if any (λ marker. starts_with (or_else error []) marker) unknown_outcome_markers
    then unknown
    else if text_eq status (text "claimed") || text_eq status (text "printing")
    then unproven
    else not_printed

abbrev pub is_unknown : Option Outcome → Bool
is_unknown (some unknown) = true
is_unknown _ = false

-- `jobTone`
unfoldable pub job_tone : Text → Option Outcome → Tone
job_tone status outcome =
    let s = to_lower status in
    if is_unknown outcome
    then warn
    else if text_eq s (text "success")
    then ok
    else if text_eq s (text "failed") || text_eq s (text "expired")
    then bad
    else if text_eq s (text "printing") || text_eq s (text "claimed")
    then info
    else neutral

-- `jobLabel`
unfoldable pub job_label : Text → Option Outcome → Text
job_label status outcome =
    let s = to_lower status in
    if text_eq s (text "queued")
    then text "Queued at Gateway"
    else if text_eq s (text "claimed")
    then text "Sent to agent"
    else if text_eq s (text "printing")
    then text "Printing"
    else if text_eq s (text "success")
    then text "Printed"
    else if text_eq s (text "failed")
    then (if is_unknown outcome then text "Unknown outcome" else text "Failed (not printed)")
    else if text_eq s (text "expired")
    then (if is_unknown outcome then text "Unknown outcome" else text "Expired (never claimed)")
    else status

-- The sentences of `jobGuidance`.
pub data Guidance : Type 0 where
  fully_transmitted status_unknown never_claimed failed_before_start waiting : Guidance
  about_to_print receiving empty : Guidance

-- `jobGuidance`
unfoldable pub job_guidance : Text → Outcome → Guidance
job_guidance status outcome =
    if text_eq status (text "success")
    then fully_transmitted
    else if is_unknown (some outcome)
    then status_unknown
    else if text_eq status (text "expired")
    then never_claimed
    else if text_eq status (text "failed")
    then failed_before_start
    else if text_eq status (text "queued")
    then waiting
    else if text_eq status (text "claimed")
    then about_to_print
    else if text_eq status (text "printing")
    then receiving
    else empty

-- `printerTone`
unfoldable pub printer_tone : Text → Tone
printer_tone status =
    if text_eq status (text "online")
    then ok
    else if text_eq status (text "busy")
    then warn
    else if text_eq status (text "error") || text_eq status (text "offline")
    then bad
    else neutral

-- `printerLabel`
unfoldable pub printer_label : Text → Text
printer_label status =
    if text_eq status (text "online")
    then text "Online"
    else if text_eq status (text "offline")
    then text "Offline"
    else if text_eq status (text "busy")
    then text "Busy"
    else if text_eq status (text "error")
    then text "Error - check printer"
    else text "Status unknown"

unfoldable pub agent_service_label : Bool → Text
agent_service_label running = if running then text "Running" else text "Stopped"

unfoldable pub agent_gateway_label : Bool → Text
agent_gateway_label connected =
    if connected then text "Connected to Gateway" else text "Disconnected from Gateway"

abbrev pub agent_heartbeat_stale_seconds : ℕ
agent_heartbeat_stale_seconds = 90

-- What the views read of an agent; `last_seen_at` is `none` where it is missing or no time. A missing
-- time counts as 1970, and one that is no time as not fresh.
pub record AgentInfo : Type 0 where
  pub status : Option Text
  pub last_seen_at : Option ℕ
  pub lifecycle : Option Text

pub record LiveView : Type 0 where
  pub tone : Tone
  pub label : Text

abbrev pub equals : Option Text → Text → Bool
equals none t = false
equals (some s) t = text_eq s t

-- `value && value !== "active"`
abbrev pub is_set_aside : Option Text → Bool
is_set_aside none = false
is_set_aside (some []) = false
is_set_aside (some (c ∷ t)) = not (text_eq (c ∷ t) (text "active"))

-- `agentLiveView`; `now` is later than 90 seconds after 1970.
unfoldable pub agent_live_view : AgentInfo → ℕ → LiveView
agent_live_view agent now =
    let fresh = leb now (or_else agent.last_seen_at 0 + agent_heartbeat_stale_seconds * 1000) in
    if is_set_aside agent.lifecycle
    then record {
      tone = neutral;
      label = if equals agent.lifecycle (text "retired") then text "Retired" else text "Disabled";
    }
    else if equals agent.status (text "online") && not fresh
    then record { tone = warn; label = text "Online (heartbeat lost)" }
    else if equals agent.status (text "online")
    then record { tone = ok; label = text "Online" }
    else record { tone = bad; label = text "Offline" }

abbrev pub is_ok : Tone → Bool
is_ok ok = true
is_ok _ = false

pub record PrinterView : Type 0 where
  pub status : Option Text
  pub lifecycle : Option Text

abbrev reported : Option Text → Text
reported none = text "offline"
reported (some []) = text "offline"
reported (some (c ∷ s)) =
    if text_eq (to_lower (c ∷ s)) (text "online") then text "online" else c ∷ s

abbrev pub through_agent : Option AgentInfo → ℕ → Option Text → Text
through_agent none now status = text "offline"
through_agent (some agent) now status =
    if is_ok (agent_live_view agent now).tone then reported status else text "offline"

-- `effectivePrinterStatus`
unfoldable pub effective_printer_status : PrinterView → Option AgentInfo → ℕ → Text
effective_printer_status printer agent now =
    if is_set_aside printer.lifecycle
    then or_else printer.lifecycle []
    else through_agent agent now printer.status
