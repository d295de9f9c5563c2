-- ===== src/Printer/Availability.antt =====
-- src/lib/agent-availability.ts, and the availability tests of src/lib/routing.ts. Lifecycles and
-- states are texts here, as the functions take them.
use printer_repo.Prelude.{
  ℕ, ◌-◌, ◌*◌, ◌/◌, Bool, true, false, not, ◌&&◌, ◌||◌, [], ◌∷◌, Option, none, some, if◌then◌else◌,
  ltb, or_else,
}
use printer_repo.Prelude.Text.{Text, text, text_eq, to_lower, trim}

abbrev pub default_agent_stale_threshold_seconds : ℕ
default_agent_stale_threshold_seconds = 90

-- The setting STALE_AGENT_THRESHOLD_SECONDS in thousandths of a second, or `none` if it is no finite
-- number or is negative.
unfoldable pub agent_stale_threshold_seconds : Option ℕ → ℕ
agent_stale_threshold_seconds none = default_agent_stale_threshold_seconds
agent_stale_threshold_seconds (some raw) =
    if ltb raw 10_000 || ltb 3_600_000 raw
    then default_agent_stale_threshold_seconds
    else raw / 1000

-- `lastSeenAt` is `none` where it is missing or no time.
pub record AgentState : Type 0 where
  pub lifecycle : Option Text
  pub status : Option Text
  pub last_seen_at : Option ℕ

pub data Reason : Type 0 where
  active_online_fresh inactive_lifecycle offline stale missing_heartbeat : Reason

abbrev pub equals : Option Text → Text → Bool
equals none t = false
equals (some s) t = text_eq s t

abbrev pub by_heartbeat : ℕ → ℕ → Option ℕ → Reason
by_heartbeat threshold now none = missing_heartbeat
by_heartbeat threshold now (some seen) =
    if ltb now seen || ltb (threshold * 1000) (now - seen) then stale else active_online_fresh

-- The reason; the agent is available for `active_online_fresh` alone.
unfoldable pub get_agent_availability : Option ℕ → AgentState → ℕ → Reason
unfolding agent_stale_threshold_seconds
get_agent_availability setting agent now =
    if not (equals agent.lifecycle (text "active"))
    then inactive_lifecycle
    else if not (equals agent.status (text "online"))
    then offline
    else by_heartbeat (agent_stale_threshold_seconds setting) now agent.last_seen_at

abbrev pub is_fresh : Reason → Bool
is_fresh active_online_fresh = true
is_fresh _ = false

unfoldable pub is_agent_available_for_job : Option ℕ → AgentState → ℕ → Bool
unfolding get_agent_availability
is_agent_available_for_job setting agent now = is_fresh (get_agent_availability setting agent now)

pub record PrinterState : Type 0 where
  pub lifecycle : Option Text
  pub status : Option Text

-- `rawStatus` is passed on where it is none of the known words.
pub data Effective : Type 0 where
  online offline disabled retired unknown : Effective
  reported : Text → Effective

abbrev by_status : Text → Effective
by_status [] = unknown
by_status (c ∷ s) =
    if text_eq (c ∷ s) (text "online")
    then online
    else if text_eq (c ∷ s) (text "offline")
    then Effective.offline
    else reported (c ∷ s)

abbrev reachable : Option ℕ → Option AgentState → ℕ → Bool
reachable setting none now = false
reachable setting (some agent) now = is_agent_available_for_job setting agent now

unfoldable pub get_effective_printer_status :
    Option ℕ → PrinterState → Option AgentState → ℕ → Effective
unfolding is_agent_available_for_job
get_effective_printer_status setting printer agent now =
    if equals printer.lifecycle (text "disabled")
    then disabled
    else if equals printer.lifecycle (text "retired")
    then retired
    else if not (equals printer.lifecycle (text "active"))
    then Effective.offline
    else if not (reachable setting agent now)
    then Effective.offline
    else by_status (trim (to_lower (or_else printer.status [])))

-- `isPrinterAvailableForJob`. The agent may be left out of the call, or be null.
pub data Owner : Type 0 where
  not_asked absent : Owner
  owner : AgentState → Owner

abbrev owner_ok : Option ℕ → Owner → ℕ → Bool
owner_ok setting not_asked now = true
owner_ok setting absent now = false
owner_ok setting (owner agent) now =
    equals agent.lifecycle (text "active") && is_agent_available_for_job setting agent now

unfoldable pub is_printer_available_for_job :
    Option ℕ → (is_virtual : Bool) → PrinterState → Owner → ℕ → Bool
unfolding is_agent_available_for_job
is_printer_available_for_job setting is_virtual printer agent now =
    equals printer.lifecycle (text "active")
    && not is_virtual
    && owner_ok setting agent now
    && equals printer.status (text "online")
