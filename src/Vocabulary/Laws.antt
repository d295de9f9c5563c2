-- ===== src/Vocabulary/Laws.antt =====
-- What operators are told agrees with what the server knows.
use printer_repo.Prelude.{
  ℕ, ◌+◌, ◌*◌, ◌≡◌, ◌≤◌, refl, sym, ◌∙◌, Bool, true, false, ◌&&◌, [], Option, none, some, arith,
  any, if◌then◌else◌, or_else, leb,
}
use printer_repo.Prelude.Text.{Text, text, text_eq, starts_with, to_lower}
use printer_repo.Job.Status.{
  Status, claimed, printing, success, queued, failed, expired, status_text, PhysicalOutcome,
  physical_outcome_unknown_markers, has_marker, derive_physical_outcome,
}
use printer_repo.Printer.Availability.{
  equals, agent_stale_threshold_seconds, AgentState, PrinterState, is_agent_available_for_job,
  is_printer_available_for_job, owner,
}
use printer_repo.Printer.Laws.{available_iff, equals_sound}
use printer_repo.Vocabulary.{
  warn, ok, Outcome, derive_outcome, job_tone, job_label, status_unknown, job_guidance, AgentInfo,
  agent_live_view, effective_printer_status, unknown_outcome_markers,
}
use printer_repo.Vocabulary.Desktop.{label_job, tone_job, friendly_printer_error, outcome_unknown}

-- What the clients call the server's outcome: they tell a job that an agent holds apart.
abbrev pub shown : Status → PhysicalOutcome → Outcome
shown status PhysicalOutcome.printed = Outcome.printed
shown status PhysicalOutcome.unknown = Outcome.unknown
shown claimed PhysicalOutcome.not_printed = Outcome.unproven
shown printing PhysicalOutcome.not_printed = Outcome.unproven
shown _ PhysicalOutcome.not_printed = Outcome.not_printed

marked :
    (status : Status) (o : Outcome) (b : Bool)
    → shown status PhysicalOutcome.unknown ≡ Outcome.unknown
    → shown status PhysicalOutcome.not_printed ≡ o
    → (if b then Outcome.unknown else o)
      ≡ shown status (if b then PhysicalOutcome.unknown else PhysicalOutcome.not_printed)
marked status o true u n = sym u
marked status o false u n = sym n

-- The clients derive the outcome of a job as the server does, but that a job which is claimed or
-- printing and has no unknown outcome is unproven to them.
pub outcome_agrees :
    (status : Status) (error : Option Text)
    → derive_outcome (status_text status) error
      ≡ shown status (derive_physical_outcome status error)
unfolding derive_outcome derive_physical_outcome status_text text text_eq
outcome_agrees success error = refl
outcome_agrees queued error =
    marked queued _ (has_marker physical_outcome_unknown_markers error) refl refl
outcome_agrees claimed error =
    marked claimed _ (has_marker physical_outcome_unknown_markers error) refl refl
outcome_agrees printing error =
    marked printing _ (has_marker physical_outcome_unknown_markers error) refl refl
outcome_agrees failed error =
    marked failed _ (has_marker physical_outcome_unknown_markers error) refl refl
outcome_agrees expired error =
    marked expired _ (has_marker physical_outcome_unknown_markers error) refl refl

unknown_derived :
    (status : Status) (error : Option Text)
    → derive_physical_outcome status error ≡ PhysicalOutcome.unknown
    → derive_outcome (status_text status) error ≡ Outcome.unknown
unknown_derived status error h =
    outcome_agrees status error ∙ unknown_shown status (derive_physical_outcome status error) h
  where
    unknown_shown :
        (s : Status) (o : PhysicalOutcome)
        → o ≡ PhysicalOutcome.unknown
        → shown s o ≡ Outcome.unknown
    unknown_shown s o e = rw e refl

-- The label of a job of unknown outcome.
abbrev pub cautious_label : Status → Text
cautious_label success = text "Printed"
cautious_label queued = text "Queued at Gateway"
cautious_label claimed = text "Sent to agent"
cautious_label printing = text "Printing"
cautious_label failed = text "Unknown outcome"
cautious_label expired = text "Unknown outcome"

-- The words for a job that may or may not have been printed.
abbrev pub IsCautious : Status → Option Text → Type 0
IsCautious status error =
    (tone_job (status_text status) error ≡ warn)
    × (label_job (status_text status) error ≡ cautious_label status)
    × (job_guidance (status_text status) (derive_outcome (status_text status) error)
        ≡ status_unknown)

blank_error :
    (status : Text) (error : Option Text)
    → derive_outcome status (some (or_else error [])) ≡ derive_outcome status error
unfolding derive_outcome
blank_error status none = refl
blank_error status (some e) = refl

tone_unknown : (status : Text) → job_tone status (some Outcome.unknown) ≡ warn
unfolding job_tone
tone_unknown status = refl

label_unknown :
    (status : Status)
    → job_label (status_text status) (some Outcome.unknown) ≡ cautious_label status
unfolding job_label status_text text text_eq to_lower
label_unknown success = refl
label_unknown queued = refl
label_unknown claimed = refl
label_unknown printing = refl
label_unknown failed = refl
label_unknown expired = refl

success_printed :
    (error : Option Text) → derive_outcome (status_text success) error ≡ Outcome.printed
unfolding derive_outcome status_text text text_eq
success_printed error = refl

guidance_unknown :
    (status : Status) (error : Option Text)
    → derive_outcome (status_text status) error ≡ Outcome.unknown
    → job_guidance (status_text status) Outcome.unknown ≡ status_unknown
unfolding job_guidance status_text text text_eq
guidance_unknown success error h = cc (success_printed error)
guidance_unknown queued error h = refl
guidance_unknown claimed error h = refl
guidance_unknown printing error h = refl
guidance_unknown failed error h = refl
guidance_unknown expired error h = refl

cautious :
    (status : Status) (error : Option Text)
    → derive_outcome (status_text status) error ≡ Outcome.unknown
    → IsCautious status error
unfolding tone_job label_job
cautious status error h =
    rw (blank_error (status_text status) error, h)
      (tone_unknown (status_text status), label_unknown status, guidance_unknown status error h)

friendly_unknown :
    (t : Text)
    → any (λ marker. starts_with t marker) unknown_outcome_markers ≡ true
    → friendly_printer_error t ≡ outcome_unknown
unfolding friendly_printer_error
friendly_unknown t h = rw h refl

outcome_marked :
    (status : Status) (t : Text)
    → derive_outcome (status_text status) (some t) ≡ Outcome.unknown
    → any (λ marker. starts_with t marker) unknown_outcome_markers ≡ true
unfolding derive_outcome
outcome_marked status t h = ground arith

-- Where the server derives an unknown outcome, the helpers that the clients share say so: the tone is
-- amber whatever the status, a failed or expired job is labelled `Unknown outcome` and any other one by
-- its status, the guidance is to verify the printer, and the friendly error is the one for an unknown
-- outcome.
pub unknown-IsCautious :
    (status : Status) (error : Text)
    → derive_physical_outcome status (some error) ≡ PhysicalOutcome.unknown
    → IsCautious status (some error) × (friendly_printer_error error ≡ outcome_unknown)
unknown-IsCautious status error h =
    let known = unknown_derived status (some error) h in
    (cautious status (some error) known, friendly_unknown error (outcome_marked status error known))

abbrev pub info : AgentState → AgentInfo
info agent = record {
  status = agent.status;
  last_seen_at = agent.last_seen_at;
  lifecycle = agent.lifecycle;
}

live_view :
    (agent : AgentState) (now seen : ℕ)
    → agent.lifecycle ≡ some (text "active")
    → agent.status ≡ some (text "online")
    → agent.last_seen_at ≡ some seen
    → leb now (seen + 90_000) ≡ true
    → agent_live_view (info agent) now ≡ record { tone = ok; label = text "Online" }
unfolding agent_live_view text text_eq
live_view agent now seen l s a f = rw (l, s, a, f) refl

threshold_default : agent_stale_threshold_seconds none ≡ 90
unfolding agent_stale_threshold_seconds
threshold_default = refl

all_three :
    (a b c d : Bool)
    → (a && true && (b && c) && d) ≡ true
    → (a ≡ true) × ((b ≡ true) × (c ≡ true)) × (d ≡ true)
all_three a b c d h = ground arith

recent :
    (now seen : ℕ)
    → now ≤ seen + agent_stale_threshold_seconds none * 1000
    → leb now (seen + 90_000) ≡ true
recent now seen h = ground (arith, threshold_default)

printer_online :
    (agent : AgentState) (printer : PrinterState) (now : ℕ)
    → printer.lifecycle ≡ some (text "active")
    → printer.status ≡ some (text "online")
    → agent_live_view (info agent) now ≡ record { tone = ok; label = text "Online" }
    → effective_printer_status
        (record { status = printer.status; lifecycle = printer.lifecycle })
        (some (info agent))
        now
      ≡ text "online"
unfolding effective_printer_status text text_eq to_lower
printer_online agent printer now l s v = rw (l, s, v) refl

-- An agent that the server finds available, at the staleness threshold that it has by default, is shown
-- as online, and so is a printer of it that takes jobs.
pub available_online :
    (agent : AgentState) (printer : PrinterState) (now : ℕ)
    → is_printer_available_for_job none false printer (owner agent) now ≡ true
    → (agent_live_view (info agent) now ≡ record { tone = ok; label = text "Online" })
      × (effective_printer_status
            (record { status = printer.status; lifecycle = printer.lifecycle })
            (some (info agent))
            now
          ≡ text "online")
unfolding is_printer_available_for_job
available_online agent printer now h =
    let (open', (_, free), running) =
      all_three (equals printer.lifecycle (text "active")) (equals agent.lifecycle (text "active"))
        (is_agent_available_for_job none agent now) (equals printer.status (text "online")) h in
    let (l, s, (seen, a, early, late)) = (available_iff none agent now).0 free in
    let view = live_view agent now seen l s a (recent now seen late) in
    (
      view,
      printer_online agent printer now (equals_sound printer.lifecycle (text "active") open')
          (equals_sound printer.status (text "online") running) view,
    )
