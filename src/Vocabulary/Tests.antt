-- ===== src/Vocabulary/Tests.antt =====
-- Runs of the vocabulary, and the theorems at concrete inputs.
use printer_repo.Prelude.{◌≡◌, refl, true, false, none, some}
use printer_repo.Prelude.Text.{text, text_eq, starts_with, to_lower, to_upper, includes}
use printer_repo.Prelude.Decimal.{decimal}
use printer_repo.Job.Status.{failed, PhysicalOutcome, derive_physical_outcome}
use printer_repo.Printer.Availability.{
  AgentState, PrinterState, agent_stale_threshold_seconds, is_agent_available_for_job,
  get_agent_availability, is_printer_available_for_job, owner,
}
use printer_repo.Vocabulary.Desktop.{
  PrinterInfo, human_type, printer_endpoint, friendly_printer_error, no_response, outcome_unknown,
}
use printer_repo.Vocabulary.Laws.{unknown-IsCautious, IsCautious}

abbrev press : PrinterInfo
press = record {
  name = text "Press";
  printer_type = some (text "Dot matrix");
  connection_type = some (text "network");
  protocol = none;
  endpoint = none;
  spooler_name = none;
  network_address = some (text "10.0.0.9");
  port = some 9100;
  is_virtual = none;
  is_virtual_flag = none;
  capabilities = none;
}

press_type : human_type press ≡ text "Dot matrix"
unfolding human_type text text_eq to_lower to_upper
press_type = refl

press_address : printer_endpoint press ≡ text "10.0.0.9:9100"
unfolding printer_endpoint decimal text
press_address = refl

slow_printer : friendly_printer_error (text "i/o Timeout") ≡ no_response
unfolding friendly_printer_error text starts_with to_lower includes
slow_printer = refl

lost :
    derive_physical_outcome failed (some (text "UNKNOWN_PARTIAL_DELIVERY timeout"))
    ≡ PhysicalOutcome.unknown
unfolding derive_physical_outcome text starts_with
lost = refl

unknown-IsCautious_example :
    IsCautious failed (some (text "UNKNOWN_PARTIAL_DELIVERY timeout"))
    × (friendly_printer_error (text "UNKNOWN_PARTIAL_DELIVERY timeout") ≡ outcome_unknown)
unknown-IsCautious_example =
    unknown-IsCautious failed (text "UNKNOWN_PARTIAL_DELIVERY timeout") lost

abbrev shop : AgentState
shop = record {
  lifecycle = some (text "active");
  status = some (text "online");
  last_seen_at = some 500_000;
}

abbrev till : PrinterState
till = record { lifecycle = some (text "active"); status = some (text "online") }

till_ready : is_printer_available_for_job none false till (owner shop) 540_000 ≡ true
unfolding is_printer_available_for_job is_agent_available_for_job get_agent_availability
    agent_stale_threshold_seconds text text_eq
till_ready = refl
