-- ===== src/Printer/Tests.antt =====
-- A label printer, a printer that declares nothing, and an agent that answers.
use printer_repo.Prelude.{none, some}
use printer_repo.Prelude.Text.{text}
use printer_repo.Printer.Routing.{PayloadSpec, Target}
use printer_repo.Printer.Availability.{AgentState}

abbrev label : PayloadSpec
label = record { kind = some (text "raw"); protocol = some (text "zpl") }

abbrev dark : Target
dark = record { protocol = none; connection_type = some (text "usb"); supported_protocols = none }

abbrev alive : AgentState
alive = record {
  lifecycle = some (text "active");
  status = some (text "online");
  last_seen_at = some 50_000;
}
