-- ===== src/Inventory/Tests.antt =====
-- Runs of the heartbeat's inventory, and the theorems at concrete inputs.
use printer_repo.Prelude.{ℕ, ◌≡◌, refl, true, false, List, [], ◌∷◌, none, some}
use printer_repo.Prelude.Text.{text, text_eq, trim, to_lower, includes}
use printer_repo.Agents.{AgentAccount}
use printer_repo.Job.Row.{Clock}
use printer_repo.Json.{
  Json, null, number, str, arr, obj, nil, cons, Fields, done, field, stringify, quote, get, delete,
  assign, spread, to_string, member,
}
use printer_repo.Inventory.{
  ReportedPrinter, skip, ◌>>=◌, sanitize_printer, validate_connection_config, network_requires_port,
  invalid_connection_config,
}
use printer_repo.Inventory.Record.{PrinterRow, printers_check, find_printer}
use printer_repo.Inventory.Heartbeat.{Gateway, heartbeat, record_printers, reporter}
use printer_repo.Inventory.Laws.{heartbeat-keeps, printer_at, IsKept}
use printer_repo.Inventory.Constraints.{heartbeat-AllChecked, AllChecked}
use printer_repo.Inventory.Stored.{null_entry-fails, append_items}

abbrev clock : Clock
clock = record { db_now = 1000; app_now = 1001 }

abbrev kitchen_agent : AgentAccount
kitchen_agent = record {
  id = text "agent_1";
  tenant_id = text "t";
  lifecycle = text "active";
  secret = none;
  pairing_code_hash = none;
  pairing_code_expires_at = none;
  status = text "offline";
  metadata = [];
  last_seen_at = none;
  updated_at = 0;
}

abbrev network_config : Json
network_config = obj (
    field (text "ip") (str (text "10.0.0.7")) (
      field (text "port") (number (text "9100"))
        (field (text "protocol") (str (text "escpos")) done)))

abbrev kitchen : Fields
kitchen = field (text "id") (str (text "p1")) (
    field (text "name") (str (text "Kitchen")) (
      field (text "type") (str (text "TCP")) (
        field (text "printerType") (str (text "thermal")) (
          field (text "config") network_config (
            field (text "capabilities")
              (obj (
                field (text "supported_protocols")
                  (arr (cons (str (text " ESCPOS ")) (cons (str (text "magic")) nil))) done))
              done)))))

abbrev stored_kitchen : ReportedPrinter
stored_kitchen = record {
  id = text "p1";
  name = text "Kitchen";
  printer_type = text "physical";
  device_class = text "thermal";
  connection_type = text "network";
  protocol = text "escpos";
  status = text "unknown";
  config =
      field (text "ip") (str (text "10.0.0.7")) (field (text "port") (number (text "9100")) done);
  capabilities =
      some (field (text "supported_protocols") (arr (cons (str (text "escpos")) nil)) done);
}

kitchen_refused :
    sanitize_printer (
      field (text "id") (str (text "p1")) (
        field (text "name") (str (text "Kitchen")) (
          field (text "connectionType") (str (text "network")) (
            field
              (text "protocol")
              (str (text "raw"))
              (field (text "config") (obj (field (text "ip") (str (text "h")) done)) done)))))
    ≡ skip (invalid_connection_config network_requires_port)
unfolding sanitize_printer ◌>>=◌ get delete assign spread member to_string stringify quote
    validate_connection_config text text_eq trim to_lower includes
kitchen_refused = refl

abbrev bar : PrinterRow
bar = record {
  id = text "p2";
  tenant_id = text "t";
  agent_id = text "agent_2";
  name = text "Bar";
  printer_type = text "physical";
  device_class = text "label";
  connection_type = text "usb";
  protocol = text "zpl";
  status = text "online";
  lifecycle = text "disabled";
  config = none;
  capabilities = none;
  last_seen_at = none;
  created_at = 5;
  updated_at = 6;
}

abbrev gateway : Gateway
gateway = record { agents = kitchen_agent ∷ []; jobs = []; printers = bar ∷ [] }

abbrev body : Json
body = obj (field (text "printers") (arr (cons (obj kitchen) nil)) done)

abbrev quiet : ℕ → List PrinterRow
quiet i = []

heartbeat-keeps_example :
    (r' : PrinterRow) × (printer_at
        (text "p2")
        (heartbeat (some kitchen_agent) false clock quiet (some body) gateway).0.printers
      ≡ some r')
    × IsKept (reporter kitchen_agent) bar r'
unfolding find_printer text text_eq
heartbeat-keeps_example =
    heartbeat-keeps kitchen_agent false clock quiet (some body) gateway (text "p2") bar refl

bar_checked : printers_check bar ≡ true
unfolding printers_check text text_eq
bar_checked = refl

heartbeat-AllChecked_example :
    AllChecked (heartbeat (some kitchen_agent) false clock quiet (some body) gateway).0.printers
heartbeat-AllChecked_example =
    heartbeat-AllChecked kitchen_agent false clock quiet (some body) gateway (λ i. tt)
      (bar_checked, tt)

null_entry-fails_example :
    record_printers
      (reporter kitchen_agent)
      clock
      quiet
      0
      (append_items (cons (obj kitchen) nil) (cons null (cons (obj kitchen) nil)))
      (bar ∷ [])
    ≡ record {
      rows =
          (record_printers
            (reporter kitchen_agent)
            clock
            quiet
            0
            (cons (obj kitchen) nil)
            (bar ∷ [])).rows;
      skipped = none;
    }
null_entry-fails_example =
    null_entry-fails (reporter kitchen_agent) clock quiet 0 (cons (obj kitchen) nil)
      (cons (obj kitchen) nil) (bar ∷ [])
