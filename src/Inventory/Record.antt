-- ===== src/Inventory/Record.antt =====
-- How POST of src/app/api/agent/heartbeat/route.ts writes a reported printer to the table `printers`
-- of src/db/schema.ts.
use printer_repo.Prelude.{
  ℕ, Bool, true, false, ◌&&◌, List, [], ◌∷◌, Option, none, some, if◌then◌else◌, map,
}
use printer_repo.Prelude.Text.{Text, text, text_eq}
use printer_repo.Printer.Routing.{contains}
use printer_repo.Job.Row.{Clock}
use printer_repo.Job.Report.{Reporter}
use printer_repo.Json.{Fields}
use printer_repo.Inventory.{
  ReportedPrinter, SkipReason, owned_by_another_agent, insert_conflict_owned_by_another_agent,
}

pub record PrinterRow : Type 0 where
  pub id : Text
  pub tenant_id : Text
  pub agent_id : Text
  pub name : Text
  pub printer_type : Text
  pub device_class : Text
  pub connection_type : Text
  pub protocol : Text
  pub status : Text
  pub lifecycle : Text
  pub config : Option Fields
  pub capabilities : Option Fields
  pub last_seen_at : Option ℕ
  pub created_at : ℕ
  pub updated_at : ℕ

-- The words that the check constraints of the table list.
abbrev pub lifecycle_check : List Text
lifecycle_check = text "active" ∷ text "disabled" ∷ text "retired" ∷ []

abbrev pub printer_type_check : List Text
printer_type_check = text "physical" ∷ text "virtual" ∷ text "redirected" ∷ []

abbrev pub device_class_check : List Text
device_class_check =
    text "thermal"
    ∷ text "laser"
    ∷ text "inkjet"
    ∷ text "label"
    ∷ text "other"
    ∷ text "unknown"
    ∷ []

abbrev pub connection_type_check : List Text
connection_type_check = text "network" ∷ text "usb" ∷ text "spooler" ∷ text "ipp" ∷ text "ipps" ∷ []

abbrev pub protocol_check : List Text
protocol_check =
    text "raw"
    ∷ text "escpos"
    ∷ text "zpl"
    ∷ text "tspl"
    ∷ text "ipp"
    ∷ text "ipps"
    ∷ text "spooler"
    ∷ text "windows_spooler"
    ∷ text "unknown"
    ∷ []

abbrev pub status_check : List Text
status_check = text "online" ∷ text "offline" ∷ text "busy" ∷ text "error" ∷ text "unknown" ∷ []

unfoldable pub printers_check : PrinterRow → Bool
printers_check r =
    contains lifecycle_check r.lifecycle
    && contains printer_type_check r.printer_type
    && contains device_class_check r.device_class
    && contains connection_type_check r.connection_type
    && contains protocol_check r.protocol
    && contains status_check r.status

abbrev pub is_row : Text → Text → PrinterRow → Bool
is_row id tenant_id r = text_eq r.id id && text_eq r.tenant_id tenant_id

unfoldable pub find_printer : (PrinterRow → Bool) → List PrinterRow → Option PrinterRow
find_printer test [] = none
find_printer test (r ∷ rest) =
    let later = find_printer test rest in if test r then some r else later

-- `INSERT … ON CONFLICT (id) DO NOTHING`, with whether a row was inserted.
unfoldable pub insert_absent : PrinterRow → List PrinterRow → List PrinterRow × Bool
insert_absent row [] = (row ∷ [], true)
insert_absent row (r ∷ rest) =
    let later = insert_absent row rest in
    if text_eq r.id row.id then (r ∷ rest, false) else (r ∷ later.0, later.1)

-- `printerUpdateSet`
unfoldable pub printer_update_set : ReportedPrinter → Clock → PrinterRow → PrinterRow
printer_update_set p clock r = record r {
  name = p.name;
  printer_type = p.printer_type;
  device_class = p.device_class;
  connection_type = p.connection_type;
  protocol = p.protocol;
  status = p.status;
  config = some p.config;
  capabilities = p.capabilities;
  last_seen_at = some clock.app_now;
  updated_at = clock.app_now;
}

unfoldable pub update_printer :
    Reporter → ReportedPrinter → Clock → List PrinterRow → List PrinterRow
unfolding printer_update_set
update_printer agent p clock rows =
    map (λ r. if is_row p.id agent.tenant_id r then printer_update_set p clock r else r) rows

-- The row that is inserted; the times of creation and update are the database's defaults.
unfoldable pub printer_values : Reporter → ReportedPrinter → Clock → PrinterRow
printer_values agent p clock = record {
  id = p.id;
  tenant_id = agent.tenant_id;
  agent_id = agent.id;
  name = p.name;
  printer_type = p.printer_type;
  device_class = p.device_class;
  connection_type = p.connection_type;
  protocol = p.protocol;
  status = p.status;
  lifecycle = text "active";
  config = some p.config;
  capabilities = p.capabilities;
  last_seen_at = some clock.app_now;
  created_at = clock.db_now;
  updated_at = clock.db_now;
}

-- The rows that other requests insert.
unfoldable pub arrive : List PrinterRow → List PrinterRow → List PrinterRow
unfolding insert_absent
arrive [] rows = rows
arrive (r ∷ more) rows = arrive more (insert_absent r rows).0

-- After an insert that met a conflict.
unfoldable pub by_raced :
    Reporter
    → ReportedPrinter
    → Clock
    → Option PrinterRow
    → List PrinterRow
    → List PrinterRow × Option SkipReason
by_raced agent p clock none rows = (rows, some insert_conflict_owned_by_another_agent)
by_raced agent p clock (some raced) rows =
    if text_eq raced.agent_id agent.id
    then (update_printer agent p clock rows, none)
    else (rows, some insert_conflict_owned_by_another_agent)

unfoldable pub by_insert :
    Reporter
    → ReportedPrinter
    → Clock
    → List PrinterRow × Bool
    → List PrinterRow × Option SkipReason
by_insert agent p clock (rows, true) = (rows, none)
by_insert agent p clock (rows, false) =
    by_raced agent p clock (find_printer (is_row p.id agent.tenant_id) rows) rows

unfoldable pub by_existing :
    Reporter
    → ReportedPrinter
    → Clock
    → Option PrinterRow
    → List PrinterRow
    → List PrinterRow × Option SkipReason
unfolding by_insert by_raced update_printer insert_absent printer_values
by_existing agent p clock none rows =
    by_insert agent p clock (insert_absent (printer_values agent p clock) rows)
by_existing agent p clock (some existing) rows =
    if text_eq existing.agent_id agent.id
    then (update_printer agent p clock rows, none)
    else (rows, some (owned_by_another_agent existing.agent_id))

-- The body of the loop for a printer in order: the table after it, and the reason why it was skipped.
-- Between the read and the write other requests insert `arrivals`.
unfoldable pub record_printer :
    Reporter
    → Clock
    → (arrivals : List PrinterRow) → ReportedPrinter
    → List PrinterRow
    → List PrinterRow × Option SkipReason
unfolding by_existing find_printer arrive
record_printer agent clock arrivals p rows =
    by_existing agent p clock (find_printer (is_row p.id agent.tenant_id) rows)
      (arrive arrivals rows)
