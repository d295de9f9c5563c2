-- ===== src/Submit/Tests.antt =====
-- A label is submitted for a printer of the tenant, and stays in the queue as no socket is open.
use printer_repo.Prelude.{refl, ℕ, true, List, [], ◌∷◌, none, some}
use printer_repo.Prelude.Text.{Text, text, text_eq, starts_with, trim, to_lower, includes}
use printer_repo.Payload.{PayloadType, ByteProtocol}
use printer_repo.Payload.Validation.{is_canonical_data, super_issues, validate_print_job_payload}
use printer_repo.Printer.Virtual.{
  lower, field, is_virtual_port_monitor, is_virtual_by_capabilities, is_redirected_name, ends_with,
  identity_haystack, is_virtual_printer_record,
}
use printer_repo.Printer.Routing.{declaration, check_kind, check_raw, validate_payload_for_printer}
use printer_repo.Printer.Availability.{
  agent_stale_threshold_seconds, get_agent_availability, is_agent_available_for_job,
}
use printer_repo.Job.Row.{Clock, Table}
use printer_repo.Job.Refinement.{Evolves-refl}
use printer_repo.Job.System.{IsConsistent}
use printer_repo.Admission.{
  Store, insert_queued_job_atomically, admit_new, enforce_tenant_job_entitlements,
  get_tenant_entitlement_limit, check_agent_load, charge, charge_key, find_by_key,
}
use printer_repo.Submit.{
  Surroundings, Submission, PrinterRecord, Inventory, find_printer, find_owner, printer_refusal,
  payload_refusal, agent_refusal, request_refusal, with_owner, with_printer,
  create_print_job_for_printer,
}
use printer_repo.Submit.Laws.{IsQueuedFor, submit-queued}
use printer_repo.Submit.Safety.{submit-IsConsistent}

abbrev at : ℕ → Clock
at t = record { db_now = t; app_now = t }

abbrev plain : Text → List ℕ
plain t = t

abbrev quiet : Table → Table
quiet jobs = jobs

abbrev pub env : Surroundings
env = record {
  decode = plain;
  encode = plain;
  threshold = none;
  new_id = text "job_1";
  fleet = record { agents = []; printers = [] };
  lockable = λ j. true;
  sockets = λ agent_id. [];
  claim_clock = at 60_001;
  evidence_clock = at 60_002;
  release_clock = at 60_003;
  token = text "k1";
  before_push = quiet;
  after_claim = quiet;
  after_evidence = quiet;
}

abbrev label_printer : PrinterRecord
label_printer = record {
  id = text "p";
  tenant_id = text "t";
  agent_id = text "a";
  lifecycle = text "active";
  status = text "online";
  identity = record {
    name = some (text "Zebra");
    printer_type = none;
    connection_type = some (text "usb");
    protocol = some (text "zpl");
    port = none;
    driver_name = none;
    capabilities = none;
  };
  supported_protocols = none;
}

abbrev pub inventory : Inventory
inventory = record {
  printers = label_printer ∷ [];
  agents =
      record {
        id = text "a";
        tenant_id = text "t";
        state = record {
          lifecycle = some (text "active");
          status = some (text "online");
          last_seen_at = some 50_000;
        };
      }
      ∷ [];
}

abbrev submission : Submission
submission = record {
  printer_id = text "p";
  payload = record {
    kind = PayloadType.raw;
    protocol = some ByteProtocol.zpl;
    peripherals = none;
    content = text "^XA^XZ";
  };
  requested_by = text "odoo";
  idempotency_key = none;
  tenant_id = text "t";
  destination = none;
  document_type = none;
  expires_at = none;
  api_key_id = none;
  request_id = none;
}

abbrev pub empty_store : Store
empty_store = record { jobs = []; subscriptions = []; limits = [] }

submit-queued_example : IsQueuedFor env submission 60_000 inventory (text "p") (text "a")
unfolding create_print_job_for_printer with_printer find_printer printer_refusal payload_refusal
    find_owner with_owner agent_refusal request_refusal validate_print_job_payload is_canonical_data
    super_issues text text_eq starts_with trim to_lower includes lower field is_virtual_port_monitor
    is_virtual_by_capabilities is_redirected_name ends_with identity_haystack
    is_virtual_printer_record declaration check_kind check_raw validate_payload_for_printer
    agent_stale_threshold_seconds get_agent_availability is_agent_available_for_job
    insert_queued_job_atomically admit_new enforce_tenant_job_entitlements
    get_tenant_entitlement_limit check_agent_load charge charge_key find_by_key
submit-queued_example =
    submit-queued env submission (at 60_000) empty_store inventory (text "job_1") (text "p")
      (text "a") refl

submit-IsConsistent_example :
    IsConsistent
      (create_print_job_for_printer env submission (at 60_000) inventory empty_store).0.jobs
submit-IsConsistent_example =
    submit-IsConsistent env Evolves-refl Evolves-refl Evolves-refl submission (at 60_000) inventory
      empty_store (tt, tt)

abbrev verbatim : Text → Text
verbatim t = t
