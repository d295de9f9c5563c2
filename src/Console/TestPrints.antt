-- ===== src/Console/TestPrints.antt =====
-- `createPrintJob` and `createTestPrintJob` of src/app/actions.ts. `agent_name` is the column `name` of the
-- agent with an id.
use printer_repo.Prelude.{[], Option, none, some, or_else}
use printer_repo.Prelude.Text.{Text, text}
use printer_repo.Managers.Token.{ManagerClaims}
use printer_repo.Payload.{PrintJobPayload}
use printer_repo.Payload.TestPage.{TestPage, page, build_test_page}
use printer_repo.Printer.Routing.{Target}
use printer_repo.Job.Row.{Clock}
use printer_repo.Admission.{Store}
use printer_repo.Submit.{create_print_job_for_printer, find_printer, find_owner}
use printer_repo.Submit.Records.{
  Surroundings, Submission, Inventory, PrinterRecord, AgentRecord, Submitted, queued_job,
  earlier_job, failed_with,
}
use printer_repo.Console.Actions.{
  ActionError, session_expired, printer_not_found, owner_missing, not_submitted, refused,
}

-- The id of the job, the error, or the page that could not be built.
pub data Printed : Type 0 where
  made : Text → Printed
  fails : ActionError → Printed
  no_page : TestPage → Printed

abbrev printed : Store × Submitted → Store × Printed
printed (store, queued_job id printer_id agent_id) = (store, made id)
printed (store, earlier_job j) = (store, made j.id)
printed (store, failed_with e) = (store, fails (not_submitted e))

abbrev pub permitted : Option ActionError → Store → Store × Printed → Store × Printed
permitted none store next = next
permitted (some e) store next = (store, fails e)

unfoldable pub manager_submission :
    (printer_id tenant_id requested_by : Text)
    → (document_type : Option Text) → PrintJobPayload
    → Submission
manager_submission printer_id tenant_id requested_by document_type payload = record {
  printer_id = printer_id;
  payload = payload;
  requested_by = requested_by;
  idempotency_key = none;
  tenant_id = tenant_id;
  destination = none;
  document_type = document_type;
  expires_at = none;
  api_key_id = none;
  request_id = none;
}

-- `createPrintJob`
unfoldable pub create_print_job :
    Surroundings
    → Option ManagerClaims
    → (printer_id : Text) → PrintJobPayload
    → Clock
    → Inventory
    → Store
    → Store × Printed
unfolding refused manager_submission create_print_job_for_printer
create_print_job env none printer_id payload clock inventory store = (store, fails session_expired)
create_print_job env (some claims) printer_id payload clock inventory store =
    permitted (refused (some claims) (text "jobs.create")) store (
      printed (
        create_print_job_for_printer env
          (manager_submission printer_id claims.tenant_id (text "manager") none payload) clock
          inventory store))

abbrev pub target_of : PrinterRecord → Target
target_of p = record {
  protocol = p.identity.protocol;
  connection_type = p.identity.connection_type;
  supported_protocols = p.supported_protocols;
}

abbrev pub send_page :
    Surroundings
    → (printer_id tenant_id : Text) → Clock
    → Inventory
    → Store
    → TestPage
    → Store × Printed
send_page env printer_id tenant_id clock inventory store (page payload) = printed (
    create_print_job_for_printer env
      (manager_submission printer_id tenant_id (text "manager-test") (some (text "test_page"))
        payload)
      clock inventory store)
send_page env printer_id tenant_id clock inventory store other = (store, no_page other)

unfoldable pub test_owned :
    Surroundings
    → (agent_name : Text → Option Text) → (stamp tenant_id : Text) → Clock
    → Inventory
    → Store
    → PrinterRecord
    → (printer_id : Text) → Option AgentRecord
    → Store × Printed
unfolding build_test_page manager_submission create_print_job_for_printer
test_owned env agent_name stamp tenant_id clock inventory store p printer_id none =
    (store, fails owner_missing)
test_owned env agent_name stamp tenant_id clock inventory store p printer_id (some a) =
    send_page env printer_id tenant_id clock inventory store (
      build_test_page env.encode (or_else p.identity.name []) (or_else (agent_name a.id) p.agent_id)
        stamp (target_of p))

unfoldable pub test_found :
    Surroundings
    → (agent_name : Text → Option Text) → (stamp tenant_id : Text) → Clock
    → Inventory
    → Store
    → (printer_id : Text) → Option PrinterRecord
    → Store × Printed
unfolding test_owned find_owner
test_found env agent_name stamp tenant_id clock inventory store printer_id none =
    (store, fails printer_not_found)
test_found env agent_name stamp tenant_id clock inventory store printer_id (some p) =
    test_owned env agent_name stamp tenant_id clock inventory store p printer_id
      (find_owner p.agent_id tenant_id inventory.agents)

-- `createTestPrintJob`
unfoldable pub create_test_print_job :
    Surroundings
    → (agent_name : Text → Option Text) → (stamp : Text) → Option ManagerClaims
    → (printer_id : Text) → Clock
    → Inventory
    → Store
    → Store × Printed
unfolding refused test_found find_printer
create_test_print_job env agent_name stamp none printer_id clock inventory store =
    (store, fails session_expired)
create_test_print_job env agent_name stamp (some claims) printer_id clock inventory store =
    permitted (refused (some claims) (text "printers.test")) store (
      test_found env agent_name stamp claims.tenant_id clock inventory store printer_id
        (find_printer printer_id claims.tenant_id inventory.printers))
