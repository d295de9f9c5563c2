-- ===== src/Console/Actions.antt =====
-- The server actions of src/app/actions.ts that change state. The name of an agent is tested and left
-- out of its row; an agent's id and the pairing codes are drawn outside.
use printer_repo.Prelude.{
  ℕ, ◌+◌, Bool, true, false, not, ◌&&◌, ◌||◌, List, [], ◌∷◌, ◌++◌, Option, none, some,
  if◌then◌else◌, map, any, filter, count, take, leb, length, is_some,
}
use printer_repo.Prelude.Text.{Text, text, text_eq, trim}
use printer_repo.Prelude.Decimal.{decimal}
use printer_repo.Managers.Token.{ManagerClaims}
use printer_repo.Agents.{
  AgentAccount, PrinterAccount, Accounts, is_agent, has_code, find_agent, can_transition_lifecycle,
  LifecycleResult, transition_agent_lifecycle,
}
use printer_repo.Job.Status.{is_terminal}
use printer_repo.Job.Row.{Clock, Job, Table}
use printer_repo.Admission.Entitlements.{Subscription, Store, get_tenant_entitlement_limit}
use printer_repo.Submit.{create_print_job_for_printer}
use printer_repo.Submit.Records.{
  Surroundings, Submission, Inventory, SubmitError, Submitted, queued_job, earlier_job, failed_with,
}
use printer_repo.Console.Roles.{has_manager_permission}
use printer_repo.Console.Listing.{like_column}

pub data ActionError : Type 0 where
  session_expired forbidden bad_name no_pairing_code : ActionError
  entitlement_exceeded : ℕ → ActionError
  id_required agent_not_found printer_not_found job_not_found : ActionError
  still_connected retired_kept has_history : ActionError
  still_in_progress cannot_transition owner_missing owner_inactive : ActionError
  lifecycle_conflict : ActionError
  not_submitted : SubmitError → ActionError

pub data Acted (A : Type 0) : Type 0 where
  ok : A → Acted A
  fails : ActionError → Acted A

abbrev pub is_empty : Text → Bool
is_empty [] = true
is_empty (c ∷ t) = false

-- `requireManager` and `requireManagerPermission`, with the claims of the session, if there is one.
unfoldable pub refused : Option ManagerClaims → (permission : Text) → Option ActionError
unfolding has_manager_permission
refused none permission = some session_expired
refused (some claims) permission =
    if has_manager_permission claims.role permission then none else some forbidden

-- An error in place of the action.
abbrev pub unless_fails : {S A : Type 0} → Option ActionError → S → S × Acted A → S × Acted A
unless_fails none state next = next
unless_fails (some e) state next = (state, fails e)

-- The first of the candidates that no agent holds.
unfoldable pub free_code : (hash : Text → Text) → List AgentAccount → List Text → Option Text
unfolding find_agent
free_code hash agents [] = none
free_code hash agents (candidate ∷ rest) =
    let later = free_code hash agents rest in
    if is_some (find_agent (has_code (hash candidate)) agents) then later else some candidate

-- The agents that count towards `max_agents`.
abbrev pub counts_as_agent : Text → AgentAccount → Bool
counts_as_agent tenant_id a =
    text_eq a.tenant_id tenant_id && not (text_eq a.lifecycle (text "retired"))

-- `enforceTenantResourceEntitlement`
unfoldable pub enforce_tenant_resource_entitlement : Option ℕ → ℕ → Option ActionError
enforce_tenant_resource_entitlement none n = none
enforce_tenant_resource_entitlement (some limit) n =
    if leb limit n then some (entitlement_exceeded limit) else none

unfoldable pub new_agent : (id tenant_id code_hash : Text) → Clock → AgentAccount
new_agent id tenant_id code_hash clock = record {
  id = id;
  tenant_id = tenant_id;
  lifecycle = text "active";
  secret = none;
  pairing_code_hash = some code_hash;
  pairing_code_expires_at = some (clock.app_now + 600_000);
  status = text "offline";
  metadata = [];
  last_seen_at = none;
  updated_at = clock.db_now;
}

pub record NewAgent : Type 0 where
  pub id : Text
  pub pairing_code : Text
  pub expires_at : ℕ

abbrev pub admit_agent :
    (hash : Text → Text)
    → (id tenant_id code : Text) → Clock
    → Option ActionError
    → List AgentAccount
    → List AgentAccount × Acted NewAgent
admit_agent hash id tenant_id code clock (some e) agents = (agents, fails e)
admit_agent hash id tenant_id code clock none agents = (
  new_agent id tenant_id (hash code) clock ∷ agents,
  ok (record { id = id; pairing_code = code; expires_at = clock.app_now + 600_000 }),
)

abbrev pub with_code :
    (hash : Text → Text)
    → (id tenant_id : Text) → Clock
    → List Subscription
    → Option Text
    → List AgentAccount
    → List AgentAccount × Acted NewAgent
with_code hash id tenant_id clock subscriptions none agents = (agents, fails no_pairing_code)
with_code hash id tenant_id clock subscriptions (some code) agents =
    admit_agent hash id tenant_id code clock
      (enforce_tenant_resource_entitlement
        (get_tenant_entitlement_limit subscriptions tenant_id (text "max_agents"))
        (count (counts_as_agent tenant_id) agents))
      agents

abbrev pub is_bad_name : Text → Bool
is_bad_name name = is_empty (trim name) || not (leb (length (trim name)) 200)

-- `createAgent` of a manager with the permission.
unfoldable pub create_permitted :
    (hash : Text → Text)
    → (codes : List Text) → (id tenant_id name : Text) → Clock
    → List Subscription
    → List AgentAccount
    → List AgentAccount × Acted NewAgent
unfolding free_code new_agent enforce_tenant_resource_entitlement get_tenant_entitlement_limit
create_permitted hash codes id tenant_id name clock subscriptions agents =
    if is_bad_name name
    then (agents, fails bad_name)
    else with_code hash id tenant_id clock subscriptions (free_code hash agents (take 5 codes))
        agents

unfoldable pub create_agent :
    (hash : Text → Text)
    → (codes : List Text) → (id : Text) → Option ManagerClaims
    → (name : Text) → Clock
    → List Subscription
    → List AgentAccount
    → List AgentAccount × Acted NewAgent
unfolding create_permitted refused
create_agent hash codes id none name clock subscriptions agents = (agents, fails session_expired)
create_agent hash codes id (some claims) name clock subscriptions agents =
    unless_fails (refused (some claims) (text "agents.pair")) agents
      (create_permitted hash codes id claims.tenant_id name clock subscriptions agents)

-- A row of `discovered_devices` or `discovery_sessions`, as far as the deletion reads it.
pub record DiscoveryRow : Type 0 where
  pub agent_id : Text
  pub tenant_id : Text

-- The tables of the deletion.
pub record Estate : Type 0 where
  pub accounts : Accounts
  pub jobs : Table
  pub devices : List DiscoveryRow
  pub sessions : List DiscoveryRow

abbrev pub is_printer_of : (agent_id tenant_id : Text) → PrinterAccount → Bool
is_printer_of agent_id tenant_id p = text_eq p.agent_id agent_id && text_eq p.tenant_id tenant_id

-- A job of the agent, or of one of its printers.
unfoldable pub is_history : (agent_id tenant_id : Text) → List PrinterAccount → Job → Bool
is_history agent_id tenant_id printers j =
    text_eq j.tenant_id tenant_id
    && (text_eq j.agent_id agent_id
        || any
            (λ (p : PrinterAccount).
              is_printer_of agent_id tenant_id p && text_eq p.id j.printer_id)
            printers)

abbrev pub is_row_of : (agent_id tenant_id : Text) → DiscoveryRow → Bool
is_row_of agent_id tenant_id d = text_eq d.agent_id agent_id && text_eq d.tenant_id tenant_id

unfoldable pub remove_agent : (agent_id tenant_id : Text) → Estate → Estate
remove_agent agent_id tenant_id estate = record estate {
  accounts = record {
    agents = filter (λ a. not (is_agent agent_id tenant_id a)) estate.accounts.agents;
    printers = filter (λ p. not (is_printer_of agent_id tenant_id p)) estate.accounts.printers;
  };
  devices = filter (λ d. not (is_row_of agent_id tenant_id d)) estate.devices;
  sessions = filter (λ d. not (is_row_of agent_id tenant_id d)) estate.sessions;
}

-- The transaction, on the locked row.
unfoldable pub delete_locked :
    (agent_id tenant_id : Text) → Option AgentAccount → Estate → Estate × Acted (Unit {0})
unfolding is_history remove_agent
delete_locked agent_id tenant_id none estate = (estate, fails agent_not_found)
delete_locked agent_id tenant_id (some agent) estate =
    if text_eq agent.status (text "online")
    then (estate, fails still_connected)
    else if text_eq agent.lifecycle (text "retired")
    then (estate, fails retired_kept)
    else if any (is_history agent_id tenant_id estate.accounts.printers) estate.jobs
    then (estate, fails has_history)
    else (remove_agent agent_id tenant_id estate, ok tt)

-- `deleteAgent`; `connected` is `hasOpenAgentSocket`.
unfoldable pub delete_agent :
    Option ManagerClaims
    → (connected : Text → Bool) → (id : Text) → Estate
    → Estate × Acted (Unit {0})
unfolding delete_locked refused find_agent
delete_agent none connected id estate = (estate, fails session_expired)
delete_agent (some claims) connected id estate =
    unless_fails (refused (some claims) (text "agents.retire")) estate (
      if is_empty (trim id)
      then (estate, fails id_required)
      else if connected (trim id)
      then (estate, fails still_connected)
      else delete_locked (trim id) claims.tenant_id
          (find_agent (is_agent (trim id) claims.tenant_id) estate.accounts.agents) estate)

unfoldable pub find_account : (PrinterAccount → Bool) → List PrinterAccount → Option PrinterAccount
find_account test [] = none
find_account test (p ∷ rest) =
    let later = find_account test rest in if test p then some p else later

abbrev pub is_printer : (id tenant_id : Text) → PrinterAccount → Bool
is_printer id tenant_id p = text_eq p.id id && text_eq p.tenant_id tenant_id

abbrev pub owner_refusal : Option AgentAccount → Option ActionError
owner_refusal none = some owner_missing
owner_refusal (some owner) =
    if text_eq owner.lifecycle (text "active") then none else some owner_inactive

unfoldable pub write_lifecycle : (id tenant_id next : Text) → ℕ → Accounts → Accounts
write_lifecycle id tenant_id next now db = record db {
  printers =
      map
        (λ (p : PrinterAccount).
          if is_printer id tenant_id p then record p { lifecycle = next; updated_at = now } else p)
        db.printers;
}

abbrev pub settle_lifecycle :
    (id tenant_id next : Text) → ℕ → Accounts → Option ActionError → Accounts × Acted (Unit {0})
settle_lifecycle id tenant_id next now db none = (write_lifecycle id tenant_id next now db, ok tt)
settle_lifecycle id tenant_id next now db (some e) = (db, fails e)

unfoldable pub set_found :
    (id tenant_id next : Text) → ℕ → Accounts → Option PrinterAccount → Accounts × Acted (Unit {0})
unfolding write_lifecycle can_transition_lifecycle find_agent
set_found id tenant_id next now db none = (db, fails printer_not_found)
set_found id tenant_id next now db (some printer) =
    if text_eq printer.lifecycle next
    then (db, ok tt)
    else if not (can_transition_lifecycle printer.lifecycle next)
    then (db, fails cannot_transition)
    else settle_lifecycle id tenant_id next now db (
        if text_eq next (text "active")
        then owner_refusal (find_agent (is_agent printer.agent_id tenant_id) db.agents)
        else none)

-- `setPrinterLifecycle`
unfoldable pub set_printer_lifecycle :
    Option ManagerClaims → (id next : Text) → (now : ℕ) → Accounts → Accounts × Acted (Unit {0})
unfolding set_found refused find_account
set_printer_lifecycle none id next now db = (db, fails session_expired)
set_printer_lifecycle (some claims) id next now db =
    unless_fails (refused (some claims) (text "printers.manage")) db (
      set_found id claims.tenant_id next now db
        (find_account (is_printer id claims.tenant_id) db.printers))

abbrev acted_lifecycle : Accounts × LifecycleResult → Accounts × Acted LifecycleResult
acted_lifecycle (db, LifecycleResult.not_found) = (db, fails agent_not_found)
acted_lifecycle (db, LifecycleResult.lifecycle_conflict) = (db, fails lifecycle_conflict)
acted_lifecycle (db, LifecycleResult.no_pairing_code) = (db, fails no_pairing_code)
acted_lifecycle (db, result) = (db, ok result)

-- `setAgentLifecycle`
unfoldable pub set_agent_lifecycle :
    (hash : Text → Text)
    → (codes : List Text) → Option ManagerClaims
    → (id next : Text) → (now : ℕ) → Accounts
    → Accounts × Acted LifecycleResult
unfolding refused transition_agent_lifecycle
set_agent_lifecycle hash codes none id next now db = (db, fails session_expired)
set_agent_lifecycle hash codes (some claims) id next now db =
    unless_fails (refused (some claims) (text "agents.disable")) db
      (acted_lifecycle (transition_agent_lifecycle hash codes id next claims.tenant_id now db))

pub record Reprinted : Type 0 where
  pub id : Text
  pub reused : Bool

abbrev pub reprinted : Store × Submitted → Store × Acted Reprinted
reprinted (store, queued_job id printer_id agent_id) =
    (store, ok (record { id = id; reused = false }))
reprinted (store, earlier_job j) = (store, ok (record { id = j.id; reused = true }))
reprinted (store, failed_with e) = (store, fails (not_submitted e))

unfoldable pub find_job : (id tenant_id : Text) → Table → Option Job
find_job id tenant_id [] = none
find_job id tenant_id (j ∷ js) =
    let later = find_job id tenant_id js in
    if text_eq j.id id && text_eq j.tenant_id tenant_id then some j else later

-- `gw-reprint:${job.id}:`
abbrev pub reprint_prefix : Text → Text
reprint_prefix id = text "gw-reprint:" ++ (id ++ text ":")

abbrev pub is_reprint : (id tenant_id : Text) → Job → Bool
is_reprint id tenant_id j =
    text_eq j.tenant_id tenant_id
    && like_column j.idempotency_key (reprint_prefix id ++ (b'%' ∷ []))

-- The key of the next reprint: one more than the reprints that the table holds.
unfoldable pub derived_key : (id tenant_id : Text) → Table → Text
unfolding decimal text
derived_key id tenant_id jobs =
    reprint_prefix id ++ decimal (count (is_reprint id tenant_id) jobs + 1)

unfoldable pub reprint_submission : Job → (tenant_id key : Text) → Submission
reprint_submission job tenant_id key = record {
  printer_id = job.printer_id;
  payload = job.payload;
  requested_by = text "manager-reprint";
  idempotency_key = some key;
  tenant_id = tenant_id;
  destination = job.destination;
  document_type = job.document_type;
  expires_at = none;
  api_key_id = none;
  request_id = none;
}

-- `reprintJob` on the row that was read. The reprints are counted in `counted`; other requests may
-- write before the submission, which is on `store`.
unfoldable pub reprint_found :
    Surroundings
    → (tenant_id : Text) → Clock
    → Inventory
    → (counted : Table) → Store
    → Option Job
    → Store × Acted Reprinted
unfolding is_terminal derived_key reprint_submission create_print_job_for_printer
reprint_found env tenant_id clock inventory counted store none = (store, fails job_not_found)
reprint_found env tenant_id clock inventory counted store (some job) =
    if not (is_terminal job.status)
    then (store, fails still_in_progress)
    else reprinted (
        create_print_job_for_printer env
          (reprint_submission job tenant_id (derived_key job.id tenant_id counted)) clock inventory
          store)

unfoldable pub reprint_job :
    Surroundings
    → Option ManagerClaims
    → (id : Text) → Clock
    → Inventory
    → (counted : Table) → Store
    → Store × Acted Reprinted
unfolding reprint_found refused find_job
reprint_job env none id clock inventory counted store = (store, fails session_expired)
reprint_job env (some claims) id clock inventory counted store =
    unless_fails (refused (some claims) (text "jobs.retry")) store (
      if is_empty (trim id)
      then (store, fails id_required)
      else reprint_found env claims.tenant_id clock inventory counted store
          (find_job (trim id) claims.tenant_id counted))
