-- ===== src/Inventory/Heartbeat.antt =====
-- POST of src/app/api/agent/heartbeat/route.ts: an agent says that it is there, which jobs it holds and
-- which printers it has.
use printer_repo.Prelude.{
  ℕ, suc, Bool, not, List, [], ◌∷◌, Option, none, some, if◌then◌else◌, map, leb, is_none, length,
}
use printer_repo.Prelude.Text.{Text, text, text_eq, trim, to_lower}
use printer_repo.Printer.Routing.{contains}
use printer_repo.Agents.{AgentAccount, is_agent}
use printer_repo.Job.Row.{Clock, Table}
use printer_repo.Job.Status.{Value}
use printer_repo.Job.Report.{Reporter}
use printer_repo.Job.KeepAlive.{Entry, bare, object, junk, keep_alive}
use printer_repo.Json.{
  Json, null, str, arr, obj, Items, nil, cons, done, get, member, string_of, stringify,
}
use printer_repo.Inventory.{
  ReportedPrinter, SkipReason, Checked, ok, skip, throws, sanitize_printer,
}
use printer_repo.Inventory.Record.{PrinterRow, record_printer}

abbrev pub valid_agent_statuses : List Text
valid_agent_statuses = text "online" ∷ text "offline" ∷ []

pub record Skipped : Type 0 where
  pub id : Text
  pub reason : SkipReason

-- The tables that the handler writes.
pub record Gateway : Type 0 where
  pub agents : List AgentAccount
  pub jobs : Table
  pub printers : List PrinterRow

pub data HeartbeatReply : Type 0 where
  unauthorized body_too_large bad_status too_many_printers metadata_too_large : HeartbeatReply
  agent_is : Text → HeartbeatReply
  internal_server_error : HeartbeatReply
  success : List Skipped → HeartbeatReply

-- The table after the loop, and the refused printers, or `none` where the loop threw.
pub record LoopEnd : Type 0 where
  pub rows : List PrinterRow
  pub skipped : Option (List Skipped)

abbrev pub raw_id : Json → Text
raw_id (obj fields) = text_id (string_of (get (text "id") fields))
  where
    text_id : Option Text → Text
    text_id none = text "(unknown)"
    text_id (some t) = t
raw_id _ = text "(unknown)"

-- Reading a property of `null` throws; a text, a number, a Boolean or an array has none of the properties.
unfoldable pub sanitize : Json → Checked ReportedPrinter
unfolding sanitize_printer
sanitize null = throws
sanitize (obj fields) = sanitize_printer fields
sanitize _ = sanitize_printer done

abbrev add_skipped : Text → SkipReason → Option (List Skipped) → Option (List Skipped)
add_skipped id reason none = none
add_skipped id reason (some later) = some (record { id = id; reason = reason } ∷ later)

abbrev pub note : Text → Option SkipReason → LoopEnd → LoopEnd
note id none end = end
note id (some reason) end = record end { skipped = add_skipped id reason end.skipped }

-- One round of the loop, and what is left of it.
unfoldable pub by_check :
    Reporter
    → Clock
    → (arrivals : List PrinterRow) → (id : Text) → Checked ReportedPrinter
    → List PrinterRow
    → (later : List PrinterRow → LoopEnd) → LoopEnd
unfolding record_printer
by_check agent clock arrivals id throws rows later = record { rows = rows; skipped = none }
by_check agent clock arrivals id (skip reason) rows later = note id (some reason) (later rows)
by_check agent clock arrivals id (ok p) rows later =
    let written = record_printer agent clock arrivals p rows in
    note p.id written.1 (later written.0)

-- The loop over the reported printers; `arrivals i` are the rows that other requests insert while
-- the printer at position `i` is written.
unfoldable pub record_printers :
    Reporter → Clock → (arrivals : ℕ → List PrinterRow) → ℕ → Items → List PrinterRow → LoopEnd
unfolding sanitize by_check
record_printers agent clock arrivals i nil rows = record { rows = rows; skipped = some [] }
record_printers agent clock arrivals i (cons raw rest) rows =
    by_check agent clock (arrivals i) (raw_id raw) (sanitize raw) rows
      (record_printers agent clock arrivals (suc i) rest)

abbrev value_of : Option Json → Value
value_of (some (str t)) = Value.str t
value_of _ = Value.other

-- An entry of `keepAliveJobIds`; an array has none of the fields.
unfoldable pub entry_of : Json → Entry
entry_of (str t) = bare t
entry_of (obj fields) =
    object (value_of (get (text "jobId") fields)) (value_of (get (text "id") fields))
      (value_of (get (text "claimToken") fields))
entry_of (arr items) = object Value.other Value.other Value.other
entry_of _ = junk

abbrev pub array_of : Option Json → Items
array_of (some (arr items)) = items
array_of _ = nil

unfoldable pub entries_of : Items → List Entry
unfolding entry_of
entries_of nil = []
entries_of (cons v rest) = entry_of v ∷ entries_of rest

abbrev pub size_of : Items → ℕ
size_of nil = 0
size_of (cons v rest) = suc (size_of rest)

abbrev raw_status : Option Text → Text
raw_status none = text "online"
raw_status (some t) = to_lower (trim t)

abbrev pub status_of_body : Option Json → Text
status_of_body body = raw_status (string_of (member (text "status") body))

unfoldable pub see_agent : Reporter → Text → Clock → List AgentAccount → List AgentAccount
see_agent agent status clock accounts =
    map
      (λ (a : AgentAccount).
        if is_agent agent.id agent.tenant_id a
        then record a { status = status; last_seen_at = some clock.app_now }
        else a)
      accounts

abbrev pub answer : Option (List Skipped) → HeartbeatReply
answer none = internal_server_error
answer (some skipped) = success skipped

-- The statements after the tests on the body.
unfoldable pub beat :
    Reporter
    → Clock
    → (ℕ → List PrinterRow)
    → Text
    → Option Json
    → Gateway
    → Gateway × HeartbeatReply
unfolding record_printers see_agent entries_of
beat agent clock arrivals status body gateway =
    let end =
      record_printers agent clock arrivals 0 (array_of (member (text "printers") body))
        gateway.printers in
    (
      record {
        agents = see_agent agent status clock gateway.agents;
        jobs =
            keep_alive agent (entries_of (array_of (member (text "keepAliveJobIds") body))) clock
              gateway.jobs;
        printers = end.rows;
      },
      answer end.skipped,
    )

-- The early answers: to an agent that is not active, to a declared size over the limit, to a body that
-- is no JSON (`none`), and to what the body says.
unfoldable pub refusal : Text → (over_limit : Bool) → Option Json → Option HeartbeatReply
refusal lifecycle over_limit body =
    let printers = array_of (member (text "printers") body) in
    if not (text_eq lifecycle (text "active"))
    then some (agent_is lifecycle)
    else if over_limit
    then some body_too_large
    else if is_none body
    then some internal_server_error
    else if not (contains valid_agent_statuses (status_of_body body))
    then some bad_status
    else if not (leb (size_of printers) 500)
    then some too_many_printers
    else if not (leb (length (stringify (arr printers))) 256_000)
    then some metadata_too_large
    else none

abbrev pub unless_refused :
    Option HeartbeatReply → Gateway → Gateway × HeartbeatReply → Gateway × HeartbeatReply
unless_refused none gateway next = next
unless_refused (some reply) gateway next = (gateway, reply)

abbrev pub reporter : AgentAccount → Reporter
reporter account = record { id = account.id; tenant_id = account.tenant_id }

-- The handler for the authenticated agent, if there is one; `over_limit` is the test on the declared size.
unfoldable pub heartbeat :
    Option AgentAccount
    → (over_limit : Bool) → Clock
    → (ℕ → List PrinterRow)
    → Option Json
    → Gateway
    → Gateway × HeartbeatReply
unfolding beat refusal
heartbeat none over_limit clock arrivals body gateway = (gateway, unauthorized)
heartbeat (some account) over_limit clock arrivals body gateway =
    unless_refused (refusal account.lifecycle over_limit body) gateway
      (beat (reporter account) clock arrivals (status_of_body body) body gateway)
