-- ===== src/Inventory/Constraints.antt =====
-- A heartbeat keeps the check constraints of the table `printers`.
use printer_repo.Prelude.{
  ℕ, suc, ◌≡◌, refl, inl, inr, Bool, true, false, List, [], ◌∷◌, Option, none, some, arith,
  Bool-cases, All,
}
use printer_repo.Prelude.Text.{text, text_eq}
use printer_repo.Job.Row.{Clock}
use printer_repo.Job.Report.{Reporter}
use printer_repo.Agents.{AgentAccount}
use printer_repo.Json.{Json, Items, nil, cons, null, boolean, number, str, arr, obj, done, member}
use printer_repo.Inventory.{ReportedPrinter, Checked, ok, skip, throws}
use printer_repo.Inventory.Record.{
  PrinterRow, printers_check, is_row, find_printer, insert_absent, printer_update_set,
  update_printer, printer_values, arrive, by_raced, by_insert, by_existing, record_printer,
}
use printer_repo.Inventory.Heartbeat.{
  Gateway, LoopEnd, HeartbeatReply, reporter, refusal, unless_refused, status_of_body, array_of,
  raw_id, sanitize, by_check, record_printers, beat, heartbeat,
}
use printer_repo.Inventory.Checks.{IsClean, sanitize-IsClean}
use printer_repo.Inventory.Laws.{note_rows}

abbrev pub AllChecked : List PrinterRow → Type 0
AllChecked rows = All (λ r. printers_check r ≡ true) rows

updated_checked :
    (p : ReportedPrinter) (clock : Clock) (r : PrinterRow)
    → IsClean p
    → printers_check r ≡ true
    → printers_check (printer_update_set p clock r) ≡ true
unfolding printers_check printer_update_set
updated_checked p clock r clean h =
    rw
      (
        clean.type_known, clean.class_known, clean.connection_known, clean.protocol_known,
        clean.status_known,
      )
      (ground (arith, h))

inserted_checked :
    (agent : Reporter) (p : ReportedPrinter) (clock : Clock)
    → IsClean p
    → printers_check (printer_values agent p clock) ≡ true
unfolding printers_check printer_values text text_eq
inserted_checked agent p clock clean =
    rw
      (
        clean.type_known, clean.class_known, clean.connection_known, clean.protocol_known,
        clean.status_known,
      )
      refl

update-AllChecked :
    (agent : Reporter) (p : ReportedPrinter) (clock : Clock) (rows : List PrinterRow)
    → IsClean p
    → AllChecked rows
    → AllChecked (update_printer agent p clock rows)
unfolding update_printer
update-AllChecked agent p clock [] clean h = tt
update-AllChecked agent p clock (r ∷ rest) clean (h, hs) =
    elim (Bool-cases (is_row p.id agent.tenant_id r)) [
      | inl row ↦
          rw row (updated_checked p clock r clean h, update-AllChecked agent p clock rest clean hs)
      | inr other ↦ rw other (h, update-AllChecked agent p clock rest clean hs)
    ]

insert-AllChecked :
    (row : PrinterRow) (rows : List PrinterRow)
    → printers_check row ≡ true
    → AllChecked rows
    → AllChecked (insert_absent row rows).0
unfolding insert_absent
insert-AllChecked row [] k h = (k, tt)
insert-AllChecked row (r ∷ rest) k (h, hs) = elim (Bool-cases (text_eq r.id row.id)) [
  | inl same ↦ rw same (h, hs)
  | inr other ↦ rw other (h, insert-AllChecked row rest k hs)
]

arrive-AllChecked :
    (more rows : List PrinterRow)
    → AllChecked more
    → AllChecked rows
    → AllChecked (arrive more rows)
unfolding arrive
arrive-AllChecked [] rows k h = h
arrive-AllChecked (m ∷ more) rows (k, ks) h =
    arrive-AllChecked more (insert_absent m rows).0 ks (insert-AllChecked m rows k h)

by_raced-AllChecked :
    (agent : Reporter) (p : ReportedPrinter) (clock : Clock) (raced : Option PrinterRow)
    (rows : List PrinterRow)
    → IsClean p
    → AllChecked rows
    → AllChecked (by_raced agent p clock raced rows).0
unfolding by_raced
by_raced-AllChecked agent p clock none rows clean h = h
by_raced-AllChecked agent p clock (some raced) rows clean h =
    elim (Bool-cases (text_eq raced.agent_id agent.id)) [
      | inl own ↦ rw own (update-AllChecked agent p clock rows clean h)
      | inr other ↦ rw other h
    ]

by_insert-AllChecked :
    (agent : Reporter) (p : ReportedPrinter) (clock : Clock) (inserted : List PrinterRow × Bool)
    → IsClean p
    → AllChecked inserted.0
    → AllChecked (by_insert agent p clock inserted).0
unfolding by_insert
by_insert-AllChecked agent p clock (rows, true) clean h = h
by_insert-AllChecked agent p clock (rows, false) clean h =
    by_raced-AllChecked agent p clock (find_printer (is_row p.id agent.tenant_id) rows) rows clean h

by_existing-AllChecked :
    (agent : Reporter) (p : ReportedPrinter) (clock : Clock) (existing : Option PrinterRow)
    (rows : List PrinterRow)
    → IsClean p
    → AllChecked rows
    → AllChecked (by_existing agent p clock existing rows).0
unfolding by_existing
by_existing-AllChecked agent p clock none rows clean h =
    by_insert-AllChecked agent p clock (insert_absent (printer_values agent p clock) rows) clean (
      insert-AllChecked (printer_values agent p clock) rows (inserted_checked agent p clock clean)
        h)
by_existing-AllChecked agent p clock (some seen) rows clean h =
    elim (Bool-cases (text_eq seen.agent_id agent.id)) [
      | inl own ↦ rw own (update-AllChecked agent p clock rows clean h)
      | inr other ↦ rw other h
    ]

record_printer-AllChecked :
    (agent : Reporter) (clock : Clock) (more : List PrinterRow) (p : ReportedPrinter)
    (rows : List PrinterRow)
    → IsClean p
    → AllChecked more
    → AllChecked rows
    → AllChecked (record_printer agent clock more p rows).0
unfolding record_printer
record_printer-AllChecked agent clock more p rows clean k h =
    by_existing-AllChecked agent p clock (find_printer (is_row p.id agent.tenant_id) rows)
      (arrive more rows) clean (arrive-AllChecked more rows k h)

sanitized-IsClean : (raw : Json) (p : ReportedPrinter) → sanitize raw ≡ ok p → IsClean p
unfolding sanitize
sanitized-IsClean null p h = cc
sanitized-IsClean (obj fields) p h = sanitize-IsClean fields p h
sanitized-IsClean (boolean b) p h = sanitize-IsClean done p h
sanitized-IsClean (number n) p h = sanitize-IsClean done p h
sanitized-IsClean (str t) p h = sanitize-IsClean done p h
sanitized-IsClean (arr items) p h = sanitize-IsClean done p h

by_check-AllChecked :
    (agent : Reporter) (clock : Clock) (more : List PrinterRow) (raw : Json)
    (checked : Checked ReportedPrinter) (rows : List PrinterRow) (later : List PrinterRow → LoopEnd)
    → sanitize raw ≡ checked
    → AllChecked more
    → AllChecked rows
    → ((rows' : List PrinterRow) → AllChecked rows' → AllChecked (later rows').rows)
    → AllChecked (by_check agent clock more (raw_id raw) checked rows later).rows
unfolding by_check
by_check-AllChecked agent clock more raw throws rows later e k h next = h
by_check-AllChecked agent clock more raw (skip reason) rows later e k h next = next rows h
by_check-AllChecked agent clock more raw (ok p) rows later e k h next =
    let written = record_printer agent clock more p rows in
    rw (note_rows p.id written.1 (later written.0)) (
      next written.0
        (record_printer-AllChecked agent clock more p rows (sanitized-IsClean raw p e) k h))

record_printers-AllChecked :
    (agent : Reporter) (clock : Clock) (arrivals : ℕ → List PrinterRow) (i : ℕ) (items : Items)
    (rows : List PrinterRow)
    → ((j : ℕ) → AllChecked (arrivals j))
    → AllChecked rows
    → AllChecked (record_printers agent clock arrivals i items rows).rows
unfolding record_printers
record_printers-AllChecked agent clock arrivals i nil rows k h = h
record_printers-AllChecked agent clock arrivals i (cons raw rest) rows k h =
    by_check-AllChecked agent clock (arrivals i) raw (sanitize raw) rows
      (record_printers agent clock arrivals (suc i) rest) refl (k i) h
      (λ rows' h'. record_printers-AllChecked agent clock arrivals (suc i) rest rows' k h')

checked_unless :
    (gateway : Gateway) (refused : Option HeartbeatReply) (next : Gateway × HeartbeatReply)
    → AllChecked gateway.printers
    → AllChecked next.0.printers
    → AllChecked (unless_refused refused gateway next).0.printers
checked_unless gateway none next h k = k
checked_unless gateway (some reply) next h k = h

-- A heartbeat keeps the check constraints of the table of printers, whatever the body says: no statement
-- of it is refused by a constraint, where the rows that others insert meanwhile satisfy them.
pub heartbeat-AllChecked :
    (account : AgentAccount) (over_limit : Bool) (clock : Clock) (arrivals : ℕ → List PrinterRow)
    (body : Option Json) (gateway : Gateway)
    → ((i : ℕ) → AllChecked (arrivals i))
    → AllChecked gateway.printers
    → AllChecked (heartbeat (some account) over_limit clock arrivals body gateway).0.printers
unfolding heartbeat beat
heartbeat-AllChecked account over_limit clock arrivals body gateway k h =
    checked_unless gateway (refusal account.lifecycle over_limit body)
      (beat (reporter account) clock arrivals (status_of_body body) body gateway) h
      (record_printers-AllChecked (reporter account) clock arrivals 0
        (array_of (member (text "printers") body)) gateway.printers k h)
