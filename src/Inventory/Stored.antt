-- ===== src/Inventory/Stored.antt =====
-- What becomes of a reported printer: it is stored, or the answer names it with a reason.
use printer_repo.Prelude.{
  ℕ, suc, ◌≡◌, refl, inl, inr, Bool, true, false, List, [], ◌∷◌, Option, none, some, arith,
  Bool-cases,
}
use printer_repo.Prelude.Text.{Text, text_eq, text_eq_refl, text_eq_sound}
use printer_repo.Job.Row.{Clock}
use printer_repo.Job.Report.{Reporter}
use printer_repo.Json.{Items, nil, cons, null}
use printer_repo.Inventory.{ReportedPrinter, Checked, ok, skip, throws, SkipReason}
use printer_repo.Inventory.Record.{
  PrinterRow, is_row, find_printer, insert_absent, printer_update_set, update_printer,
  printer_values, arrive, by_raced, by_insert, by_existing, record_printer,
}
use printer_repo.Inventory.Heartbeat.{LoopEnd, raw_id, note, sanitize, by_check, record_printers}
use printer_repo.Inventory.Laws.{arrive-finds}

-- The row says what the agent reported.
abbrev pub Says : Reporter → ReportedPrinter → PrinterRow → Type 0
Says agent p r =
    (r.tenant_id ≡ agent.tenant_id)
    × (r.agent_id ≡ agent.id)
    × (r.name ≡ p.name)
    × (r.printer_type ≡ p.printer_type)
    × (r.device_class ≡ p.device_class)
    × (r.connection_type ≡ p.connection_type)
    × (r.protocol ≡ p.protocol)
    × (r.status ≡ p.status)
    × (r.config ≡ some p.config)
    × (r.capabilities ≡ p.capabilities)

-- The printer was refused, or the table has it as reported.
abbrev pub IsSettled : Reporter → ReportedPrinter → List PrinterRow × Option SkipReason → Type 0
IsSettled agent p (rows, some reason) = Unit
IsSettled agent p (rows, none) =
    (r : PrinterRow) × (find_printer (is_row p.id agent.tenant_id) rows ≡ some r) × Says agent p r

find-update :
    (agent : Reporter) (p : ReportedPrinter) (clock : Clock) (rows : List PrinterRow)
    (r : PrinterRow)
    → find_printer (is_row p.id agent.tenant_id) rows ≡ some r
    → find_printer (is_row p.id agent.tenant_id) (update_printer agent p clock rows)
      ≡ some (printer_update_set p clock r)
unfolding find_printer update_printer printer_update_set
find-update agent p clock [] r h = cc
find-update agent p clock (s ∷ rest) r h = elim (Bool-cases (is_row p.id agent.tenant_id s)) [
  | inl row ↦ ground arith
  | inr other ↦ ground (arith, find-update agent p clock rest r (rw other at h))
]

found_tenant :
    (id tenant : Text) (rows : List PrinterRow) (r : PrinterRow)
    → find_printer (is_row id tenant) rows ≡ some r
    → text_eq r.tenant_id tenant ≡ true
unfolding find_printer
found_tenant id tenant [] r h = cc
found_tenant id tenant (s ∷ rest) r h = elim (Bool-cases (is_row id tenant s)) [
  | inl row ↦ ground arith
  | inr other ↦ found_tenant id tenant rest r (rw other at h)
]

updated-IsSettled :
    (agent : Reporter) (p : ReportedPrinter) (clock : Clock) (rows : List PrinterRow)
    (r : PrinterRow)
    → find_printer (is_row p.id agent.tenant_id) rows ≡ some r
    → text_eq r.agent_id agent.id ≡ true
    → IsSettled agent p (update_printer agent p clock rows, none)
unfolding printer_update_set
updated-IsSettled agent p clock rows r h own = (
  printer_update_set p clock r,
  find-update agent p clock rows r h,
  (
    text_eq_sound r.tenant_id agent.tenant_id (found_tenant p.id agent.tenant_id rows r h),
    text_eq_sound r.agent_id agent.id own,
    refl,
    refl,
    refl,
    refl,
    refl,
    refl,
    refl,
    refl,
  ),
)

find-insert :
    (id tenant : Text) (row : PrinterRow) (rows : List PrinterRow)
    → row.id ≡ id
    → row.tenant_id ≡ tenant
    → (insert_absent row rows).1 ≡ true
    → find_printer (is_row id tenant) (insert_absent row rows).0 ≡ some row
unfolding insert_absent find_printer
find-insert id tenant row [] e f h =
    rw (e, f) (ground (arith, text_eq_refl id, text_eq_refl tenant))
find-insert id tenant row (s ∷ rest) e f h = elim (Bool-cases (text_eq s.id row.id)) [
  | inl same ↦ absurd (ground arith)
  | inr other ↦ ground (arith, find-insert id tenant row rest e f)
]

by_raced-IsSettled :
    (agent : Reporter) (p : ReportedPrinter) (clock : Clock) (raced : Option PrinterRow)
    (rows : List PrinterRow)
    → find_printer (is_row p.id agent.tenant_id) rows ≡ raced
    → IsSettled agent p (by_raced agent p clock raced rows)
unfolding by_raced
by_raced-IsSettled agent p clock none rows h = tt
by_raced-IsSettled agent p clock (some raced) rows h =
    elim (Bool-cases (text_eq raced.agent_id agent.id)) [
      | inl own ↦ rw own (updated-IsSettled agent p clock rows raced h own)
      | inr other ↦ rw other tt
    ]

by_insert-IsSettled :
    (agent : Reporter) (p : ReportedPrinter) (clock : Clock) (inserted : List PrinterRow × Bool)
    → (inserted.1 ≡ true
        → find_printer (is_row p.id agent.tenant_id) inserted.0
          ≡ some (printer_values agent p clock))
    → IsSettled agent p (by_insert agent p clock inserted)
unfolding by_insert printer_values
by_insert-IsSettled agent p clock (rows, true) h = (
  printer_values agent p clock,
  h refl,
  (refl, refl, refl, refl, refl, refl, refl, refl, refl, refl),
)
by_insert-IsSettled agent p clock (rows, false) h =
    by_raced-IsSettled agent p clock (find_printer (is_row p.id agent.tenant_id) rows) rows refl

by_existing-IsSettled :
    (agent : Reporter) (p : ReportedPrinter) (clock : Clock) (existing : Option PrinterRow)
    (more rows : List PrinterRow)
    → find_printer (is_row p.id agent.tenant_id) rows ≡ existing
    → IsSettled agent p (by_existing agent p clock existing (arrive more rows))
unfolding by_existing printer_values
by_existing-IsSettled agent p clock none more rows h =
    by_insert-IsSettled agent p clock
      (insert_absent (printer_values agent p clock) (arrive more rows))
      (find-insert p.id agent.tenant_id (printer_values agent p clock) (arrive more rows) refl refl)
by_existing-IsSettled agent p clock (some seen) more rows h =
    elim (Bool-cases (text_eq seen.agent_id agent.id)) [
      | inl own ↦ rw own (
          updated-IsSettled agent p clock (arrive more rows) seen
            (arrive-finds (is_row p.id agent.tenant_id) more rows seen h) own)
      | inr other ↦ rw other tt
    ]

-- A reported printer that passed the tests is either refused with a reason, or after its round the
-- table has it under its id and the agent's tenant, as the agent's, with all that was reported.
pub record_printer-IsSettled :
    (agent : Reporter) (clock : Clock) (arrivals : List PrinterRow) (p : ReportedPrinter)
    (rows : List PrinterRow)
    → IsSettled agent p (record_printer agent clock arrivals p rows)
unfolding record_printer
record_printer-IsSettled agent clock arrivals p rows =
    by_existing-IsSettled agent p clock (find_printer (is_row p.id agent.tenant_id) rows) arrivals
      rows refl

abbrev pub append_items : Items → Items → Items
append_items nil more = more
append_items (cons v rest) more = cons v (append_items rest more)

lose-note :
    (id : Text) (reason : Option SkipReason) (end : LoopEnd)
    → note id reason (record { rows = end.rows; skipped = none })
      ≡ record { rows = (note id reason end).rows; skipped = none }
lose-note id none end = refl
lose-note id (some reason) end = refl

by_check-lost :
    (agent : Reporter) (clock : Clock) (more : List PrinterRow) (id : Text)
    (checked : Checked ReportedPrinter) (rows : List PrinterRow) (f g : List PrinterRow → LoopEnd)
    → ((rows' : List PrinterRow) → f rows' ≡ record { rows = (g rows').rows; skipped = none })
    → by_check agent clock more id checked rows f
      ≡ record { rows = (by_check agent clock more id checked rows g).rows; skipped = none }
unfolding by_check
by_check-lost agent clock more id throws rows f g h = refl
by_check-lost agent clock more id (skip reason) rows f g h =
    rw (h rows) (lose-note id (some reason) (g rows))
by_check-lost agent clock more id (ok p) rows f g h =
    let written = record_printer agent clock more p rows in
    rw (h written.0) (lose-note p.id written.1 (g written.0))

-- An entry `null` among the reported printers ends the request with an error: the printers before it
-- are stored, those after it are not, and no refusal is reported.
pub null_entry-fails :
    (agent : Reporter) (clock : Clock) (arrivals : ℕ → List PrinterRow) (i : ℕ)
    (before after : Items) (rows : List PrinterRow)
    → record_printers agent clock arrivals i (append_items before (cons null after)) rows
      ≡ record { rows = (record_printers agent clock arrivals i before rows).rows; skipped = none }
unfolding record_printers by_check sanitize
null_entry-fails agent clock arrivals i nil after rows = refl
null_entry-fails agent clock arrivals i (cons v before) after rows =
    by_check-lost agent clock (arrivals i) (raw_id v) (sanitize v) rows
      (record_printers agent clock arrivals (suc i) (append_items before (cons null after)))
      (record_printers agent clock arrivals (suc i) before)
      (λ rows'. null_entry-fails agent clock arrivals (suc i) before after rows')
