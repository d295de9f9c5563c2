-- ===== src/Inventory/Laws.antt =====
-- What a heartbeat leaves alone in the table of printers, and what it stores.
use printer_repo.Prelude.{
  ℕ, suc, ◌≡◌, refl, ap, sym, ◌∙◌, ◌⊎◌, inl, inr, Bool, true, false, List, [], ◌∷◌, Option, none,
  some, arith, Bool-cases,
}
use printer_repo.Prelude.Text.{Text, text, text_eq, text_eq_sound}
use printer_repo.Agents.{AgentAccount}
use printer_repo.Job.Row.{Clock}
use printer_repo.Job.Report.{Reporter}
use printer_repo.Json.{Json, Items, nil, cons, member}
use printer_repo.Inventory.{SkipReason, ReportedPrinter, Checked, ok, skip, throws}
use printer_repo.Inventory.Record.{
  PrinterRow, is_row, find_printer, insert_absent, printer_update_set, update_printer,
  printer_values, arrive, by_raced, by_insert, by_existing, record_printer,
}
use printer_repo.Inventory.Heartbeat.{
  reporter, refusal, unless_refused, status_of_body, raw_id, HeartbeatReply, array_of, Gateway,
  LoopEnd, note, sanitize, by_check, record_printers, beat, heartbeat,
}

abbrev pub has_id : Text → PrinterRow → Bool
has_id id r = text_eq r.id id

-- The row under an id, which is the table's key.
abbrev pub printer_at : Text → List PrinterRow → Option PrinterRow
printer_at id rows = find_printer (has_id id) rows

-- A row as it was, or a row of the agent that kept all that identifies it and its lifecycle.
abbrev pub IsKept : Reporter → PrinterRow → PrinterRow → Type 0
IsKept agent r r' =
    (r' ≡ r)
    ⊎ ((r.tenant_id ≡ agent.tenant_id)
        × (r.agent_id ≡ agent.id)
        × (r'.id ≡ r.id)
        × (r'.tenant_id ≡ r.tenant_id)
        × (r'.agent_id ≡ r.agent_id)
        × (r'.lifecycle ≡ r.lifecycle)
        × (r'.created_at ≡ r.created_at))

-- The row under an id is kept.
abbrev pub Keeps : Reporter → Text → List PrinterRow → List PrinterRow → Type 0
Keeps agent id rows rows' =
    (r : PrinterRow)
    → printer_at id rows ≡ some r
    → (r' : PrinterRow) × (printer_at id rows' ≡ some r') × IsKept agent r r'

IsKept-trans :
    (agent : Reporter) (a b c : PrinterRow) → IsKept agent a b → IsKept agent b c → IsKept agent a c
IsKept-trans agent a b c (inl e) (inl f) = inl (cc)
IsKept-trans agent a b c (inl e) (inr k) = inr (rw (← e) k)
IsKept-trans agent a b c (inr k) (inl f) = inr (rw f k)
IsKept-trans agent a b c (inr (t, g, i, u, h, l, z)) (inr (t', g', i', u', h', l', z')) =
    inr (t, g, cc, cc, cc, cc, cc)

Keeps-trans :
    (agent : Reporter) (id : Text) (a b c : List PrinterRow)
    → Keeps agent id a b
    → Keeps agent id b c
    → Keeps agent id a c
Keeps-trans agent id a b c f g r e =
    let (r', e', k) = f r e in
    let (r'', e'', k') = g r' e' in (r'', e'', IsKept-trans agent r r' r'' k k')

Keeps-refl : (agent : Reporter) (id : Text) (rows : List PrinterRow) → Keeps agent id rows rows
Keeps-refl agent id rows r e = (r, e, inl refl)

-- What a test finds is found after an insert, too.
pub insert-finds :
    (test : PrinterRow → Bool) (row : PrinterRow) (rows : List PrinterRow) (r : PrinterRow)
    → find_printer test rows ≡ some r
    → find_printer test (insert_absent row rows).0 ≡ some r
unfolding insert_absent find_printer
insert-finds test row [] r h = cc
insert-finds test row (s ∷ rest) r h = ground (arith, insert-finds test row rest r)

pub arrive-finds :
    (test : PrinterRow → Bool) (more rows : List PrinterRow) (r : PrinterRow)
    → find_printer test rows ≡ some r
    → find_printer test (arrive more rows) ≡ some r
unfolding arrive
arrive-finds test [] rows r h = h
arrive-finds test (m ∷ more) rows r h =
    arrive-finds test more (insert_absent m rows).0 r (insert-finds test m rows r h)

found_id :
    (id : Text) (rows : List PrinterRow) (r : PrinterRow)
    → printer_at id rows ≡ some r
    → text_eq r.id id ≡ true
unfolding find_printer
found_id id [] r h = cc
found_id id (s ∷ rest) r h = elim (Bool-cases (text_eq s.id id)) [
  | inl same ↦ ground (arith, ap (λ (q : Option PrinterRow). q) h)
  | inr other ↦ found_id id rest r (rw other at h)
]

-- The key finds the row that the key and the tenant find.
find-key :
    (id tenant : Text) (rows : List PrinterRow) (r : PrinterRow)
    → printer_at id rows ≡ some r
    → text_eq r.tenant_id tenant ≡ true
    → find_printer (is_row id tenant) rows ≡ some r
unfolding find_printer
find-key id tenant [] r h t = cc
find-key id tenant (s ∷ rest) r h t = elim (Bool-cases (text_eq s.id id)) [
  | inl same ↦ ground arith
  | inr other ↦ ground (arith, find-key id tenant rest r (rw other at h) t)
]

updated : Reporter → ReportedPrinter → Clock → PrinterRow → PrinterRow
updated agent p clock r = elim (is_row p.id agent.tenant_id r) [
  | true ↦ printer_update_set p clock r
  | false ↦ r
]

update-at :
    (agent : Reporter) (p : ReportedPrinter) (clock : Clock) (id : Text) (rows : List PrinterRow)
    (r : PrinterRow)
    → printer_at id rows ≡ some r
    → printer_at id (update_printer agent p clock rows) ≡ some (updated agent p clock r)
unfolding update_printer find_printer updated printer_update_set
update-at agent p clock id [] r h = cc
update-at agent p clock id (s ∷ rest) r h = elim (Bool-cases (text_eq s.id id)) [
  | inl same ↦ ground arith
  | inr other ↦ ground (arith, update-at agent p clock id rest r (rw other at h))
]

updated-IsKept :
    (agent : Reporter) (p : ReportedPrinter) (clock : Clock) (r : PrinterRow)
    → (is_row p.id agent.tenant_id r ≡ true → text_eq r.agent_id agent.id ≡ true)
    → IsKept agent r (updated agent p clock r)
unfolding updated printer_update_set
updated-IsKept agent p clock r own = elim (Bool-cases (is_row p.id agent.tenant_id r)) [
  | inl row ↦
      rw (row, updated)
        (inr (
          text_eq_sound r.tenant_id agent.tenant_id (ground arith),
          text_eq_sound r.agent_id agent.id (own row),
          refl,
          refl,
          refl,
          refl,
          refl,
        ))
  | inr other ↦ rw (other, updated) (inl refl)
]

-- An update is of the agent's own row, where the row that was read is the agent's.
update-Keeps :
    (agent : Reporter) (p : ReportedPrinter) (clock : Clock) (id : Text)
    (rows rows' : List PrinterRow) (seen : PrinterRow)
    → find_printer (is_row p.id agent.tenant_id) rows ≡ some seen
    → text_eq seen.agent_id agent.id ≡ true
    → ((r : PrinterRow) → printer_at id rows ≡ some r → printer_at id rows' ≡ some r)
    → Keeps agent id rows (update_printer agent p clock rows')
update-Keeps agent p clock id rows rows' seen e own stays r h = (
  updated agent p clock r,
  update-at agent p clock id rows' r (stays r h),
  updated-IsKept agent p clock r (λ row. same_row row),
)
  where
    same_row : is_row p.id agent.tenant_id r ≡ true → text_eq r.agent_id agent.id ≡ true
    same_row row =
        let key : id ≡ p.id =
          sym (text_eq_sound r.id id (found_id id rows r h))
          ∙ text_eq_sound r.id p.id (ground arith) in
        let found : find_printer (is_row p.id agent.tenant_id) rows ≡ some r =
          find-key p.id agent.tenant_id rows r (rw (← key) h) (ground arith) in
        ground (arith, e, found, own)

insert-Keeps :
    (agent : Reporter) (id : Text) (row : PrinterRow) (more rows : List PrinterRow)
    → Keeps agent id rows (insert_absent row (arrive more rows)).0
insert-Keeps agent id row more rows r h = (
  r,
  insert-finds (has_id id) row (arrive more rows) r (arrive-finds (has_id id) more rows r h),
  inl refl,
)

by_raced-Keeps :
    (agent : Reporter) (p : ReportedPrinter) (clock : Clock) (id : Text) (rows : List PrinterRow)
    (raced : Option PrinterRow)
    → find_printer (is_row p.id agent.tenant_id) rows ≡ raced
    → Keeps agent id rows (by_raced agent p clock raced rows).0
unfolding by_raced
by_raced-Keeps agent p clock id rows none e = Keeps-refl agent id rows
by_raced-Keeps agent p clock id rows (some raced) e =
    elim (Bool-cases (text_eq raced.agent_id agent.id)) [
      | inl own ↦ rw own (update-Keeps agent p clock id rows rows raced e own (λ r h. h))
      | inr other ↦ rw other (Keeps-refl agent id rows)
    ]

by_insert-Keeps :
    (agent : Reporter) (p : ReportedPrinter) (clock : Clock) (id : Text)
    (inserted : List PrinterRow × Bool)
    → Keeps agent id inserted.0 (by_insert agent p clock inserted).0
unfolding by_insert
by_insert-Keeps agent p clock id (rows, true) = Keeps-refl agent id rows
by_insert-Keeps agent p clock id (rows, false) =
    by_raced-Keeps agent p clock id rows (find_printer (is_row p.id agent.tenant_id) rows) refl

by_existing-Keeps :
    (agent : Reporter) (p : ReportedPrinter) (clock : Clock) (id : Text)
    (more rows : List PrinterRow) (existing : Option PrinterRow)
    → find_printer (is_row p.id agent.tenant_id) rows ≡ existing
    → Keeps agent id rows (by_existing agent p clock existing (arrive more rows)).0
unfolding by_existing
by_existing-Keeps agent p clock id more rows none e =
    Keeps-trans agent id rows (insert_absent (printer_values agent p clock) (arrive more rows)).0 _
      (insert-Keeps agent id (printer_values agent p clock) more rows)
      (by_insert-Keeps agent p clock id
        (insert_absent (printer_values agent p clock) (arrive more rows)))
by_existing-Keeps agent p clock id more rows (some seen) e =
    elim (Bool-cases (text_eq seen.agent_id agent.id)) [
      | inl own ↦ rw own (
          update-Keeps agent p clock id rows (arrive more rows) seen e own
            (λ r h. arrive-finds (has_id id) more rows r h))
      | inr other ↦ rw other (λ r h. (r, arrive-finds (has_id id) more rows r h, inl refl))
    ]

pub record_printer-Keeps :
    (agent : Reporter) (clock : Clock) (more : List PrinterRow) (p : ReportedPrinter)
    (rows : List PrinterRow) (id : Text)
    → Keeps agent id rows (record_printer agent clock more p rows).0
unfolding record_printer
record_printer-Keeps agent clock more p rows id =
    by_existing-Keeps agent p clock id more rows (find_printer (is_row p.id agent.tenant_id) rows)
      refl

pub note_rows :
    (id : Text) (reason : Option SkipReason) (end : LoopEnd) → (note id reason end).rows ≡ end.rows
note_rows id none end = refl
note_rows id (some reason) end = refl

by_check-Keeps :
    (agent : Reporter) (clock : Clock) (more : List PrinterRow) (raw : Text)
    (checked : Checked ReportedPrinter) (rows : List PrinterRow) (later : List PrinterRow → LoopEnd)
    (id : Text)
    → ((rows' : List PrinterRow) → Keeps agent id rows' (later rows').rows)
    → Keeps agent id rows (by_check agent clock more raw checked rows later).rows
unfolding by_check
by_check-Keeps agent clock more raw throws rows later id keep = Keeps-refl agent id rows
by_check-Keeps agent clock more raw (skip reason) rows later id keep = keep rows
by_check-Keeps agent clock more raw (ok p) rows later id keep =
    let written = record_printer agent clock more p rows in
    rw (note_rows p.id written.1 (later written.0)) (
      Keeps-trans agent id rows written.0 _ (record_printer-Keeps agent clock more p rows id)
        (keep written.0))

pub record_printers-Keeps :
    (agent : Reporter) (clock : Clock) (arrivals : ℕ → List PrinterRow) (i : ℕ) (items : Items)
    (rows : List PrinterRow) (id : Text)
    → Keeps agent id rows (record_printers agent clock arrivals i items rows).rows
unfolding record_printers
record_printers-Keeps agent clock arrivals i nil rows id = Keeps-refl agent id rows
record_printers-Keeps agent clock arrivals i (cons raw rest) rows id =
    by_check-Keeps agent clock (arrivals i) (raw_id raw) (sanitize raw) rows
      (record_printers agent clock arrivals (suc i) rest) id
      (λ rows'. record_printers-Keeps agent clock arrivals (suc i) rest rows' id)

kept_unless :
    (agent : Reporter) (id : Text) (gateway : Gateway) (refused : Option HeartbeatReply)
    (next : Gateway × HeartbeatReply)
    → Keeps agent id gateway.printers next.0.printers
    → Keeps agent id gateway.printers (unless_refused refused gateway next).0.printers
kept_unless agent id gateway none next k = k
kept_unless agent id gateway (some reply) next k = Keeps-refl agent id gateway.printers

-- Whatever a heartbeat says, and whatever other requests insert meanwhile, every printer in the table
-- stays: another agent's exactly as it was, and the agent's own with its tenant, agent, lifecycle and time
-- of creation.
pub heartbeat-keeps :
    (account : AgentAccount) (over_limit : Bool) (clock : Clock) (arrivals : ℕ → List PrinterRow)
    (body : Option Json) (gateway : Gateway) (id : Text) (r : PrinterRow)
    → printer_at id gateway.printers ≡ some r
    → (r' : PrinterRow) × (printer_at id
          (heartbeat (some account) over_limit clock arrivals body gateway).0.printers
        ≡ some r')
      × IsKept (reporter account) r r'
unfolding heartbeat beat
heartbeat-keeps account over_limit clock arrivals body gateway id =
    kept_unless (reporter account) id gateway (refusal account.lifecycle over_limit body)
      (beat (reporter account) clock arrivals (status_of_body body) body gateway)
      (record_printers-Keeps (reporter account) clock arrivals 0
        (array_of (member (text "printers") body)) gateway.printers id)
