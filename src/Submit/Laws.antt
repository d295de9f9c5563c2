-- ===== src/Submit/Laws.antt =====
-- What a submitted job went through.
use printer_repo.Prelude.{
  ℕ, ◌<◌, ◌≡◌, refl, sym, ap, ◌∙◌, ◌&&◌, Bool-cases, inl, inr, List, [], ◌∷◌, true, Option, none,
  some, arith,
}
use printer_repo.Prelude.Text.{Text, text_eq, text_eq_sound, trim}
use printer_repo.Payload.Validation.{validate_print_job_payload}
use printer_repo.Printer.Virtual.{is_virtual_printer_record}
use printer_repo.Printer.Routing.{ok}
use printer_repo.Printer.Availability.{PrinterState, owner, is_printer_available_for_job}
use printer_repo.Job.Row.{Clock}
use printer_repo.Admission.{
  Store, Admitted, created, reused, rejected, insert_queued_job_atomically,
}
use printer_repo.Submit.{
  Surroundings, Submission, PrinterRecord, AgentRecord, Inventory, queued_job, SubmitError, own_or,
  first_refusal, find_printer, find_owner, route, printer_refusal, payload_refusal, agent_refusal,
  request_refusal, expiry, new_job, after_admission, with_owner, with_printer,
  create_print_job_for_printer,
}

abbrev pub state_of : PrinterRecord → PrinterState
state_of p = record { lifecycle = some p.lifecycle; status = some p.status }

-- The printer and its agent could take the job when it was submitted.
pub record IsFit (env : Surroundings) (s : Submission) (now : ℕ) (p : PrinterRecord)
    (a : AgentRecord) : Type 0 where
  pub available :
      is_printer_available_for_job env.threshold
        (is_virtual_printer_record (some p.identity))
        (state_of p)
        (owner a.state)
        now
      ≡ true
  pub routed : route s.payload p ≡ ok
  pub accepted : validate_print_job_payload env.decode env.encode s.payload ≡ none
  pub lasting : now < expiry s.expires_at now

-- The printer and the agent that a submission queued a job for.
pub record IsQueuedFor (env : Surroundings) (s : Submission) (now : ℕ) (inventory : Inventory)
    (printer_id agent_id : Text) : Type 0 where
  pub printer : PrinterRecord
  pub agent : AgentRecord
  pub found : find_printer (trim s.printer_id) s.tenant_id inventory.printers ≡ some printer
  pub owned : find_owner printer.agent_id s.tenant_id inventory.agents ≡ some agent
  pub own_printer : printer.tenant_id ≡ s.tenant_id
  pub own_agent : agent.tenant_id ≡ s.tenant_id
  pub same_printer : printer_id ≡ printer.id
  pub same_agent : agent_id ≡ agent.id
  pub fit : IsFit env s now printer agent

found-tenant :
    (id tenant_id : Text) (printers : List PrinterRecord) (p : PrinterRecord)
    → find_printer id tenant_id printers ≡ some p
    → p.tenant_id ≡ tenant_id
unfolding find_printer
found-tenant id tenant_id [] p h = absurd (ground arith)
found-tenant id tenant_id (q ∷ qs) p h =
    elim (Bool-cases (text_eq q.id id && text_eq q.tenant_id tenant_id)) [
      | inl e ↦
          ap (λ (r : PrinterRecord). r.tenant_id) (sym (same (rw e at h)))
          ∙ text_eq_sound q.tenant_id tenant_id (ground arith)
      | inr e ↦ found-tenant id tenant_id qs p (rw e at h)
    ]
  where
    same : {a b : PrinterRecord} → some a ≡ some b → a ≡ b
    same e = cc

owner-tenant :
    (id tenant_id : Text) (agents : List AgentRecord) (a : AgentRecord)
    → find_owner id tenant_id agents ≡ some a
    → a.tenant_id ≡ tenant_id
unfolding find_owner
owner-tenant id tenant_id [] a h = absurd (ground arith)
owner-tenant id tenant_id (b ∷ bs) a h =
    elim (Bool-cases (text_eq b.id id && text_eq b.tenant_id tenant_id)) [
      | inl e ↦
          ap (λ (r : AgentRecord). r.tenant_id) (sym (same (rw e at h)))
          ∙ text_eq_sound b.tenant_id tenant_id (ground arith)
      | inr e ↦ owner-tenant id tenant_id bs a (rw e at h)
    ]
  where
    same : {a b : AgentRecord} → some a ≡ some b → a ≡ b
    same e = cc

queued-injective :
    {i i' p p' a a' : Text} → queued_job i p a ≡ queued_job i' p' a' → (p ≡ p') × (a ≡ a')
queued-injective e = (cc, cc)

both_none : (a b : Option SubmitError) → first_refusal a b ≡ none → (a ≡ none) × (b ≡ none)
both_none none b h = (refl, h)
both_none (some e) b h = absurd (ground arith)

module _ (env : Surroundings) (s : Submission) (clock : Clock) (store : Store) where
  fits :
      (p : PrinterRecord) (a : AgentRecord)
      → printer_refusal p ≡ none
      → payload_refusal env s.payload p ≡ none
      → agent_refusal env a clock.app_now ≡ none
      → request_refusal s clock.app_now ≡ none
      → IsFit env s clock.app_now p a
  unfolding printer_refusal payload_refusal agent_refusal request_refusal
      is_printer_available_for_job
  fits p a h k l m = record {
    available = ground arith;
    routed = ground arith;
    accepted = ground arith;
    lasting = ground arith;
  }

  after_admission-queued :
      (p : PrinterRecord) (a : AgentRecord) (admitted : Store × Admitted)
      (id printer_id agent_id : Text)
      → (after_admission env p a admitted).1 ≡ queued_job id printer_id agent_id
      → (printer_id ≡ p.id) × (agent_id ≡ a.id)
  after_admission-queued p a (st, created i) id printer_id agent_id e =
      let (same, same') = queued-injective e in (sym same, sym same')
  after_admission-queued p a (st, reused j) id printer_id agent_id e = absurd (ground arith)
  after_admission-queued p a (st, rejected r) id printer_id agent_id e = absurd (ground arith)

  with_owner-queued :
      (p : PrinterRecord) (o : Option AgentRecord) (id printer_id agent_id : Text)
      → (with_owner env s clock store p o).1 ≡ queued_job id printer_id agent_id
      → (a : AgentRecord) × (o ≡ some a)
        × (agent_refusal env a clock.app_now ≡ none)
        × (request_refusal s clock.app_now ≡ none)
        × (printer_id ≡ p.id)
        × (agent_id ≡ a.id)
  unfolding with_owner
  with_owner-queued p none id printer_id agent_id e = absurd (ground arith)
  with_owner-queued p (some a) id printer_id agent_id e = (
    a,
    refl,
    ground arith,
    ground arith,
    ground (
      arith,
      after_admission-queued p a
          (insert_queued_job_atomically store (new_job env s p a clock.app_now) clock) id printer_id
          agent_id,
    ),
    ground (
      arith,
      after_admission-queued p a
          (insert_queued_job_atomically store (new_job env s p a clock.app_now) clock) id printer_id
          agent_id,
    ),
  )

  own_or-queued :
      (inventory : Inventory) (p : PrinterRecord) (refusal : Option SubmitError)
      (id printer_id agent_id : Text)
      → (own_or env s clock inventory store p refusal).1 ≡ queued_job id printer_id agent_id
      → (refusal ≡ none)
        × ((with_owner env s clock store p (find_owner p.agent_id s.tenant_id inventory.agents)).1
            ≡ queued_job id printer_id agent_id)
  own_or-queued inventory p none id printer_id agent_id e = (refl, e)
  own_or-queued inventory p (some r) id printer_id agent_id e = absurd (ground arith)

  with_printer-queued :
      (inventory : Inventory) (o : Option PrinterRecord) (id printer_id agent_id : Text)
      → find_printer (trim s.printer_id) s.tenant_id inventory.printers ≡ o
      → (with_printer env s clock inventory store o).1 ≡ queued_job id printer_id agent_id
      → IsQueuedFor env s clock.app_now inventory printer_id agent_id
  unfolding with_printer
  with_printer-queued inventory none id printer_id agent_id f e = absurd (ground arith)
  with_printer-queued inventory (some p) id printer_id agent_id f e =
      let (passed, e') =
        own_or-queued inventory p
          (first_refusal (printer_refusal p) (payload_refusal env s.payload p)) id printer_id
          agent_id e in
      let (a, owned, h, k, same, same') =
        with_owner-queued p (find_owner p.agent_id s.tenant_id inventory.agents) id printer_id
          agent_id e' in
      let (q, r) = both_none (printer_refusal p) (payload_refusal env s.payload p) passed in
      record {
        printer = p;
        agent = a;
        found = f;
        owned = owned;
        own_printer = found-tenant (trim s.printer_id) s.tenant_id inventory.printers p f;
        own_agent = owner-tenant p.agent_id s.tenant_id inventory.agents a owned;
        same_printer = same;
        same_agent = same';
        fit = fits p a q r h k;
      }

  -- A submission queues a job only for a printer of its tenant and the agent that owns it, and only if
  -- the availability test of the routing module holds of both, the printer is not virtual, the payload
  -- is valid and of a kind that the printer takes, and the time to live is not over.
  pub submit-queued :
      (inventory : Inventory) (id printer_id agent_id : Text)
      → (create_print_job_for_printer env s clock inventory store).1
        ≡ queued_job id printer_id agent_id
      → IsQueuedFor env s clock.app_now inventory printer_id agent_id
  unfolding create_print_job_for_printer
  submit-queued inventory id printer_id agent_id e =
      with_printer-queued inventory
        (find_printer (trim s.printer_id) s.tenant_id inventory.printers) id printer_id agent_id
        refl (ground arith)
