-- ===== src/Submit/Safety.antt =====
-- What a submission does to the tables.
use printer_repo.Prelude.{
  not, if◌then◌else◌, ◌≡◌, refl, ap, ◌∙◌, ◌⊎◌, inl, inr, Option, none, some, arith, if_elim,
}
use printer_repo.Prelude.Text.{Text, trim}
use printer_repo.Job.Row.{Clock, Table}
use printer_repo.Job.Insert.{NewJob}
use printer_repo.Job.System.{IsConsistent, add-IsConsistent, Evolves-IsConsistent}
use printer_repo.Admission.{
  Store, Admitted, created, reused, rejected, insert_queued_job_atomically,
}
use printer_repo.Admission.Laws.{admission_created, admission_unchanged}
use printer_repo.Socket.Push.{IsQuiet, push-Evolves}
use printer_repo.Submit.{
  printer_id_required, requested_by_invalid, queued_job, Surroundings, Submission, PrinterRecord,
  AgentRecord, Inventory, Submitted, SubmitError, failed_with, find_printer, own_or, admit_or,
  new_job, push, after_admission, with_owner, with_printer, create_print_job_for_printer,
  is_valid_requester, is_empty,
}

-- A property of the outcome of every branch: an early refusal, or the answer to an admission.
module _ (env : Surroundings) (s : Submission) (clock : Clock) (store : Store)
    (P : Store × Submitted → Type 0) (refused : (e : SubmitError) → P (store, failed_with e))
    (admitted : (p : PrinterRecord) (a : AgentRecord)
      → P (
          after_admission env p a
            (insert_queued_job_atomically store (new_job env s p a clock.app_now) clock))) where
  admit_or-branches :
      (p : PrinterRecord) (a : AgentRecord) (r : Option SubmitError)
      → P (admit_or env s clock store p a r)
  admit_or-branches p a none = admitted p a
  admit_or-branches p a (some e) = refused e

  with_owner-branches :
      (p : PrinterRecord) (o : Option AgentRecord) → P (with_owner env s clock store p o)
  unfolding with_owner
  with_owner-branches p none = refused _
  with_owner-branches p (some a) = admit_or-branches p a _

  own_or-branches :
      (inventory : Inventory) (p : PrinterRecord) (r : Option SubmitError)
      → P (own_or env s clock inventory store p r)
  own_or-branches inventory p none = with_owner-branches p _
  own_or-branches inventory p (some e) = refused e

  with_printer-branches :
      (inventory : Inventory) (o : Option PrinterRecord)
      → P (with_printer env s clock inventory store o)
  unfolding with_printer
  with_printer-branches inventory none = refused _
  with_printer-branches inventory (some p) = own_or-branches inventory p _

  pub submit-branches :
      (inventory : Inventory) → P (create_print_job_for_printer env s clock inventory store)
  unfolding create_print_job_for_printer
  submit-branches inventory =
      let found = find_printer (trim s.printer_id) s.tenant_id inventory.printers in
      let rest = with_printer env s clock inventory store found in
      let unnamed : Store × Submitted = (store, failed_with printer_id_required) in
      let unasked : Store × Submitted = (store, failed_with requested_by_invalid) in
      let later = if not (is_valid_requester s.requested_by) then unasked else rest in
      if_elim P (is_empty (trim s.printer_id)) unnamed later (λ e. refused printer_id_required)
        (λ e.
          if_elim P (not (is_valid_requester s.requested_by)) unasked rest
            (λ f. refused requested_by_invalid) (λ f. with_printer-branches inventory found))

-- Nothing is promised here of a job that was queued.
abbrev pub IsUnchanged : Store → Store × Submitted → Type 0
IsUnchanged store (after, queued_job id printer_id agent_id) = Unit
IsUnchanged store (after, _) = after ≡ store

record Kept (store : Store) (outcome : Store × Submitted) : Type 0 where
  pub kept : IsUnchanged store outcome

answer-Kept :
    (env : Surroundings) (store : Store) (p : PrinterRecord) (a : AgentRecord) (id : Text)
    (admitted : Store × Admitted)
    → (admitted.1 ≡ created id) ⊎ (admitted.0 ≡ store)
    → Kept store (after_admission env p a admitted)
answer-Kept env store p a id (st, created i) h = record { kept = tt }
answer-Kept env store p a id (st, reused j) (inl e) = absurd (ground arith)
answer-Kept env store p a id (st, reused j) (inr e) = record { kept = e }
answer-Kept env store p a id (st, rejected r) (inl e) = absurd (ground arith)
answer-Kept env store p a id (st, rejected r) (inr e) = record { kept = e }

-- A submission that fails, wherever it does, and one that repeats an earlier job leave every table as
-- it was.
pub submit-IsUnchanged :
    (env : Surroundings) (s : Submission) (clock : Clock) (inventory : Inventory) (store : Store)
    → IsUnchanged store (create_print_job_for_printer env s clock inventory store)
submit-IsUnchanged env s clock inventory store =
    (submit-branches env s clock store (Kept store) (λ e. record { kept = refl })
      (λ p a.
        let n = new_job env s p a clock.app_now in
        answer-Kept env store p a n.id (insert_queued_job_atomically store n clock)
          (admission_unchanged store n clock))
      inventory).kept

-- The jobs of the tables after a submission.
record Consistent (outcome : Store × Submitted) : Type 0 where
  pub consistent : IsConsistent outcome.0.jobs

module _ (env : Surroundings) (q0 : IsQuiet env.before_push) (q1 : IsQuiet env.after_claim)
    (q2 : IsQuiet env.after_evidence) where
  push-IsConsistent :
      (id agent_id : Text) (jobs : Table)
      → IsConsistent jobs
      → IsConsistent (push env id agent_id jobs)
  push-IsConsistent id agent_id jobs c =
      let c' = Evolves-IsConsistent jobs (env.before_push jobs) (q0 jobs) c in
      Evolves-IsConsistent (env.before_push jobs) (push env id agent_id jobs)
        (push-Evolves id agent_id env.evidence_clock env.release_clock env.after_claim
          env.after_evidence q1 q2 env.fleet env.lockable (env.sockets agent_id) env.claim_clock
          env.token (env.before_push jobs) c'.0)
        c'

  answer-Consistent :
      (p : PrinterRecord) (a : AgentRecord) (admitted : Store × Admitted)
      → IsConsistent admitted.0.jobs
      → Consistent (after_admission env p a admitted)
  answer-Consistent p a (st, created i) c = record {
    consistent = push-IsConsistent i a.id st.jobs c;
  }
  answer-Consistent p a (st, reused j) c = record { consistent = c }
  answer-Consistent p a (st, rejected r) c = record { consistent = c }

  admission-IsConsistent :
      (store : Store) (n : NewJob) (clock : Clock)
      → IsConsistent store.jobs
      → IsConsistent (insert_queued_job_atomically store n clock).0.jobs
  admission-IsConsistent store n clock c = elim (admission_unchanged store n clock) [
    | inl e ↦
        let (_, _, _, _, _, _, fresh, added) = admission_created store n clock e in
        rw added (add-IsConsistent n clock store.jobs fresh c)
    | inr e ↦ rw e c
  ]

  -- A submission, from its checks to the push of the new job, keeps the ids of the queue distinct and
  -- the delivery invariant of every row, whatever it is asked and however it ends, if the requests that
  -- run between its statements move rows by the queue's writes.
  pub submit-IsConsistent :
      (s : Submission) (clock : Clock) (inventory : Inventory) (store : Store)
      → IsConsistent store.jobs
      → IsConsistent (create_print_job_for_printer env s clock inventory store).0.jobs
  submit-IsConsistent s clock inventory store c =
      (submit-branches env s clock store Consistent (λ e. record { consistent = c })
        (λ p a.
          answer-Consistent p a _
            (admission-IsConsistent store (new_job env s p a clock.app_now) clock c))
        inventory).consistent

-- The insert behind an answer that a job is queued.
abbrev pub IsInserted :
    Surroundings → Submission → Clock → Store → (id printer_id agent_id : Text) → Type 0
IsInserted env s clock store id printer_id agent_id =
    (p : PrinterRecord) × (a : AgentRecord) × ((insert_queued_job_atomically store
        (new_job env s p a clock.app_now) clock).1
      ≡ created id)
    × (p.id ≡ printer_id)
    × (a.id ≡ agent_id)

record Traced (env : Surroundings) (s : Submission) (clock : Clock) (store : Store)
    (outcome : Store × Submitted) : Type 0 where
  pub traced :
      (id printer_id agent_id : Text)
      → outcome.1 ≡ queued_job id printer_id agent_id
      → IsInserted env s clock store id printer_id agent_id

answer-Traced :
    (env : Surroundings) (s : Submission) (clock : Clock) (store : Store) (p : PrinterRecord)
    (a : AgentRecord) (admitted : Store × Admitted)
    → insert_queued_job_atomically store (new_job env s p a clock.app_now) clock ≡ admitted
    → Traced env s clock store (after_admission env p a admitted)
answer-Traced env s clock store p a (st, created i) h = record {
  traced = λ id printer_id agent_id e. (
    p,
    a,
    ap (λ (r : Store × Admitted). r.1) h ∙ ap created (queued_id e),
    queued_printer e,
    queued_agent e,
  );
}
  where
    queued_id : {i i' p p' a a' : Text} → queued_job i p a ≡ queued_job i' p' a' → i ≡ i'
    queued_id e = cc

    queued_printer : {i i' p p' a a' : Text} → queued_job i p a ≡ queued_job i' p' a' → p ≡ p'
    queued_printer e = cc

    queued_agent : {i i' p p' a a' : Text} → queued_job i p a ≡ queued_job i' p' a' → a ≡ a'
    queued_agent e = cc
answer-Traced env s clock store p a (st, reused j) h = record {
  traced = λ id printer_id agent_id e. absurd (ground arith);
}
answer-Traced env s clock store p a (st, rejected x) h = record {
  traced = λ id printer_id agent_id e. absurd (ground arith);
}

-- A submission that answers with a queued job has inserted it, as the submission and its printer say.
pub submit-IsInserted :
    (env : Surroundings) (s : Submission) (clock : Clock) (inventory : Inventory) (store : Store)
    (id printer_id agent_id : Text)
    → (create_print_job_for_printer env s clock inventory store).1
      ≡ queued_job id printer_id agent_id
    → IsInserted env s clock store id printer_id agent_id
submit-IsInserted env s clock inventory store id printer_id agent_id =
    (submit-branches env s clock store (Traced env s clock store)
        (λ e. record { traced = λ i p a h. absurd (ground arith) })
        (λ p a. answer-Traced env s clock store p a _ refl) inventory).traced
      id printer_id agent_id
