-- ===== src/Console/Reprints.antt =====
-- What a reprint does where the table holds a job under the key that it derives.
use printer_repo.Prelude.{
  ◌+◌, ◌≡◌, refl, Bool, true, false, not, ◌&&◌, [], ◌∷◌, ◌++◌, none, some, arith, any,
  if◌then◌else◌, filter, count, Bool-cases, if_elim, inl, inr,
}
use printer_repo.Prelude.Text.{Text, text, text_eq, not_distinct}
use printer_repo.Job.Row.{Clock, Job, Table}
use printer_repo.Job.Status.{is_terminal}
use printer_repo.Prelude.Decimal.{decimal}
use printer_repo.Job.Insert.{NewJob}
use printer_repo.Admission.{
  Store, Admitted, reused, rejected, has_key, first_job, find_by_key, insert_queued_job_atomically,
  same_request, truthy, idempotency_conflict, is_valid_tenant,
}
use printer_repo.Submit.{create_print_job_for_printer, after_admission, new_job}
use printer_repo.Submit.Records.{
  Surroundings, Inventory, PrinterRecord, AgentRecord, Submitted, queued_job, earlier_job,
  failed_with,
}
use printer_repo.Submit.Safety.{submit-branches}
use printer_repo.Console.Actions.{
  Acted, ok, fails, Reprinted, reprinted, derived_key, reprint_submission, reprint_found,
  reprint_prefix, is_reprint,
}

-- A job of the tenant that no API key submitted, under the key.
abbrev pub holds_key : (tenant_id key : Text) → Job → Bool
holds_key tenant_id key j =
    text_eq j.tenant_id tenant_id
    && not_distinct j.api_key_id none
    && not_distinct j.idempotency_key (some key)

-- No new job, and no table changed.
abbrev pub IsSettledBy : Store → Store × Submitted → Type 0
IsSettledBy store (store', queued_job id printer_id agent_id) = ⊥
IsSettledBy store (store', _) = store' ≡ store

first-found :
    (test : Job → Bool) (jobs : Table)
    → any test jobs ≡ true
    → (j : Job) × (first_job (filter test jobs) ≡ some j)
first-found test [] h = absurd (ground arith)
first-found test (j ∷ js) h = elim (Bool-cases (test j)) [
  | inl e ↦ (j, rw e refl)
  | inr e ↦ rw e (first-found test js (rw e at h))
]

found_settled :
    (env : Surroundings) (p : PrinterRecord) (a : AgentRecord) (store : Store) (same : Bool)
    (j : Job)
    → IsSettledBy store
        (after_admission env p a (store, if same then reused j else rejected idempotency_conflict))
found_settled env p a store true j = refl
found_settled env p a store false j = refl

admission_settled :
    (env : Surroundings) (p : PrinterRecord) (a : AgentRecord) (store : Store) (n : NewJob)
    (clock : Clock) (key : Text)
    → truthy n.idempotency_key ≡ some key
    → any (has_key n key) store.jobs ≡ true
    → IsSettledBy store (after_admission env p a (insert_queued_job_atomically store n clock))
unfolding insert_queued_job_atomically find_by_key
admission_settled env p a store n clock key k h =
    let (j, e) = first-found (has_key n key) store.jobs h in
    rw (k, e)
      (if_elim (λ (o : Store × Admitted). IsSettledBy store (after_admission env p a o))
        (not (is_valid_tenant n.tenant_id)) _ _ (λ _. refl)
        (λ _. found_settled env p a store (same_request j n) j))

-- No new job was queued: the answer is an error, or names an earlier job.
abbrev pub IsNoReprint : Store → Store × Acted Reprinted → Type 0
IsNoReprint store (store', ok r) = (store' ≡ store) × (r.reused ≡ true)
IsNoReprint store (store', fails e) = store' ≡ store

settled_answer :
    (store : Store) (outcome : Store × Submitted)
    → IsSettledBy store outcome
    → IsNoReprint store (reprinted outcome)
settled_answer store (store', queued_job id printer_id agent_id) h = absurd h
settled_answer store (store', earlier_job j) h = (h, refl)
settled_answer store (store', failed_with e) h = h

module _ (env : Surroundings) (tenant_id : Text) (clock : Clock) (inventory : Inventory)
    (store : Store) (job : Job) where
  key_truthy :
      (key rest : Text) → key ≡ reprint_prefix job.id ++ rest → truthy (some key) ≡ some key
  unfolding text
  key_truthy key rest e = rw e refl

  submission_settled :
      (key : Text)
      → truthy (some key) ≡ some key
      → any (holds_key tenant_id key) store.jobs ≡ true
      → IsSettledBy store (
          create_print_job_for_printer env
            (reprint_submission job tenant_id key)
            clock
            inventory
            store)
  unfolding reprint_submission
  submission_settled key t h =
      submit-branches env (reprint_submission job tenant_id key) clock store (IsSettledBy store)
        (λ e. refl)
        (λ p a.
          admission_settled env p a store
            (new_job env (reprint_submission job tenant_id key) p a clock.app_now) clock key t h)
        inventory

  -- Where the store holds a job of the tenant under the key that a reprint derives from the rows it
  -- counted, the reprint changes nothing and answers with a job that was there or with an error.
  pub reprint_once :
      (counted : Table)
      → any (holds_key tenant_id (derived_key job.id tenant_id counted)) store.jobs ≡ true
      → IsNoReprint store (reprint_found env tenant_id clock inventory counted store (some job))
  unfolding reprint_found derived_key
  reprint_once counted h =
      if_elim (IsNoReprint store) (not (is_terminal job.status)) _ _ (λ _. refl)
        (λ _. settled_answer store _ (
          submission_settled (derived_key job.id tenant_id counted)
            (key_truthy (derived_key job.id tenant_id counted)
              (decimal (count (is_reprint job.id tenant_id) counted + 1)) refl)
            h))
