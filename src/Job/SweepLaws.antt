-- ===== src/Job/SweepLaws.antt =====
-- What the sweep achieves, and which physical outcome it records.
use printer_repo.Prelude.{
  ◌+◌, ◌≤◌, ◌<◌, ◌≡◌, refl, sym, ap, subst, ◌∙◌, Bool-cases, inl, inr, Bool, true, false, ◌&&◌,
  ◌||◌, ◌⊎◌, [], ◌∷◌, map, All, some, none, arith, Option,
}
use printer_repo.Prelude.Text.{Text, text, text_eq, starts_with}
use printer_repo.Job.Status.{
  queued, claimed, printing, failed, expired, is_terminal, unknown, not_printed, ◌is◌,
  derive_physical_outcome,
}
use printer_repo.Job.Row.{Clock, Job, Table, Statement, write, execute}
use printer_repo.Job.Delivery.{max_retries}
use printer_repo.Job.Keys.{Pairwise}
use printer_repo.Job.Sweep.{
  expire_statement, requeue_statement, silent_statement, stale_printing_statement,
  exhausted_statement, sweep_print_jobs, expired_during_print, expired_after_delivery,
  silent_delivery, execution_timeout, retries_exhausted, has_evidence, is_in_scope,
}

-- The five statements on one row, each at its own time.
swept : Option Text → Clock → Clock → Clock → Clock → Clock → Job → Job
swept scope c1 c2 c3 c4 c5 j = write (exhausted_statement scope c5) (
    write (stale_printing_statement scope c4) (
      write (silent_statement scope c3)
        (write (requeue_statement scope c2) (write (expire_statement scope c1) j))))

-- What is left of a row in scope by five statements at five times. A row that is not finished had time
-- left at the first; a received claim had been touched within its 90 seconds at the third; a claim that
-- nobody received at the second, unless it ran out of time by then, or at the fifth where its retries are
-- used up; and a print within its 10 minutes at the fourth.
pub record IsSettled (c1 c2 c3 c4 c5 : Clock) (j : Job) : Type 0 where
  pub in_time : is_terminal j.status ≡ false → c1.db_now < j.expires_at
  pub received_fresh :
      j.status ≡ claimed → has_evidence j ≡ true → c3.db_now ≤ j.updated_at + 90_000
  pub claim_fresh :
      j.status ≡ claimed
      → has_evidence j ≡ false
      → j.retries < max_retries
      → (c2.db_now ≤ j.updated_at + 90_000) ⊎ (j.expires_at ≤ c2.db_now)
  pub spent_fresh :
      j.status ≡ claimed
      → has_evidence j ≡ false
      → max_retries ≤ j.retries
      → c5.db_now ≤ j.updated_at + 90_000
  pub print_fresh : j.status ≡ printing → c4.db_now ≤ j.updated_at + 600_000

write_agent :
    (s : Statement) (j : Job)
    → (s.set_row j).agent_id ≡ j.agent_id
    → (write s j).agent_id ≡ j.agent_id
write_agent s j h = elim (Bool-cases (s.matches j)) [ inl e ↦ rw e h | inr e ↦ rw e refl ]

same_scope :
    (scope : Option Text) (j k : Job)
    → j.agent_id ≡ k.agent_id
    → is_in_scope scope j ≡ is_in_scope scope k
same_scope none j k h = refl
same_scope (some a) j k h = ap (λ (t : Text). text_eq t a) h

module _ (scope : Option Text) (c1 c2 c3 c4 c5 : Clock) where
  sweep-swept :
      (jobs : Table)
      → (sweep_print_jobs scope c1 c2 c3 c4 c5 jobs).0 ≡ map (swept scope c1 c2 c3 c4 c5) jobs
  unfolding sweep_print_jobs swept execute
  sweep-swept [] = refl
  sweep-swept (j ∷ js) = ap (λ (r : Table). swept scope c1 c2 c3 c4 c5 j ∷ r) (sweep-swept js)

  swept-IsSettled :
      (j : Job)
      → is_in_scope scope j ≡ true
      → IsSettled c1 c2 c3 c4 c5 (swept scope c1 c2 c3 c4 c5 j)
  unfolding swept expire_statement requeue_statement silent_statement stale_printing_statement
      exhausted_statement
  swept-IsSettled j h = ground arith

  swept-in_scope :
      (j : Job) → is_in_scope scope (swept scope c1 c2 c3 c4 c5 j) ≡ is_in_scope scope j
  unfolding swept expire_statement requeue_statement silent_statement stale_printing_statement
      exhausted_statement
  swept-in_scope j =
      let j1 = write (expire_statement scope c1) j in
      let j2 = write (requeue_statement scope c2) j1 in
      let j3 = write (silent_statement scope c3) j2 in
      let j4 = write (stale_printing_statement scope c4) j3 in
      same_scope scope (write (exhausted_statement scope c5) j4) j4
        (write_agent (exhausted_statement scope c5) j4 refl)
      ∙ same_scope scope j4 j3 (write_agent (stale_printing_statement scope c4) j3 refl)
      ∙ same_scope scope j3 j2 (write_agent (silent_statement scope c3) j2 refl)
      ∙ same_scope scope j2 j1 (write_agent (requeue_statement scope c2) j1 refl)
      ∙ same_scope scope j1 j (write_agent (expire_statement scope c1) j refl)

  swept_all :
      (jobs : Table)
      → All
          (λ k. is_in_scope scope k ≡ true → IsSettled c1 c2 c3 c4 c5 k)
          (map (swept scope c1 c2 c3 c4 c5) jobs)
  swept_all [] = tt
  swept_all (j ∷ js) = ((λ h. swept-IsSettled j (rw (swept-in_scope j) at h)), swept_all js)

  -- Of the rows of its agent, or of all rows where it is given none, a sweep leaves none that one of its
  -- statements is for at the time of that statement: no unfinished row that was out of time at the first,
  -- no claim stale for 90 seconds that was in time and had retries left at the second, was received at the
  -- third or had no retries left at the fifth, and no print stale for 10 minutes at the fourth.
  pub sweep-settles :
      (jobs : Table)
      → All
          (λ k. is_in_scope scope k ≡ true → IsSettled c1 c2 c3 c4 c5 k)
          (sweep_print_jobs scope c1 c2 c3 c4 c5 jobs).0
  sweep-settles jobs =
      subst (All (λ k. is_in_scope scope k ≡ true → IsSettled c1 c2 c3 c4 c5 k))
        (sym (sweep-swept jobs)) (swept_all jobs)

-- What the sweep's messages say of the paper.
outcome_messages :
    (derive_physical_outcome expired (some expired_during_print) ≡ unknown)
    × (derive_physical_outcome expired (some expired_after_delivery) ≡ unknown)
    × (derive_physical_outcome failed (some silent_delivery) ≡ unknown)
    × (derive_physical_outcome failed (some expired_during_print) ≡ unknown)
    × (derive_physical_outcome failed (some execution_timeout) ≡ unknown)
    × (derive_physical_outcome failed (some retries_exhausted) ≡ not_printed)
    × (derive_physical_outcome expired none ≡ not_printed)
unfolding derive_physical_outcome starts_with text
outcome_messages = (refl, refl, refl, refl, refl, refl, refl)

-- The agent may have printed: it is printing, or has received the job.
abbrev pub may_have_printed : Job → Bool
may_have_printed j = (j.status is printing) || (j.status is claimed && has_evidence j)

-- The sweep finishes a row with the outcome that its past allows: unknown where the agent may have
-- printed, not printed otherwise.
pub record IsAccounted (j k : Job) : Type 0 where
  pub ambiguous :
      may_have_printed j ≡ true
      → (k ≡ j)
        ⊎ ((is_terminal k.status ≡ true) × (derive_physical_outcome k.status k.error ≡ unknown))
  pub certain :
      may_have_printed j ≡ false
      → is_terminal j.status ≡ false
      → (k.status ≡ queued)
        ⊎ (k.status ≡ claimed)
        ⊎ ((is_terminal k.status ≡ true) × (derive_physical_outcome k.status k.error ≡ not_printed))
  pub finished : is_terminal j.status ≡ true → k ≡ j

module _ (scope : Option Text) (c1 c2 c3 c4 c5 : Clock) where
  swept-IsAccounted : (j : Job) → IsAccounted j (swept scope c1 c2 c3 c4 c5 j)
  unfolding swept expire_statement requeue_statement silent_statement stale_printing_statement
      exhausted_statement
  swept-IsAccounted j = ground (arith, outcome_messages)

  swept_pairs : (jobs : Table) → Pairwise IsAccounted jobs (map (swept scope c1 c2 c3 c4 c5) jobs)
  swept_pairs [] = tt
  swept_pairs (j ∷ js) = (swept-IsAccounted j, swept_pairs js)

  -- The sweep, of one agent or of all and with a time of its own for each statement, never turns an
  -- ambiguous print into a certain one, nor the other way round: a row that an agent may have printed
  -- stays as it is or finishes with an unknown outcome, an unfinished row that no agent has received is
  -- queued, claimed or finishes as not printed, and a finished row stays.
  pub sweep-accounts :
      (jobs : Table) → Pairwise IsAccounted jobs (sweep_print_jobs scope c1 c2 c3 c4 c5 jobs).0
  sweep-accounts jobs =
      subst (Pairwise IsAccounted jobs) (sym (sweep-swept scope c1 c2 c3 c4 c5 jobs))
        (swept_pairs jobs)
