-- ===== src/Job/Claims.antt =====
-- The two claim paths move rows by the writes of Job/History, in a table whose ids are distinct: the
-- rows that the update reaches are the rows that the query tested.
use printer_repo.Prelude.{
  ℕ, ◌≡◌, Bool, true, ◌&&◌, [], ◌∷◌, All, All_mono, All-append, All-take, All-filter, any, filter,
  count, take, Option, leb, arith, Bool-cases, inl, inr, ◌+◌, ◌<◌, ◌⊎◌, ◌||◌, none, some, refl,
  if◌then◌else◌,
}
use printer_repo.Prelude.Text.{Text, text_eq, text_eq_iff, text_eq_sound}
use printer_repo.Job.Status.{queued, claimed, ◌is◌}
use printer_repo.Job.Row.{Clock, Job, Fleet, Table}
use printer_repo.Job.Delivery.{
  is_claimable, is_in_flight, runtime_ready, claim_statement, tenant_of, then_claim,
  claim_job_for_delivery, max_agent_in_flight_jobs,
}
use printer_repo.Job.Poll.{
  is_stale_candidate, is_queued_candidate, insert_by_age, sort_by_age, stale_batch, queued_batch,
  queued_limit, claimable_rows, poll_statement, poll_row, poll_jobs, joined_ready, max_claim_batch,
}
use printer_repo.Job.History.{claim, poll, is_pollable, step}
use printer_repo.Job.Refinement.{Reaches, Evolves, Evolves-refl, reach_one, execute-Evolves_on}
use printer_repo.Job.Keys.{
  UniqueIds, Decides, filter-Decides, filter_sound, any-Decides, Pairwise, execute-Pairwise,
}

module _ (job_id agent_id : Text) (tenant : Option Text) (clock : Clock) (token : Text) where
  claim_matches :
      (test : Job → Bool) (l j : Job)
      → test l ≡ true
      → ((k : Job) → test k ≡ true → is_claimable job_id agent_id clock k ≡ true)
      → (text_eq j.id l.id ≡ true → test j ≡ true)
      → (claim_statement job_id agent_id tenant clock token).matches j ≡ true
      → is_claimable job_id agent_id clock j ≡ true
  unfolding claim_statement is_claimable
  claim_matches test l j locked implies decides m = implies j (
      decides (
        (text_eq_iff j.id l.id).1
          (ground (arith, text_eq_iff j.id job_id, text_eq_iff l.id job_id, implies l))))

  claim-Reaches :
      (j : Job)
      → is_claimable job_id agent_id clock j ≡ true
      → Reaches j ((claim_statement job_id agent_id tenant clock token).set_row j)
  unfolding claim_statement step
  claim-Reaches j h = reach_one (claim job_id agent_id clock token) j _ (ground arith)

  then_claim-Evolves :
      (test : Job → Bool) (jobs locked : Table)
      → ((k : Job) → test k ≡ true → is_claimable job_id agent_id clock k ≡ true)
      → All (λ (c : Job). test c ≡ true) locked
      → All (Decides test jobs) locked
      → Evolves jobs (then_claim (claim_statement job_id agent_id tenant clock token) jobs locked).0
  then_claim-Evolves test jobs [] implies h d = Evolves-refl jobs
  then_claim-Evolves test jobs (l ∷ ls) implies (h, hs) (d, ds) =
      execute-Evolves_on (claim_statement job_id agent_id tenant clock token) jobs
        (All_mono _ _ (λ j e m. claim-Reaches j (claim_matches test l j h implies e m)) jobs d)

-- The push of one job: every row of the table goes on by the history's claim, or stays.
pub claim_job_for_delivery-Evolves :
    (fleet : Fleet) (lockable : Job → Bool) (job_id agent_id : Text) (clock : Clock) (token : Text)
    (jobs : Table)
    → UniqueIds jobs
    → Evolves jobs (claim_job_for_delivery fleet lockable job_id agent_id clock token jobs).0
unfolding claim_job_for_delivery
claim_job_for_delivery-Evolves fleet lockable job_id agent_id clock token jobs u =
    elim (Bool-cases
      (leb max_agent_in_flight_jobs (count (is_in_flight fleet agent_id clock) jobs))) [
        | inl e ↦ rw e (Evolves-refl jobs)
        | inr e ↦ rw e (
            then_claim-Evolves job_id agent_id (tenant_of agent_id fleet.agents) clock token test
              jobs (filter test jobs) (λ k h. ground arith) (filter_sound test jobs)
              (filter-Decides test jobs u))
      ]
  where
    test : Job → Bool
    test j = is_claimable job_id agent_id clock j && runtime_ready fleet j && lockable j

All-insert_by_age :
    (P : Job → Type 0) (j : Job) (js : Table) → P j → All P js → All P (insert_by_age j js)
unfolding insert_by_age
All-insert_by_age P j [] p h = (p, tt)
All-insert_by_age P j (k ∷ ks) p (q, h) = elim (Bool-cases (leb j.created_at k.created_at)) [
  | inl e ↦ rw e (p, (q, h))
  | inr e ↦ rw e (q, All-insert_by_age P j ks p h)
]

pub All-sort_by_age : (P : Job → Type 0) (js : Table) → All P js → All P (sort_by_age js)
unfolding sort_by_age
All-sort_by_age P [] h = tt
All-sort_by_age P (j ∷ js) (p, h) =
    All-insert_by_age P j (sort_by_age js) p (All-sort_by_age P js h)

-- A job that a poll of the agent may take: the agent's own, with time, attempts and retries left, of an
-- agent and a printer that are active and online, and either queued, or claimed 90 seconds ago with no
-- evidence of delivery.
pub record IsTakeable (fleet : Fleet) (agent_id : Text) (clock : Clock) (j : Job) : Type 0 where
  pub own : j.agent_id ≡ agent_id
  pub in_time : clock.db_now < j.expires_at
  pub attempts_left : j.delivery_attempts < 5
  pub retries_left : j.retries < 5
  pub ready : joined_ready fleet j ≡ true
  pub free :
      (j.status ≡ queued)
      ⊎ ((j.status ≡ claimed)
          × (j.delivered_at ≡ none)
          × (j.acked_at ≡ none)
          × (j.updated_at + 90_000 < clock.db_now))

-- The row after a poll: it stays, or it could be taken and now is a claim under a new token that has
-- cost an attempt, and a retry where it takes over an earlier claim.
abbrev pub IsPolled : Fleet → Text → Clock → (mint : Text → Text) → Job → Job → Type 0
IsPolled fleet agent_id clock mint j k =
    (k ≡ j)
    ⊎ (IsTakeable fleet agent_id clock j
        × (k ≡ record j {
          status = claimed;
          claimed_at = some clock.db_now;
          updated_at = clock.db_now;
          claim_token = some (mint j.id);
          acked_at = none;
          delivery_attempts = j.delivery_attempts + 1;
          retries = if j.status is claimed then j.retries + 1 else j.retries;
        }))

module _ (fleet : Fleet) (lockable : Job → Bool) (agent_id : Text) (clock : Clock)
    (jobs : Table) where
  -- What holds of both classes of candidates holds of the claimed batch.
  pub claimable_rows-All :
      (P : Job → Type 0)
      → All P (stale_batch fleet agent_id clock jobs)
      → All P (queued_batch fleet agent_id clock (queued_limit fleet agent_id clock jobs) jobs)
      → All P (claimable_rows fleet lockable agent_id clock jobs)
  unfolding claimable_rows
  claimable_rows-All P stale fresh =
      All-take P max_claim_batch _ (All-filter P _ _ (All-append P _ _ stale fresh))

  -- A test that every candidate of a class passes is decided by that class's batch.
  pub batch-Decides :
      (candidate test : Job → Bool) (limit : ℕ)
      → ((j : Job) → candidate j ≡ true → test j ≡ true)
      → UniqueIds jobs
      → All (Decides test jobs) (take limit (sort_by_age (filter candidate jobs)))
  batch-Decides candidate test limit implies u = All-take _ limit _ (
      All-sort_by_age _ _ (
        All_mono _ _ (λ c d. All_mono _ _ (λ j h m. implies j (h m)) jobs d) (filter candidate jobs)
          (filter-Decides candidate jobs u)))

  poll_decides :
      UniqueIds jobs
      → All
          (λ (j : Job).
            any (λ (c : Job). text_eq j.id c.id) (claimable_rows fleet lockable agent_id clock jobs)
              ≡ true
            → is_pollable clock j ≡ true)
          jobs
  unfolding is_stale_candidate is_queued_candidate is_pollable
  poll_decides u = any-Decides (is_pollable clock) jobs _ (
      claimable_rows-All (Decides (is_pollable clock) jobs)
        (batch-Decides (is_stale_candidate fleet agent_id clock) (is_pollable clock) max_claim_batch
          (λ j h. ground arith) u)
        (let limit = queued_limit fleet agent_id clock jobs in
          batch-Decides (is_queued_candidate fleet agent_id clock limit) (is_pollable clock) limit
            (λ j h. ground arith) u))

  -- A poll claims no row but queued ones, and stale ones without evidence of delivery: every row
  -- goes on by the history's poll, or stays.
  pub poll_jobs-Evolves :
      (mint : Text → Text)
      → UniqueIds jobs
      → Evolves jobs (poll_jobs fleet lockable agent_id clock mint jobs).0
  unfolding poll_jobs poll_statement step
  poll_jobs-Evolves mint u =
      execute-Evolves_on
        (poll_statement (claimable_rows fleet lockable agent_id clock jobs) clock mint) jobs
        (All_mono _ _ (λ j d m. reach_one (poll clock mint) j _ (ground (arith, d m))) jobs
          (poll_decides u))

  stale-IsTakeable :
      (j : Job)
      → is_stale_candidate fleet agent_id clock j ≡ true
      → IsTakeable fleet agent_id clock j
  unfolding is_stale_candidate
  stale-IsTakeable j h = record {
    own = text_eq_sound j.agent_id agent_id (ground arith);
    in_time = ground arith;
    attempts_left = ground arith;
    retries_left = ground arith;
    ready = ground arith;
    free = inr (ground arith, ground arith, ground arith, ground arith);
  }

  queued-IsTakeable :
      (limit : ℕ) (j : Job)
      → is_queued_candidate fleet agent_id clock limit j ≡ true
      → IsTakeable fleet agent_id clock j
  unfolding is_queued_candidate
  queued-IsTakeable limit j h = record {
    own = text_eq_sound j.agent_id agent_id (ground arith);
    in_time = ground arith;
    attempts_left = ground arith;
    retries_left = ground arith;
    ready = ground arith;
    free = inl (ground arith);
  }

  is_candidate : Job → Bool
  is_candidate j =
      is_stale_candidate fleet agent_id clock j
      || is_queued_candidate fleet agent_id clock (queued_limit fleet agent_id clock jobs) j

  candidate-IsTakeable : (j : Job) → is_candidate j ≡ true → IsTakeable fleet agent_id clock j
  unfolding is_candidate
  candidate-IsTakeable j h = elim (Bool-cases (is_stale_candidate fleet agent_id clock j)) [
    | inl e ↦ stale-IsTakeable j e
    | inr e ↦ queued-IsTakeable (queued_limit fleet agent_id clock jobs) j (ground arith)
  ]

  claimed_candidates :
      UniqueIds jobs
      → All
          (λ (j : Job).
            any (λ (c : Job). text_eq j.id c.id) (claimable_rows fleet lockable agent_id clock jobs)
              ≡ true
            → is_candidate j ≡ true)
          jobs
  unfolding is_candidate
  claimed_candidates u =
      let limit = queued_limit fleet agent_id clock jobs in
      any-Decides is_candidate jobs _ (
        claimable_rows-All (Decides is_candidate jobs)
          (batch-Decides (is_stale_candidate fleet agent_id clock) is_candidate max_claim_batch
            (λ j h. rw h refl) u)
          (batch-Decides (is_queued_candidate fleet agent_id clock limit) is_candidate limit
            (λ j h. ground arith) u))

  -- In a table of distinct ids, a poll of an agent leaves every row as it is but those that it takes: the
  -- agent's own jobs that are queued, or were claimed more than 90 seconds ago and show no evidence of
  -- delivery, and that have time, attempts and retries left and an agent and a printer that are active and
  -- online. Each of them becomes a claim under a new token, at the cost of an attempt, and of a retry where
  -- it takes over an earlier claim.
  pub poll_jobs-IsPolled :
      (mint : Text → Text)
      → UniqueIds jobs
      → Pairwise
          (IsPolled fleet agent_id clock mint)
          jobs
          (poll_jobs fleet lockable agent_id clock mint jobs).0
  unfolding poll_jobs poll_statement poll_row
  poll_jobs-IsPolled mint u =
      execute-Pairwise (IsPolled fleet agent_id clock mint)
        (poll_statement (claimable_rows fleet lockable agent_id clock jobs) clock mint) jobs
        (λ j. inl refl)
        (All_mono _ _ (λ j f m. inr (candidate-IsTakeable j (f m), refl)) jobs
          (claimed_candidates u))
