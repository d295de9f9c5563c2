-- ===== src/Job/Poll.antt =====
-- GET of src/app/api/agent/jobs/route.ts: an agent polls for a batch of jobs.
-- Rows with equal `created_at` come in table order, which SQL leaves open. The tests of the candidates and
-- the update of the locked rows are one step here: in the database a row that a statement outside the
-- agent's advisory lock changes between the snapshot and its row lock is not tested again.
use printer_repo.Prelude.{
  ℕ, ◌+◌, ◌-◌, Bool, ◌&&◌, List, [], ◌∷◌, ◌++◌, none, some, if◌then◌else◌, any, filter, count, take,
  map, ltb, leb, is_none, min,
}
use printer_repo.Prelude.Text.{Text, text_eq}
use printer_repo.Job.Status.{
  queued, claimed, printing, PhysicalOutcome, derive_physical_outcome, ◌is◌,
}
use printer_repo.Job.Row.{
  Clock, Job, AgentRow, PrinterRow, Fleet, Table, Statement, is_active, execute,
}
use printer_repo.Job.Delivery.{
  max_agent_in_flight_jobs, max_delivery_attempts, max_retries, stale_claim_ms,
}

abbrev pub max_claim_batch : ℕ
max_claim_batch = 20

-- The joins of the poll, which compare no tenants.
unfoldable pub joined_ready : Fleet → Job → Bool
joined_ready fleet j =
    any (λ (a : AgentRow). text_eq a.id j.agent_id && is_active a.lifecycle && a.online)
      fleet.agents
    && any (λ (p : PrinterRow). text_eq p.id j.printer_id && is_active p.lifecycle && p.online)
        fleet.printers

unfoldable pub is_live : Fleet → Text → Clock → Job → Bool
unfolding joined_ready
is_live fleet agent_id clock j =
    text_eq j.agent_id agent_id
    && any (λ s. j.status is s) (claimed ∷ printing ∷ [])
    && ltb clock.db_now j.expires_at
    && joined_ready fleet j

unfoldable pub is_stale_candidate : Fleet → Text → Clock → Job → Bool
unfolding joined_ready
is_stale_candidate fleet agent_id clock j =
    text_eq j.agent_id agent_id
    && ltb clock.db_now j.expires_at
    && j.status is claimed
    && is_none j.delivered_at
    && is_none j.acked_at
    && ltb (j.updated_at + stale_claim_ms) clock.db_now
    && ltb j.retries max_retries
    && ltb j.delivery_attempts max_delivery_attempts
    && joined_ready fleet j

unfoldable pub is_queued_candidate : Fleet → Text → Clock → ℕ → Job → Bool
unfolding joined_ready
is_queued_candidate fleet agent_id clock queued_limit j =
    text_eq j.agent_id agent_id
    && ltb clock.db_now j.expires_at
    && j.status is queued
    && ltb j.delivery_attempts max_delivery_attempts
    && ltb j.retries max_retries
    && ltb 0 queued_limit
    && joined_ready fleet j

-- `ORDER BY created_at ASC`
unfoldable pub insert_by_age : Job → Table → Table
insert_by_age j [] = j ∷ []
insert_by_age j (k ∷ ks) =
    let later = k ∷ insert_by_age j ks in
    if leb j.created_at k.created_at then j ∷ k ∷ ks else later

unfoldable pub sort_by_age : Table → Table
unfolding insert_by_age
sort_by_age [] = []
sort_by_age (j ∷ js) = insert_by_age j (sort_by_age js)

unfoldable pub remaining_slots : Fleet → Text → Clock → Table → ℕ
unfolding is_live
remaining_slots fleet agent_id clock jobs =
    max_agent_in_flight_jobs - count (is_live fleet agent_id clock) jobs

-- `stale_candidates` and `queued_candidates`
abbrev pub stale_batch : Fleet → Text → Clock → Table → Table
stale_batch fleet agent_id clock jobs =
    take max_claim_batch (sort_by_age (filter (is_stale_candidate fleet agent_id clock) jobs))

abbrev pub queued_batch : Fleet → Text → Clock → ℕ → Table → Table
queued_batch fleet agent_id clock queued_limit jobs =
    take queued_limit
      (sort_by_age (filter (is_queued_candidate fleet agent_id clock queued_limit) jobs))

abbrev pub queued_limit : Fleet → Text → Clock → Table → ℕ
queued_limit fleet agent_id clock jobs =
    min max_claim_batch (remaining_slots fleet agent_id clock jobs)

-- `claimable`: stale claims have priority 0 and queued jobs priority 1, each by age; rows that other
-- transactions hold are skipped.
unfoldable pub claimable_rows : Fleet → (Job → Bool) → Text → Clock → Table → Table
unfolding remaining_slots is_stale_candidate is_queued_candidate sort_by_age
claimable_rows fleet lockable agent_id clock jobs = take max_claim_batch (
    filter (λ j. lockable j && joined_ready fleet j)
      (stale_batch fleet agent_id clock jobs
        ++ queued_batch fleet agent_id clock (queued_limit fleet agent_id clock jobs) jobs))

unfoldable pub poll_row : Clock → (Text → Text) → Job → Job
poll_row clock mint j = record j {
  status = claimed;
  claimed_at = some clock.db_now;
  updated_at = clock.db_now;
  claim_token = some (mint j.id);
  acked_at = none;
  delivery_attempts = j.delivery_attempts + 1;
  retries = if j.status is claimed then j.retries + 1 else j.retries;
}

unfoldable pub poll_statement : Table → Clock → (Text → Text) → Statement
unfolding poll_row
poll_statement claimable clock mint = record {
  matches = λ j. any (λ (c : Job). text_eq j.id c.id) claimable;
  set_row = poll_row clock mint;
}

-- `claimJobs`, and the response with each row's physical outcome. `mint` gives the value of
-- `gen_random_uuid()` for each row.
unfoldable pub poll_jobs :
    Fleet
    → (Job → Bool)
    → Text
    → Clock
    → (Text → Text)
    → Table
    → Table × List (Job × PhysicalOutcome)
unfolding claimable_rows poll_statement execute
poll_jobs fleet lockable agent_id clock mint jobs =
    let (jobs', rows) =
      execute (poll_statement (claimable_rows fleet lockable agent_id clock jobs) clock mint)
        jobs in
    (jobs', map (λ (j : Job). (j, derive_physical_outcome j.status j.error)) rows)
