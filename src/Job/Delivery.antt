-- ===== src/Job/Delivery.antt =====
-- src/lib/job-delivery.ts: handing a queued job to an agent, delivery evidence, and the release of
-- a claim that was not delivered.
use printer_repo.Prelude.{
  ℕ, ◌+◌, Bool, true, false, ◌&&◌, List, [], ◌∷◌, ◌++◌, Option, none, some, if◌then◌else◌, any,
  filter, count, ltb, leb, or_else, is_none,
}
use printer_repo.Prelude.Text.{Text, text, text_eq, not_distinct}
use printer_repo.Job.Status.{Status, queued, claimed, printing, ◌is◌}
use printer_repo.Job.Row.{
  Clock, Job, AgentRow, PrinterRow, Fleet, Table, Statement, is_active, execute,
  fenced_delivery_write,
}

abbrev pub max_agent_in_flight_jobs : ℕ
max_agent_in_flight_jobs = 500

abbrev pub max_delivery_attempts : ℕ
max_delivery_attempts = 5

-- src/lib/job-maintenance.ts
abbrev pub max_retries : ℕ
max_retries = 5

abbrev pub stale_claim_ms : ℕ
stale_claim_ms = 90_000

-- The joins `agents a ON a.id = p.agent_id`, `printers pr ON pr.id = p.printer_id` with the tests
-- that both are active and online, and that each is of the job's tenant.
unfoldable pub runtime_ready : Fleet → Job → Bool
runtime_ready fleet j =
    any
      (λ (a : AgentRow).
        text_eq a.id j.agent_id
        && text_eq a.tenant_id j.tenant_id
        && is_active a.lifecycle
        && a.online)
      fleet.agents
    && any
        (λ (p : PrinterRow).
          text_eq p.id j.printer_id
          && text_eq p.tenant_id j.tenant_id
          && is_active p.lifecycle
          && p.online)
        fleet.printers

-- What the count of live jobs counts.
unfoldable pub is_in_flight : Fleet → Text → Clock → Job → Bool
unfolding runtime_ready
is_in_flight fleet agent_id clock j =
    text_eq j.agent_id agent_id
    && any (λ s. j.status is s) (claimed ∷ printing ∷ [])
    && ltb clock.db_now j.expires_at
    && runtime_ready fleet j

-- The row test of `SELECT … FOR UPDATE OF p, a, pr SKIP LOCKED`, without the lock.
unfoldable pub is_claimable : Text → Text → Clock → Job → Bool
is_claimable job_id agent_id clock j =
    text_eq j.id job_id
    && text_eq j.agent_id agent_id
    && j.status is queued
    && ltb clock.db_now j.expires_at
    && ltb j.delivery_attempts max_delivery_attempts
    && ltb j.retries max_retries

unfoldable pub claim_row : Clock → Text → Job → Job
claim_row clock token j = record j {
  status = claimed;
  claimed_at = some clock.db_now;
  updated_at = clock.db_now;
  claim_token = some token;
  delivered_at = none;
  acked_at = none;
  delivery_attempts = j.delivery_attempts + 1;
}

-- `(SELECT tenant_id FROM agents WHERE id = …)`; no row equals a missing value.
unfoldable pub tenant_of : Text → List AgentRow → Option Text
tenant_of agent_id [] = none
tenant_of agent_id (a ∷ rest) =
    let later = tenant_of agent_id rest in if text_eq a.id agent_id then some a.tenant_id else later

abbrev pub equals_sql : Text → Option Text → Bool
equals_sql t none = false
equals_sql t (some u) = text_eq t u

-- The second statement of the claim.
unfoldable pub claim_statement : Text → Text → Option Text → Clock → Text → Statement
unfolding claim_row
claim_statement job_id agent_id tenant_id clock token = record {
  matches = λ j.
      text_eq j.id job_id
      && equals_sql j.tenant_id tenant_id
      && text_eq j.agent_id agent_id
      && j.status is queued
      && ltb clock.db_now j.expires_at;
  set_row = claim_row clock token;
}

abbrev pub first : Table → Option Job
first [] = none
first (j ∷ js) = some j

-- The transaction's end: nothing was locked, or the update runs.
abbrev pub then_claim : Statement → Table → Table → Table × Option Job
then_claim claim jobs [] = (jobs, none)
then_claim claim jobs (locked ∷ _) = let (jobs', rows) = execute claim jobs in (jobs', first rows)

-- `claimJobForDelivery`. `lockable` tells the rows that no other transaction holds; `token` is the
-- value of `gen_random_uuid()`.
unfoldable pub claim_job_for_delivery :
    Fleet → (Job → Bool) → Text → Text → Clock → Text → Table → Table × Option Job
unfolding is_in_flight is_claimable tenant_of claim_statement execute
claim_job_for_delivery fleet lockable job_id agent_id clock token jobs =
    if leb max_agent_in_flight_jobs (count (is_in_flight fleet agent_id clock) jobs)
    then (jobs, none)
    else then_claim (claim_statement job_id agent_id (tenant_of agent_id fleet.agents) clock token)
        jobs
        (filter (λ j. is_claimable job_id agent_id clock j && runtime_ready fleet j && lockable j)
          jobs)

unfoldable pub delivered_statement : Text → Text → Option Text → Clock → Statement
unfolding fenced_delivery_write
delivered_statement job_id agent_id claim_token clock = record {
  matches = fenced_delivery_write job_id agent_id claim_token (claimed ∷ printing ∷ []);
  set_row = λ j. record j { delivered_at = some clock.app_now; updated_at = clock.app_now };
}

abbrev pub is_hit : Table → Bool
is_hit [] = false
is_hit (j ∷ js) = true

unfoldable pub mark_job_delivered : Text → Text → Option Text → Clock → Table → Table × Bool
unfolding delivered_statement execute
mark_job_delivered job_id agent_id claim_token clock jobs =
    let (jobs', rows) = execute (delivered_statement job_id agent_id claim_token clock) jobs in
    (jobs', is_hit rows)

unfoldable pub ack_statement : Text → Text → Option Text → Clock → Statement
unfolding fenced_delivery_write
ack_statement job_id agent_id claim_token clock = record {
  matches = fenced_delivery_write job_id agent_id claim_token (claimed ∷ printing ∷ []);
  set_row = λ j. record j {
    acked_at = some (or_else j.acked_at clock.db_now);
    delivered_at = some (or_else j.delivered_at clock.db_now);
    updated_at = clock.app_now;
  };
}

unfoldable pub record_job_ack : Text → Text → Option Text → Clock → Table → Table × Bool
unfolding ack_statement execute
record_job_ack job_id agent_id claim_token clock jobs =
    let (jobs', rows) = execute (ack_statement job_id agent_id claim_token clock) jobs in
    (jobs', is_hit rows)

pub data ReleaseOutcome : Type 0 where
  requeued failed noop : ReleaseOutcome

-- The part of the `WHERE` clause that both statements of a release share.
unfoldable pub is_undelivered_claim : Text → Text → Option Text → Job → Bool
is_undelivered_claim job_id agent_id claim_token j =
    text_eq j.id job_id
    && text_eq j.agent_id agent_id
    && j.status is claimed
    && not_distinct j.claim_token claim_token
    && is_none j.delivered_at
    && is_none j.acked_at

unfoldable pub release_statement : Text → Text → Option Text → Text → Clock → Statement
unfolding is_undelivered_claim
release_statement job_id agent_id claim_token reason clock = record {
  matches = λ j.
      is_undelivered_claim job_id agent_id claim_token j
      && ltb j.delivery_attempts max_delivery_attempts;
  set_row = λ j. record j {
    status = queued;
    claimed_at = none;
    claim_token = none;
    updated_at = clock.db_now;
    error = some reason;
  };
}

unfoldable pub give_up_statement : Text → Text → Option Text → Text → Clock → Statement
unfolding is_undelivered_claim
give_up_statement job_id agent_id claim_token reason clock = record {
  matches = λ j.
      is_undelivered_claim job_id agent_id claim_token j
      && leb max_delivery_attempts j.delivery_attempts;
  set_row = λ j. record j {
    status = Status.failed;
    updated_at = clock.db_now;
    error = some (reason ++ text " (giving up after 5 delivery attempts)");
  };
}

-- The first statement hit, or the second is tried.
abbrev pub settle : Table × Table → Table × Table → Table × ReleaseOutcome
settle (requeued_jobs, j ∷ rows) second = (requeued_jobs, requeued)
settle (requeued_jobs, []) (failed_jobs, j ∷ rows) = (failed_jobs, ReleaseOutcome.failed)
settle (requeued_jobs, []) (failed_jobs, []) = (failed_jobs, noop)

-- `releaseUndeliveredClaim`
unfoldable pub release_undelivered_claim :
    Text → Text → Option Text → Text → Clock → Table → Table × ReleaseOutcome
unfolding release_statement give_up_statement execute
release_undelivered_claim job_id agent_id claim_token reason clock jobs =
    settle (execute (release_statement job_id agent_id claim_token reason clock) jobs)
      (execute (give_up_statement job_id agent_id claim_token reason clock) jobs)
