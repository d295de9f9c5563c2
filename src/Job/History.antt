-- ===== src/Job/History.antt =====
-- The life of one row: every write that the handlers issue, with the tests under which it reaches
-- the row. Job/Refinement proves that the handlers do nothing else to a row.
use printer_repo.Prelude.{◌+◌, Bool, not, ◌&&◌, ◌||◌, List, [], ◌∷◌, Option, ltb, is_none}
use printer_repo.Prelude.Text.{Text}
use printer_repo.Job.Status.{Status, queued, claimed, can_transition, ◌is◌}
use printer_repo.Job.Row.{Clock, Job, Statement, write}
use printer_repo.Job.Delivery.{
  max_delivery_attempts, max_retries, stale_claim_ms, is_claimable, claim_row, delivered_statement,
  ack_statement, release_statement, give_up_statement,
}
use printer_repo.Job.Sweep.{
  expire_statement, requeue_statement, silent_statement, stale_printing_statement,
  exhausted_statement,
}
use printer_repo.Job.Poll.{poll_row}
use printer_repo.Job.Report.{
  Reporter, agent_expire_statement, reject_statement, post_expiration_statement, report_statement,
}
use printer_repo.Job.KeepAlive.{Pair, tokened_statement, tokenless_statement}

pub data Write : Type 0 where
  claim : (job_id agent_id : Text) → Clock → (token : Text) → Write
  poll : Clock → (mint : Text → Text) → Write
  deliver ack : (job_id agent_id : Text) → Option Text → Clock → Write
  release give_up : (job_id agent_id : Text) → Option Text → (reason : Text) → Clock → Write
  expire requeue silence stall exhaust : (scope : Option Text) → Clock → Write
  agent_expire : Reporter → (job_id : Text) → Option Text → Clock → (seen : Job) → Write
  reject : Reporter → (job_id : Text) → Option Text → (reason : Text) → Clock → Write
  print_late : Reporter → (job_id : Text) → Option Text → (error : Option Text) → Clock → Write
  report :
      Reporter
      → (job_id : Text) → Option Text
      → (from to : Status) → (late : Bool) → (error : Option Text) → Clock
      → Write
  refresh_tokened refresh_tokenless : Reporter → List Pair → Clock → Write

-- A row that a poll may claim: queued, or claimed long ago without a trace of delivery.
unfoldable pub is_pollable : Clock → Job → Bool
is_pollable clock j =
    ltb clock.db_now j.expires_at
    && ltb j.delivery_attempts max_delivery_attempts
    && ltb j.retries max_retries
    && (j.status is queued
        || (j.status is claimed
            && is_none j.delivered_at
            && is_none j.acked_at
            && ltb (j.updated_at + stale_claim_ms) clock.db_now))

unfoldable pub statement : Write → Statement
unfolding is_claimable claim_row poll_row is_pollable delivered_statement ack_statement
    release_statement give_up_statement expire_statement requeue_statement silent_statement
    stale_printing_statement exhausted_statement agent_expire_statement reject_statement
    post_expiration_statement report_statement can_transition tokened_statement tokenless_statement
statement (claim job_id agent_id clock token) = record {
  matches = is_claimable job_id agent_id clock;
  set_row = claim_row clock token;
}
statement (poll clock mint) = record { matches = is_pollable clock; set_row = poll_row clock mint }
statement (deliver job_id agent_id token clock) = delivered_statement job_id agent_id token clock
statement (ack job_id agent_id token clock) = ack_statement job_id agent_id token clock
statement (release job_id agent_id token reason clock) =
    release_statement job_id agent_id token reason clock
statement (give_up job_id agent_id token reason clock) =
    give_up_statement job_id agent_id token reason clock
statement (expire scope clock) = expire_statement scope clock
statement (requeue scope clock) = requeue_statement scope clock
statement (silence scope clock) = silent_statement scope clock
statement (stall scope clock) = stale_printing_statement scope clock
statement (exhaust scope clock) = exhausted_statement scope clock
statement (agent_expire agent job_id token clock seen) =
    agent_expire_statement agent job_id token clock seen
statement (reject agent job_id token reason clock) =
    reject_statement agent job_id token reason clock
statement (print_late agent job_id token error clock) =
    post_expiration_statement agent job_id token error clock
statement (report agent job_id token from to late error clock) =
    let s = report_statement agent job_id token from to error clock in
    record s { matches = λ j. can_transition from to late && not (to is queued) && s.matches j }
statement (refresh_tokened agent pairs clock) = tokened_statement agent pairs clock
statement (refresh_tokenless agent pairs clock) = tokenless_statement agent pairs clock

unfoldable pub step : Write → Job → Job
unfolding statement
step w j = write (statement w) j

-- The writes in order, the earliest first.
unfoldable pub run : List Write → Job → Job
run [] j = j
run (w ∷ ws) j = run ws (step w j)
