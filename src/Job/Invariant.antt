-- ===== src/Job/Invariant.antt =====
-- What holds of a row between two writes.
use printer_repo.Prelude.{◌≤◌, ◌≡◌, ◌⊎◌, List, [], ◌∷◌, none, arith}
use printer_repo.Job.Status.{queued, claimed, printing}
use printer_repo.Job.Row.{Job}
use printer_repo.Job.History.{Write, claim, step, run}

-- A row as `insertQueuedJobAtomically` inserts it, as far as its delivery goes.
pub record IsNew (j : Job) : Type 0 where
  pub is_queued : j.status ≡ queued
  pub unclaimed : j.claim_token ≡ none
  pub undelivered : j.delivered_at ≡ none
  pub unacked : j.acked_at ≡ none
  pub no_attempts : j.delivery_attempts ≡ 0
  pub no_retries : j.retries ≡ 0

pub record IsSound (j : Job) : Type 0 where
  pub queued_unclaimed : j.status ≡ queued → j.claim_token ≡ none
  pub queued_undelivered : j.status ≡ queued → j.delivered_at ≡ none
  pub queued_unacked : j.status ≡ queued → j.acked_at ≡ none
  pub attempts_bounded : j.delivery_attempts ≤ 5
  pub retries_bounded : j.retries ≤ 6
  pub held_retries : (j.status ≡ claimed) ⊎ (j.status ≡ printing) → j.retries ≤ 5

pub new-IsSound : (j : Job) → IsNew j → IsSound j
new-IsSound j n = ground arith

pub step-IsSound : (w : Write) (j : Job) → IsSound j → IsSound (step w j)
unfolding step
step-IsSound (claim job_id agent_id clock token) j v = ground arith
step-IsSound w j v = ground arith

-- Every row keeps the delivery invariant over any sequence of the server's writes, from its insert
-- on: a queued row carries no token and no evidence, the delivery budget is at most 5, the retry
-- count at most 6, and at most 5 while an agent holds the row.
pub run-IsSound : (ws : List Write) (j : Job) → IsSound j → IsSound (run ws j)
unfolding run
run-IsSound [] j v = v
run-IsSound (w ∷ ws) j v = run-IsSound ws (step w j) (step-IsSound w j v)
