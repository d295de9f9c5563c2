-- ===== src/Job/HandOffs.antt =====
-- How often a job is handed to an agent over its whole life.
use printer_repo.Prelude.{ℕ, ◌+◌, ◌≤◌, ◌≡◌, List, [], ◌∷◌, if◌then◌else◌, arith}
use printer_repo.Job.Status.{claimed}
use printer_repo.Job.Row.{Job}
use printer_repo.Job.Delivery.{is_claimable}
use printer_repo.Job.History.{Write, claim, poll, is_pollable, step}
use printer_repo.Job.Invariant.{IsNew, IsSound, new-IsSound, step-IsSound}

-- 1 if the write hands the row to an agent.
unfoldable pub handed : Write → Job → ℕ
unfolding is_claimable is_pollable
handed (claim job_id agent_id clock token) j = if is_claimable job_id agent_id clock j then 1 else 0
handed (poll clock mint) j = if is_pollable clock j then 1 else 0
handed _ j = 0

unfoldable pub hand_offs : List Write → Job → ℕ
unfolding handed
hand_offs [] j = 0
hand_offs (w ∷ ws) j = handed w j + hand_offs ws (step w j)

-- `n` hand-offs so far are paid for by the two budgets. A claim with 5 retries came from a poll of a
-- stale claim, which charges both.
record IsPaid (n : ℕ) (j : Job) : Type 0 where
  pub paid : n ≤ j.delivery_attempts + j.retries
  pub held_extra : j.status ≡ claimed → j.retries ≡ 5 → n + 1 ≤ j.delivery_attempts + j.retries
  pub last_extra : j.retries ≡ 6 → n + 1 ≤ j.delivery_attempts + j.retries

step-IsPaid :
    (n : ℕ) (w : Write) (j : Job) → IsSound j → IsPaid n j → IsPaid (n + handed w j) (step w j)
unfolding step handed
step-IsPaid n (claim job_id agent_id clock token) j v p = ground arith
step-IsPaid n w j v p = ground arith

run-IsPaid : (n : ℕ) (ws : List Write) (j : Job) → IsSound j → IsPaid n j → n + hand_offs ws j ≤ 10
unfolding hand_offs
run-IsPaid n [] j v p = ground (arith, v.retries_bounded, p.last_extra)
run-IsPaid n (w ∷ ws) j v p =
    omega (
      arith,
      run-IsPaid (n + handed w j) ws (step w j) (step-IsSound w j v) (step-IsPaid n w j v p),
    )

-- Whatever the server and its agents do, an inserted job is handed out at most ten times, which is
-- the delivery budget plus the retry budget.
pub hand_offs-le : (ws : List Write) (j : Job) → IsNew j → hand_offs ws j ≤ 10
hand_offs-le ws j n = omega (arith, run-IsPaid 0 ws j (new-IsSound j n) (ground arith))
