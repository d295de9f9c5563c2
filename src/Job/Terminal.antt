-- ===== src/Job/Terminal.antt =====
-- Finished jobs, and jobs that an agent has received.
use printer_repo.Prelude.{◌≡◌, refl, ◌∙◌, ap, ◌≢◌, Bool, true, false, List, [], ◌∷◌, All, arith}
use printer_repo.Job.Status.{queued, is_terminal}
use printer_repo.Job.Row.{Job}
use printer_repo.Job.Sweep.{has_evidence}
use printer_repo.Job.History.{Write, claim, agent_expire, reject, print_late, report, step, run}
use printer_repo.Job.HandOffs.{handed, hand_offs}

-- The agent writes that may touch a finished row: a request to expire it, a print that finished
-- just after expiry, and a late success.
abbrev pub is_override : Write → Bool
is_override (agent_expire agent job_id token clock seen) = true
is_override (print_late agent job_id token error clock) = true
is_override (report agent job_id token from to late error clock) = late
is_override _ = false

abbrev pub is_rejection : Write → Bool
is_rejection (reject agent job_id token reason clock) = true
is_rejection _ = false

step-terminal :
    (w : Write) (j : Job) → is_override w ≡ false → is_terminal j.status ≡ true → step w j ≡ j
unfolding step is_terminal
step-terminal (claim job_id agent_id clock token) j h t = ground arith
step-terminal w j h t = ground arith

-- Writes other than an agent's late reports leave a finished row exactly as it is.
pub run-terminal :
    (ws : List Write) (j : Job)
    → All (λ w. is_override w ≡ false) ws
    → is_terminal j.status ≡ true
    → run ws j ≡ j
unfolding run
run-terminal [] j h t = refl
run-terminal (w ∷ ws) j (h, hs) t =
    let same = step-terminal w j h t in
    run-terminal ws (step w j) hs (ap (λ (k : Job). is_terminal k.status) same ∙ t) ∙ same

step_stays :
    (w : Write) (j : Job) → is_terminal j.status ≡ true → is_terminal (step w j).status ≡ true
unfolding step is_terminal
step_stays (claim job_id agent_id clock token) j t = ground arith
step_stays w j t = ground arith

-- No sequence of writes, late reports included, brings a finished job back to life.
pub terminal_stays :
    (ws : List Write) (j : Job) → is_terminal j.status ≡ true → is_terminal (run ws j).status ≡ true
unfolding run
terminal_stays [] j t = t
terminal_stays (w ∷ ws) j t = terminal_stays ws (step w j) (step_stays w j t)

-- An agent has received the job under its current claim.
pub record IsReceived (j : Job) : Type 0 where
  pub evidence : has_evidence j ≡ true
  pub not_queued : j.status ≢ queued

step-IsReceived :
    (w : Write) (j : Job)
    → is_rejection w ≡ false
    → IsReceived j
    → IsReceived (step w j) × ((step w j).claim_token ≡ j.claim_token) × (handed w j ≡ 0)
unfolding step handed
step-IsReceived (claim job_id agent_id clock token) j h r = ground arith
step-IsReceived w j h r = ground arith

-- A job that an agent has received is never handed out again, and keeps its claim token, unless the
-- agent itself returns it: no claim, poll, release or sweep can have it printed a second time.
pub received_once :
    (ws : List Write) (j : Job)
    → All (λ w. is_rejection w ≡ false) ws
    → IsReceived j
    → (hand_offs ws j ≡ 0) × ((run ws j).claim_token ≡ j.claim_token)
unfolding run hand_offs
received_once [] j h r = (refl, refl)
received_once (w ∷ ws) j (h, hs) r =
    let (r', same, none_handed) = step-IsReceived w j h r in
    let (rest, kept) = received_once ws (step w j) hs r' in (omega arith, kept ∙ same)
