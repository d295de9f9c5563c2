-- ===== src/Job/Fencing.antt =====
-- Which rows an agent's request can touch.
use printer_repo.Prelude.{
  ◌≡◌, refl, Bool, true, false, ◌⊎◌, inl, inr, List, [], ◌∷◌, Option, some, none, arith, sym, ap,
  ◌∙◌,
}
use printer_repo.Prelude.Text.{Text, text_eq_iff, not_distinct_iff}
use printer_repo.Job.Status.{Status, claimed, printing, expired}
use printer_repo.Job.Row.{
  Clock, Job, Table, Statement, write, execute, fenced_job_write, fenced_delivery_write,
  delivery_token,
}
use printer_repo.Job.Delivery.{
  delivered_statement, mark_job_delivered, ack_statement, record_job_ack, is_undelivered_claim,
  release_statement, give_up_statement, release_undelivered_claim, settle,
}
use printer_repo.Job.Report.{
  Reporter, ReportBody, Plan, refuse, submit, parse_job_id, parse_token, parse_error, parse_reason,
  plan_expire, plan_reject, plan_post_expiration, plan_transition, plan_report, plan_seen,
  carry_out, find_own, report_status, report_as,
}

-- Row by row, the second table has what the first has, except where `P` held.
abbrev pub ChangesOnly : (Job → Type 0) → Table → Table → Type 0
ChangesOnly P [] [] = Unit
ChangesOnly P (x ∷ xs) (y ∷ ys) = ((y ≡ x) ⊎ P x) × ChangesOnly P xs ys
ChangesOnly P _ _ = ⊥

pub ChangesOnly-refl : (P : Job → Type 0) (xs : Table) → ChangesOnly P xs xs
ChangesOnly-refl P [] = tt
ChangesOnly-refl P (x ∷ xs) = (inl refl, ChangesOnly-refl P xs)

write-cases : (s : Statement) (j : Job) → (write s j ≡ j) ⊎ (s.matches j ≡ true)
write-cases s j = ground arith

change :
    (P : Job → Type 0) (s : Statement) (j : Job)
    → (s.matches j ≡ true → P j)
    → (write s j ≡ j) ⊎ P j
change P s j h = elim (write-cases s j) [ inl e ↦ inl e | inr m ↦ inr (h m) ]

pub execute-ChangesOnly :
    (P : Job → Type 0) (s : Statement) (xs : Table)
    → ((j : Job) → s.matches j ≡ true → P j)
    → ChangesOnly P xs (execute s xs).0
unfolding execute
execute-ChangesOnly P s [] h = tt
execute-ChangesOnly P s (x ∷ xs) h = (change P s x (h x), execute-ChangesOnly P s xs h)

abbrev held : List Status
held = claimed ∷ printing ∷ []

-- The row is the named job of this agent, under the claim that the token stands for.
pub record IsFenced (job_id agent_id : Text) (token : Option Text) (j : Job) : Type 0 where
  pub same_job : j.id ≡ job_id
  pub same_agent : j.agent_id ≡ agent_id
  pub same_claim : j.claim_token ≡ token

fenced_job_write-IsFenced :
    (job_id agent_id : Text) (s : Status) (token : Option Text) (j : Job)
    → fenced_job_write job_id agent_id s token j ≡ true
    → IsFenced job_id agent_id token j
unfolding fenced_job_write
fenced_job_write-IsFenced job_id agent_id s token j h = ground (
  arith,
  text_eq_iff j.id job_id,
  text_eq_iff j.agent_id agent_id,
  not_distinct_iff j.claim_token token,
)

fenced_delivery_write-IsFenced :
    (job_id agent_id : Text) (token : Option Text) (ss : List Status) (j : Job)
    → fenced_delivery_write job_id agent_id token ss j ≡ true
    → IsFenced job_id agent_id (delivery_token token) j
unfolding fenced_delivery_write
fenced_delivery_write-IsFenced job_id agent_id token ss j h = ground (
  arith,
  text_eq_iff j.id job_id,
  text_eq_iff j.agent_id agent_id,
  not_distinct_iff j.claim_token (delivery_token token),
)

-- The fenced row is claimed, and nothing shows that an agent has received it.
pub record IsUndelivered (job_id agent_id : Text) (token : Option Text) (j : Job) : Type 0 where
  pub fenced : IsFenced job_id agent_id token j
  pub still_claimed : j.status ≡ claimed
  pub no_delivery : j.delivered_at ≡ none
  pub no_ack : j.acked_at ≡ none

is_undelivered_claim-IsUndelivered :
    (job_id agent_id : Text) (token : Option Text) (j : Job)
    → is_undelivered_claim job_id agent_id token j ≡ true
    → IsUndelivered job_id agent_id token j
unfolding is_undelivered_claim
is_undelivered_claim-IsUndelivered job_id agent_id token j h = ground (
  arith,
  text_eq_iff j.id job_id,
  text_eq_iff j.agent_id agent_id,
  not_distinct_iff j.claim_token token,
)

settle-ChangesOnly :
    (P : Job → Type 0) (jobs : Table) (a b : Table × Table)
    → ChangesOnly P jobs a.0
    → ChangesOnly P jobs b.0
    → ChangesOnly P jobs (settle a b).0
settle-ChangesOnly P jobs (a, j ∷ rows) (b, r) h k = h
settle-ChangesOnly P jobs (a, []) (b, j ∷ rows) h k = k
settle-ChangesOnly P jobs (a, []) (b, []) h k = k

module _ (job_id agent_id : Text) (token : Option Text) (clock : Clock) (jobs : Table) where
  -- Evidence of delivery is written to no row but the named one, under the token's claim.
  pub mark_job_delivered-IsFenced :
      ChangesOnly
        (IsFenced job_id agent_id (delivery_token token))
        jobs
        (mark_job_delivered job_id agent_id token clock jobs).0
  unfolding mark_job_delivered delivered_statement
  mark_job_delivered-IsFenced =
      execute-ChangesOnly _ (delivered_statement job_id agent_id token clock) jobs
        (fenced_delivery_write-IsFenced job_id agent_id token held)

  -- An acknowledgement changes no row but the named one, under the token's claim.
  pub record_job_ack-IsFenced :
      ChangesOnly
        (IsFenced job_id agent_id (delivery_token token))
        jobs
        (record_job_ack job_id agent_id token clock jobs).0
  unfolding record_job_ack ack_statement
  record_job_ack-IsFenced =
      execute-ChangesOnly _ (ack_statement job_id agent_id token clock) jobs
        (fenced_delivery_write-IsFenced job_id agent_id token held)

  -- A release touches no row but the named one, and that only while it is claimed under the token
  -- with neither a delivery nor an acknowledgement on record.
  pub release-fenced :
      (reason : Text)
      → ChangesOnly
          (IsUndelivered job_id agent_id token)
          jobs
          (release_undelivered_claim job_id agent_id token reason clock jobs).0
  unfolding release_undelivered_claim release_statement give_up_statement
  release-fenced reason =
      settle-ChangesOnly _ jobs _ _
        (execute-ChangesOnly _ (release_statement job_id agent_id token reason clock) jobs
          (λ j h. is_undelivered_claim-IsUndelivered job_id agent_id token j (ground arith)))
        (execute-ChangesOnly _ (give_up_statement job_id agent_id token reason clock) jobs
          (λ j h. is_undelivered_claim-IsUndelivered job_id agent_id token j (ground arith)))

-- The rows that a plan writes to.
abbrev pub plan_matches : Plan → Job → Bool
plan_matches (refuse reply) j = false
plan_matches (submit s hit miss) j = s.matches j

module _ (agent : Reporter) (job_id : Text) (token : Option Text) (clock : Clock) where
  plan_transition-IsFenced :
      (to : Status) (error : Option Text) (seen j : Job)
      → plan_matches (plan_transition agent job_id token to error clock seen) j ≡ true
      → IsFenced job_id agent.id token j
  unfolding plan_transition
  plan_transition-IsFenced to error seen j h =
      ground (arith, fenced_job_write-IsFenced job_id agent.id seen.status token j)

  plan_report-IsFenced :
      (to : Status) (error : Option Text) (reason : Text) (seen j : Job)
      → plan_matches (plan_report agent job_id to error reason token clock seen) j ≡ true
      → IsFenced job_id agent.id token j
  unfolding plan_expire plan_reject plan_post_expiration plan_report
  plan_report-IsFenced to error reason seen j h = ground (
    arith,
    fenced_job_write-IsFenced job_id agent.id seen.status token j,
    fenced_job_write-IsFenced job_id agent.id claimed token j,
    fenced_job_write-IsFenced job_id agent.id expired token j,
    plan_transition-IsFenced to error seen j,
  )

  plan_seen-IsFenced :
      (to : Status) (error : Option Text) (reason : Text) (seen : Option Job) (j : Job)
      → plan_matches (plan_seen agent job_id to error reason token clock seen) j ≡ true
      → IsFenced job_id agent.id token j
  unfolding plan_seen
  plan_seen-IsFenced to error reason none j h = cc
  plan_seen-IsFenced to error reason (some seen) j h = plan_report-IsFenced to error reason seen j h

pub carry_out-ChangesOnly :
    (P : Job → Type 0) (agent : Reporter) (job_id : Text) (plan : Plan) (later : Table)
    → ((j : Job) → plan_matches plan j ≡ true → P j)
    → ChangesOnly P later (carry_out agent job_id plan later).0
unfolding carry_out
carry_out-ChangesOnly P agent job_id (refuse reply) later h = ChangesOnly-refl P later
carry_out-ChangesOnly P agent job_id (submit s hit miss) later h = execute-ChangesOnly P s later h

-- The row belongs to the reporting agent, is the one that the body names, and carries the body's
-- claim token.
abbrev pub IsOwnClaim : Reporter → ReportBody → Job → Type 0
IsOwnClaim agent body j =
    (parse_job_id body.job_id ≡ some j.id)
    × (j.agent_id ≡ agent.id)
    × (j.claim_token ≡ parse_token body.claim_token)

module _ (agent : Reporter) (body : ReportBody) (clock : Clock) (earlier later : Table) where
  as-fenced :
      (job_id : Option Text) (to : Option Status)
      → parse_job_id body.job_id ≡ job_id
      → ChangesOnly
          (IsOwnClaim agent body)
          later
          (report_as agent job_id to body clock earlier later).0
  as-fenced none to e = ChangesOnly-refl _ later
  as-fenced (some job_id) none e = ChangesOnly-refl _ later
  as-fenced (some job_id) (some to) e =
      let token = parse_token body.claim_token in
      carry_out-ChangesOnly (IsOwnClaim agent body) agent job_id
        (plan_seen agent job_id to (parse_error body.error) (parse_reason body.reason) token clock
          (find_own agent job_id earlier))
        later
        λ j h.
          let f =
            plan_seen-IsFenced agent job_id token clock to _ _ (find_own agent job_id earlier) j
              h in
          (e ∙ ap some (sym f.same_job), f.same_agent, f.same_claim)

  -- Whatever the row said when the handler read it, the write that follows can change no row but the
  -- agent's own row that the body names, and that only while the row carries the body's claim token.
  pub report_status-fenced :
      ChangesOnly (IsOwnClaim agent body) later (report_status agent body clock earlier later).0
  unfolding report_status
  report_status-fenced = as-fenced (parse_job_id body.job_id) _ refl
