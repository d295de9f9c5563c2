-- ===== src/Socket/Push.antt =====
-- Pushing a job over a socket.
use printer_repo.Prelude.{
  ℕ, ◌&&◌, not, if◌then◌else◌, ◌==◌, is_some, subst, leb, count, ◌≡◌, refl, Bool, true, false, List,
  [], ◌∷◌, Option, none, some, any, map, filter, arith, Bool-cases, inl, inr,
}
use printer_repo.Prelude.Text.{Text, text_eq, not_distinct}
use printer_repo.Job.Row.{
  Clock, Job, Fleet, Table, Statement, execute, fenced_delivery_write, delivery_token,
}
use printer_repo.Job.Status.{claimed, printing, ◌is◌}
use printer_repo.Job.Delivery.{
  ReleaseOutcome, requeued, failed, noop, claim_job_for_delivery, mark_job_delivered, is_hit,
  delivered_statement, max_agent_in_flight_jobs, is_in_flight, then_claim, claim_statement,
  claim_row, first, tenant_of,
}
use printer_repo.Job.Refinement.{Evolves, Evolves-refl, Evolves-trans}
use printer_repo.Job.Handlers.{mark_job_delivered-Evolves, release-Evolves}
use printer_repo.Job.Claims.{claim_job_for_delivery-Evolves}
use printer_repo.Job.Keys.{UniqueIds}
use printer_repo.Socket.{
  no_socket, after_failed_send, AgentSocket, PushOutcome, delivered, Meanwhile, by_evidence,
  push_claimed, claim_and_push_job_to_agent, has_open_agent_socket, send_to_agent,
}

-- Other requests move rows by the queue's own writes only.
abbrev pub IsQuiet : Meanwhile → Type 0
IsQuiet meanwhile = (jobs : Table) → Evolves jobs (meanwhile jobs)

module _ (job_id agent_id : Text) (evidence_clock release_clock : Clock)
    (after_claim after_evidence : Meanwhile) (q1 : IsQuiet after_claim)
    (q2 : IsQuiet after_evidence) where
  by_evidence-Evolves :
      (token : Option Text) (jobs : Table) (marked : Table × Bool)
      → Evolves jobs marked.0
      → Evolves jobs (by_evidence job_id agent_id token release_clock after_evidence marked).0
  by_evidence-Evolves token jobs (marked, true) h = h
  by_evidence-Evolves token jobs (marked, false) h = Evolves-trans jobs marked _ h (
      Evolves-trans marked (after_evidence marked) _ (q2 marked)
        (release-Evolves job_id agent_id token release_clock (after_evidence marked) _))

  push_claimed-Evolves :
      (sent : Option AgentSocket) (jobs : Table) (claim : Option Job)
      → Evolves jobs
          (push_claimed job_id agent_id sent evidence_clock release_clock after_claim after_evidence
            jobs claim).0
  unfolding push_claimed
  push_claimed-Evolves sent jobs none = Evolves-refl jobs
  push_claimed-Evolves none jobs (some c) =
      Evolves-trans jobs (after_claim jobs) _ (q1 jobs)
        (release-Evolves job_id agent_id c.claim_token release_clock (after_claim jobs) _)
  push_claimed-Evolves (some s) jobs (some c) = by_evidence-Evolves c.claim_token jobs _ (
      Evolves-trans jobs (after_claim jobs) _ (q1 jobs) (
        mark_job_delivered-Evolves job_id agent_id c.claim_token evidence_clock (after_claim jobs)))

  -- A push moves the rows of the table by the writes of the queue alone, whatever the sockets do, if
  -- the requests that run between its statements do so too.
  pub push-Evolves :
      (fleet : Fleet) (lockable : Job → Bool) (sockets : List AgentSocket) (claim_clock : Clock)
      (token : Text) (jobs : Table)
      → UniqueIds jobs
      → Evolves jobs
          (claim_and_push_job_to_agent fleet lockable sockets job_id agent_id claim_clock
            evidence_clock release_clock token after_claim after_evidence jobs).0
  unfolding claim_and_push_job_to_agent
  push-Evolves fleet lockable sockets claim_clock token jobs u =
      elim (Bool-cases (has_open_agent_socket sockets)) [
        | inl e ↦ rw e (
            Evolves-trans jobs _ _
              (claim_job_for_delivery-Evolves fleet lockable job_id agent_id claim_clock token jobs
                u)
              (push_claimed-Evolves (send_to_agent sockets).1 _ _))
        | inr e ↦ rw e (Evolves-refl jobs)
      ]

abbrev is_at : ℕ → Option ℕ → Bool
is_at time none = false
is_at time (some t) = t == time

-- The row was handed over under the claim that the token stands for.
abbrev pub is_evidenced : Text → Text → Option Text → ℕ → Job → Bool
is_evidenced job_id agent_id token time j =
    text_eq j.id job_id
    && text_eq j.agent_id agent_id
    && not_distinct j.claim_token token
    && any (λ s. j.status is s) (claimed ∷ printing ∷ [])
    && is_at time j.delivered_at

delivered_row :
    (job_id agent_id : Text) (token : Option Text) (clock : Clock) (j : Job)
    → (delivered_statement job_id agent_id token clock).matches j ≡ true
    → is_evidenced job_id agent_id
        (delivery_token token)
        clock.app_now
        ((delivered_statement job_id agent_id token clock).set_row j)
      ≡ true
unfolding delivered_statement fenced_delivery_write
delivered_row job_id agent_id token clock j h = ground arith

execute-hit :
    (s : Statement) (test : Job → Bool) (jobs : Table)
    → ((j : Job) → s.matches j ≡ true → test (s.set_row j) ≡ true)
    → is_hit (execute s jobs).1 ≡ true
    → any test (execute s jobs).0 ≡ true
unfolding execute
execute-hit s test [] h e = cc
execute-hit s test (j ∷ js) h e = ground (arith, h j, execute-hit s test js h)

mark_job_delivered-hit :
    (job_id agent_id : Text) (token : Option Text) (clock : Clock) (jobs : Table)
    → (mark_job_delivered job_id agent_id token clock jobs).1 ≡ true
    → any
        (is_evidenced job_id agent_id (delivery_token token) clock.app_now)
        (mark_job_delivered job_id agent_id token clock jobs).0
      ≡ true
unfolding mark_job_delivered
mark_job_delivered-hit job_id agent_id token clock jobs e =
    execute-hit (delivered_statement job_id agent_id token clock) _ jobs
      (delivered_row job_id agent_id token clock) e

first-sound :
    (P : Job → Type 0) (s : Statement) (rows : Table) (c : Job)
    → ((j : Job) → P (s.set_row j))
    → first (map s.set_row rows) ≡ some c
    → P c
first-sound P s [] c h e = cc
first-sound P s (j ∷ rows) c h e = subst P (some_inj e) (h j)
  where
    some_inj : {a b : Job} → some a ≡ some b → a ≡ b
    some_inj e = cc

then_claim-token :
    (job_id agent_id token : Text) (tenant : Option Text) (clock : Clock) (jobs locked : Table)
    (c : Job)
    → (then_claim (claim_statement job_id agent_id tenant clock token) jobs locked).1 ≡ some c
    → c.claim_token ≡ some token
unfolding claim_statement claim_row execute
then_claim-token job_id agent_id token tenant clock jobs [] c e = cc
then_claim-token job_id agent_id token tenant clock jobs (l ∷ locked) c e =
    first-sound (λ k. k.claim_token ≡ some token)
      (claim_statement job_id agent_id tenant clock token)
      (filter (claim_statement job_id agent_id tenant clock token).matches jobs) c (λ j. refl) e

unless_full :
    (b : Bool) (jobs : Table) (taken : Table × Option Job) (P : Job → Type 0) (c : Job)
    → (taken.1 ≡ some c → P c)
    → (if b then (jobs, none) else taken).1 ≡ some c
    → P c
unless_full true jobs taken P c h e = absurd (ground arith)
unless_full false jobs taken P c h e = h e

claim-token :
    (fleet : Fleet) (lockable : Job → Bool) (job_id agent_id : Text) (clock : Clock) (token : Text)
    (jobs : Table) (c : Job)
    → (claim_job_for_delivery fleet lockable job_id agent_id clock token jobs).1 ≡ some c
    → c.claim_token ≡ some token
unfolding claim_job_for_delivery
claim-token fleet lockable job_id agent_id clock token jobs c e =
    unless_full (leb max_agent_in_flight_jobs (count (is_in_flight fleet agent_id clock) jobs)) jobs
      _ (λ k. k.claim_token ≡ some token) c
      (then_claim-token job_id agent_id token (tenant_of agent_id fleet.agents) clock jobs _ c) e

failed_send-undelivered : (o : ReleaseOutcome) → after_failed_send o ≡ delivered → ⊥
failed_send-undelivered requeued e = ground arith
failed_send-undelivered failed e = ground arith
failed_send-undelivered noop e = ground arith

unless_closed :
    (b : Bool) (jobs : Table) (pushed : Table × PushOutcome) (P : Table → Type 0)
    → (pushed.1 ≡ delivered → P pushed.0)
    → (if not b then (jobs, no_socket) else pushed).1 ≡ delivered
    → P (if not b then (jobs, no_socket) else pushed).0
unless_closed true jobs pushed P h e = h e
unless_closed false jobs pushed P h e = absurd (ground arith)

module _ (job_id agent_id : Text) (evidence_clock release_clock : Clock)
    (after_claim after_evidence : Meanwhile) where
  by_evidence-delivered :
      (token : Option Text) (test : Job → Bool) (marked : Table × Bool)
      → (marked.1 ≡ true → any test marked.0 ≡ true)
      → (by_evidence job_id agent_id token release_clock after_evidence marked).1 ≡ delivered
      → any test (by_evidence job_id agent_id token release_clock after_evidence marked).0 ≡ true
  by_evidence-delivered token test (marked, true) h e = h refl
  by_evidence-delivered token test (marked, false) h e = ground arith

  push_claimed-delivered :
      (sent : Option AgentSocket) (jobs : Table) (claim : Option Job) (token : Text)
      → ((c : Job) → claim ≡ some c → c.claim_token ≡ some token)
      → (push_claimed job_id agent_id sent evidence_clock release_clock after_claim after_evidence
          jobs claim).1
        ≡ delivered
      → (is_some sent ≡ true)
        × (any
              (is_evidenced job_id agent_id (delivery_token (some token)) evidence_clock.app_now)
              (push_claimed job_id agent_id sent evidence_clock release_clock after_claim
                after_evidence jobs claim).0
            ≡ true)
  unfolding push_claimed
  push_claimed-delivered sent jobs none token t e = cc
  push_claimed-delivered none jobs (some c) token t e = absurd (failed_send-undelivered _ e)
  push_claimed-delivered (some s) jobs (some c) token t e = (
    refl,
    by_evidence-delivered c.claim_token _ _
        (subst
          (λ k.
            (mark_job_delivered job_id agent_id c.claim_token evidence_clock (after_claim jobs)).1
              ≡ true
            → any (is_evidenced job_id agent_id (delivery_token k) evidence_clock.app_now)
                (mark_job_delivered job_id agent_id c.claim_token evidence_clock
                  (after_claim jobs)).0
              ≡ true)
          (t c refl)
          (mark_job_delivered-hit job_id agent_id c.claim_token evidence_clock (after_claim jobs)))
        e,
  )

  -- A push reports `delivered` only after a socket took the message, and then the table holds the
  -- named job of the agent, claimed or printing under the token of this very push, with the time of
  -- the delivery on it. Nothing is asked of the requests that run between the statements.
  pub push-delivered :
      (fleet : Fleet) (lockable : Job → Bool) (sockets : List AgentSocket) (claim_clock : Clock)
      (token : Text) (jobs : Table)
      → (claim_and_push_job_to_agent fleet lockable sockets job_id agent_id claim_clock
          evidence_clock release_clock token after_claim after_evidence jobs).1
        ≡ delivered
      → (is_some (send_to_agent sockets).1 ≡ true)
        × (any
              (is_evidenced job_id agent_id (delivery_token (some token)) evidence_clock.app_now)
              (claim_and_push_job_to_agent fleet lockable sockets job_id agent_id claim_clock
                evidence_clock release_clock token after_claim after_evidence jobs).0
            ≡ true)
  unfolding claim_and_push_job_to_agent
  push-delivered fleet lockable sockets claim_clock token jobs e =
      unless_closed (has_open_agent_socket sockets) jobs _
        (λ ys.
          (is_some (send_to_agent sockets).1 ≡ true)
          × (any (is_evidenced job_id agent_id (delivery_token (some token)) evidence_clock.app_now)
                ys
              ≡ true))
        (push_claimed-delivered (send_to_agent sockets).1 _ _ token
          (claim-token fleet lockable job_id agent_id claim_clock token jobs))
        e
