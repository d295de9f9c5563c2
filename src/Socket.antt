-- ===== src/Socket.antt =====
-- src/server/ws.ts: the sockets of the connected agents, the limiter on their messages, and pushing
-- a job to an agent.
pub mod Laws
pub mod Push
mod Tests
use printer_repo.Prelude.{
  ℕ, ◌+◌, ◌-◌, ◌*◌, min, Bool, true, false, not, ◌&&◌, List, [], ◌∷◌, ◌++◌, Option, none, some,
  if◌then◌else◌, any, filter, ltb, leb, ◌==◌, length, is_none,
}
use mathlib.Core.List.{reverse}
use printer_repo.Prelude.Text.{Text, text, text_eq}
use printer_repo.Job.Row.{Clock, Job, Fleet, Table}
use printer_repo.Job.Delivery.{
  ReleaseOutcome, requeued, failed, noop, claim_job_for_delivery, mark_job_delivered,
  record_job_ack, release_undelivered_claim,
}

abbrev pub max_agent_sockets : ℕ
max_agent_sockets = 8

abbrev pub max_ws_buffered_bytes : ℕ
max_ws_buffered_bytes = 1_048_576

-- A `TokenBucket`. Tokens are counted in thousandths: a refill of 5 tokens in a second is then 5 of
-- these in a millisecond, without fractions.
pub record TokenBucket : Type 0 where
  pub tokens : ℕ
  pub last_refill_ms : ℕ

abbrev pub ws_message_bucket_capacity : ℕ
ws_message_bucket_capacity = 20_000

abbrev pub new_bucket : ℕ → TokenBucket
new_bucket now = record { tokens = ws_message_bucket_capacity; last_refill_ms = now }

-- `consume` at its default cost of one token.
unfoldable pub consume : TokenBucket → ℕ → TokenBucket × Bool
consume bucket now =
    let refilled =
      min ws_message_bucket_capacity (bucket.tokens + (now - bucket.last_refill_ms) * 5) in
    if ltb refilled 1000
    then (record { tokens = refilled; last_refill_ms = now }, false)
    else (record { tokens = refilled - 1000; last_refill_ms = now }, true)

pub record WsBucketEntry : Type 0 where
  pub agent_id : Text
  pub bucket : TokenBucket
  pub last_seen_ms : ℕ

abbrev pub ws_bucket_idle_ttl_ms : ℕ
ws_bucket_idle_ttl_ms = 3_600_000

-- `getBucketForAgent`: the entry's time is renewed, or a full bucket is made at the map's end.
unfoldable pub get_bucket_for_agent :
    Text → ℕ → List WsBucketEntry → List WsBucketEntry × TokenBucket
get_bucket_for_agent agent_id now [] = (
  record { agent_id = agent_id; bucket = new_bucket now; last_seen_ms = now } ∷ [],
  new_bucket now,
)
get_bucket_for_agent agent_id now (e ∷ es) =
    let later = get_bucket_for_agent agent_id now es in
    if text_eq e.agent_id agent_id
    then (record e { last_seen_ms = now } ∷ es, e.bucket)
    else (e ∷ later.0, later.1)

abbrev is_idle : ℕ → WsBucketEntry → Bool
is_idle now e = ltb ws_bucket_idle_ttl_ms (now - e.last_seen_ms)

-- `pruneIdleWsBuckets`
unfoldable pub prune_idle_ws_buckets : ℕ → List WsBucketEntry → List WsBucketEntry
prune_idle_ws_buckets now es = filter (λ e. not (is_idle now e)) es

-- A socket as the send path sees it. `accepts` tells whether `send` returns, or throws.
pub record AgentSocket : Type 0 where
  pub socket_id : ℕ
  pub is_open : Bool
  pub buffered_amount : ℕ
  pub accepts : Bool

-- Evicting from the front while the set is full.
unfoldable pub evict : List AgentSocket → List AgentSocket
evict [] = []
evict (oldest ∷ rest) =
    let later = evict rest in
    if leb max_agent_sockets (length (oldest ∷ rest)) then later else oldest ∷ rest

-- `set.delete(ws)`
unfoldable pub delete_socket : AgentSocket → List AgentSocket → List AgentSocket
delete_socket ws set = filter (λ s. not (s.socket_id == ws.socket_id)) set

-- `set.add(ws)`: a `Set` keeps the place of an element it has already.
unfoldable pub add_socket : AgentSocket → List AgentSocket → List AgentSocket
add_socket ws set =
    if any (λ (s : AgentSocket). s.socket_id == ws.socket_id) set then set else set ++ (ws ∷ [])

-- `trackAgentSocket`, in the order of insertion.
unfoldable pub track_agent_socket : AgentSocket → List AgentSocket → List AgentSocket
unfolding evict add_socket
track_agent_socket ws set = add_socket ws (evict set)

unfoldable pub has_open_agent_socket : List AgentSocket → Bool
has_open_agent_socket set = any (λ (ws : AgentSocket). ws.is_open) set

-- The loop over the open sockets, the newest first.
unfoldable pub try_send :
    List AgentSocket → List AgentSocket → List AgentSocket × Option AgentSocket
unfolding delete_socket
try_send [] set = (set, none)
try_send (target ∷ rest) set =
    let skip = try_send rest set in
    let drop = try_send rest (delete_socket target set) in
    if ltb max_ws_buffered_bytes target.buffered_amount
    then skip
    else if target.accepts
    then (set, some target)
    else drop

-- `sendToAgent`: the sockets that are left, and the one that took the message.
unfoldable pub send_to_agent : List AgentSocket → List AgentSocket × Option AgentSocket
unfolding try_send
send_to_agent set = try_send (reverse (filter (λ ws. ws.is_open) set)) set

pub data PushOutcome : Type 0 where
  delivered no_socket not_claimable push_requeued push_failed : PushOutcome

-- What other requests do to the table between two statements of a push.
abbrev pub Meanwhile : Type 0
Meanwhile = Table → Table

-- The outcome of the release after a send that failed.
abbrev pub after_failed_send : ReleaseOutcome → PushOutcome
after_failed_send failed = push_failed
after_failed_send _ = push_requeued

-- The outcome of the release after evidence that did not persist.
abbrev pub after_lost_evidence : ReleaseOutcome → PushOutcome
after_lost_evidence noop = not_claimable
after_lost_evidence failed = push_failed
after_lost_evidence requeued = push_requeued

abbrev pub by_evidence :
    Text → Text → Option Text → Clock → Meanwhile → Table × Bool → Table × PushOutcome
by_evidence job_id agent_id token clock meanwhile marked =
    if marked.1
    then (marked.0, delivered)
    else (let released =
          release_undelivered_claim job_id agent_id token
            (text "websocket delivery evidence did not persist; job requeued for redelivery") clock
            (meanwhile marked.0) in
        (released.0, after_lost_evidence released.1))

-- A claimed row is sent, and its delivery recorded; or its claim is released.
unfoldable pub push_claimed :
    Text
    → Text
    → Option AgentSocket
    → (evidence_clock release_clock : Clock) → (after_claim after_evidence : Meanwhile) → Table
    → Option Job
    → Table × PushOutcome
push_claimed job_id agent_id sent evidence_clock release_clock after_claim after_evidence jobs
      none =
    (jobs, not_claimable)
push_claimed job_id agent_id none evidence_clock release_clock after_claim after_evidence jobs
      (some claimed) =
    let released =
      release_undelivered_claim job_id agent_id claimed.claim_token
        (text "websocket delivery failed after claim; job requeued for redelivery") release_clock
        (after_claim jobs) in
    (released.0, after_failed_send released.1)
push_claimed job_id agent_id (some socket) evidence_clock release_clock after_claim after_evidence
      jobs (some claimed) =
    by_evidence job_id agent_id claimed.claim_token release_clock after_evidence
      (mark_job_delivered job_id agent_id claimed.claim_token evidence_clock (after_claim jobs))

-- `claimAndPushJobToAgent`, with the sockets of the job's agent.
unfoldable pub claim_and_push_job_to_agent :
    Fleet
    → (lockable : Job → Bool) → (sockets : List AgentSocket) → (job_id agent_id : Text)
    → (claim_clock evidence_clock release_clock : Clock) → (token : Text)
    → (after_claim after_evidence : Meanwhile) → Table
    → Table × PushOutcome
unfolding push_claimed has_open_agent_socket send_to_agent
claim_and_push_job_to_agent fleet lockable sockets job_id agent_id claim_clock evidence_clock
      release_clock token after_claim after_evidence jobs =
    if not (has_open_agent_socket sockets)
    then (jobs, no_socket)
    else (let claim =
          claim_job_for_delivery fleet lockable job_id agent_id claim_clock token jobs in
        push_claimed job_id agent_id (send_to_agent sockets).1 evidence_clock release_clock
          after_claim after_evidence claim.0 claim.1)
