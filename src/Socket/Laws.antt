-- ===== src/Socket/Laws.antt =====
-- The sockets of an agent and its message limiter.
use printer_repo.Prelude.{
  ℕ, ◌+◌, ◌-◌, ◌*◌, ◌≤◌, ◌<◌, ◌≡◌, refl, sym, subst, ◌⊎◌, inl, inr, Bool, true, false, List, [],
  ◌∷◌, Option, none, some, if◌then◌else◌, filter, ltb, length, length-append, arith, Bool-cases,
  suc, All,
}
use mathlib.Core.List.{reverse_aux}
use printer_repo.Socket.{
  max_ws_buffered_bytes, TokenBucket, consume, AgentSocket, evict, delete_socket,
  track_agent_socket, try_send, send_to_agent,
}

-- How many of the messages at these times the limiter lets through.
pub consumed : TokenBucket → List ℕ → ℕ
unfolding consume
consumed bucket [] = 0
consumed bucket (t ∷ ts) =
    let rest = consumed (consume bucket t).0 ts in if (consume bucket t).1 then suc rest else rest

-- The times are in order, after the bucket's last refill, and none is after the end.
abbrev pub InOrder : ℕ → List ℕ → ℕ → Type 0
InOrder start [] end = start ≤ end
InOrder start (t ∷ ts) end = (start ≤ t) × InOrder t ts end

InOrder-le : (start : ℕ) (ts : List ℕ) (end : ℕ) → InOrder start ts end → start ≤ end
InOrder-le start [] end h = h
InOrder-le start (t ∷ ts) end (h, hs) = ground (arith, InOrder-le t ts end hs)

consume_step :
    (b : TokenBucket) (t : ℕ)
    → b.last_refill_ms ≤ t
    → ((consume b t).0.last_refill_ms ≡ t)
      × ((((consume b t).1 ≡ true)
            × ((consume b t).0.tokens + 1000 ≤ b.tokens + (t - b.last_refill_ms) * 5))
          ⊎ (((consume b t).1 ≡ false)
              × ((consume b t).0.tokens ≤ b.tokens + (t - b.last_refill_ms) * 5)))
unfolding consume
consume_step b t h = ground arith

-- However the messages of an agent are spaced, those let through until a time are at most the tokens
-- in the bucket, and 5 for each second that has passed.
pub consumed-le :
    (b : TokenBucket) (ts : List ℕ) (end : ℕ)
    → InOrder b.last_refill_ms ts end
    → consumed b ts * 1000 ≤ b.tokens + (end - b.last_refill_ms) * 5
unfolding consumed
consumed-le b [] end h = ground arith
consumed-le b (t ∷ ts) end (h, hs) =
    let (started, step) = consume_step b t h in
    let rest =
      consumed-le (consume b t).0 ts end (subst (λ m. InOrder m ts end) (sym started) hs) in
    let later = InOrder-le t ts end hs in
    elim step [
      | inl (e, c) ↦ rw e (ground (arith, started))
      | inr (e, c) ↦ rw e (ground (arith, started))
    ]

evict-length : (set : List AgentSocket) → length (evict set) < 8
unfolding evict
evict-length [] = ground arith
evict-length (s ∷ set) = ground (arith, evict-length set)

-- Whatever an agent's set of sockets held, it holds 8 at most after a new one is tracked.
pub track-length :
    (ws : AgentSocket) (set : List AgentSocket) → length (track_agent_socket ws set) ≤ 8
unfolding track_agent_socket
track-length ws set = ground (arith, evict-length set, length-append (evict set) (ws ∷ []))

-- The sockets among which a message may be sent.
abbrev pub CanTake : AgentSocket → Type 0
CanTake s = (s.is_open ≡ true) × (s.buffered_amount ≤ 1_048_576) × (s.accepts ≡ true)

-- The socket that a send went to.
abbrev pub SentTo : (AgentSocket → Type 0) → Option AgentSocket → Type 0
SentTo P none = Unit
SentTo P (some s) = P s

send_or_drop :
    (t : AgentSocket) (set : List AgentSocket) (drop : List AgentSocket × Option AgentSocket)
    → t.is_open ≡ true
    → t.buffered_amount ≤ 1_048_576
    → SentTo CanTake drop.1
    → (b : Bool) → t.accepts ≡ b
    → SentTo CanTake (if b then (set, some t) else drop).1
send_or_drop t set drop o r d true a = (o, r, a)
send_or_drop t set drop o r d false a = d

send_cases :
    (t : AgentSocket) (set : List AgentSocket) (skip drop : List AgentSocket × Option AgentSocket)
    → t.is_open ≡ true
    → SentTo CanTake skip.1
    → SentTo CanTake drop.1
    → SentTo CanTake
        (if ltb max_ws_buffered_bytes t.buffered_amount
          then skip
          else if t.accepts
          then (set, some t)
          else drop).1
send_cases t set skip drop o s d = elim (Bool-cases (ltb max_ws_buffered_bytes t.buffered_amount)) [
  | inl e ↦ rw e s
  | inr e ↦ rw e (send_or_drop t set drop o (ground arith) d t.accepts refl)
]

try_send-SentTo :
    (targets set : List AgentSocket)
    → All (λ (s : AgentSocket). s.is_open ≡ true) targets
    → SentTo CanTake (try_send targets set).1
unfolding try_send
try_send-SentTo [] set h = tt
try_send-SentTo (t ∷ rest) set (o, h) =
    send_cases t set (try_send rest set) (try_send rest (delete_socket t set)) o
      (try_send-SentTo rest set h) (try_send-SentTo rest (delete_socket t set) h)

All-reverse_aux :
    (P : AgentSocket → Type 0) (xs ys : List AgentSocket)
    → All P xs
    → All P ys
    → All P (reverse_aux xs ys)
All-reverse_aux P [] ys h k = k
All-reverse_aux P (x ∷ xs) ys (h, hs) k = All-reverse_aux P xs (x ∷ ys) hs (h, k)

open-All :
    (set : List AgentSocket)
    → All (λ (s : AgentSocket). s.is_open ≡ true) (filter (λ ws. ws.is_open) set)
open-All [] = tt
open-All (s ∷ set) = ground (arith, open-All set)

-- A message is sent only on an open socket that has no more than the allowed bytes waiting.
pub send_to_agent-SentTo : (set : List AgentSocket) → SentTo CanTake (send_to_agent set).1
unfolding send_to_agent
send_to_agent-SentTo set = try_send-SentTo _ set (All-reverse_aux _ _ [] (open-All set) tt)
