-- ===== src/Agents.antt =====
-- src/lib/lifecycle.ts, src/lib/agent-lifecycle.ts and src/lib/agent-auth.ts: the lifecycle of agents
-- and printers, pairing codes, and the credentials of an agent. Lifecycles are texts, as the
-- functions take them; `hash` is the SHA-256 digest in hexadecimal.
pub mod Laws
pub mod Register
pub mod Pairing
pub mod Bearer
mod Tests
mod RegisterTests
use printer_repo.Prelude.{
  ℕ, ◌+◌, Bool, true, false, not, ◌&&◌, ◌||◌, List, [], ◌∷◌, Option, none, some, map, if◌then◌else◌,
  any, ◌==◌, take,
}
use printer_repo.Prelude.Text.{Text, text, text_eq, starts_with, trim}

abbrev pub lifecycles : List Text
lifecycles = text "active" ∷ text "disabled" ∷ text "retired" ∷ []

unfoldable pub is_lifecycle : Text → Bool
is_lifecycle value = any (λ l. text_eq l value) lifecycles

unfoldable pub can_transition_lifecycle : Text → Text → Bool
can_transition_lifecycle current next =
    if text_eq current next
    then true
    else if text_eq current (text "retired")
    then false
    else if text_eq next (text "retired")
    then text_eq current (text "active") || text_eq current (text "disabled")
    else if text_eq next (text "active") || text_eq next (text "disabled")
    then text_eq current (text "active") || text_eq current (text "disabled")
    else false

unfoldable pub lifecycle_allows_new_jobs : Text → Bool
lifecycle_allows_new_jobs lifecycle = text_eq lifecycle (text "active")

-- A JSON object, each value as its JSON text.
abbrev pub Metadata : Type 0
Metadata = List (Text × Text)

-- The columns of `agents` and `printers` that transitions and registrations read or write.
pub record AgentAccount : Type 0 where
  pub id : Text
  pub tenant_id : Text
  pub lifecycle : Text
  pub secret : Option Text
  pub pairing_code_hash : Option Text
  pub pairing_code_expires_at : Option ℕ
  pub status : Text
  pub metadata : Metadata
  pub last_seen_at : Option ℕ
  pub updated_at : ℕ

pub record PrinterAccount : Type 0 where
  pub id : Text
  pub agent_id : Text
  pub tenant_id : Text
  pub lifecycle : Text
  pub updated_at : ℕ

pub record Accounts : Type 0 where
  pub agents : List AgentAccount
  pub printers : List PrinterAccount

abbrev pub is_agent : Text → Text → AgentAccount → Bool
is_agent agent_id tenant_id a = text_eq a.id agent_id && text_eq a.tenant_id tenant_id

unfoldable pub find_agent : (AgentAccount → Bool) → List AgentAccount → Option AgentAccount
find_agent test [] = none
find_agent test (a ∷ rest) = let later = find_agent test rest in if test a then some a else later

abbrev is_pending_elsewhere : (hash : Text → Text) → Text → Text → Option AgentAccount → Bool
is_pending_elsewhere hash agent_id candidate none = false
is_pending_elsewhere hash agent_id candidate (some clash) = not (text_eq clash.id agent_id)

abbrev pub has_code : Text → AgentAccount → Bool
has_code code_hash a = equals_hash a.pairing_code_hash
  where
    equals_hash : Option Text → Bool
    equals_hash none = false
    equals_hash (some h) = text_eq h code_hash

-- The first of the candidates whose hash no other agent holds.
unfoldable pub mint_pairing_code :
    (hash : Text → Text) → (agent_id : Text) → List AgentAccount → List Text → Option Text
unfolding find_agent
mint_pairing_code hash agent_id agents [] = none
mint_pairing_code hash agent_id agents (candidate ∷ rest) =
    let later = mint_pairing_code hash agent_id agents rest in
    if is_pending_elsewhere hash agent_id candidate (find_agent (has_code (hash candidate)) agents)
    then later
    else some candidate

pub data LifecycleResult : Type 0 where
  not_found : LifecycleResult
  unchanged : Text → LifecycleResult
  changed : (lifecycle : Text) → (pairing_code : Option Text) → LifecycleResult
  lifecycle_conflict no_pairing_code : LifecycleResult

abbrev pub hash_of : (Text → Text) → Option Text → Option Text
hash_of hash none = none
hash_of hash (some code) = some (hash code)

abbrev expiry_of : ℕ → Option Text → Option ℕ
expiry_of now none = none
expiry_of now (some code) = some (now + 600_000)

-- The transaction of a real transition.
unfoldable pub apply_transition :
    (hash : Text → Text)
    → (agent_id next tenant_id : Text) → (now : ℕ) → Option Text
    → Accounts
    → Accounts
apply_transition hash agent_id next tenant_id now pairing_code db = record {
  agents =
      map
        (λ (a : AgentAccount).
          if is_agent agent_id tenant_id a
          then record a {
            lifecycle = next;
            secret = none;
            pairing_code_hash = hash_of hash pairing_code;
            pairing_code_expires_at = expiry_of now pairing_code;
            status = text "offline";
            updated_at = now;
          }
          else a)
        db.agents;
  printers =
      map
        (λ (p : PrinterAccount).
          if not (text_eq next (text "active"))
            && text_eq p.agent_id agent_id
            && text_eq p.tenant_id tenant_id
          then record p { lifecycle = text "disabled"; updated_at = now }
          else p)
        db.printers;
}

abbrev pub with_code :
    (hash : Text → Text)
    → (agent_id next tenant_id : Text) → (now : ℕ) → Option Text
    → Accounts
    → Accounts × LifecycleResult
with_code hash agent_id next tenant_id now none db = (db, no_pairing_code)
with_code hash agent_id next tenant_id now (some code) db =
    (apply_transition hash agent_id next tenant_id now (some code) db, changed next (some code))

-- `transitionAgentLifecycle` on the row that was read. `codes` are the pairing codes that are
-- drawn, and the first five of them are tried.
unfoldable pub transition_found :
    (hash : Text → Text)
    → (codes : List Text) → (agent_id next tenant_id : Text) → (now : ℕ) → Accounts
    → Option AgentAccount
    → Accounts × LifecycleResult
unfolding can_transition_lifecycle mint_pairing_code apply_transition
transition_found hash codes agent_id next tenant_id now db none = (db, not_found)
transition_found hash codes agent_id next tenant_id now db (some agent) =
    if text_eq agent.lifecycle next
    then (db, unchanged next)
    else if not (can_transition_lifecycle agent.lifecycle next)
    then (db, lifecycle_conflict)
    else if text_eq agent.lifecycle (text "disabled") && text_eq next (text "active")
    then with_code hash agent_id next tenant_id now
        (mint_pairing_code hash agent_id db.agents (take 5 codes)) db
    else (apply_transition hash agent_id next tenant_id now none db, changed next none)

unfoldable pub transition_agent_lifecycle :
    (hash : Text → Text)
    → (codes : List Text) → (agent_id next tenant_id : Text) → (now : ℕ) → Accounts
    → Accounts × LifecycleResult
unfolding transition_found find_agent
transition_agent_lifecycle hash codes agent_id next tenant_id now db =
    transition_found hash codes agent_id next tenant_id now db
      (find_agent (is_agent agent_id tenant_id) db.agents)

-- What stands before the first `:` and what stands after it.
unfoldable pub split_colon : Text → Option (Text × Text)
split_colon [] = none
split_colon (c ∷ s) = let rest = split_colon s in if c == b':' then some ([], s) else push c rest
  where
    push : ℕ → Option (Text × Text) → Option (Text × Text)
    push c none = none
    push c (some (a, b)) = some (c ∷ a, b)

unfoldable pub drop_prefix : Text → Text → Text
drop_prefix [] s = s
drop_prefix (c ∷ p) [] = []
drop_prefix (c ∷ p) (d ∷ s) = drop_prefix p s

abbrev pub check_secret :
    (hash : Text → Text) → Text → Option Text → AgentAccount → Option AgentAccount
check_secret hash secret none agent = none
check_secret hash secret (some []) agent = none
check_secret hash secret (some (c ∷ stored)) agent =
    if text_eq agent.lifecycle (text "active") && text_eq (c ∷ stored) (hash secret)
    then some agent
    else none

abbrev pub check_agent : (hash : Text → Text) → Text → Option AgentAccount → Option AgentAccount
check_agent hash secret none = none
check_agent hash secret (some agent) = check_secret hash secret agent.secret agent

abbrev pub check_parts :
    (hash : Text → Text) → List AgentAccount → Option (Text × Text) → Option AgentAccount
check_parts hash agents none = none
check_parts hash agents (some ([], secret)) = none
check_parts hash agents (some (c ∷ id, [])) = none
check_parts hash agents (some (c ∷ id, d ∷ secret)) =
    check_agent hash (d ∷ secret) (find_agent (λ a. text_eq a.id (c ∷ id)) agents)

-- `validateAgent`
unfoldable pub validate_agent :
    (hash : Text → Text) → (auth_header : Option Text) → List AgentAccount → Option AgentAccount
unfolding split_colon find_agent
validate_agent hash none agents = none
validate_agent hash (some header) agents =
    if starts_with header (text "Bearer ")
    then check_parts hash agents (split_colon (drop_prefix (text "Bearer ") header))
    else none
