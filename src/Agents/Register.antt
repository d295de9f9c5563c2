-- ===== src/Agents/Register.antt =====
-- POST of src/app/api/agent/register/route.ts: an agent gives its pairing code and is given a secret.
-- The row is read in one statement and updated in another. `hash` is the SHA-256 digest.
pub mod Body
use printer_repo.Prelude.{
  ℕ, Bool, true, false, not, ◌&&◌, ◌||◌, List, [], ◌∷◌, Option, none, some, if◌then◌else◌, any, map,
  length, ltb, leb, ◌==◌, is_some, or_else,
}
use printer_repo.Prelude.Text.{Text, text, text_eq, trim, to_upper}
use printer_repo.Agents.{AgentAccount, Metadata, find_agent, has_code}
use printer_repo.AuthLimit.{
  Buckets, RateLimitDecision, allowed, refused, inspect_pairing_rate_limit, record_pairing_failure,
  record_pairing_success,
}
unfoldable pub use printer_repo.Agents.Register.Body.*

-- `a || b`, for texts.
abbrev truthy_or : Option Text → Option Text → Option Text
truthy_or (some (c ∷ t)) b = some (c ∷ t)
truthy_or (some []) b = b
truthy_or none b = b

unfoldable pub set_key : Text → Text → Metadata → Metadata
set_key k v [] = (k, v) ∷ []
set_key k v ((l, w) ∷ rest) =
    let later = (l, w) ∷ set_key k v rest in if text_eq l k then (l, v) ∷ rest else later

-- `{ ...a, ...b }`
unfoldable pub merge : Metadata → Metadata → Metadata
unfolding set_key
merge a [] = a
merge a ((k, v) ∷ rest) = merge (set_key k v a) rest

-- `...(value ? { key: value } : {})`
abbrev entry : (json : Text → Text) → Text → Option Text → Metadata
entry json key none = []
entry json key (some []) = []
entry json key (some (c ∷ t)) = (key, json (c ∷ t)) ∷ []

-- `json` writes a text as a JSON value.
unfoldable pub merged_metadata : (json : Text → Text) → Metadata → RegistrationBody → Metadata
unfolding merge
merged_metadata json old b =
    merge
      (merge (merge (merge old (or_else b.metadata [])) (entry json (text "hostname") b.hostname))
        (entry json (text "version") (truthy_or b.client_version b.client_version_camel)))
      (entry json (text "os") b.platform)

pub data RegisterReply : Type 0 where
  body_too_large metadata_too_large invalid_body unknown_registration consumed : RegisterReply
  unavailable : RegisterReply
  too_many_attempts : (retry_after_sec : ℕ) → RegisterReply
  registered : (agent_id secret : Text) → RegisterReply

abbrev is_after : ℕ → Option ℕ → Bool
is_after now none = false
is_after now (some time) = ltb now time

-- The code is pending: it is this agent's, the agent is active, and the time is not over.
unfoldable pub is_pending : Text → ℕ → AgentAccount → Bool
is_pending code_hash now a =
    has_code code_hash a
    && is_after now a.pairing_code_expires_at
    && text_eq a.lifecycle (text "active")

abbrev is_target : Option Text → AgentAccount → Bool
is_target none a = true
is_target (some []) a = true
is_target (some (c ∷ t)) a = text_eq a.id (c ∷ t)

unfoldable pub paired_row : Text → Metadata → ℕ → AgentAccount → AgentAccount
paired_row secret_hash metadata now a = record a {
  pairing_code_hash = none;
  pairing_code_expires_at = none;
  secret = some secret_hash;
  status = text "online";
  metadata = metadata;
  last_seen_at = some now;
  updated_at = now;
}

-- The update, on the table of its time.
unfoldable pub consume_code :
    Text → Text → Text → Metadata → ℕ → List AgentAccount → List AgentAccount
unfolding is_pending paired_row
consume_code id code_hash secret_hash metadata now agents =
    map
      (λ (a : AgentAccount).
        if text_eq a.id id && is_pending code_hash now a
        then paired_row secret_hash metadata now a
        else a)
      agents

-- What a registration reads and draws: its clocks, the digest, the new secret, and whether the limiter
-- fails, which its catch answers.
pub record Desk : Type 0 where
  pub limiter_fails : Bool
  pub hash : Text → Text
  pub json : Text → Text
  pub ip : Text
  pub secret : Text
  pub read_time : ℕ
  pub write_time : ℕ
  pub answer_time : ℕ

abbrev pub Offices : Type 0
Offices = Buckets × List AgentAccount

-- The answer to the update: it hit the agent's row, or not.
abbrev pub settled :
    Desk
    → RegistrationBody
    → Text
    → Buckets
    → List AgentAccount
    → AgentAccount
    → Bool
    → Offices × RegisterReply
settled desk b code_hash rows later agent true = (
  (
    record_pairing_success desk.ip rows,
    consume_code agent.id code_hash (desk.hash desk.secret)
        (merged_metadata desk.json agent.metadata b) desk.write_time later,
  ),
  registered agent.id desk.secret,
)
settled desk b code_hash rows later agent false =
    (((record_pairing_failure desk.ip desk.write_time desk.answer_time rows).0, later), consumed)

abbrev pub pair :
    Desk
    → RegistrationBody
    → Text
    → Buckets
    → List AgentAccount
    → AgentAccount
    → Offices × RegisterReply
pair desk b code_hash rows later agent = settled desk b code_hash rows later agent (
    any (λ (a : AgentAccount). text_eq a.id agent.id && is_pending code_hash desk.write_time a)
      later)

abbrev pub by_agent :
    Desk
    → RegistrationBody
    → Text
    → Buckets
    → List AgentAccount
    → Option AgentAccount
    → Offices × RegisterReply
by_agent desk b code_hash rows later none = (
  ((record_pairing_failure desk.ip desk.read_time desk.answer_time rows).0, later),
  unknown_registration,
)
by_agent desk b code_hash rows later (some agent) = pair desk b code_hash rows later agent

abbrev pub find_pending : RegistrationBody → Text → ℕ → List AgentAccount → Option AgentAccount
find_pending b code_hash now earlier =
    find_agent
      (λ a. is_pending code_hash now a && is_target (truthy_or b.agent_id b.agent_id_camel) a)
      earlier

abbrev pub by_limit :
    Desk
    → RegistrationBody
    → Text
    → Buckets
    → (earlier later : List AgentAccount) → RateLimitDecision
    → Offices × RegisterReply
by_limit desk b code_hash rows earlier later (refused seconds) =
    ((rows, later), too_many_attempts seconds)
by_limit desk b code_hash rows earlier later allowed =
    by_agent desk b code_hash rows later (find_pending b code_hash desk.read_time earlier)

abbrev pub code_of : RegistrationBody → Text
code_of b = or_else (truthy_or b.pairing_code b.pairing_code_camel) []

-- The digest of the code in a body whose fields are trimmed.
abbrev pub code_hash_of : (hash : Text → Text) → RegistrationBody → Text
code_hash_of hash b = hash_pairing_code hash (to_upper (trim (code_of b)))

-- The body, its fields trimmed.
abbrev pub register_body :
    Desk
    → RegistrationBody
    → Buckets
    → (earlier later : List AgentAccount) → Offices × RegisterReply
register_body desk b rows earlier later =
    if not (is_registration b)
    then ((rows, later), invalid_body)
    else if desk.limiter_fails
    then ((rows, later), unavailable)
    else by_limit desk b (code_hash_of desk.hash b) rows earlier later
        (inspect_pairing_rate_limit desk.ip desk.read_time rows)

-- The handler; `over_limit` is the test on the size of the request. The row is read in `earlier`, the
-- update runs on `later`.
unfoldable pub register_agent :
    (over_limit : Bool)
    → Desk
    → RegistrationBody
    → Buckets
    → (earlier later : List AgentAccount) → Offices × RegisterReply
unfolding is_registration is_pending consume_code merged_metadata hash_pairing_code
register_agent over_limit desk body rows earlier later =
    if over_limit
    then ((rows, later), body_too_large)
    else if ltb 32_768 body.metadata_size
    then ((rows, later), metadata_too_large)
    else register_body desk (trim_body body) rows earlier later
