-- ===== src/Agents/Laws.antt =====
-- What lifecycle transitions and credentials guarantee.
use printer_repo.Prelude.{
  ℕ, ap, ◌∙◌, and_split, take, ◌≢◌, ◌≡◌, refl, inl, inr, Bool, true, false, ◌&&◌, List, [], ◌∷◌,
  All, Option, none, some, arith, map, if◌then◌else◌, Bool-cases, any, subst, sym,
}
use printer_repo.Prelude.Text.{
  Text, text_eq_sound, starts_with, text, text_eq, text_eq_iff, text_eq_refl,
}
use printer_repo.Agents.{
  with_code, mint_pairing_code, check_agent, check_secret, check_parts, AgentAccount,
  PrinterAccount, Accounts, is_agent, find_agent, apply_transition, transition_found,
  transition_agent_lifecycle, can_transition_lifecycle, changed, validate_agent,
}

-- A retired agent or printer stays retired, and nothing leaves the three lifecycles.
pub retired_final :
    (next : Text) → can_transition_lifecycle (text "retired") next ≡ true → next ≡ text "retired"
unfolding can_transition_lifecycle
retired_final next h =
    ground (arith, text_eq_iff (text "retired") next, text_eq_refl (text "retired"))

-- The agent of the tenant holds no secret.
abbrev pub IsRevoked : Text → Text → AgentAccount → Type 0
IsRevoked agent_id tenant_id a = is_agent agent_id tenant_id a ≡ true → a.secret ≡ none

-- A printer of the agent is disabled, whatever it was.
abbrev pub IsDisabled : Text → Text → PrinterAccount → Type 0
IsDisabled agent_id tenant_id p =
    (text_eq p.agent_id agent_id && text_eq p.tenant_id tenant_id) ≡ true
    → p.lifecycle ≡ text "disabled"

All-map :
    {A B : Type 0} (P : B → Type 0) (f : A → B) (xs : List A)
    → ((x : A) → P (f x))
    → All P (map f xs)
All-map P f [] h = tt
All-map P f (x ∷ xs) h = (h x, All-map P f xs h)

changed-injective : {l m : Text} {c d : Option Text} → changed l c ≡ changed m d → c ≡ d
changed-injective e = cc

module _ (hash : Text → Text) (agent_id next tenant_id : Text) (now : ℕ) where
  apply-IsRevoked :
      (code : Option Text) (db : Accounts)
      → All
          (IsRevoked agent_id tenant_id)
          (apply_transition hash agent_id next tenant_id now code db).agents
  unfolding apply_transition
  apply-IsRevoked code db = All-map _ _ db.agents λ a. ground arith

  apply-IsDisabled :
      (code : Option Text) (db : Accounts)
      → text_eq next (text "active") ≡ false
      → All
          (IsDisabled agent_id tenant_id)
          (apply_transition hash agent_id next tenant_id now code db).printers
  unfolding apply_transition
  apply-IsDisabled code db h = All-map _ _ db.printers λ p. ground arith

  with_code-applies :
      (minted : Option Text) (db : Accounts) (l : Text) (code : Option Text)
      → (with_code hash agent_id next tenant_id now minted db).1 ≡ changed l code
      → (with_code hash agent_id next tenant_id now minted db).0
        ≡ apply_transition hash agent_id next tenant_id now code db
  with_code-applies none db l code e = absurd (ground arith)
  with_code-applies (some c) db l code e =
      ap (λ k. apply_transition hash agent_id next tenant_id now k db) (changed-injective e)

  found-applies :
      (codes : List Text) (db : Accounts) (found : Option AgentAccount) (l : Text)
      (code : Option Text)
      → (transition_found hash codes agent_id next tenant_id now db found).1 ≡ changed l code
      → (transition_found hash codes agent_id next tenant_id now db found).0
        ≡ apply_transition hash agent_id next tenant_id now code db
  unfolding transition_found
  found-applies codes db none l code e = absurd (ground arith)
  found-applies codes db (some agent) l code e = ground (
    arith,
    with_code-applies (mint_pairing_code hash agent_id db.agents (take 5 codes)) db l code,
    changed-injective {l = next} {m = l} {c = none} {d = code},
    ap (λ k. apply_transition hash agent_id next tenant_id now k db) {x = none} {y = code},
  )

  -- A transition that changes an agent revokes its secret, and one to any state but `active` leaves
  -- every printer of the agent disabled.
  pub transition-revokes :
      (codes : List Text) (db : Accounts) (l : Text) (code : Option Text)
      → (transition_agent_lifecycle hash codes agent_id next tenant_id now db).1 ≡ changed l code
      → All
          (IsRevoked agent_id tenant_id)
          (transition_agent_lifecycle hash codes agent_id next tenant_id now db).0.agents
        × (text_eq next (text "active") ≡ false
            → All
                (IsDisabled agent_id tenant_id)
                (transition_agent_lifecycle hash codes agent_id next tenant_id now db).0.printers)
  unfolding transition_agent_lifecycle
  transition-revokes codes db l code e =
      simp (found-applies codes db (find_agent (is_agent agent_id tenant_id) db.agents) l code e)
        (apply-IsRevoked code db, apply-IsDisabled code db)

-- The table has this printer of the agent, in this lifecycle.
abbrev pub has_printer : (agent_id tenant_id id lifecycle : Text) → List PrinterAccount → Bool
has_printer agent_id tenant_id id lifecycle printers =
    any
      (λ (p : PrinterAccount).
        text_eq p.id id
        && text_eq p.agent_id agent_id
        && text_eq p.tenant_id tenant_id
        && text_eq p.lifecycle lifecycle)
      printers

module _ (hash : Text → Text) (agent_id next tenant_id : Text) (now : ℕ) where
  apply-unretires :
      (code : Option Text) (agents : List AgentAccount) (printers : List PrinterAccount) (id : Text)
      → text_eq next (text "active") ≡ false
      → has_printer agent_id tenant_id id (text "retired") printers ≡ true
      → has_printer agent_id tenant_id id
          (text "disabled")
          (apply_transition hash agent_id next tenant_id now code
            (record { agents = agents; printers = printers })).printers
        ≡ true
  unfolding apply_transition
  apply-unretires code agents [] id h p = absurd (ground arith)
  apply-unretires code agents (q ∷ qs) id h p =
      ground (arith, apply-unretires code agents qs id h, text_eq_refl (text "disabled"))

  -- A transition that changes an agent to any state but `active` sets also a retired printer of the
  -- agent to `disabled`, a move that the lifecycle table forbids.
  pub transition-unretires :
      (codes : List Text) (db : Accounts) (l : Text) (code : Option Text) (id : Text)
      → (transition_agent_lifecycle hash codes agent_id next tenant_id now db).1 ≡ changed l code
      → text_eq next (text "active") ≡ false
      → has_printer agent_id tenant_id id (text "retired") db.printers ≡ true
      → (has_printer agent_id tenant_id id
            (text "disabled")
            (transition_agent_lifecycle hash codes agent_id next tenant_id now db).0.printers
          ≡ true)
        × (can_transition_lifecycle (text "retired") (text "disabled") ≡ false)
  unfolding transition_agent_lifecycle can_transition_lifecycle text_eq text
  transition-unretires codes db l code id e h p = (
    subst
        (λ (after : Accounts).
          has_printer agent_id tenant_id id (text "disabled") after.printers ≡ true)
        (sym (
          found-applies hash agent_id next tenant_id now codes db
            (find_agent (is_agent agent_id tenant_id) db.agents) l code e))
        (apply-unretires code db.agents db.printers id h p),
    refl,
  )

abbrev pub Found : (AgentAccount → Type 0) → Option AgentAccount → Type 0
Found P none = Unit
Found P (some a) = P a

find_agent-Found :
    (P : AgentAccount → Type 0) (test : AgentAccount → Bool) (as' : List AgentAccount)
    → All P as'
    → Found P (find_agent test as')
unfolding find_agent
find_agent-Found P test [] h = tt
find_agent-Found P test (x ∷ as') (p, h) = elim (Bool-cases (test x)) [
  | inl t ↦ rw t p
  | inr t ↦ rw t (find_agent-Found P test as' h)
]

-- The agent is active and its secret is the digest of some text that is not empty.
abbrev HasCredentials : (hash : Text → Text) → AgentAccount → Type 0
HasCredentials hash a =
    (a.lifecycle ≡ text "active")
    × ((secret : Text) × (secret ≢ []) × (a.secret ≡ some (hash secret)))

Found-mono :
    (P Q : AgentAccount → Type 0)
    → ((a : AgentAccount) → P a → Q a)
    → (o : Option AgentAccount) → Found P o
    → Found Q o
Found-mono P Q h none p = tt
Found-mono P Q h (some a) p = h a p

accept-Found :
    (P : AgentAccount → Type 0) (a : AgentAccount) (b : Bool)
    → (b ≡ true → P a)
    → Found P (if b then some a else none)
accept-Found P a true h = h refl
accept-Found P a false h = tt

check_secret-Found :
    (P : AgentAccount → Type 0) (hash : Text → Text) (secret : Text) (stored : Option Text)
    (a : AgentAccount)
    → secret ≢ []
    → a.secret ≡ stored
    → P a
    → Found (λ a. P a × HasCredentials hash a) (check_secret hash secret stored a)
check_secret-Found P hash secret none a n e p = tt
check_secret-Found P hash secret (some []) a n e p = tt
check_secret-Found P hash secret (some (c ∷ stored)) a n e p =
    accept-Found _ a (text_eq a.lifecycle (text "active") && text_eq (c ∷ stored) (hash secret))
      λ t. (
        p,
        (
          text_eq_sound a.lifecycle (text "active") (and_split _ _ t).0,
          (secret, n, e ∙ ap some (text_eq_sound (c ∷ stored) (hash secret) (and_split _ _ t).1)),
        ),
      )

check_agent-Found :
    (P : AgentAccount → Type 0) (hash : Text → Text) (secret : Text) (o : Option AgentAccount)
    → secret ≢ []
    → Found P o
    → Found (λ a. P a × HasCredentials hash a) (check_agent hash secret o)
check_agent-Found P hash secret none n p = tt
check_agent-Found P hash secret (some a) n p = check_secret-Found P hash secret a.secret a n refl p

check_parts-Found :
    (P : AgentAccount → Type 0) (hash : Text → Text) (as' : List AgentAccount)
    (parts : Option (Text × Text))
    → All P as'
    → Found (λ a. P a × HasCredentials hash a) (check_parts hash as' parts)
check_parts-Found P hash as' none h = tt
check_parts-Found P hash as' (some ([], secret)) h = tt
check_parts-Found P hash as' (some (c ∷ id, [])) h = tt
check_parts-Found P hash as' (some (c ∷ id, d ∷ secret)) h =
    check_agent-Found P hash (d ∷ secret) _ (λ e. ground arith)
      (find_agent-Found P (λ a. text_eq a.id (c ∷ id)) as' h)

-- Whatever the header says, the agent it is accepted for has what all agents of the table have, is
-- active, and holds the digest of a secret that is not empty.
pub validate-Found :
    (P : AgentAccount → Type 0) (hash : Text → Text) (header : Option Text)
    (as' : List AgentAccount)
    → All P as'
    → Found (λ a. P a × HasCredentials hash a) (validate_agent hash header as')
unfolding validate_agent
validate-Found P hash none as' h = tt
validate-Found P hash (some header) as' h =
    elim (Bool-cases (starts_with header (text "Bearer "))) [
      | inl e ↦ rw e (check_parts-Found P hash as' _ h)
      | inr e ↦ rw e tt
    ]

-- After a transition that changed an agent, no header is accepted for it.
pub transition-locks_out :
    (hash : Text → Text) (codes : List Text) (agent_id next tenant_id : Text) (now : ℕ)
    (db : Accounts) (l : Text) (code header : Option Text)
    → (transition_agent_lifecycle hash codes agent_id next tenant_id now db).1 ≡ changed l code
    → Found
        (λ a. is_agent agent_id tenant_id a ≡ false)
        (validate_agent hash header
          (transition_agent_lifecycle hash codes agent_id next tenant_id now db).0.agents)
transition-locks_out hash codes agent_id next tenant_id now db l code header e =
    Found-mono _ _ (λ a h. locked_out (is_agent agent_id tenant_id a) a.secret h.0 h.1.1) _
      (validate-Found (IsRevoked agent_id tenant_id) hash header _
        (transition-revokes hash agent_id next tenant_id now codes db l code e).0)
  where
    locked_out :
        (b : Bool) (stored : Option Text)
        → (b ≡ true → stored ≡ none)
        → ((secret : Text) × (secret ≢ []) × (stored ≡ some (hash secret)))
        → b ≡ false
    locked_out false stored h c = refl
    locked_out true stored h (secret, n, k) = absurd (ground (arith, h))
