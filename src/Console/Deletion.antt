-- ===== src/Console/Deletion.antt =====
-- What creating and deleting an agent, and changing a printer's lifecycle, guarantee.
use printer_repo.Prelude.{
  ◌+◌, ℕ, ◌≡◌, ◌<◌, refl, subst, inl, inr, Bool, false, not, List, [], ◌∷◌, Option, none, some,
  arith, any, if◌then◌else◌, Bool-cases, Option-cases, if_elim, filter, count, take,
}
use printer_repo.Prelude.Text.{Text, text, text_eq, trim}
use printer_repo.Managers.Token.{ManagerClaims}
use printer_repo.Agents.{AgentAccount, is_agent, has_code, find_agent}
use printer_repo.Job.Row.{Clock}
use printer_repo.Admission.Entitlements.{Subscription, get_tenant_entitlement_limit}
use printer_repo.Console.Actions.{
  Acted, ok, fails, refused, unless_fails, ActionError, Estate, is_history, is_printer_of,
  remove_agent, delete_locked, delete_agent, free_code, enforce_tenant_resource_entitlement,
  new_agent, NewAgent, create_permitted, create_agent, counts_as_agent, is_bad_name, with_code,
  admit_agent, is_empty,
}

any-removed :
    {A : Type 0} (test : A → Bool) (xs : List A) → any test (filter (λ x. not (test x)) xs) ≡ false
any-removed test [] = refl
any-removed test (x ∷ xs) = elim (Bool-cases (test x)) [
  | inl e ↦ rw e (any-removed test xs)
  | inr e ↦ rw (e, e) (any-removed test xs)
]

-- What a deletion that went through found, and what it left.
abbrev pub IsRemoved : (agent_id tenant_id : Text) → Estate → Estate → Type 0
IsRemoved agent_id tenant_id estate estate' =
    ((a : AgentAccount) × (find_agent (is_agent agent_id tenant_id) estate.accounts.agents ≡ some a)
      × (text_eq a.status (text "online") ≡ false)
      × (text_eq a.lifecycle (text "retired") ≡ false))
    × (any (is_agent agent_id tenant_id) estate'.accounts.agents ≡ false)
    × (any (is_printer_of agent_id tenant_id) estate'.accounts.printers ≡ false)
    × (any (is_history agent_id tenant_id estate.accounts.printers) estate'.jobs ≡ false)
    × (estate'.jobs ≡ estate.jobs)

locked-IsRemoved :
    (agent_id tenant_id : Text) (found : Option AgentAccount) (estate : Estate)
    → find_agent (is_agent agent_id tenant_id) estate.accounts.agents ≡ found
    → (delete_locked agent_id tenant_id found estate).1 ≡ ok tt
    → IsRemoved agent_id tenant_id estate (delete_locked agent_id tenant_id found estate).0
unfolding delete_locked remove_agent
locked-IsRemoved agent_id tenant_id none estate f h = absurd (ground arith)
locked-IsRemoved agent_id tenant_id (some a) estate f h =
    let past = any (is_history agent_id tenant_id estate.accounts.printers) estate.jobs in
    let offline : text_eq a.status (text "online") ≡ false = ground arith in
    let kept : text_eq a.lifecycle (text "retired") ≡ false = ground arith in
    let unused : past ≡ false = ground arith in
    rw (offline, kept, unused)
      (
        (a, f, offline, kept),
        any-removed (is_agent agent_id tenant_id) estate.accounts.agents,
        any-removed (is_printer_of agent_id tenant_id) estate.accounts.printers,
        unused,
        refl,
      )

-- An agent is deleted only by a manager of its tenant who may retire agents, while it is neither
-- connected nor online nor retired, and while no job of the tenant names it or one of its printers; then
-- neither it nor a printer of it is left, and the jobs are as they were: no job refers to what is gone.
pub delete_agent-IsRemoved :
    (claims : ManagerClaims) (connected : Text → Bool) (id : Text) (estate : Estate)
    → (delete_agent (some claims) connected id estate).1 ≡ ok tt
    → (refused (some claims) (text "agents.retire") ≡ none)
      × (connected (trim id) ≡ false)
      × IsRemoved
          (trim id)
          claims.tenant_id
          estate
          (delete_agent (some claims) connected id estate).0
unfolding delete_agent
delete_agent-IsRemoved claims connected id estate h =
    passed (refused (some claims) (text "agents.retire")) refl h
  where
    next : Estate × Acted (Unit {0})
    next =
        delete_locked (trim id) claims.tenant_id
          (find_agent (is_agent (trim id) claims.tenant_id) estate.accounts.agents) estate

    guarded : Estate × Acted (Unit {0})
    guarded =
        if is_empty (trim id)
        then (estate, fails ActionError.id_required)
        else if connected (trim id)
        then (estate, fails ActionError.still_connected)
        else next

    inner :
        guarded.1 ≡ ok tt
        → (connected (trim id) ≡ false) × IsRemoved (trim id) claims.tenant_id estate guarded.0
    inner h =
        let named : is_empty (trim id) ≡ false = ground arith in
        let apart : connected (trim id) ≡ false = ground arith in
        let done : next.1 ≡ ok tt = ground arith in
        rw (named, apart)
          (
            refl,
            locked-IsRemoved (trim id) claims.tenant_id
                (find_agent (is_agent (trim id) claims.tenant_id) estate.accounts.agents) estate
                refl done,
          )

    passed :
        (r : Option ActionError)
        → refused (some claims) (text "agents.retire") ≡ r
        → (unless_fails r estate guarded).1 ≡ ok tt
        → (r ≡ none)
          × (connected (trim id) ≡ false)
          × IsRemoved (trim id) claims.tenant_id estate (unless_fails r estate guarded).0
    passed none e h = let (c, r) = inner h in (refl, c, r)
    passed (some x) e h = absurd (ground arith)

free_code-unused :
    (hash : Text → Text) (agents : List AgentAccount) (codes : List Text) (code : Text)
    → free_code hash agents codes ≡ some code
    → find_agent (has_code (hash code)) agents ≡ none
unfolding free_code
free_code-unused hash agents [] code h = cc
free_code-unused hash agents (c ∷ rest) code h =
    elim (Option-cases (find_agent (has_code (hash c)) agents)) [
      | inl free ↦
          let same : c ≡ code = some_inj (rw free at h) in
          subst (λ (t : Text). find_agent (has_code (hash t)) agents ≡ none) same free
      | inr (a, taken) ↦ free_code-unused hash agents rest code (rw taken at h)
    ]
  where
    some_inj : {a b : Text} → some a ≡ some b → a ≡ b
    some_inj e = cc

-- An agent that waits for its pairing: its code, good for ten minutes, is all that lets it in.
abbrev pub IsWaiting : (id tenant_id code_hash : Text) → Clock → AgentAccount → Type 0
IsWaiting id tenant_id code_hash clock a =
    (a.id ≡ id)
    × (a.tenant_id ≡ tenant_id)
    × (a.lifecycle ≡ text "active")
    × (a.status ≡ text "offline")
    × (a.secret ≡ none)
    × (a.pairing_code_hash ≡ some code_hash)
    × (a.pairing_code_expires_at ≡ some (clock.app_now + 600_000))
    × (a.last_seen_at ≡ none)

-- The agents after a creation that went through, and what it found.
abbrev pub IsCreated :
    (hash : Text → Text)
    → (id tenant_id : Text) → Clock
    → List Subscription
    → List AgentAccount
    → List AgentAccount × Acted NewAgent
    → Type 0
IsCreated hash id tenant_id clock subscriptions agents (agents', fails e) = agents' ≡ agents
IsCreated hash id tenant_id clock subscriptions agents (agents', ok made) =
    ((a : AgentAccount) × (agents' ≡ a ∷ agents)
      × IsWaiting id tenant_id (hash made.pairing_code) clock a
      × (a.pairing_code_expires_at ≡ some made.expires_at))
    × (made.id ≡ id)
    × (find_agent (has_code (hash made.pairing_code)) agents ≡ none)
    × ((limit : ℕ)
        → get_tenant_entitlement_limit subscriptions tenant_id (text "max_agents") ≡ some limit
        → count (counts_as_agent tenant_id) agents < limit)

within :
    (limit : Option ℕ) (n m : ℕ)
    → enforce_tenant_resource_entitlement limit n ≡ none
    → limit ≡ some m
    → n < m
unfolding enforce_tenant_resource_entitlement
within none n m h e = cc
within (some k) n m h e = ground arith

admitted-IsCreated :
    (hash : Text → Text) (id tenant_id code : Text) (clock : Clock)
    (subscriptions : List Subscription) (agents : List AgentAccount) (checked : Option ActionError)
    → enforce_tenant_resource_entitlement
        (get_tenant_entitlement_limit subscriptions tenant_id (text "max_agents"))
        (count (counts_as_agent tenant_id) agents)
      ≡ checked
    → find_agent (has_code (hash code)) agents ≡ none
    → IsCreated hash id tenant_id clock subscriptions agents
        (admit_agent hash id tenant_id code clock checked agents)
unfolding new_agent
admitted-IsCreated hash id tenant_id code clock subscriptions agents none h f = (
  (
    new_agent id tenant_id (hash code) clock,
    refl,
    (refl, refl, refl, refl, refl, refl, refl, refl),
    refl,
  ),
  refl,
  f,
  λ limit e. within _ _ limit h e,
)
admitted-IsCreated hash id tenant_id code clock subscriptions agents (some x) h f = refl

coded-IsCreated :
    (hash : Text → Text) (codes : List Text) (id tenant_id : Text) (clock : Clock)
    (subscriptions : List Subscription) (agents : List AgentAccount) (code : Option Text)
    → free_code hash agents codes ≡ code
    → IsCreated hash id tenant_id clock subscriptions agents
        (with_code hash id tenant_id clock subscriptions code agents)
coded-IsCreated hash codes id tenant_id clock subscriptions agents none h = refl
coded-IsCreated hash codes id tenant_id clock subscriptions agents (some code) h =
    admitted-IsCreated hash id tenant_id code clock subscriptions agents _ refl
      (free_code-unused hash agents codes code h)

permitted-IsCreated :
    (hash : Text → Text) (codes : List Text) (id tenant_id name : Text) (clock : Clock)
    (subscriptions : List Subscription) (agents : List AgentAccount)
    → IsCreated hash id tenant_id clock subscriptions agents
        (create_permitted hash codes id tenant_id name clock subscriptions agents)
unfolding create_permitted
permitted-IsCreated hash codes id tenant_id name clock subscriptions agents =
    if_elim (IsCreated hash id tenant_id clock subscriptions agents) (is_bad_name name) _ _
      (λ _. refl)
      (λ _. coded-IsCreated hash (take 5 codes) id tenant_id clock subscriptions agents _ refl)

-- Creating an agent either changes no agent, or adds exactly one row, of the manager's tenant: active,
-- offline, never seen and without a secret, under the digest of the pairing code that is answered, which
-- no agent holds and which is good for ten minutes, and only while the tenant's agents that are not
-- retired are fewer than its plan allows.
pub create_agent-IsCreated :
    (hash : Text → Text) (codes : List Text) (id : Text) (claims : ManagerClaims) (name : Text)
    (clock : Clock) (subscriptions : List Subscription) (agents : List AgentAccount)
    → IsCreated hash id claims.tenant_id clock subscriptions agents
        (create_agent hash codes id (some claims) name clock subscriptions agents)
unfolding create_agent
create_agent-IsCreated hash codes id claims name clock subscriptions agents =
    guarded (refused (some claims) (text "agents.pair"))
  where
    guarded :
        (r : Option ActionError)
        → IsCreated hash id claims.tenant_id clock subscriptions agents (
            unless_fails r agents
              (create_permitted hash codes id claims.tenant_id name clock subscriptions agents))
    guarded none =
        permitted-IsCreated hash codes id claims.tenant_id name clock subscriptions agents
    guarded (some e) = refl
