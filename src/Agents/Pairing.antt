-- ===== src/Agents/Pairing.antt =====
-- What a registration guarantees: the secret it gives authenticates, and its code is used up.
use printer_repo.Prelude.{
  ℕ, ◌≡◌, ◌≢◌, refl, sym, subst, inl, inr, Bool, true, false, not, ◌&&◌, List, [], ◌∷◌, All, Option,
  none, some, any, arith, and_split, Bool-cases, and_split, if_elim, ltb, if_elim, ltb,
}
use printer_repo.Prelude.Text.{Text, text, text_eq, text_eq_sound}
use printer_repo.AuthLimit.{
  Buckets, RateLimitDecision, allowed, refused, inspect_pairing_rate_limit,
}
use printer_repo.Agents.{AgentAccount, Metadata, find_agent, has_code}
use printer_repo.Agents.Register.{
  RegistrationBody, RegisterReply, registered, is_registration, is_pending, paired_row,
  consume_code, merged_metadata, Desk, Offices, settled, pair, by_agent, find_pending, by_limit,
  code_hash_of, trim_body, register_agent,
}

-- `id` is the primary key of `agents`.
abbrev pub UniqueAgents : List AgentAccount → Type 0
UniqueAgents [] = Unit
UniqueAgents (a ∷ as') =
    All (λ (b : AgentAccount). text_eq b.id a.id ≡ false) as' × UniqueAgents as'

-- The agent's row held the code, and the update of the code ran.
pub record IsPaired (desk : Desk) (later : List AgentAccount) (code_hash id : Text)
    (after : List AgentAccount) : Type 0 where
  pub metadata : Metadata
  pub holds :
      any (λ (a : AgentAccount). text_eq a.id id && is_pending code_hash desk.write_time a) later
      ≡ true
  pub written :
      after ≡ consume_code id code_hash (desk.hash desk.secret) metadata desk.write_time later

registered-injective : {i j s t : Text} → registered i s ≡ registered j t → (i ≡ j) × (s ≡ t)
registered-injective e = (cc, cc)

module _ (desk : Desk) (b : RegistrationBody) (code_hash : Text) (rows : Buckets)
    (later : List AgentAccount) where
  pair-IsPaired :
      (agent : AgentAccount) (id secret : Text)
      → (pair desk b code_hash rows later agent).1 ≡ registered id secret
      → IsPaired desk later code_hash id (pair desk b code_hash rows later agent).0.1
        × (desk.secret ≡ secret)
  pair-IsPaired agent id secret e = settle-IsPaired _ refl e
    where
      settle-IsPaired :
          (held : Bool)
          → any
              (λ (a : AgentAccount).
                text_eq a.id agent.id && is_pending code_hash desk.write_time a)
              later
            ≡ held
          → (settled desk b code_hash rows later agent held).1 ≡ registered id secret
          → IsPaired desk later code_hash id (settled desk b code_hash rows later agent held).0.1
            × (desk.secret ≡ secret)
      settle-IsPaired true h e =
          let (same, same') = registered-injective e in
          (
            subst
                (λ i. IsPaired desk later code_hash i (
                  consume_code agent.id code_hash (desk.hash desk.secret)
                    (merged_metadata desk.json agent.metadata b) desk.write_time later))
                same
                (record {
                  metadata = merged_metadata desk.json agent.metadata b;
                  holds = h;
                  written = refl;
                }),
            same',
          )
      settle-IsPaired false h e = absurd (ground arith)

  by_agent-IsPaired :
      (found : Option AgentAccount) (id secret : Text)
      → (by_agent desk b code_hash rows later found).1 ≡ registered id secret
      → IsPaired desk later code_hash id (by_agent desk b code_hash rows later found).0.1
        × (desk.secret ≡ secret)
  by_agent-IsPaired none id secret e = absurd (ground arith)
  by_agent-IsPaired (some agent) id secret e = pair-IsPaired agent id secret e

  by_limit-IsPaired :
      (earlier : List AgentAccount) (d : RateLimitDecision) (id secret : Text)
      → (by_limit desk b code_hash rows earlier later d).1 ≡ registered id secret
      → IsPaired desk later code_hash id (by_limit desk b code_hash rows earlier later d).0.1
        × (desk.secret ≡ secret)
  by_limit-IsPaired earlier (refused n) id secret e = absurd (ground arith)
  by_limit-IsPaired earlier allowed id secret e =
      by_agent-IsPaired (find_pending b code_hash desk.read_time earlier) id secret e

-- A property of a registration that answered with a secret, from the branch that did.
module _ (desk : Desk) (rows : Buckets) (earlier later : List AgentAccount) (id secret : Text) where
  IsDone : Text → Offices × RegisterReply → Type 0
  IsDone code_hash outcome =
      outcome.1 ≡ registered id secret
      → IsPaired desk later code_hash id outcome.0.1 × (desk.secret ≡ secret)

  pub register_agent-IsPaired :
      (over_limit : Bool) (body : RegistrationBody)
      → (register_agent over_limit desk body rows earlier later).1 ≡ registered id secret
      → IsPaired desk later
          (code_hash_of desk.hash (trim_body body))
          id
          (register_agent over_limit desk body rows earlier later).0.1
        × (desk.secret ≡ secret)
  unfolding register_agent IsDone
  register_agent-IsPaired over_limit body =
      let b = trim_body body in
      let h = code_hash_of desk.hash b in
      if_elim (IsDone h) over_limit _ _ (λ o e. absurd (ground arith))
        (λ o.
          if_elim (IsDone h) (ltb 32_768 body.metadata_size) _ _ (λ m e. absurd (ground arith))
            (λ m.
              if_elim (IsDone h) (not (is_registration b)) _ _ (λ r e. absurd (ground arith))
                (λ r.
                  if_elim (IsDone h) desk.limiter_fails _ _ (λ f e. absurd (ground arith))
                    (λ f.
                      by_limit-IsPaired desk b h rows later earlier
                        (inspect_pairing_rate_limit desk.ip desk.read_time rows) id secret))))

module _ (id code_hash secret_hash : Text) (metadata : Metadata) (now : ℕ) where
  spared :
      (agents : List AgentAccount) (test : AgentAccount → Bool)
      → ((a : AgentAccount) → test a ≡ true → text_eq a.id id ≡ true)
      → All (λ (b : AgentAccount). text_eq b.id id ≡ false) agents
      → any (λ (a : AgentAccount). test a) agents ≡ false
  spared [] test f h = refl
  spared (a ∷ as') test f (n, h) = ground (arith, spared as' test f h, f a)

  -- Where the head has the id, it is the head that held the code.
  head_pending :
      (a : AgentAccount) (as' : List AgentAccount)
      → UniqueAgents (a ∷ as')
      → any (λ (c : AgentAccount). text_eq c.id id && is_pending code_hash now c) (a ∷ as') ≡ true
      → text_eq a.id id ≡ true
      → is_pending code_hash now a ≡ true
  head_pending a as' (n, u) h e =
      let others =
        spared as' (λ c. text_eq c.id id && is_pending code_hash now c)
          (λ c k. (and_split (text_eq c.id id) (is_pending code_hash now c) k).0)
          (subst (λ i. All (λ (b : AgentAccount). text_eq b.id i ≡ false) as')
            (text_eq_sound a.id id e) n) in
      ground arith

  pending-active :
      (a : AgentAccount) → is_pending code_hash now a ≡ true → a.lifecycle ≡ text "active"
  unfolding is_pending
  pending-active a h = text_eq_sound a.lifecycle (text "active") (ground arith)

  -- The row that held the code is the one that is found afterwards, with the new secret.
  pub find-consumed :
      (agents : List AgentAccount)
      → UniqueAgents agents
      → any (λ (a : AgentAccount). text_eq a.id id && is_pending code_hash now a) agents ≡ true
      → (a : AgentAccount) × (find_agent
            (λ c. text_eq c.id id)
            (consume_code id code_hash secret_hash metadata now agents)
          ≡ some (paired_row secret_hash metadata now a))
        × (a.id ≡ id)
        × (a.lifecycle ≡ text "active")
  unfolding find_agent consume_code paired_row
  find-consumed [] u h = absurd (ground arith)
  find-consumed (a ∷ as') (n, u) h = elim (Bool-cases (text_eq a.id id)) [
    | inl e ↦
        let pending = head_pending a as' (n, u) h e in
        (a, rw (e, pending) (rw e refl), text_eq_sound a.id id e, pending-active a pending)
    | inr e ↦
        let (b, found, same, active) = find-consumed as' u (ground arith) in
        (b, rw (e) (rw e found), same, active)
  ]

  others-consumed :
      (agents : List AgentAccount)
      → All (λ (b : AgentAccount). text_eq b.id id ≡ false) agents
      → All (λ (a : AgentAccount). has_code code_hash a ≡ true → text_eq a.id id ≡ true) agents
      → All
          (λ (a : AgentAccount). has_code code_hash a ≡ false)
          (consume_code id code_hash secret_hash metadata now agents)
  unfolding consume_code
  others-consumed [] h alone = tt
  others-consumed (a ∷ as') (n, h) (only, alone) =
      (rw n (ground (arith, only)), others-consumed as' h alone)

  -- No row holds the code any more, if none but the agent's did.
  none-consumed :
      (agents : List AgentAccount)
      → UniqueAgents agents
      → any (λ (a : AgentAccount). text_eq a.id id && is_pending code_hash now a) agents ≡ true
      → All (λ (a : AgentAccount). has_code code_hash a ≡ true → text_eq a.id id ≡ true) agents
      → All
          (λ (a : AgentAccount). has_code code_hash a ≡ false)
          (consume_code id code_hash secret_hash metadata now agents)
  unfolding consume_code paired_row
  none-consumed [] u h alone = tt
  none-consumed (a ∷ as') (n, u) h (only, alone) = elim (Bool-cases (text_eq a.id id)) [
    | inl e ↦ (
      rw (e, head_pending a as' (n, u) h e) refl,
      others-consumed as'
          (subst (λ i. All (λ (b : AgentAccount). text_eq b.id i ≡ false) as')
            (text_eq_sound a.id id e) n)
          alone,
    )
    | inr e ↦ (rw e (ground (arith, only)), none-consumed as' u (ground arith) alone)
  ]

-- A pairing code is used up by the registration that it admits: if no other agent held its digest, no
-- later registration by that code is admitted, at any time and from any address.
pub register_once :
    (over_limit : Bool) (desk : Desk) (body : RegistrationBody) (rows : Buckets)
    (earlier later : List AgentAccount) (id secret : Text) (over_limit' : Bool) (desk' : Desk)
    (body' : RegistrationBody) (rows' : Buckets) (id' secret' : Text)
    → (register_agent over_limit desk body rows earlier later).1 ≡ registered id secret
    → UniqueAgents later
    → All
        (λ (a : AgentAccount).
          has_code (code_hash_of desk.hash (trim_body body)) a ≡ true → text_eq a.id id ≡ true)
        later
    → code_hash_of desk'.hash (trim_body body') ≡ code_hash_of desk.hash (trim_body body)
    → let after = (register_agent over_limit desk body rows earlier later).0.1 in
      (register_agent over_limit' desk' body' rows' after after).1 ≢ registered id' secret'
unfolding is_pending
register_once over_limit desk body rows earlier later id secret over_limit' desk' body' rows' id'
      secret' e u alone same again =
    let h = code_hash_of desk.hash (trim_body body) in
    let after = (register_agent over_limit desk body rows earlier later).0.1 in
    let (p, _) = register_agent-IsPaired desk rows earlier later id secret over_limit body e in
    let (p', _) =
      register_agent-IsPaired desk' rows' after after id' secret' over_limit' body' again in
    let spent =
      none-consumed id h (desk.hash desk.secret) p.metadata desk.write_time later u p.holds alone in
    held_by_none h id' desk'.write_time after
      (subst (All (λ (a : AgentAccount). has_code h a ≡ false)) (sym p.written) spent)
      (subst
        (λ k.
          any (λ (a : AgentAccount). text_eq a.id id' && is_pending k desk'.write_time a) after
          ≡ true)
        same p'.holds)
  where
    held_by_none :
        (h i : Text) (now : ℕ) (agents : List AgentAccount)
        → All (λ (a : AgentAccount). has_code h a ≡ false) agents
        → any (λ (a : AgentAccount). text_eq a.id i && is_pending h now a) agents ≡ true
        → ⊥
    held_by_none h i now [] s k = ground arith
    held_by_none h i now (a ∷ as') (e, s) k = held_by_none h i now as' s (ground arith)
