-- ===== src/Agents/Bearer.antt =====
-- The secret that a registration gives out, as `validateAgent` of src/lib/agent-auth.ts takes it.
use printer_repo.Prelude.{
  ◌≡◌, ◌≢◌, refl, ap, ◌∙◌, Bool, false, List, [], ◌∷◌, ◌++◌, some, any, ◌==◌, arith,
}
use printer_repo.Prelude.Text.{Text, text, text_eq, text_eq_iff, starts_with-append}
use printer_repo.AuthLimit.{Buckets}
use printer_repo.Agents.{
  AgentAccount, find_agent, split_colon, drop_prefix, check_secret, check_agent, check_parts,
  validate_agent,
}
use printer_repo.Agents.Register.{
  RegistrationBody, registered, paired_row, Desk, code_hash_of, trim_body, register_agent,
}
use printer_repo.Agents.Pairing.{UniqueAgents, find-consumed, register_agent-IsPaired}

drop_prefix-append : (p s : Text) → drop_prefix p (p ++ s) ≡ s
unfolding drop_prefix
drop_prefix-append [] s = refl
drop_prefix-append (c ∷ p) s = drop_prefix-append p s

split_colon-append :
    (id secret : Text)
    → any (λ c. c == b':') id ≡ false
    → split_colon (id ++ (b':' ∷ secret)) ≡ some (id, secret)
unfolding split_colon
split_colon-append [] secret h = refl
split_colon-append (c ∷ id) secret h = ground (arith, split_colon-append id secret)

-- `Bearer <id>:<secret>`
abbrev pub bearer : Text → Text → Text
bearer id secret = text "Bearer " ++ (id ++ (b':' ∷ secret))

check_parts-filled :
    (hash : Text → Text) (agents : List AgentAccount) (id secret : Text)
    → id ≢ []
    → secret ≢ []
    → check_parts hash agents (some (id, secret))
      ≡ check_agent hash secret (find_agent (λ a. text_eq a.id id) agents)
check_parts-filled hash agents [] secret n m = absurd (n refl)
check_parts-filled hash agents (c ∷ id) [] n m = absurd (m refl)
check_parts-filled hash agents (c ∷ id) (d ∷ secret) n m = refl

check_secret-accepts :
    (hash : Text → Text) (secret stored : Text) (a : AgentAccount)
    → stored ≢ []
    → stored ≡ hash secret
    → a.lifecycle ≡ text "active"
    → check_secret hash secret (some stored) a ≡ some a
check_secret-accepts hash secret [] a n e l = absurd (n refl)
check_secret-accepts hash secret (c ∷ stored) a n e l =
    ground (arith, text_eq_iff a.lifecycle (text "active"), text_eq_iff (c ∷ stored) (hash secret))

validate-bearer :
    (hash : Text → Text) (agents : List AgentAccount) (id secret : Text)
    → id ≢ []
    → secret ≢ []
    → any (λ c. c == b':') id ≡ false
    → validate_agent hash (some (bearer id secret)) agents
      ≡ check_agent hash secret (find_agent (λ a. text_eq a.id id) agents)
unfolding validate_agent
validate-bearer hash agents id secret n m h =
    rw
      (
        starts_with-append (text "Bearer ") (id ++ (b':' ∷ secret)),
        drop_prefix-append (text "Bearer ") (id ++ (b':' ∷ secret)),
        split_colon-append id secret h,
      )
      (check_parts-filled hash agents id secret n m)

-- The secret that a registration gives out authenticates its agent on the table that the registration
-- leaves: the header made of
-- the id and the secret is accepted for the row of that id, if ids are distinct, neither text is empty,
-- the id has no colon, and no digest is empty.
pub register-validates :
    (over_limit : Bool) (desk : Desk) (body : RegistrationBody) (rows : Buckets)
    (earlier later : List AgentAccount) (id secret : Text)
    → (register_agent over_limit desk body rows earlier later).1 ≡ registered id secret
    → UniqueAgents later
    → id ≢ []
    → any (λ c. c == b':') id ≡ false
    → secret ≢ []
    → ((t : Text) → desk.hash t ≢ [])
    → (a : AgentAccount) × (validate_agent desk.hash
          (some (bearer id secret))
          (register_agent over_limit desk body rows earlier later).0.1
        ≡ some a)
      × (a.id ≡ id)
unfolding paired_row
register-validates over_limit desk body rows earlier later id secret e u n h m filled =
    let h' = code_hash_of desk.hash (trim_body body) in
    let (p, same) = register_agent-IsPaired desk rows earlier later id secret over_limit body e in
    let (a, found, same_id, active) =
      find-consumed id h' (desk.hash desk.secret) p.metadata desk.write_time later u p.holds in
    let row = paired_row (desk.hash desk.secret) p.metadata desk.write_time a in
    (
      row,
      validate-bearer desk.hash _ id secret n m h
          ∙ ap (λ agents. check_agent desk.hash secret (find_agent (λ a. text_eq a.id id) agents))
              p.written
          ∙ ap (check_agent desk.hash secret) found
          ∙ check_secret-accepts desk.hash secret (desk.hash desk.secret) row (filled desk.secret)
              (ap desk.hash same) active,
      same_id,
    )
