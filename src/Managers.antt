-- ===== src/Managers.antt =====
-- src/lib/manager-auth.ts: the sessions of managers, from the signed token to the row that it names.
pub mod Token
pub mod Laws
pub mod Sessions
pub mod Tokens
mod Tests
use printer_repo.Prelude.{
  ℕ, ◌+◌, ◌-◌, ◌*◌, ◌/◌, Bool, true, false, not, ◌&&◌, ◌||◌, List, [], ◌∷◌, ◌++◌, Option, none,
  some, if◌then◌else◌, any, map, filter, length, ltb, leb, is_some, or_else, ◌==◌,
}
use mathlib.Core.List.{reverse}
use printer_repo.Prelude.Text.{Text, text, text_eq, trim, starts_with, split_on, not_distinct}
use printer_repo.Agents.{drop_prefix}
unfoldable pub use printer_repo.Managers.Token.*

abbrev pub cookie_name : Text
cookie_name = text "mgr_session"

-- A row of `manager_sessions`, and one of `tenant_users`.
pub record Session : Type 0 where
  pub jti : Text
  pub tenant_id : Text
  pub user_id : Option Text
  pub role : Text
  pub expires_at : ℕ
  pub revoked_at : Option ℕ

pub record Membership : Type 0 where
  pub user_id : Text
  pub tenant_id : Text
  pub role : Text

unfoldable pub find_session : Text → List Session → Option Session
find_session jti [] = none
find_session jti (s ∷ rest) =
    let later = find_session jti rest in if text_eq s.jti jti then some s else later

unfoldable pub find_membership : (user_id tenant_id : Text) → List Membership → Option Membership
find_membership user_id tenant_id [] = none
find_membership user_id tenant_id (m ∷ rest) =
    let later = find_membership user_id tenant_id rest in
    if text_eq m.user_id user_id && text_eq m.tenant_id tenant_id then some m else later

abbrev has_role : Text → Option Membership → Bool
has_role role none = false
has_role role (some m) = text_eq m.role role

-- A session of a user asks for the user's membership as it is now.
abbrev pub is_member : Session → List Membership → Option Text → Bool
is_member row members none = true
is_member row members (some []) = true
is_member row members (some (c ∷ u)) =
    has_role row.role (find_membership (c ∷ u) row.tenant_id members)

abbrev pub accept_row : ℕ → List Membership → ManagerClaims → Option Session → Option ManagerClaims
accept_row now members claims none = none
accept_row now members claims (some row) =
    if is_some row.revoked_at
    then none
    else if leb row.expires_at now
    then none
    else if not (text_eq row.tenant_id claims.tenant_id)
        || not (text_eq row.role claims.role)
        || not (not_distinct row.user_id claims.user_id)
    then none
    else if is_member row members row.user_id
    then some claims
    else none

unfoldable pub validate_manager_claims :
    ℕ → List Session → List Membership → Option ManagerClaims → Option ManagerClaims
unfolding find_session find_membership
validate_manager_claims now sessions members none = none
validate_manager_claims now sessions members (some claims) =
    accept_row now members claims (find_session claims.jti sessions)

-- What stands before the first `=`, and what stands after it.
unfoldable pub split_equals : Text → Text × Text
split_equals [] = ([], [])
split_equals (c ∷ s) =
    let rest = split_equals s in if c == b'=' then ([], s) else (c ∷ rest.0, rest.1)

abbrev is_quoted : Text → Bool
is_quoted t = starts_with t (text "\"") && starts_with (reverse t) (text "\"")

-- `slice(1, -1)`
abbrev inner : Text → Text
inner [] = []
inner (c ∷ t) = drop_last t
  where
    drop_last : Text → Text
    drop_last [] = []
    drop_last (d ∷ []) = []
    drop_last (d ∷ (e ∷ u)) = d ∷ drop_last (e ∷ u)

abbrev unquote : Text → Text
unquote t = if is_quoted t then inner t else t

-- The loop over the cookies. The first one of the name decides.
unfoldable pub cookie_token : List Text → Option Text
unfolding split_equals
cookie_token [] = none
cookie_token (part ∷ parts) =
    let later = cookie_token parts in
    if text_eq (split_equals (trim part)).0 cookie_name
    then some (unquote (trim (split_equals (trim part)).1))
    else later

abbrev bearer_token : Option Text → Option Text
bearer_token none = none
bearer_token (some auth) =
    if starts_with auth (text "Bearer ")
    then some (trim (drop_prefix (text "Bearer ") auth))
    else none

-- The empty text is falsy.
abbrev pub truthy : Option Text → Option Text
truthy (some []) = none
truthy t = t

abbrev either : Option Text → Option Text → Option Text
either none later = later
either (some t) later = some t

abbrev pub request_token : (cookie authorization : Option Text) → Option Text
request_token cookie authorization = truthy (
    either (truthy (cookie_token (split_on b';' (or_else cookie [])))) (bearer_token authorization))

abbrev pub by_token :
    Codec → ℕ → List Session → List Membership → Option Text → Option ManagerClaims
by_token codec now sessions members none = none
by_token codec now sessions members (some token) =
    validate_manager_claims now sessions members (verify codec now token)

-- `validateManager`
unfoldable pub validate_manager :
    Codec
    → ℕ
    → List Session
    → List Membership
    → (cookie authorization : Option Text) → Option ManagerClaims
unfolding cookie_token verify validate_manager_claims
validate_manager codec now sessions members cookie authorization =
    by_token codec now sessions members (request_token cookie authorization)

-- `{ userId, role }` of the identity.
abbrev pub session_claims : Text → ℕ → Text → Option Text → Option Text → ManagerClaims
session_claims jti now tenant_id user_id role = record {
  jti = jti;
  iat = now / 1000;
  exp = now / 1000 + max_age_seconds;
  tenant_id = tenant_id;
  user_id = truthy user_id;
  role = or_else role (text "owner");
}

abbrev pub session_row : Option Text → ManagerClaims → Session
session_row user_id claims = record {
  jti = claims.jti;
  tenant_id = claims.tenant_id;
  user_id = user_id;
  role = claims.role;
  expires_at = claims.exp * 1000;
  revoked_at = none;
}

-- `createManagerSession`, at the time `now` in milliseconds. `jti` is the random name of the session;
-- the primary key refuses a second session of one name.
unfoldable pub create_manager_session :
    Codec
    → (jti : Text) → (now : ℕ) → (tenant_id : Text) → (user_id role : Option Text) → List Session
    → Option (List Session × Text)
unfolding sign
create_manager_session codec jti now tenant_id user_id role sessions =
    let claims = session_claims jti now tenant_id user_id role in
    if any (λ (s : Session). text_eq s.jti jti) sessions
    then none
    else some (session_row user_id claims ∷ sessions, sign codec claims)

unfoldable pub revoke_manager_session : (jti : Text) → (now : ℕ) → List Session → List Session
revoke_manager_session jti now sessions =
    map (λ (s : Session). if text_eq s.jti jti then record s { revoked_at = some now } else s)
      sessions

unfoldable pub cleanup_expired_manager_sessions : (now : ℕ) → List Session → List Session × ℕ
cleanup_expired_manager_sessions now sessions = (
  filter (λ (s : Session). not (leb s.expires_at now)) sessions,
  length (filter (λ (s : Session). leb s.expires_at now) sessions),
)
