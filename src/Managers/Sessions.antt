-- ===== src/Managers/Sessions.antt =====
-- The life of a session: it is accepted after it was made, and no more after it was revoked.
use printer_repo.Prelude.{
  ℕ, ◌≡◌, ◌≢◌, refl, sym, ap, ◌∙◌, inl, inr, List, [], ◌∷◌, Option, none, some, arith, Bool-cases,
}
use printer_repo.Prelude.Text.{Text, text_eq}
use printer_repo.Managers.{
  ManagerClaims, Codec, Session, Membership, verify, find_session, accept_row,
  validate_manager_claims, by_token, request_token, validate_manager, revoke_manager_session,
}

revoked-refused :
    (now later : ℕ) (members : List Membership) (c : ManagerClaims) (sessions : List Session)
    → accept_row later members c (find_session c.jti (revoke_manager_session c.jti now sessions))
      ≡ none
unfolding find_session revoke_manager_session
revoked-refused now later members c [] = refl
revoked-refused now later members c (s ∷ rest) = elim (Bool-cases (text_eq s.jti c.jti)) [
  | inl e ↦ rw e (rw e refl)
  | inr e ↦ rw e (rw e (revoked-refused now later members c rest))
]

accept_row-same :
    (now : ℕ) (members : List Membership) (c d : ManagerClaims) (o : Option Session)
    → accept_row now members c o ≡ some d
    → c ≡ d
accept_row-same now members c d none e = absurd (ground arith)
accept_row-same now members c d (some row) e = ground arith

validate-unrevoked :
    (jti : Text) (now later : ℕ) (sessions : List Session) (members : List Membership)
    (claims : Option ManagerClaims) (c : ManagerClaims)
    → validate_manager_claims later (revoke_manager_session jti now sessions) members claims
      ≡ some c
    → c.jti ≢ jti
unfolding validate_manager_claims
validate-unrevoked jti now later sessions members none c e same = absurd (ground arith)
validate-unrevoked jti now later sessions members (some d) c e same =
    let same_claims = accept_row-same later members d c _ e in
    none_some (
      sym (revoked-refused now later members d sessions)
      ∙ ap
          (λ i.
            accept_row later members d (find_session d.jti (revoke_manager_session i now sessions)))
          (ap (λ (k : ManagerClaims). k.jti) same_claims ∙ same)
      ∙ e)
  where
    none_some : none ≡ some c → ⊥
    none_some e = ground arith

-- Once a session is revoked no request is let in by it: whatever cookie or header it carries, at any
-- later time, the claims that are accepted are those of another session.
pub revoke-unaccepted :
    (codec : Codec) (jti : Text) (now later : ℕ) (sessions : List Session)
    (members : List Membership) (cookie authorization : Option Text) (c : ManagerClaims)
    → validate_manager codec later
        (revoke_manager_session jti now sessions)
        members
        cookie
        authorization
      ≡ some c
    → c.jti ≢ jti
unfolding validate_manager
revoke-unaccepted codec jti now later sessions members cookie authorization c e =
    by_token-unrevoked (request_token cookie authorization) e
  where
    by_token-unrevoked :
        (token : Option Text)
        → by_token codec later (revoke_manager_session jti now sessions) members token ≡ some c
        → c.jti ≢ jti
    by_token-unrevoked none e = absurd (ground arith)
    by_token-unrevoked (some token) e =
        validate-unrevoked jti now later sessions members (verify codec later token) c e
