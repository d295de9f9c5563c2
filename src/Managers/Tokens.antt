-- ===== src/Managers/Tokens.antt =====
-- A token that the server signed is read back as the claims in it.
use printer_repo.Prelude.{
  subst, if◌then◌else◌, ltb, ◌||◌, ℕ, ◌+◌, ◌*◌, ◌/◌, ◌≤◌, ◌<◌, ◌≡◌, refl, sym, ap, ◌∙◌, Bool, true,
  false, List, [], ◌∷◌, ◌++◌, Option, none, some, any, length, leb, arith,
}
use mathlib.Core.List.{append_assoc}
use printer_repo.Prelude.Text.{
  Text, text, text_eq, text_eq_refl, not_distinct_iff, split_on, split_on-none, split_on-append,
  has_unit,
}
use printer_repo.Managers.{
  session_row, ManagerClaims, words, whole, absent, Field, RawClaims, Codec, Session, Membership,
  dot, is_member, typed, user_of, check_claims, by_parts, verify, sign, find_session,
  validate_manager_claims, session_claims, create_manager_session, manager_roles, within, truthy,
}

abbrev field_of : Option Text → Field
field_of none = absent
field_of (some t) = words t

-- The object that `JSON.stringify` writes for the claims.
abbrev pub raw_of : ManagerClaims → RawClaims
raw_of c = record {
  sub = words (text "manager");
  tenant_id = words c.tenant_id;
  jti = words c.jti;
  iat = whole c.iat;
  exp = whole c.exp;
  role = words c.role;
  user_id = field_of c.user_id;
}

-- What base64url, JSON and the digest do for these claims: the header and the claims are read back as
-- they were written, and no encoding has a dot.
pub record IsCodec (codec : Codec) (c : ManagerClaims) : Type 0 where
  pub header_read :
      codec.read_header codec.header
      ≡ some (record { alg = words (text "HS256"); typ = words (text "JWT") })
  pub claims_read : codec.read_claims (codec.write_claims c) ≡ some (raw_of c)
  pub plain_header : has_unit b'.' codec.header ≡ false
  pub plain_claims : has_unit b'.' (codec.write_claims c) ≡ false
  pub plain_mac : has_unit b'.' (codec.mac (codec.header ++ (dot ++ codec.write_claims c))) ≡ false

-- The claims fit their fields.
pub record IsIdentity (c : ManagerClaims) : Type 0 where
  pub tenant_fits : within 1 128 c.tenant_id ≡ true
  pub jti_fits : within 16 128 c.jti ≡ true
  pub user_fits : user_of (field_of c.user_id) ≡ some c.user_id
  pub known_role : any (λ r. text_eq r c.role) manager_roles ≡ true
  pub lasting : c.iat < c.exp
  pub limited : c.exp ≤ c.iat + 28_800

module _ (codec : Codec) (c : ManagerClaims) (good : IsCodec codec c) where
  sign-parts :
      split_on b'.' (sign codec c)
      ≡ codec.header
        ∷ codec.write_claims c
        ∷ codec.mac (codec.header ++ (dot ++ codec.write_claims c))
        ∷ []
  unfolding sign
  sign-parts =
      let body = codec.write_claims c in
      let mac = codec.mac (codec.header ++ (dot ++ body)) in
      ap (split_on b'.') (append_assoc codec.header (dot ++ body) (dot ++ mac))
      ∙ split_on-append b'.' codec.header (body ++ (dot ++ mac)) good.plain_header
      ∙ ap (λ ts. codec.header ∷ ts)
          (split_on-append b'.' body mac good.plain_claims
            ∙ ap (λ ts. body ∷ ts) (split_on-none b'.' mac good.plain_mac))

  typed-raw :
      IsIdentity c
      → typed
          (words (text "manager"))
          (words c.tenant_id)
          (words c.jti)
          (whole c.iat)
          (whole c.exp)
          (words c.role)
          (some c.user_id)
        ≡ some c
  unfolding typed
  typed-raw v = ground (
    arith,
    text_eq_refl (text "manager"),
    v.tenant_fits,
    v.jti_fits,
    v.known_role,
    v.lasting,
    v.limited,
  )

  check_claims-raw :
      (now : ℕ)
      → IsIdentity c
      → now < c.exp * 1000
      → c.iat * 1000 ≤ now + 60_000
      → check_claims now (codec.read_claims (codec.write_claims c)) ≡ some c
  unfolding check_claims
  check_claims-raw now v h k =
      rw (good.claims_read) (rw v.user_fits (rw (typed-raw v) (ground arith)))

  by_parts-signed :
      (now : ℕ)
      → IsIdentity c
      → now < c.exp * 1000
      → c.iat * 1000 ≤ now + 60_000
      → by_parts codec now (
          codec.header
          ∷ codec.write_claims c
          ∷ codec.mac (codec.header ++ (dot ++ codec.write_claims c))
          ∷ [])
        ≡ some c
  unfolding by_parts text text_eq
  by_parts-signed now v h k =
      rw
        (good.header_read, text_eq_refl (codec.mac (codec.header ++ (dot ++ codec.write_claims c))))
        (check_claims-raw now v h k)

  -- A token that the server signed is accepted, and gives back its claims, from a minute before they
  -- were issued until they are over.
  verify-sign :
      (now : ℕ)
      → IsIdentity c
      → 40 ≤ length (sign codec c)
      → length (sign codec c) ≤ 4096
      → now < c.exp * 1000
      → c.iat * 1000 ≤ now + 60_000
      → verify codec now (sign codec c) ≡ some c
  unfolding verify
  verify-sign now v low high h k =
      rw (long_enough (length (sign codec c)) low high, sign-parts) (by_parts-signed now v h k)
    where
      long_enough : (n : ℕ) → 40 ≤ n → n ≤ 4096 → (ltb n 40 || ltb 4096 n) ≡ false
      long_enough n low high = ground arith

  row-accepted :
      (now : ℕ) (sessions : List Session) (members : List Membership)
      → now < c.exp * 1000
      → is_member (session_row c.user_id c) members c.user_id ≡ true
      → validate_manager_claims now (session_row c.user_id c ∷ sessions) members (some c) ≡ some c
  unfolding validate_manager_claims find_session
  row-accepted now sessions members h m =
      rw
        (
          text_eq_refl c.jti,
          text_eq_refl c.tenant_id,
          text_eq_refl c.role,
          (not_distinct_iff c.user_id c.user_id).1 refl,
          not_over now (c.exp * 1000) h,
          m,
        )
        refl
    where
      not_over : (now until : ℕ) → now < until → leb until now ≡ false
      not_over now until h = ground arith

some-injective : {p q : List Session × Text} → some p ≡ some q → p ≡ q
some-injective e = cc

none_some : {p : List Session × Text} → none ≡ some p → ⊥
none_some e = ground arith

-- What a creation that succeeded gives.
created :
    (b : Bool) (p q : List Session × Text)
    → (if b then none else some p) ≡ some q
    → (p.0 ≡ q.0) × (p.1 ≡ q.1)
created true p q e = absurd (none_some e)
created false p q e =
    let same = some-injective e in
    (ap (λ (r : List Session × Text). r.0) same, ap (λ (r : List Session × Text). r.1) same)

-- The token of a new session lets its manager in for the 28800 seconds after the second in which it was
-- made, unless the session is revoked: the claims that were signed are accepted, if they fit their fields, and if the user, where
-- there is one, still has the role in the tenant.
pub session-accepted :
    (codec : Codec) (jti tenant_id : Text) (user_id role : Option Text) (now later : ℕ)
    (sessions after : List Session) (members : List Membership) (token : Text)
    → let claims = session_claims jti now tenant_id user_id role in
      create_manager_session codec jti now tenant_id user_id role sessions ≡ some (after, token)
      → IsCodec codec claims
      → IsIdentity claims
      → truthy user_id ≡ user_id
      → 40 ≤ length token
      → length token ≤ 4096
      → now ≤ later
      → later < (now / 1000 + 28_800) * 1000
      → is_member (session_row user_id claims) members user_id ≡ true
      → validate_manager_claims later after members (verify codec later token) ≡ some claims
unfolding create_manager_session
session-accepted codec jti tenant_id user_id role now later sessions after members token made good v
      t low high h k m =
    let claims = session_claims jti now tenant_id user_id role in
    let (same, same') =
      created (any (λ (s : Session). text_eq s.jti jti) sessions)
        (session_row user_id claims ∷ sessions, sign codec claims) (after, token) made in
    ap (λ r. validate_manager_claims later r members (verify codec later token)) (sym same)
    ∙ ap
        (λ w.
          validate_manager_claims later (session_row user_id claims ∷ sessions) members
            (verify codec later w))
        (sym same')
    ∙ ap (validate_manager_claims later (session_row user_id claims ∷ sessions) members) (
        verify-sign codec claims good later v (subst (λ w. 40 ≤ length w) (sym same') low)
          (subst (λ w. length w ≤ 4096) (sym same') high) k (issued_before now later h))
    ∙ subst
        (λ u.
          is_member (session_row u claims) members u ≡ true
          → validate_manager_claims later (session_row u claims ∷ sessions) members (some claims)
            ≡ some claims)
        t (row-accepted codec claims good later sessions members k) m
  where
    issued_before : (now later : ℕ) → now ≤ later → (now / 1000) * 1000 ≤ later + 60_000
    issued_before now later h = omega arith
