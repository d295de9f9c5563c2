-- ===== src/Managers/Token.antt =====
-- The signed tokens of src/lib/manager-auth.ts.
use printer_repo.Prelude.{
  ℕ, ◌+◌, ◌-◌, ◌*◌, Bool, false, ◌&&◌, ◌||◌, List, [], ◌∷◌, ◌++◌, Option, none, some, if◌then◌else◌,
  any, length, ltb, leb,
}
use printer_repo.Prelude.Text.{Text, text, text_eq, split_on}

abbrev pub max_age_seconds : ℕ
max_age_seconds = 28_800

abbrev pub manager_roles : List Text
manager_roles =
    text "owner"
    ∷ text "admin"
    ∷ text "operator"
    ∷ text "viewer"
    ∷ text "integration_admin"
    ∷ text "billing_admin"
    ∷ []

pub record ManagerClaims : Type 0 where
  pub jti : Text
  pub iat : ℕ
  pub exp : ℕ
  pub tenant_id : Text
  pub user_id : Option Text
  pub role : Text

-- A field of a parsed object. A whole number is a safe integer that is not negative; a negative `iat`
-- is refused by the code as well, as `exp` is then at most eight hours after 1970.
pub data Field : Type 0 where
  words : Text → Field
  whole : ℕ → Field
  absent other : Field

pub record RawHeader : Type 0 where
  pub alg : Field
  pub typ : Field

pub record RawClaims : Type 0 where
  pub sub : Field
  pub tenant_id : Field
  pub jti : Field
  pub iat : Field
  pub exp : Field
  pub role : Field
  pub user_id : Field

-- What is not the server's own: the HMAC under its secret, and base64url over JSON.
pub record Codec : Type 0 where
  pub mac : Text → Text
  pub header : Text
  pub write_claims : ManagerClaims → Text
  pub read_header : Text → Option RawHeader
  pub read_claims : Text → Option RawClaims

abbrev pub dot : Text
dot = b'.' ∷ []

-- `sign`
unfoldable pub sign : Codec → ManagerClaims → Text
sign codec claims =
    let content = codec.header ++ (dot ++ codec.write_claims claims) in
    content ++ (dot ++ codec.mac content)

abbrev pub within : ℕ → ℕ → Text → Bool
within low high t = leb low (length t) && leb (length t) high

-- `undefined`, or a text of the allowed length.
abbrev pub user_of : Field → Option (Option Text)
user_of absent = some none
user_of (words u) = if within 1 128 u then some (some u) else none
user_of _ = none

-- The tests on the claims, apart from those on the time.
unfoldable pub typed :
    (sub tenant jti iat exp role : Field) → Option (Option Text) → Option ManagerClaims
typed (words sub) (words tenant) (words jti) (whole iat) (whole exp) (words role) (some user) =
    if text_eq sub (text "manager")
      && within 1 128 tenant
      && within 16 128 jti
      && ltb iat exp
      && leb (exp - iat) max_age_seconds
      && any (λ r. text_eq r role) manager_roles
    then some (record {
      jti = jti;
      iat = iat;
      exp = exp;
      tenant_id = tenant;
      user_id = user;
      role = role;
    })
    else none
typed _ _ _ _ _ _ _ = none

abbrev pub in_time : ℕ → Option ManagerClaims → Option ManagerClaims
in_time now none = none
in_time now (some claims) =
    if leb (claims.exp * 1000) now
    then none
    else if ltb (now + 60_000) (claims.iat * 1000)
    then none
    else some claims

unfoldable pub check_claims : ℕ → Option RawClaims → Option ManagerClaims
unfolding typed
check_claims now none = none
check_claims now (some raw) =
    in_time now (typed raw.sub raw.tenant_id raw.jti raw.iat raw.exp raw.role (user_of raw.user_id))

abbrev is_word : Text → Field → Bool
is_word t (words u) = text_eq u t
is_word t _ = false

abbrev pub is_jwt : Option RawHeader → Bool
is_jwt none = false
is_jwt (some header) = is_word (text "HS256") header.alg && is_word (text "JWT") header.typ

unfoldable pub by_parts : Codec → ℕ → List Text → Option ManagerClaims
unfolding check_claims
by_parts codec now (h ∷ p ∷ s ∷ []) =
    if is_jwt (codec.read_header h) && text_eq s (codec.mac (h ++ (dot ++ p)))
    then check_claims now (codec.read_claims p)
    else none
by_parts codec now _ = none

-- `verify`
unfoldable pub verify : Codec → ℕ → Text → Option ManagerClaims
unfolding by_parts
verify codec now token =
    if ltb (length token) 40 || ltb 4096 (length token)
    then none
    else by_parts codec now (split_on b'.' token)
