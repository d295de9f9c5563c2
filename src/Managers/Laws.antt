-- ===== src/Managers/Laws.antt =====
-- What an accepted token is.
use printer_repo.Prelude.{
  ◌&&◌, if◌then◌else◌, ℕ, ◌+◌, ◌*◌, ◌≤◌, ◌<◌, ◌≡◌, refl, Bool, true, false, List, [], ◌∷◌, ◌++◌,
  Option, none, some, any, arith,
}
use printer_repo.Prelude.Text.{Text, text_eq, text_eq_sound, split_on}
use printer_repo.Managers.{
  in_time, user_of, ManagerClaims, Field, words, whole, RawClaims, Codec, dot, typed, check_claims,
  is_jwt, by_parts, verify, manager_roles,
}

-- The claims are of a known role, last at most eight hours, and are not over.
pub record IsCurrent (now : ℕ) (c : ManagerClaims) : Type 0 where
  pub running : now < c.exp * 1000
  pub issued : c.iat * 1000 ≤ now + 60_000
  pub limited : c.exp ≤ c.iat + 28_800
  pub known_role : any (λ r. text_eq r c.role) manager_roles ≡ true

-- The claims are those of a token that the server's secret has signed.
pub record IsGenuine (codec : Codec) (now : ℕ) (token : Text) (c : ManagerClaims) : Type 0 where
  pub head : Text
  pub body : Text
  pub signature : Text
  pub parts : split_on b'.' token ≡ head ∷ body ∷ signature ∷ []
  pub signed : signature ≡ codec.mac (head ++ (dot ++ body))
  pub jwt : is_jwt (codec.read_header head) ≡ true
  pub claims : check_claims now (codec.read_claims body) ≡ some c
  pub current : IsCurrent now c

some-injective : {a b : ManagerClaims} → some a ≡ some b → a ≡ b
some-injective e = cc

-- What the tests on the types leave.
record IsTyped (c : ManagerClaims) : Type 0 where
  pub limited : c.exp ≤ c.iat + 28_800
  pub known_role : any (λ r. text_eq r c.role) manager_roles ≡ true

typed-IsTyped :
    (sub tenant jti iat exp role : Field) (user : Option (Option Text)) (c : ManagerClaims)
    → typed sub tenant jti iat exp role user ≡ some c
    → IsTyped c
unfolding typed
typed-IsTyped (words sub) (words tenant) (words jti) (whole iat) (whole exp) (words role)
      (some user) c e =
    ground arith
typed-IsTyped sub tenant jti iat exp role user c e = absurd (ground arith)

typed-IsCurrent :
    (now : ℕ) (typed_claims : Option ManagerClaims) (c : ManagerClaims)
    → ((d : ManagerClaims) → typed_claims ≡ some d → IsTyped d)
    → in_time now typed_claims ≡ some c
    → IsCurrent now c
typed-IsCurrent now none c h e = absurd (ground arith)
typed-IsCurrent now (some d) c h e = ground (arith, h d refl)

check_claims-IsCurrent :
    (now : ℕ) (raw : Option RawClaims) (c : ManagerClaims)
    → check_claims now raw ≡ some c
    → IsCurrent now c
unfolding check_claims
check_claims-IsCurrent now none c e = absurd (ground arith)
check_claims-IsCurrent now (some raw) c e =
    typed-IsCurrent now
      (typed raw.sub raw.tenant_id raw.jti raw.iat raw.exp raw.role (user_of raw.user_id)) c
      (λ d.
        typed-IsTyped raw.sub raw.tenant_id raw.jti raw.iat raw.exp raw.role (user_of raw.user_id)
          d)
      e

by_parts-IsGenuine :
    (codec : Codec) (now : ℕ) (token : Text) (parts : List Text) (c : ManagerClaims)
    → split_on b'.' token ≡ parts
    → by_parts codec now parts ≡ some c
    → IsGenuine codec now token c
unfolding by_parts
by_parts-IsGenuine codec now token (h ∷ p ∷ s ∷ []) c split e =
    let (jwt, signed, checked) =
      three (is_jwt (codec.read_header h)) (text_eq s (codec.mac (h ++ (dot ++ p))))
        (check_claims now (codec.read_claims p)) e in
    record {
      head = h;
      body = p;
      signature = s;
      parts = split;
      signed = text_eq_sound s (codec.mac (h ++ (dot ++ p))) signed;
      jwt = jwt;
      claims = checked;
      current = check_claims-IsCurrent now (codec.read_claims p) c checked;
    }
  where
    three :
        (a b : Bool) (o : Option ManagerClaims)
        → (if a && b then o else none) ≡ some c
        → (a ≡ true) × (b ≡ true) × (o ≡ some c)
    three true true o e = (refl, refl, e)
    three true false o e = absurd (ground arith)
    three false b o e = absurd (ground arith)
by_parts-IsGenuine codec now token parts c split e = absurd (ground arith)

-- A token is accepted only if it has three parts, the last of them the server's MAC of the first two,
-- and only while its claims are not over: they name a known role, were issued at most a minute ahead,
-- and last at most eight hours.
pub verify-IsGenuine :
    (codec : Codec) (now : ℕ) (token : Text) (c : ManagerClaims)
    → verify codec now token ≡ some c
    → IsGenuine codec now token c
unfolding verify
verify-IsGenuine codec now token c e =
    by_parts-IsGenuine codec now token (split_on b'.' token) c refl (ground arith)
