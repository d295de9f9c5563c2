-- ===== src/Managers/Tests.antt =====
-- An operator logs in, works, and is logged out.
use printer_repo.Prelude.{
  ◌≡◌, ◌==◌, refl, List, [], ◌∷◌, ◌++◌, none, some, map, take, if◌then◌else◌, arith,
}
use printer_repo.Prelude.Text.{text, text_eq, has_unit, split_on}
use printer_repo.Managers.{
  ManagerClaims, words, Codec, Session, Membership, sign, verify, by_parts, check_claims, typed,
  find_membership, validate_manager_claims, session_claims, session_row, create_manager_session,
}
use printer_repo.Managers.Laws.{IsGenuine, verify-IsGenuine}
use printer_repo.Managers.Tokens.{raw_of, session-accepted}

abbrev claims : ManagerClaims
claims =
    session_claims (text "0123456789abcdef") 5_000_000 (text "t") (some (text "u"))
      (some (text "operator"))

abbrev codec : Codec
codec = record {
  mac = λ t. text "mac" ++ take 20 (map (λ c. if c == b'.' then b'_' else c) t);
  header = text "eyJhbGciOiJIUzI1NiIsInR5cCI6IkpXVCJ9";
  write_claims = λ c. c.jti;
  read_header = λ t. some (record { alg = words (text "HS256"); typ = words (text "JWT") });
  read_claims = λ t. some (raw_of claims);
}

abbrev members : List Membership
members = record { user_id = text "u"; tenant_id = text "t"; role = text "operator" } ∷ []

abbrev other_session : Session
other_session = record {
  jti = text "fedcba9876543210";
  tenant_id = text "t";
  user_id = none;
  role = text "owner";
  expires_at = 9_000_000;
  revoked_at = none;
}

verify-IsGenuine_example : IsGenuine codec 6_000_000 (sign codec claims) claims
unfolding verify by_parts check_claims typed sign split_on text text_eq
verify-IsGenuine_example = verify-IsGenuine codec 6_000_000 (sign codec claims) claims refl

session-accepted_example :
    validate_manager_claims 6_000_000
      (session_row (some (text "u")) claims ∷ other_session ∷ [])
      members
      (verify codec 6_000_000 (sign codec claims))
    ≡ some claims
unfolding create_manager_session find_membership has_unit sign text text_eq
session-accepted_example =
    session-accepted codec (text "0123456789abcdef") (text "t") (some (text "u"))
      (some (text "operator")) 5_000_000 6_000_000 (other_session ∷ [])
      (session_row (some (text "u")) claims ∷ other_session ∷ []) members (sign codec claims) refl
      (record {
        header_read = refl;
        claims_read = refl;
        plain_header = refl;
        plain_claims = refl;
        plain_mac = refl;
      })
      (record {
        tenant_fits = refl;
        jti_fits = refl;
        user_fits = refl;
        known_role = refl;
        lasting = ground arith;
        limited = ground arith;
      })
      refl (ground arith) (ground arith) (ground arith) (ground arith) refl
