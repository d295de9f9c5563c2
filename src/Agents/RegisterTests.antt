-- ===== src/Agents/RegisterTests.antt =====
-- An agent registers with its code, is let in by its new secret, and tries the code again.
use printer_repo.Prelude.{◌≡◌, refl, false, List, [], ◌∷◌, ◌++◌, none, some, arith}
use printer_repo.Prelude.Text.{Text, text, text_eq, trim, to_upper}
use printer_repo.AuthLimit.{inspect_pairing_rate_limit, read_bucket, locked_for}
use printer_repo.Agents.{AgentAccount, find_agent, validate_agent}
use printer_repo.Agents.Register.{
  RegistrationBody, Desk, is_registration, is_valid_pairing_code, is_pending, hash_pairing_code,
  register_agent,
}
use printer_repo.Agents.Bearer.{bearer, register-validates}

abbrev digest : Text → Text
digest t = text "#" ++ t

abbrev waiting : List AgentAccount
waiting =
    record {
      id = text "agent_1";
      tenant_id = text "t";
      lifecycle = text "active";
      secret = none;
      pairing_code_hash = some (text "#ABC234");
      pairing_code_expires_at = some 600_000;
      status = text "offline";
      metadata = [];
      last_seen_at = none;
      updated_at = 1;
    }
    ∷ []

abbrev desk : Desk
desk = record {
  limiter_fails = false;
  hash = digest;
  json = λ t. t;
  ip = text "10.0.0.1";
  secret = text "s3cret";
  read_time = 1000;
  write_time = 1001;
  answer_time = 1002;
}

abbrev body : RegistrationBody
body = record {
  pairing_code = some (text " abc234 ");
  pairing_code_camel = none;
  hostname = some (text "desk-1");
  client_version = none;
  client_version_camel = none;
  platform = none;
  metadata = none;
  metadata_size = 0;
  agent_id = none;
  agent_id_camel = none;
}

register-validates_example :
    (a : AgentAccount) × (validate_agent digest
        (some (bearer (text "agent_1") (text "s3cret")))
        (register_agent false desk body [] waiting waiting).0.1
      ≡ some a)
    × (a.id ≡ text "agent_1")
unfolding register_agent is_registration is_valid_pairing_code is_pending hash_pairing_code
    inspect_pairing_rate_limit read_bucket locked_for find_agent text text_eq trim to_upper
register-validates_example =
    register-validates false desk body [] waiting waiting (text "agent_1") (text "s3cret") refl
      (tt, tt) (λ e. ground arith) refl (λ e. ground arith) (λ t e. ground arith)
