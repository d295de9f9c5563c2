-- ===== src/Agents/Register/Body.antt =====
-- The body of POST in src/app/api/agent/register/route.ts, after its schema.
use printer_repo.Prelude.{
  ℕ, Bool, true, false, not, ◌&&◌, ◌||◌, ◌∷◌, Option, none, some, any, length, leb, ◌==◌, is_some,
}
use printer_repo.Prelude.Text.{Text, text, text_eq, trim, to_upper}
use printer_repo.Agents.{Metadata}

-- src/lib/agent-auth.ts
abbrev pub pairing_code_alphabet : Text
pairing_code_alphabet = text "ABCDEFGHJKLMNPQRSTUVWXYZ23456789"

abbrev pub pairing_code_length : ℕ
pairing_code_length = 6

unfoldable pub is_valid_pairing_code : Text → Bool
is_valid_pairing_code value =
    length (to_upper (trim value)) == pairing_code_length
    && not (any (λ c. not (any (λ d. c == d) pairing_code_alphabet)) (to_upper (trim value)))

unfoldable pub hash_pairing_code : (hash : Text → Text) → Text → Text
hash_pairing_code hash code = hash (to_upper (trim code))

-- The fields of a body that has the schema's types. `metadata_size` is the length of the metadata's
-- JSON text.
pub record RegistrationBody : Type 0 where
  pub pairing_code : Option Text
  pub pairing_code_camel : Option Text
  pub hostname : Option Text
  pub client_version : Option Text
  pub client_version_camel : Option Text
  pub platform : Option Text
  pub metadata : Option Metadata
  pub metadata_size : ℕ
  pub agent_id : Option Text
  pub agent_id_camel : Option Text

abbrev trimmed : Option Text → Option Text
trimmed none = none
trimmed (some t) = some (trim t)

-- The text after trimming, with all its fields trimmed.
abbrev pub trim_body : RegistrationBody → RegistrationBody
trim_body b = record b {
  pairing_code = trimmed b.pairing_code;
  pairing_code_camel = trimmed b.pairing_code_camel;
  hostname = trimmed b.hostname;
  client_version = trimmed b.client_version;
  client_version_camel = trimmed b.client_version_camel;
  platform = trimmed b.platform;
  agent_id = trimmed b.agent_id;
  agent_id_camel = trimmed b.agent_id_camel;
}

abbrev fits : ℕ → ℕ → Option Text → Bool
fits low high none = true
fits low high (some t) = leb low (length t) && leb (length t) high

abbrev is_code : Option Text → Bool
is_code none = true
is_code (some t) = length t == 6 && is_valid_pairing_code t

-- `a && b && a !== b`, where the empty text is falsy.
abbrev differ : Option Text → Option Text → Bool
differ (some (c ∷ t)) (some (d ∷ u)) = not (text_eq (c ∷ t) (d ∷ u))
differ _ _ = false

abbrev upper : Option Text → Option Text
upper none = none
upper (some t) = some (to_upper t)

unfoldable pub is_registration : RegistrationBody → Bool
unfolding is_valid_pairing_code
is_registration b =
    is_code b.pairing_code
    && is_code b.pairing_code_camel
    && fits 0 255 b.hostname
    && fits 0 100 b.client_version
    && fits 0 100 b.client_version_camel
    && fits 0 100 b.platform
    && fits 1 120 b.agent_id
    && fits 1 120 b.agent_id_camel
    && (is_some b.pairing_code || is_some b.pairing_code_camel)
    && not (differ (upper b.pairing_code) (upper b.pairing_code_camel))
    && not (differ b.agent_id_camel b.agent_id)
    && not (differ b.client_version_camel b.client_version)
