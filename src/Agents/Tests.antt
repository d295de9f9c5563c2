-- ===== src/Agents/Tests.antt =====
-- One agent with a retired printer is disabled, and loses its access.
use printer_repo.Prelude.{◌≡◌, refl, true, false, [], ◌∷◌, ◌++◌, none, some}
use printer_repo.Prelude.Text.{Text, text, text_eq}
use printer_repo.Agents.{
  Accounts, is_agent, find_agent, transition_found, transition_agent_lifecycle,
  can_transition_lifecycle, validate_agent,
}
use printer_repo.Agents.Laws.{Found, has_printer, transition-unretires, transition-locks_out}

abbrev digest : Text → Text
digest t = text "#" ++ t

abbrev accounts : Accounts
accounts = record {
  agents =
      record {
        id = text "a";
        tenant_id = text "t";
        lifecycle = text "active";
        secret = some (text "#s");
        pairing_code_hash = none;
        pairing_code_expires_at = none;
        status = text "online";
        metadata = [];
        last_seen_at = none;
        updated_at = 1;
      }
      ∷ [];
  printers =
      record {
        id = text "p";
        agent_id = text "a";
        tenant_id = text "t";
        lifecycle = text "retired";
        updated_at = 1;
      }
      ∷ [];
}

transition-unretires_example :
    (has_printer
        (text "a")
        (text "t")
        (text "p")
        (text "disabled")
        (transition_agent_lifecycle digest []
          (text "a")
          (text "disabled")
          (text "t")
          9
          accounts).0.printers
      ≡ true)
    × (can_transition_lifecycle (text "retired") (text "disabled") ≡ false)
unfolding transition_agent_lifecycle transition_found find_agent can_transition_lifecycle text
    text_eq
transition-unretires_example =
    transition-unretires digest (text "a") (text "disabled") (text "t") 9 [] accounts
      (text "disabled") none (text "p") refl refl refl

transition-locks_out_example :
    Found
      (λ a. is_agent (text "a") (text "t") a ≡ false)
      (validate_agent digest
        (some (text "Bearer a:s"))
        (transition_agent_lifecycle digest []
          (text "a")
          (text "disabled")
          (text "t")
          9
          accounts).0.agents)
unfolding transition_agent_lifecycle transition_found find_agent can_transition_lifecycle text
    text_eq
transition-locks_out_example =
    transition-locks_out digest [] (text "a") (text "disabled") (text "t") 9 accounts
      (text "disabled") none (some (text "Bearer a:s")) refl
