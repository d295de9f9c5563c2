-- ===== src/Printer/Laws.antt =====
-- What the routing table and the availability tests guarantee.
use printer_repo.Prelude.{
  ℕ, ◌+◌, ◌*◌, ◌≤◌, ◌≡◌, ◌≢◌, refl, ap, sym, ◌⊎◌, inl, inr, true, false, List, [], ◌∷◌, Option,
  none, some, arith, Bool-cases, ◌↔◌,
}
use printer_repo.Prelude.Text.{Text, text, text_eq, text_eq_iff, text_eq_sound, text_eq_refl}
use printer_repo.Printer.Routing.{
  PayloadSpec, Target, ok, family_of, pdf_transports, image_transports, escpos_name, declaration,
  family, validate_payload_for_printer, contains, byte_protocols, check_kind,
}
use printer_repo.Printer.Availability.{
  AgentState, PrinterState, get_agent_availability, agent_stale_threshold_seconds,
  is_agent_available_for_job, get_effective_printer_status, online, equals,
  is_printer_available_for_job, owner, is_fresh, by_heartbeat,
}

-- The threshold for a stale agent is between 10 and 3600 seconds, whatever the setting.
pub threshold_bounds :
    (setting : Option ℕ)
    → (10 ≤ agent_stale_threshold_seconds setting) × (agent_stale_threshold_seconds setting ≤ 3600)
unfolding agent_stale_threshold_seconds
threshold_bounds none = ground arith
threshold_bounds (some raw) = ground arith

-- A list of protocols that is not empty decides alone: neither the protocol nor the connection type of
-- the printer changes the verdict.
pub explicit_decides :
    (payload : Option PayloadSpec) (p : Text) (ps : List Text)
    (protocol protocol' connection_type connection_type' : Option Text)
    → validate_payload_for_printer payload (record {
      protocol = protocol;
      connection_type = connection_type;
      supported_protocols = some (p ∷ ps);
    })
      ≡ validate_payload_for_printer payload (record {
        protocol = protocol';
        connection_type = connection_type';
        supported_protocols = some (p ∷ ps);
      })
unfolding validate_payload_for_printer declaration
explicit_decides none p ps protocol protocol' connection_type connection_type' = refl
explicit_decides (some payload) p ps protocol protocol' connection_type connection_type' = refl

-- The connection of a byte pipe, which says nothing of the language behind it, or no connection at
-- all.
abbrev pub IsBarePipe : Text → Type 0
IsBarePipe name = (name ≡ text "network") ⊎ (name ≡ text "usb") ⊎ (name ≡ [])

not_declared :
    (name protocol : Text)
    → IsBarePipe name
    → contains byte_protocols protocol ≡ true
    → text_eq protocol name ≡ false
unfolding text text_eq
not_declared name protocol h e = elim (Bool-cases (text_eq protocol name)) [
  | inl same ↦ absurd (undeclared name h (rw (← text_eq_sound protocol name same) e))
  | inr other ↦ other
]
  where
    undeclared : (n : Text) → IsBarePipe n → contains byte_protocols n ≡ true → ⊥
    undeclared n (inl p) e = cc (ap (contains byte_protocols) (sym p))
    undeclared n (inr (inl p)) e = cc (ap (contains byte_protocols) (sym p))
    undeclared n (inr (inr p)) e = cc (ap (contains byte_protocols) (sym p))

dark_lists :
    (name : Text)
    → IsBarePipe name
    → (contains pdf_transports name ≡ false)
      × (contains image_transports name ≡ false)
      × (contains escpos_name name ≡ false)
unfolding text text_eq
dark_lists name (inl p) = rw p (refl, refl, refl)
dark_lists name (inr (inl p)) = rw p (refl, refl, refl)
dark_lists name (inr (inr p)) = rw p (refl, refl, refl)

dark_kind :
    (kind : Text) (protocol : Option Text) (name : Text)
    → IsBarePipe name
    → check_kind kind protocol (family name) ≡ ok
    → ⊥
unfolding check_kind
dark_kind kind none name h e = ground (arith, dark_lists name h)
dark_kind kind (some p) name h e = ground (arith, dark_lists name h, not_declared name p h)

-- A printer that declares no protocol is dark: with no list of protocols, and with `network`, `usb`
-- or nothing for its transport family, it takes no payload whatever, so that nothing is ever sent in
-- a language that was guessed.
pub undeclared_takes_nothing :
    (payload : PayloadSpec) (target : Target)
    → (target.supported_protocols ≡ none) ⊎ (target.supported_protocols ≡ some [])
    → IsBarePipe (family_of target)
    → validate_payload_for_printer (some payload) target ≢ ok
unfolding validate_payload_for_printer declaration
undeclared_takes_nothing payload target (inl n) h e = dark_kind _ _ (family_of target) h (rw n at e)
undeclared_takes_nothing payload target (inr n) h e = dark_kind _ _ (family_of target) h (rw n at e)

-- The times of an agent that answers: it was seen, not in the future, and within the threshold.
abbrev pub IsSeen : Option ℕ → AgentState → ℕ → Type 0
IsSeen setting agent now =
    (seen : ℕ) × (agent.last_seen_at ≡ some seen)
    × (seen ≤ now)
    × (now ≤ seen + agent_stale_threshold_seconds setting * 1000)

pub equals_sound : (o : Option Text) (t : Text) → equals o t ≡ true → o ≡ some t
equals_sound none t h = cc
equals_sound (some s) t h = ap some ((text_eq_iff s t).0 h)

heard-of :
    (threshold now : ℕ) (seen : Option ℕ)
    → is_fresh (by_heartbeat threshold now seen) ≡ true
    → (at : ℕ) × (seen ≡ some at) × (at ≤ now) × (now ≤ at + threshold * 1000)
heard-of threshold now none h = absurd (ground arith)
heard-of threshold now (some at) h = (at, refl, ground arith, ground arith)

-- An agent is available for a job exactly when its lifecycle is `active`, its status `online`, and its
-- last heartbeat is neither in the future nor older than the threshold.
pub available_iff :
    (setting : Option ℕ) (agent : AgentState) (now : ℕ)
    → (is_agent_available_for_job setting agent now ≡ true) ↔ (
        (agent.lifecycle ≡ some (text "active"))
        × (agent.status ≡ some (text "online"))
        × IsSeen setting agent now)
unfolding is_agent_available_for_job get_agent_availability
available_iff setting agent now = (
  (λ h.
      let seen =
        heard-of (agent_stale_threshold_seconds setting) now agent.last_seen_at (ground arith) in
      (
        equals_sound agent.lifecycle (text "active") (ground arith),
        equals_sound agent.status (text "online") (ground arith),
        seen,
      )),
  λ (l, s, (seen, e, a, b)).
      rw (l, s, e) (ground (arith, text_eq_refl (text "active"), text_eq_refl (text "online"))),
)

-- A printer that is shown as online is available for a job, unless it is virtual or its stored
-- status is spelled otherwise than `online`.
pub online-available :
    (setting : Option ℕ) (printer : PrinterState) (agent : AgentState) (now : ℕ)
    → get_effective_printer_status setting printer (some agent) now ≡ online
    → printer.status ≡ some (text "online")
    → is_printer_available_for_job setting false printer (owner agent) now ≡ true
unfolding get_effective_printer_status is_printer_available_for_job
online-available setting printer agent now h s = ground (arith, text_eq_refl (text "online"))
