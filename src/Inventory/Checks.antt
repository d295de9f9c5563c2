-- ===== src/Inventory/Checks.antt =====
-- What the tests on a reported printer are good for: every row that a heartbeat writes satisfies the
-- check constraints of the table, and can be reached and routed by what it says.
use printer_repo.Prelude.{
  ℕ, ◌≡◌, ◌≤◌, refl, subst, inl, inr, Bool, true, false, ◌&&◌, List, Option, none, some, Bool-cases,
  if◌then◌else◌, or_else, and_split, leb→le, leb, length, not, ◌||◌,
}
use printer_repo.Prelude.Text.{Text, text, text_eq, trim, to_lower}
use printer_repo.Printer.Routing.{contains}
use printer_repo.Json.{
  Json, Fields, Items, nil, cons, null, obj, arr, str, boolean, number, done, get, delete, member,
  stringify, string_of, to_string,
}
use printer_repo.Json.Laws.{get-delete, get-assign}
use printer_repo.Inventory.{
  ConfigError, Kinds, Checked, ok, skip, throws, ◌>>=◌, SkipReason, require, found, short_text,
  is_blank, lower_trim, known_or_none, normalize_connection_type, normalize_protocol,
  normalized_old, known_tokens, add_token, keep_known, clean_capabilities, by_list, put_tokens,
  supported, capabilities_fit, config_verdict, validate_connection_config, status_of, kinds,
  ReportedPrinter, sanitize_printer, printer_types, device_classes, valid_connection_types,
  valid_protocols, valid_printer_statuses, known_capability_tokens, printer_config_max_bytes,
  nullish, spread_of,
}

-- What holds of the result, if there is one.
abbrev Ensures : {A : Type 0} → (A → Type 0) → Checked A → Type 0
Ensures P (ok a) = P a
Ensures P (skip reason) = Unit
Ensures P throws = Unit

>>=-Ensures :
    {A B : Type 0} (Q : A → Type 0) (P : B → Type 0) (m : Checked A) (f : A → Checked B)
    → Ensures Q m
    → ((a : A) → Q a → Ensures P (f a))
    → Ensures P (m >>= f)
unfolding ◌>>=◌
>>=-Ensures Q P (ok a) f q k = k a q
>>=-Ensures Q P (skip reason) f q k = tt
>>=-Ensures Q P throws f q k = tt

require-Ensures : (b : Bool) (reason : SkipReason) → Ensures (λ _. b ≡ true) (require b reason)
require-Ensures true reason = refl
require-Ensures false reason = tt

found-Ensures :
    (names : List Text) (value : Text) (reason : SkipReason)
    → Ensures (λ t. contains names t ≡ true) (found (known_or_none names value) reason)
found-Ensures names value reason = elim (Bool-cases (contains names value)) [
  | inl known ↦ rw known known
  | inr strange ↦ rw strange tt
]

-- Every element is one of the known tokens.
abbrev pub AllKnown : Items → Type 0
AllKnown nil = Unit
AllKnown (cons (str t) rest) = (contains known_capability_tokens t ≡ true) × AllKnown rest
AllKnown (cons _ rest) = ⊥

-- The list of protocols is missing, or holds at least one token and known tokens only.
abbrev pub IsRoutable : Option Json → Type 0
IsRoutable none = Unit
IsRoutable (some (arr (cons v rest))) = AllKnown (cons v rest)
IsRoutable (some _) = ⊥

keep_known-AllKnown : (t : Text) (ts : Items) → AllKnown ts → AllKnown (keep_known t ts)
keep_known-AllKnown t ts k = elim (Bool-cases (contains known_capability_tokens t)) [
  | inl known ↦ rw known (known, k)
  | inr strange ↦ rw strange k
]

add_token-Ensures :
    (t : Option Text) (later : Checked Items)
    → Ensures AllKnown later
    → Ensures AllKnown (add_token t later)
unfolding ◌>>=◌
add_token-Ensures none later k = tt
add_token-Ensures (some t) (ok ts) k = keep_known-AllKnown (trim (to_lower t)) ts k
add_token-Ensures (some t) (skip reason) k = tt
add_token-Ensures (some t) throws k = tt

known_tokens-Ensures : (items : Items) → Ensures AllKnown (known_tokens items)
unfolding known_tokens
known_tokens-Ensures nil = tt
known_tokens-Ensures (cons v rest) =
    add_token-Ensures (to_string v) (known_tokens rest) (known_tokens-Ensures rest)

put_tokens-IsRoutable :
    (caps : Fields) (v : Json) (ts : Items)
    → get supported caps ≡ some v
    → AllKnown ts
    → IsRoutable (get supported (put_tokens caps ts))
put_tokens-IsRoutable caps v nil h k = rw (get-delete supported caps) tt
put_tokens-IsRoutable caps v (cons t ts) h k =
    rw (get-assign supported (arr (cons t ts)) v caps h) k

by_list-Ensures :
    (caps : Fields) (found : Option Json)
    → get supported caps ≡ found
    → Ensures (λ c. IsRoutable (get supported c)) (by_list caps found)
by_list-Ensures caps none h = rw h tt
by_list-Ensures caps (some (arr items)) h =
    >>=-Ensures AllKnown (λ c. IsRoutable (get supported c)) (known_tokens items)
      (λ ts. ok (put_tokens caps ts)) (known_tokens-Ensures items)
      (λ ts k. put_tokens-IsRoutable caps (arr items) ts h k)
by_list-Ensures caps (some null) h = rw (get-delete supported caps) tt
by_list-Ensures caps (some (boolean b)) h = rw (get-delete supported caps) tt
by_list-Ensures caps (some (number t)) h = rw (get-delete supported caps) tt
by_list-Ensures caps (some (str t)) h = rw (get-delete supported caps) tt
by_list-Ensures caps (some (obj f)) h = rw (get-delete supported caps) tt

abbrev pub IsRoutableBy : Option Fields → Type 0
IsRoutableBy none = Unit
IsRoutableBy (some caps) = IsRoutable (get supported caps)

clean-Ensures : (caps : Option Fields) → Ensures IsRoutableBy (clean_capabilities caps)
unfolding clean_capabilities
clean-Ensures none = tt
clean-Ensures (some caps) =
    >>=-Ensures (λ c. IsRoutable (get supported c)) IsRoutableBy (by_list caps (get supported caps))
      (λ c. ok (some c)) (by_list-Ensures caps (get supported caps) refl) (λ c k. k)

status_known : (t : Option Text) → contains valid_printer_statuses (status_of t) ≡ true
unfolding text text_eq
status_known none = refl
status_known (some t) = elim (Bool-cases (contains valid_printer_statuses (to_lower (trim t)))) [
  | inl known ↦ rw known known
  | inr strange ↦ rw strange refl
]

-- What a printer that passes the tests is like.
pub record IsClean (p : ReportedPrinter) : Type 0 where
  pub type_known : contains printer_types p.printer_type ≡ true
  pub class_known : contains device_classes p.device_class ≡ true
  pub connection_known : contains valid_connection_types p.connection_type ≡ true
  pub protocol_known : contains valid_protocols p.protocol ≡ true
  pub status_known : contains valid_printer_statuses p.status ≡ true
  pub reachable : validate_connection_config p.connection_type p.config ≡ none
  pub config_fits : length (stringify (obj p.config)) ≤ printer_config_max_bytes
  pub capabilities_fit : capabilities_fit p.capabilities ≡ true
  pub protocol_apart : get (text "protocol") p.config ≡ none
  pub routable : IsRoutableBy p.capabilities

config_verdict-Ensures : (e : Option ConfigError) → Ensures (λ _. e ≡ none) (config_verdict e)
config_verdict-Ensures none = refl
config_verdict-Ensures (some e) = tt

short_text-Ensures :
    (limit : ℕ) (reason : SkipReason) (t : Option Text)
    → Ensures (λ _. Unit {0}) (short_text limit reason t)
short_text-Ensures limit reason none = tt
short_text-Ensures limit reason (some t) =
    elim (Bool-cases (is_blank (trim t) || not (leb (length t) limit))) [
      | inl bad ↦ rw bad tt
      | inr good ↦ rw good tt
    ]

connection-Ensures :
    (raw legacy : Option Json) (reason : SkipReason)
    → Ensures
        (λ t. contains valid_connection_types t ≡ true)
        (found (normalize_connection_type raw legacy) reason)
unfolding normalize_connection_type
connection-Ensures raw legacy reason =
    let canonical = lower_trim (string_of raw) in
    let old = normalized_old (lower_trim (string_of legacy)) in
    let clash = not (is_blank canonical) && not (is_blank old) && not (text_eq canonical old) in
    elim (Bool-cases clash) [
      | inl differ ↦ rw differ tt
      | inr agree ↦ rw agree (
          found-Ensures valid_connection_types (if is_blank canonical then old else canonical)
            reason)
    ]

protocol-Ensures :
    (raw : Option Json) (reason : SkipReason)
    → Ensures (λ t. contains valid_protocols t ≡ true) (found (normalize_protocol raw) reason)
unfolding normalize_protocol
protocol-Ensures raw reason = found-Ensures valid_protocols _ reason

sanitize_printer-Ensures : (p : Fields) → Ensures IsClean (sanitize_printer p)
unfolding sanitize_printer
sanitize_printer-Ensures p =
    >>=-Ensures _ IsClean _ _ (short_text-Ensures 120 _ (string_of (get (text "id") p))) λ id _.
      >>=-Ensures _ IsClean _ _ (short_text-Ensures 100 _ (string_of (get (text "name") p)))
        λ name _.
          >>=-Ensures _ IsClean _ _
            (connection-Ensures (get (text "connectionType") p) (get (text "type") p) _)
            λ connection c.
              >>=-Ensures _ IsClean _ _
                (require-Ensures
                  (contains printer_types k.printer_type && contains device_classes k.device_class)
                  _)
                λ _ kk.
                  >>=-Ensures _ IsClean _ _
                    (protocol-Ensures
                      (nullish (get (text "protocol") p)
                        (member (text "protocol") (get (text "config") p)))
                      _)
                    λ protocol pk.
                      >>=-Ensures _ IsClean _ _
                        (clean-Ensures (spread_of (get (text "capabilities") p)))
                        λ caps r.
                          >>=-Ensures _ IsClean _ _
                            (require-Ensures
                              (leb (length (stringify (obj config))) printer_config_max_bytes) _)
                            λ _ f.
                              >>=-Ensures _ IsClean _ _ (require-Ensures (capabilities_fit caps) _)
                                λ _ cf.
                                  >>=-Ensures _ IsClean _ _
                                    (config_verdict-Ensures
                                      (validate_connection_config connection config))
                                    λ _ v. record {
                                      type_known = (and_split _ _ kk).0;
                                      class_known = (and_split _ _ kk).1;
                                      connection_known = c;
                                      protocol_known = pk;
                                      status_known =
                                          status_known (string_of (get (text "status") p));
                                      reachable = v;
                                      config_fits = leb→le _ _ f;
                                      capabilities_fit = cf;
                                      protocol_apart = get-delete (text "protocol") _;
                                      routable = r;
                                    }
  where
    k : Kinds
    k = kinds (string_of (get (text "printerType") p)) (string_of (get (text "deviceClass") p))

    config : Fields
    config = delete (text "protocol") (or_else (spread_of (get (text "config") p)) done)

pub sanitize-IsClean :
    (fields : Fields) (p : ReportedPrinter) → sanitize_printer fields ≡ ok p → IsClean p
sanitize-IsClean fields p h = subst (Ensures IsClean) h (sanitize_printer-Ensures fields)
