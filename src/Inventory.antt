-- ===== src/Inventory.antt =====
-- The printers that an agent reports in POST of src/app/api/agent/heartbeat/route.ts, tested and put in
-- order by the rules of src/lib/printer-model.ts. Record writes them to the table, Heartbeat is the
-- handler.
pub mod Record
pub mod Heartbeat
pub mod Laws
pub mod Checks
pub mod Constraints
pub mod Stored
mod Tests
use printer_repo.Prelude.{
  ℕ, ◌*◌, Bool, true, false, not, ◌&&◌, ◌||◌, List, [], ◌∷◌, Option, none, some, if◌then◌else◌, leb,
  length, or_else,
}
use printer_repo.Prelude.Text.{Text, text, text_eq, trim, to_lower, includes}
use printer_repo.Printer.Routing.{contains}
use printer_repo.Json.{
  Json, null, number, str, arr, obj, Items, nil, cons, Fields, done, get, delete, assign, spread,
  member, string_of, to_string, stringify, has_key,
}

abbrev pub printer_types : List Text
printer_types = text "physical" ∷ text "virtual" ∷ text "redirected" ∷ []

abbrev pub device_classes : List Text
device_classes =
    text "thermal"
    ∷ text "laser"
    ∷ text "inkjet"
    ∷ text "label"
    ∷ text "other"
    ∷ text "unknown"
    ∷ []

abbrev pub printer_config_max_bytes : ℕ
printer_config_max_bytes = 16 * 1024

abbrev pub printer_capabilities_max_bytes : ℕ
printer_capabilities_max_bytes = 32 * 1024

abbrev pub valid_printer_statuses : List Text
valid_printer_statuses =
    text "online" ∷ text "offline" ∷ text "busy" ∷ text "error" ∷ text "unknown" ∷ []

abbrev pub known_capability_tokens : List Text
known_capability_tokens =
    text "raw"
    ∷ text "escpos"
    ∷ text "zpl"
    ∷ text "tspl"
    ∷ text "pdf"
    ∷ text "image"
    ∷ text "jpeg"
    ∷ text "spooler"
    ∷ text "ipp"
    ∷ text "ipps"
    ∷ []

abbrev pub valid_connection_types : List Text
valid_connection_types =
    text "network" ∷ text "usb" ∷ text "spooler" ∷ text "ipp" ∷ text "ipps" ∷ []

abbrev pub valid_protocols : List Text
valid_protocols =
    text "raw"
    ∷ text "escpos"
    ∷ text "zpl"
    ∷ text "tspl"
    ∷ text "ipp"
    ∷ text "ipps"
    ∷ text "spooler"
    ∷ text "windows_spooler"
    ∷ text "unknown"
    ∷ []

pub data ConfigError : Type 0 where
  network_requires_ip network_requires_port invalid_network_address : ConfigError
  spooler_requires_name : ConfigError

abbrev pub is_blank : Text → Bool
is_blank [] = true
is_blank (c ∷ s) = false

-- `typeof value === "string" && value.trim()`
abbrev pub is_filled : Option Json → Bool
is_filled (some (str t)) = not (is_blank (trim t))
is_filled _ = false

abbrev with_address : Text → Option Json → Option ConfigError
with_address ip (some (number t)) =
    if text_eq t (text "0")
    then some network_requires_port
    else if includes ip (text " ")
    then some invalid_network_address
    else none
with_address ip _ = some network_requires_port

abbrev network_config : Option Json → Option Json → Option ConfigError
network_config (some (str (c ∷ ip))) port = with_address (c ∷ ip) port
network_config _ port = some network_requires_ip

-- `validateConnectionConfig`
unfoldable pub validate_connection_config : Text → Fields → Option ConfigError
validate_connection_config connection_type cfg =
    if text_eq connection_type (text "network")
    then network_config (get (text "ip") cfg) (get (text "port") cfg)
    else if text_eq connection_type (text "spooler")
        && not (is_filled (get (text "spooler_name") cfg))
        && not (is_filled (get (text "address") cfg))
    then some spooler_requires_name
    else none

abbrev pub lower_trim : Option Text → Text
lower_trim t = trim (to_lower (or_else t []))

abbrev pub normalized_old : Text → Text
normalized_old old =
    if text_eq old (text "tcp")
    then text "network"
    else if text_eq old (text "windows_spooler")
    then text "spooler"
    else old

abbrev pub known_or_none : List Text → Text → Option Text
known_or_none names value = if contains names value then some value else none

-- `normalizeConnectionType`
unfoldable pub normalize_connection_type : Option Json → Option Json → Option Text
normalize_connection_type raw legacy =
    let canonical = lower_trim (string_of raw) in
    let old = normalized_old (lower_trim (string_of legacy)) in
    if not (is_blank canonical) && not (is_blank old) && not (text_eq canonical old)
    then none
    else known_or_none valid_connection_types (if is_blank canonical then old else canonical)

-- `normalizeProtocol`
unfoldable pub normalize_protocol : Option Json → Option Text
normalize_protocol raw =
    let p = lower_trim (string_of raw) in
    known_or_none valid_protocols (if text_eq p (text "windows_spooler") then text "spooler" else p)

pub data SkipReason : Type 0 where
  invalid_id invalid_name invalid_or_unsupported_connection_type : SkipReason
  invalid_device_class_or_printer_type invalid_or_unsupported_protocol : SkipReason
  config_payload_too_large capabilities_payload_too_large : SkipReason
  invalid_connection_config : ConfigError → SkipReason
  owned_by_another_agent : Text → SkipReason
  insert_conflict_owned_by_another_agent : SkipReason

-- A result, a refusal, or an exception.
pub data Checked (A : Type 0) : Type 0 where
  ok : A → Checked A
  skip : SkipReason → Checked A
  throws : Checked A

infixl 5 ◌>>=◌ ◌>>◌
unfoldable pub ◌>>=◌ : {A B : Type 0} → Checked A → (A → Checked B) → Checked B
ok a >>= f = f a
skip reason >>= f = skip reason
throws >>= f = throws

abbrev pub ◌>>◌ : {B : Type 0} → Checked (Unit {0}) → Checked B → Checked B
m >> k = m >>= λ _. k

abbrev pub require : Bool → SkipReason → Checked (Unit {0})
require true reason = ok tt
require false reason = skip reason

abbrev pub found : {A : Type 0} → Option A → SkipReason → Checked A
found none reason = skip reason
found (some a) reason = ok a

-- A text that is not blank and not longer than the limit.
abbrev pub short_text : ℕ → SkipReason → Option Text → Checked Text
short_text limit reason none = skip reason
short_text limit reason (some t) =
    if is_blank (trim t) || not (leb (length t) limit) then skip reason else ok t

pub record Kinds : Type 0 where
  pub printer_type : Text
  pub device_class : Text

abbrev trim_lower : Option Text → Text → Text
trim_lower none default = default
trim_lower (some t) default = to_lower (trim t)

abbrev or_physical : Text → Text
or_physical [] = text "physical"
or_physical (c ∷ t) = c ∷ t

-- A device class in the place of the printer type is read as a physical printer of that class.
unfoldable pub kinds : Option Text → Option Text → Kinds
kinds printer_type device_class =
    let t = trim_lower printer_type [] in
    let d = trim_lower device_class (text "unknown") in
    if not (contains printer_types t) && contains device_classes t
    then record { printer_type = text "physical"; device_class = t }
    else record { printer_type = or_physical t; device_class = d }

-- `a ?? b`
abbrev pub nullish : Option Json → Option Json → Option Json
nullish none b = b
nullish (some null) b = b
nullish (some a) b = some a

abbrev pub keep_known : Text → Items → Items
keep_known t ts = if contains known_capability_tokens t then cons (str t) ts else ts

abbrev pub add_token : Option Text → Checked Items → Checked Items
add_token none later = throws
add_token (some t) later = later >>= λ ts. ok (keep_known (trim (to_lower t)) ts)

-- The entries that are known tokens after `String(value).toLowerCase().trim()`.
unfoldable pub known_tokens : Items → Checked Items
known_tokens nil = ok nil
known_tokens (cons v rest) = add_token (to_string v) (known_tokens rest)

abbrev supported : Text
supported = text "supported_protocols"

abbrev put_tokens : Fields → Items → Fields
put_tokens caps nil = delete supported caps
put_tokens caps (cons v rest) = assign supported (arr (cons v rest)) caps

abbrev by_list : Fields → Option Json → Checked Fields
by_list caps none = ok caps
by_list caps (some (arr items)) = known_tokens items >>= λ ts. ok (put_tokens caps ts)
by_list caps (some _) = ok (delete supported caps)

unfoldable pub clean_capabilities : Option Fields → Checked (Option Fields)
unfolding known_tokens
clean_capabilities none = ok none
clean_capabilities (some caps) = by_list caps (get supported caps) >>= λ c. ok (some c)

abbrev pub spread_of : Option Json → Option Fields
spread_of none = none
spread_of (some value) = spread value

abbrev pub capabilities_fit : Option Fields → Bool
capabilities_fit none = true
capabilities_fit (some caps) = leb (length (stringify (obj caps))) printer_capabilities_max_bytes

abbrev pub status_of : Option Text → Text
status_of none = text "unknown"
status_of (some t) =
    if contains valid_printer_statuses (to_lower (trim t))
    then to_lower (trim t)
    else text "unknown"

abbrev pub config_verdict : Option ConfigError → Checked (Unit {0})
config_verdict none = ok tt
config_verdict (some e) = skip (invalid_connection_config e)

pub record ReportedPrinter : Type 0 where
  pub id : Text
  pub name : Text
  pub printer_type : Text
  pub device_class : Text
  pub connection_type : Text
  pub protocol : Text
  pub status : Text
  pub config : Fields
  pub capabilities : Option Fields

-- `sanitizePrinter`, of an object.
unfoldable pub sanitize_printer : Fields → Checked ReportedPrinter
unfolding kinds normalize_connection_type normalize_protocol clean_capabilities
sanitize_printer p = do
  id ← short_text 120 invalid_id (string_of (get (text "id") p))
  name ← short_text 100 invalid_name (string_of (get (text "name") p))
  connection_type ←
      found (normalize_connection_type (get (text "connectionType") p) (get (text "type") p))
        invalid_or_unsupported_connection_type
  let k = kinds (string_of (get (text "printerType") p)) (string_of (get (text "deviceClass") p))
  require (contains printer_types k.printer_type && contains device_classes k.device_class)
      invalid_device_class_or_printer_type
  protocol ←
      found
        (normalize_protocol
          (nullish (get (text "protocol") p) (member (text "protocol") (get (text "config") p))))
        invalid_or_unsupported_protocol
  let config = delete (text "protocol") (or_else (spread_of (get (text "config") p)) done)
  capabilities ← clean_capabilities (spread_of (get (text "capabilities") p))
  require (leb (length (stringify (obj config))) printer_config_max_bytes) config_payload_too_large
  require (capabilities_fit capabilities) capabilities_payload_too_large
  config_verdict (validate_connection_config connection_type config)
  ok (record {
    id = trim id;
    name = trim name;
    printer_type = k.printer_type;
    device_class = k.device_class;
    connection_type = connection_type;
    protocol = protocol;
    status = status_of (string_of (get (text "status") p));
    config = config;
    capabilities = capabilities;
  })
