-- ===== src/Vocabulary/Desktop.antt =====
-- src/desktop/lib/printers.ts: how the desktop client shows printers, jobs and errors.
use printer_repo.Prelude.{
  ℕ, Bool, true, false, not, ◌&&◌, ◌||◌, List, [], ◌∷◌, ◌++◌, Option, none, some, if◌then◌else◌,
  any, leb, length, take, or_else,
}
use printer_repo.Prelude.Text.{Text, text, text_eq, starts_with, includes, to_lower, to_upper}
use printer_repo.Prelude.Decimal.{decimal}
use printer_repo.Printer.Virtual.{CapValue, is_virtual_printer_record}
use printer_repo.Vocabulary.{Tone, derive_outcome, job_label, job_tone, unknown_outcome_markers}

-- The fields of `PrinterInfo` that the helpers read.
pub record PrinterInfo : Type 0 where
  pub name : Text
  pub printer_type : Option Text
  pub connection_type : Option Text
  pub protocol : Option Text
  pub endpoint : Option Text
  pub spooler_name : Option Text
  pub network_address : Option Text
  pub port : Option ℕ
  pub is_virtual : Option Bool
  pub is_virtual_flag : Option Bool
  pub capabilities : Option (List (Text × CapValue))

abbrev holds : Option Bool → Bool
holds (some true) = true
holds _ = false

-- `isVirtualPrinter`; `is_virtual` is the field `isVirtual` and `is_virtual_flag` the field `is_virtual`.
unfoldable pub is_virtual_printer : Option PrinterInfo → Bool
unfolding is_virtual_printer_record
is_virtual_printer none = false
is_virtual_printer (some p) =
    holds p.is_virtual
    || holds p.is_virtual_flag
    || is_virtual_printer_record (
        some (record {
          name = some p.name;
          printer_type = p.printer_type;
          connection_type = p.connection_type;
          protocol = p.protocol;
          port = none;
          driver_name = none;
          capabilities = p.capabilities;
        }))

unfoldable pub is_production_printer : PrinterInfo → Bool
unfolding is_virtual_printer
is_production_printer p = not (is_virtual_printer (some p))

-- `labelJob` and `toneJob`; the error is what `String(error)` gives, if there is one.
unfoldable pub label_job : Text → Option Text → Text
label_job status error = job_label status (some (derive_outcome status (some (or_else error []))))

unfoldable pub tone_job : Text → Option Text → Tone
tone_job status error = job_tone status (some (derive_outcome status (some (or_else error []))))

abbrev capitalised : Text → Text
capitalised [] = []
capitalised (c ∷ t) = to_upper (c ∷ []) ++ t

abbrev is_blank : Text → Bool
is_blank [] = true
is_blank (c ∷ t) = false

-- `humanType`
unfoldable pub human_type : PrinterInfo → Text
human_type p =
    let t = to_lower (or_else p.printer_type []) in
    if text_eq t (text "thermal") || text_eq t (text "label")
    then text "Thermal"
    else if text_eq t (text "laser")
    then text "Laser"
    else if text_eq t (text "inkjet")
    then text "Inkjet"
    else if text_eq (to_lower (or_else p.connection_type [])) (text "usb")
    then text "USB device"
    else if not (is_blank t) && not (text_eq t (text "unknown"))
    then capitalised t
    else text "Printer"

-- `a || b`
abbrev first_word : Option Text → Option Text → Text
first_word none b = or_else b []
first_word (some []) b = or_else b []
first_word (some (c ∷ t)) b = c ∷ t

-- `humanConnection`
unfoldable pub human_connection : PrinterInfo → Text
human_connection p =
    let c = to_lower (first_word p.connection_type p.printer_type) in
    let proto = to_lower (or_else p.protocol []) in
    if text_eq c (text "spooler") || text_eq proto (text "spooler")
    then text "Windows spooler"
    else if text_eq c (text "usb")
    then text "USB"
    else if text_eq c (text "ipp")
        || text_eq c (text "ipps")
        || text_eq proto (text "ipp")
        || text_eq proto (text "ipps")
    then text "IPP"
    else if text_eq c (text "network") || text_eq c (text "tcp")
    then text "Network (TCP)"
    else text "Printer"

abbrev with_port : Option ℕ → Text
with_port none = []
with_port (some ℕ.zero) = []
with_port (some (ℕ.suc n)) = b':' ∷ decimal (ℕ.suc n)

abbrev or_dash : Option Text → Text
or_dash none = 0x2014 ∷ []
or_dash (some []) = 0x2014 ∷ []
or_dash (some (c ∷ t)) = c ∷ t

abbrev by_endpoint : Option Text → Option Text → Text
by_endpoint none spooler = or_dash spooler
by_endpoint (some []) spooler = or_dash spooler
by_endpoint (some (c ∷ t)) spooler = c ∷ t

abbrev by_address : Option Text → Option ℕ → Text → Text
by_address none port rest = rest
by_address (some []) port rest = rest
by_address (some (c ∷ t)) port rest = (c ∷ t) ++ with_port port

-- `printerEndpoint`
unfoldable pub printer_endpoint : PrinterInfo → Text
unfolding decimal
printer_endpoint p = by_address p.network_address p.port (by_endpoint p.endpoint p.spooler_name)

-- The messages of `friendlyPrinterError`, or the text as it came, shortened if it is long.
pub data FriendlyError : Type 0 where
  outcome_unknown no_connection no_response offline not_found access_denied : FriendlyError
  raw : Text → FriendlyError

abbrev mentions : Text → Text → Text → Bool
mentions lower a b = includes lower a || includes lower b

-- `friendlyPrinterError`
unfoldable pub friendly_printer_error : Text → FriendlyError
friendly_printer_error t =
    let lower = to_lower t in
    if any (λ marker. starts_with t marker) unknown_outcome_markers
    then outcome_unknown
    else if mentions lower (text "connection refused") (text "dial tcp")
    then no_connection
    else if mentions lower (text "timeout") (text "deadline")
    then no_response
    else if includes lower (text "offline")
    then offline
    else if mentions lower (text "not found") (text "no such")
    then not_found
    else if mentions lower (text "access denied") (text "permission")
    then access_denied
    else raw (if leb (length t) 140 then t else take 140 t ++ (0x2026 ∷ []))
