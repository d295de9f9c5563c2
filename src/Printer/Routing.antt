-- ===== src/Printer/Routing.antt =====
-- `validatePayloadForPrinter` of src/lib/routing.ts: the payload and protocol capability table.
use printer_repo.Prelude.{
  Bool, true, false, not, List, [], ◌∷◌, Option, none, some, if◌then◌else◌, any, map, or_else,
}
use printer_repo.Prelude.Text.{Text, text, text_eq, to_lower}

pub record PayloadSpec : Type 0 where
  pub kind : Option Text
  pub protocol : Option Text

-- `supported_protocols` is `none` where the capabilities hold no such array; its entries are texts
-- after `String(value)`.
pub record Target : Type 0 where
  pub protocol : Option Text
  pub connection_type : Option Text
  pub supported_protocols : Option (List Text)

pub data Mismatch : Type 0 where
  pdf_with_protocol pdf_needs_document_transport : Mismatch
  image_with_protocol image_not_supported : Mismatch
  escpos_with_protocol : Text → Mismatch
  escpos_not_supported : Mismatch
  raw_without_protocol : Mismatch
  raw_protocol_unsupported protocol_not_declared : Text → Mismatch
  unsupported_type : Text → Mismatch

pub data Verdict : Type 0 where
  ok : Verdict
  mismatch : Mismatch → Verdict

abbrev pub byte_protocols : List Text
byte_protocols = text "raw" ∷ text "escpos" ∷ text "zpl" ∷ text "tspl" ∷ []

abbrev pub contains : List Text → Text → Bool
contains names t = any (λ name. text_eq name t) names

abbrev lowered : Option Text → Text
lowered t = to_lower (or_else t [])

-- `payloadInput.protocol ? … : null`: the empty text is falsy.
abbrev pub declared_protocol : Option Text → Option Text
declared_protocol none = none
declared_protocol (some []) = none
declared_protocol (some (c ∷ t)) = some (to_lower (c ∷ t))

-- What the target declares: an explicit list that is not empty, or the transport family.
pub data Declaration : Type 0 where
  explicit : List Text → Declaration
  family : Text → Declaration

abbrev pub is_declared : Text → Bool
is_declared [] = false
is_declared (c ∷ t) = not (text_eq (c ∷ t) (text "unknown"))

abbrev pub family_of : Target → Text
family_of target =
    if is_declared (lowered target.protocol)
    then lowered target.protocol
    else lowered target.connection_type

abbrev declaration_of : Option (List Text) → Text → Declaration
declaration_of (some (p ∷ ps)) conn = explicit (map to_lower (p ∷ ps))
declaration_of _ conn = family conn

unfoldable pub declaration : Target → Declaration
declaration target = declaration_of target.supported_protocols (family_of target)

-- `anyCap(…caps) || transport(…transports)`
abbrev pub accepts : Declaration → (caps transports : List Text) → Bool
accepts (explicit supported) caps transports = any (contains supported) caps
accepts (family name) caps transports = contains transports name

abbrev accept : Bool → Mismatch → Verdict
accept true reason = ok
accept false reason = mismatch reason

abbrev pub pdf_caps : List Text
pdf_caps = text "pdf" ∷ text "spooler" ∷ text "ipp" ∷ text "ipps" ∷ []

abbrev pub pdf_transports : List Text
pdf_transports = text "spooler" ∷ text "ipp" ∷ text "ipps" ∷ []

abbrev pub image_caps : List Text
image_caps =
    text "image" ∷ text "jpeg" ∷ text "spooler" ∷ text "ipp" ∷ text "ipps" ∷ text "escpos" ∷ []

abbrev pub image_transports : List Text
image_transports = text "spooler" ∷ text "escpos" ∷ []

abbrev pub escpos_name : List Text
escpos_name = text "escpos" ∷ []

unfoldable pub check_pdf : Option Text → Declaration → Verdict
check_pdf (some protocol) d = mismatch pdf_with_protocol
check_pdf none d = accept (accepts d pdf_caps pdf_transports) pdf_needs_document_transport

unfoldable pub check_image : Option Text → Declaration → Verdict
check_image (some protocol) d = mismatch image_with_protocol
check_image none d = accept (accepts d image_caps image_transports) image_not_supported

unfoldable pub check_escpos : Option Text → Declaration → Verdict
check_escpos none d = accept (accepts d escpos_name escpos_name) escpos_not_supported
check_escpos (some protocol) d =
    if text_eq protocol (text "escpos")
    then accept (accepts d escpos_name escpos_name) escpos_not_supported
    else mismatch (escpos_with_protocol protocol)

unfoldable pub check_raw : Option Text → Declaration → Verdict
check_raw none d = mismatch raw_without_protocol
check_raw (some protocol) d =
    if contains byte_protocols protocol
    then accept (accepts d (protocol ∷ []) (protocol ∷ [])) (protocol_not_declared protocol)
    else mismatch (raw_protocol_unsupported protocol)

unfoldable pub check_kind : Text → Option Text → Declaration → Verdict
unfolding check_pdf check_image check_escpos check_raw
check_kind kind protocol d =
    if text_eq kind (text "pdf")
    then check_pdf protocol d
    else if text_eq kind (text "image")
    then check_image protocol d
    else if text_eq kind (text "escpos")
    then check_escpos protocol d
    else if text_eq kind (text "raw")
    then check_raw protocol d
    else mismatch (unsupported_type kind)

unfoldable pub validate_payload_for_printer : Option PayloadSpec → Target → Verdict
unfolding declaration check_kind
validate_payload_for_printer none target = ok
validate_payload_for_printer (some payload) target =
    check_kind (lowered payload.kind) (declared_protocol payload.protocol) (declaration target)
