-- ===== src/Printer/Virtual.antt =====
-- src/lib/printer-virtual.ts: printer records that stand for a virtual or redirected queue.
use printer_repo.Prelude.{
  Bool, true, false, ◌||◌, List, [], ◌∷◌, ◌++◌, Option, none, some, if◌then◌else◌, any, map,
}
use mathlib.Core.List.{reverse}
use printer_repo.Prelude.Text.{Text, text, text_eq, starts_with, includes, trim, to_lower}

-- A value of the capabilities object, as far as the tests tell values apart.
pub data CapValue : Type 0 where
  str : Text → CapValue
  truth : CapValue
  arr : List (Option Text) → CapValue
  null other : CapValue

pub record PrinterLike : Type 0 where
  pub name : Option Text
  pub printer_type : Option Text
  pub connection_type : Option Text
  pub protocol : Option Text
  pub port : Option Text
  pub driver_name : Option Text
  pub capabilities : Option (List (Text × CapValue))

-- `lower`: of a text its trimmed lower case, of anything else the empty text.
unfoldable pub lower : Option Text → Text
lower none = []
lower (some t) = to_lower (trim t)

abbrev pub text_of : Option CapValue → Option Text
text_of (some (str t)) = some t
text_of _ = none

unfoldable pub field : Text → List (Text × CapValue) → Option CapValue
field key [] = none
field key ((k, v) ∷ rest) = let later = field key rest in if text_eq k key then some v else later

-- `a ?? b`
abbrev first_of_two : Option CapValue → Option CapValue → Option CapValue
first_of_two none b = b
first_of_two (some null) b = b
first_of_two (some a) b = some a

abbrev pub virtual_port_monitors : List Text
virtual_port_monitors =
    text "portprompt:"
    ∷ text "xpsport:"
    ∷ text "file:"
    ∷ text "nul:"
    ∷ text "null:"
    ∷ text "shrfax:"
    ∷ text "fax:"
    ∷ []

-- `raw.split(",")[0]`
unfoldable pub before_comma : Text → Text
before_comma [] = []
before_comma (c ∷ s) =
    let rest = before_comma s in if text_eq (c ∷ []) (text ",") then [] else c ∷ rest

unfoldable pub is_virtual_port_monitor : Text → Bool
unfolding before_comma
is_virtual_port_monitor [] = false
is_virtual_port_monitor (c ∷ raw) =
    any (λ monitor. starts_with (trim (before_comma (c ∷ raw))) monitor) virtual_port_monitors

abbrev pub software_writer_tokens : List Text
software_writer_tokens =
    text "microsoft print to pdf"
    ∷ text "microsoft xps document writer"
    ∷ text "microsoft shared fax"
    ∷ text "microsoft enhanced point and print compatibility driver"
    ∷ text "send to onenote"
    ∷ text "onenote"
    ∷ text "document writer"
    ∷ text "documentwriter"
    ∷ text "print to pdf"
    ∷ text "topdf"
    ∷ text "pdf writer"
    ∷ text "pdfwriter"
    ∷ text "pdf printer"
    ∷ text "pdf creator"
    ∷ text "pdf converter"
    ∷ text "pdf architect"
    ∷ text "virtual printer"
    ∷ text "software printer"
    ∷ text "image printer"
    ∷ text "foxit"
    ∷ text "anydesk"
    ∷ text "cutepdf"
    ∷ text "pdf995"
    ∷ text "novapdf"
    ∷ text "bullzip"
    ∷ text "pdfcreator"
    ∷ text "pdfforge"
    ∷ text "doro pdf"
    ∷ text "biopdf"
    ∷ text "nitro pdf"
    ∷ text "adobe pdf"
    ∷ text "bluebeam"
    ∷ text "tinypdf"
    ∷ text "7-pdf"
    ∷ text "icecream pdf"
    ∷ text "pdf24"
    ∷ []

abbrev pub session_redirect_tokens : List Text
session_redirect_tokens =
    text "remote desktop easy print"
    ∷ text "terminal services easy print"
    ∷ text "ts easy print"
    ∷ text "easy print"
    ∷ text "citrix"
    ∷ text "vmware virtual print"
    ∷ text "vmware universal printer"
    ∷ text "thinprint"
    ∷ text "safeguard print"
    ∷ []

abbrev glue : Text → Text → Text
glue part [] = part
glue part (d ∷ more) = part ++ (text " " ++ (d ∷ more))

-- `parts.join(" ")`, where empty parts were not pushed.
unfoldable pub join : List Text → Text
join [] = []
join ([] ∷ rest) = join rest
join ((c ∷ p) ∷ rest) = glue (c ∷ p) (join rest)

abbrev entries_of : Option CapValue → List Text
entries_of (some (arr es)) = map lower es
entries_of _ = []

-- `identityHaystack`
abbrev haystack_caps : Option (List (Text × CapValue)) → List Text
haystack_caps none = []
haystack_caps (some caps) =
    lower (text_of (field (text "driver_name") caps))
    ∷ lower (text_of (field (text "driverName") caps))
    ∷ lower (text_of (field (text "comment") caps))
    ∷ lower (text_of (field (text "device_id") caps))
    ∷ lower (text_of (field (text "deviceId") caps))
    ∷ (entries_of (field (text "hardware_ids") caps)
        ++ (entries_of (field (text "hardwareIds") caps)
            ++ (entries_of (field (text "compatible_ids") caps)
                ++ entries_of (field (text "compatibleIds") caps))))

unfoldable pub identity_haystack : PrinterLike → Text
unfolding join lower field
identity_haystack printer =
    join (lower printer.driver_name ∷ lower printer.port ∷ haystack_caps printer.capabilities)

abbrev is_flag : Option CapValue → Bool
is_flag (some truth) = true
is_flag value = text_eq (lower (text_of value)) (text "true")

-- The tests on the capabilities object.
unfoldable pub is_virtual_by_capabilities : Option (List (Text × CapValue)) → Bool
unfolding lower field is_virtual_port_monitor
is_virtual_by_capabilities none = false
is_virtual_by_capabilities (some caps) =
    is_flag (field (text "virtual") caps)
    || is_flag (field (text "is_virtual") caps)
    || (let klass = lower (
          text_of (
            first_of_two (field (text "printer_class") caps) (field (text "printerClass") caps))) in
        text_eq klass (text "virtual") || text_eq klass (text "redirected"))
    || is_virtual_port_monitor (
        lower
          (text_of (first_of_two (field (text "port_name") caps) (field (text "portName") caps))))

unfoldable pub ends_with : Text → Text → Bool
ends_with s p = starts_with (reverse s) (reverse p)

unfoldable pub is_redirected_name : Text → Bool
unfolding ends_with
is_redirected_name name =
    includes name (text "(redirected")
    || includes name (text " in session ")
    || ends_with name (text " in session")

abbrev pub has_token : List Text → Text → Bool
has_token tokens hay = any (λ token. includes hay token) tokens

unfoldable pub is_virtual_printer_record : Option PrinterLike → Bool
unfolding lower identity_haystack is_virtual_by_capabilities is_redirected_name
    is_virtual_port_monitor
is_virtual_printer_record none = false
is_virtual_printer_record (some printer) =
    text_eq (lower printer.printer_type) (text "virtual")
    || text_eq (lower printer.connection_type) (text "virtual")
    || text_eq (lower printer.protocol) (text "virtual")
    || is_virtual_by_capabilities printer.capabilities
    || is_redirected_name (lower printer.name)
    || is_virtual_port_monitor (lower printer.port)
    || has_token software_writer_tokens (identity_haystack printer)
    || has_token session_redirect_tokens (identity_haystack printer)
    || has_token software_writer_tokens (lower printer.name)
