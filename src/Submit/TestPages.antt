-- ===== src/Submit/TestPages.antt =====
-- The test page of a printer, and the routing table that a submission of it asks.
use printer_repo.Prelude.{◌≡◌, Bool, false, not, ◌||◌, ◌&&◌, List, [], ◌∷◌, Option, some, or_else}
use printer_repo.Prelude.Text.{Text, text, to_lower}
use printer_repo.Payload.{ByteProtocol, PrintJobPayload}
use printer_repo.Payload.TestPage.{
  TestPage, page, exceeds_limit, no_format, is_document_transport, test_protocols,
  document_connections, declared_of, supported_of,
}
use printer_repo.Printer.Routing.{
  PayloadSpec, Target, ok, contains, is_declared, validate_payload_for_printer,
}
use printer_repo.Submit.{kind_name, protocol_name}

abbrev pub spec_of : PrintJobPayload → PayloadSpec
spec_of payload = record {
  kind = some (kind_name payload.kind);
  protocol = protocol_name payload.protocol;
}

abbrev pub connection_of : Target → Text
connection_of printer = to_lower (or_else printer.connection_type [])

-- If it is one of the names, the list has it.
abbrev covers : (supported names : List Text) → Text → Bool
covers supported names t = not (contains names t) || contains supported t

-- What a printer declares does not contradict itself. With a list of protocols, the list has its declared
-- protocol, if that is a byte protocol or a document transport, and its connection, if that is a document
-- transport. Without a list, its protocol is missing or unknown, or one that a page is built for.
abbrev pub is_coherent : Target → Bool
is_coherent printer = coherent (supported_of printer)
  where
    coherent : List Text → Bool
    coherent [] =
        not (is_declared (declared_of printer))
        || contains test_protocols (declared_of printer)
        || contains document_connections (declared_of printer)
    coherent (p ∷ ps) =
        covers (p ∷ ps) test_protocols (declared_of printer)
        && covers (p ∷ ps) document_connections (declared_of printer)
        && covers (p ∷ ps) document_connections (connection_of printer)

-- A page that is built is one that the routing table lets through; none is over the limit.
abbrev pub IsTaken : Target → TestPage → Type 0
IsTaken printer (page payload) = validate_payload_for_printer (some (spec_of payload)) printer ≡ ok
IsTaken printer exceeds_limit = ⊥
IsTaken printer no_format = is_document_transport printer ≡ false

-- The language that is chosen for the page.
data Chosen (b : Text) : Type 0 where
  escpos : b ≡ text "escpos" → Chosen b
  zpl : b ≡ text "zpl" → Chosen b
  tspl : b ≡ text "tspl" → Chosen b
  raw : b ≡ text "raw" → Chosen b
  other : contains test_protocols b ≡ false → Chosen b

abbrev pub target : (protocol connection_type : Option Text) → Option (List Text) → Target
target protocol connection_type supported = record {
  protocol = protocol;
  connection_type = connection_type;
  supported_protocols = supported;
}

abbrev word : ByteProtocol → Text
word ByteProtocol.escpos = text "escpos"
word ByteProtocol.zpl = text "zpl"
word ByteProtocol.tspl = text "tspl"
word ByteProtocol.raw = text "raw"
