-- ===== src/Payload/TestPage.antt =====
-- The test page of a printer: `buildTestPrintPayloadForPrinter` of src/lib/payload.ts. `encode` is
-- `Buffer.from(…).toString("base64")` on the page, whose characters are all ASCII, and `stamp` the time
-- that `new Date().toISOString()` gives, with its `T` replaced.
use printer_repo.Prelude.{
  Bool, ◌||◌, List, [], ◌∷◌, ◌++◌, none, some, if◌then◌else◌, any, map, length, ltb, or_else,
}
use printer_repo.Prelude.Text.{Text, text, text_eq, to_lower}
use printer_repo.Payload.TestDocument.{safe_test_text, join_lines, stamped, build_test_pdf}
use printer_repo.Payload.{PayloadType, ByteProtocol, PrintJobPayload}
use printer_repo.Printer.Routing.{Target, contains}

-- `buildTestPrintPayload`: the bytes of the ESC/POS page.
unfoldable pub escpos_page : (name agent : Text) → Text
escpos_page name agent =
    (27 ∷ 64 ∷ [])
    ++ text "Odoo Print Agent\n"
    ++ text "Test Print\n"
    ++ (text "Printer: " ++ safe_test_text name ++ text "\n")
    ++ (text "Agent: " ++ safe_test_text agent ++ text "\n")
    ++ text "------------------------\n"
    ++ text "Connection OK\n"
    ++ text "------------------------\n\n\n"
    ++ (29 ∷ 86 ∷ 1 ∷ [])

unfoldable pub zpl_page : (name agent stamp : Text) → Text
zpl_page name agent stamp = join_lines (
    text "^XA"
    ∷ text "^FO50,50^A0N,36,36^FDODOO PRINT GATEWAY TEST PAGE^FS"
    ∷ text "^FO50,100^GB700,2,2^FS"
    ∷ (text "^FO50,120^A0N,28,28^FDPrinter : " ++ name ++ text "^FS")
    ∷ (text "^FO50,160^A0N,28,28^FDAgent   : " ++ agent ++ text "^FS")
    ∷ (text "^FO50,200^A0N,28,28^FDStatus  : OK | " ++ stamped stamp ++ text "^FS")
    ∷ text "^XZ"
    ∷ [])

unfoldable pub tspl_page : (name agent stamp : Text) → Text
tspl_page name agent stamp = join_lines (
    text "SIZE 75 mm, 50 mm"
    ∷ text "GAP 2 mm, 0 mm"
    ∷ text "DIRECTION 1"
    ∷ text "CLS"
    ∷ text "TEXT 50,40,\"3\",0,1,1,\"ODOO PRINT GATEWAY TEST PAGE\""
    ∷ (text "TEXT 50,80,\"2\",0,1,1,\"Printer : " ++ name ++ text "\"")
    ∷ (text "TEXT 50,110,\"2\",0,1,1,\"Agent   : " ++ agent ++ text "\"")
    ∷ (text "TEXT 50,140,\"2\",0,1,1,\"Status  : OK | " ++ stamped stamp ++ text "\"")
    ∷ text "PRINT 1,1"
    ∷ [])

unfoldable pub raw_page : (name agent stamp : Text) → Text
raw_page name agent stamp = join_lines (
    text "================================"
    ∷ text "  ODOO PRINT GATEWAY TEST PAGE "
    ∷ text "================================"
    ∷ (text "Printer : " ++ name)
    ∷ (text "Agent   : " ++ agent)
    ∷ text "Protocol: RAW"
    ∷ text "--------------------------------"
    ∷ (text "Status  : OK | " ++ stamped stamp)
    ∷ text "================================\n\n\n"
    ∷ [])

abbrev pub test_protocols : List Text
test_protocols = text "escpos" ∷ text "zpl" ∷ text "tspl" ∷ text "raw" ∷ []

abbrev pub document_connections : List Text
document_connections = text "spooler" ∷ text "ipp" ∷ text "ipps" ∷ []

abbrev pub document_capabilities : List Text
document_capabilities = text "pdf" ∷ document_connections

unfoldable pub first_supported : List Text → List Text → Text
first_supported supported [] = []
first_supported supported (p ∷ ps) =
    let rest = first_supported supported ps in if contains supported p then p else rest

abbrev pub supported_of : Target → List Text
supported_of printer = map to_lower (or_else printer.supported_protocols [])

abbrev pub declared_of : Target → Text
declared_of printer = to_lower (or_else printer.protocol [])

-- `byteProto`
unfoldable pub byte_protocol_of : Target → Text
unfolding first_supported
byte_protocol_of printer =
    if contains test_protocols (declared_of printer)
    then declared_of printer
    else first_supported (supported_of printer) test_protocols

-- `isDocumentTransport`
unfoldable pub is_document_transport : Target → Bool
is_document_transport printer =
    contains document_connections (to_lower (or_else printer.connection_type []))
    || contains document_connections (declared_of printer)
    || any (contains document_capabilities) (supported_of printer)

pub data TestPage : Type 0 where
  page : PrintJobPayload → TestPage
  exceeds_limit no_format : TestPage

abbrev pub byte_page : PayloadType → ByteProtocol → Text → TestPage
byte_page kind protocol content =
    page (record { kind = kind; protocol = some protocol; peripherals = none; content = content })

abbrev pub limited : ByteProtocol → (encode : Text → Text) → Text → TestPage
limited protocol encode content =
    if ltb 4096 (length content)
    then exceeds_limit
    else byte_page PayloadType.raw protocol (encode content)

-- The page in a language, whose name is empty where a printer speaks none of the four.
unfoldable pub page_in :
    (encode : Text → Text)
    → (name agent stamp : Text) → (is_document : Bool) → (language : Text) → TestPage
page_in encode name agent stamp is_document language =
    let safe_name = safe_test_text name in
    let safe_agent = safe_test_text agent in
    if text_eq (text "escpos") language
    then byte_page PayloadType.escpos ByteProtocol.escpos (encode (escpos_page name agent))
    else if text_eq (text "zpl") language
    then limited ByteProtocol.zpl encode (zpl_page safe_name safe_agent stamp)
    else if text_eq (text "tspl") language
    then limited ByteProtocol.tspl encode (tspl_page safe_name safe_agent stamp)
    else if text_eq (text "raw") language
    then byte_page PayloadType.raw ByteProtocol.raw (encode (raw_page safe_name safe_agent stamp))
    else if is_document
    then page (record {
      kind = PayloadType.pdf;
      protocol = none;
      peripherals = none;
      content = encode (build_test_pdf safe_name safe_agent stamp);
    })
    else no_format

-- `buildTestPrintPayloadForPrinter`
unfoldable pub build_test_page :
    (encode : Text → Text) → (name agent stamp : Text) → Target → TestPage
build_test_page encode name agent stamp printer =
    page_in encode name agent stamp (is_document_transport printer) (byte_protocol_of printer)
