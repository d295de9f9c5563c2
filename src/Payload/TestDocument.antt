-- ===== src/Payload/TestDocument.antt =====
-- The test page as a PDF: `buildTestPdfPayload` of src/lib/payload.ts. All characters are ASCII, so that a
-- text has as many bytes as characters.
use printer_repo.Prelude.{ℕ, ◌+◌, ◌-◌, Bool, ◌&&◌, List, [], ◌∷◌, ◌++◌, filter, length, take, leb}
use Prim.Native.Nat.{zero, suc}
use printer_repo.Prelude.Text.{Text, text}
use printer_repo.Prelude.Decimal.{decimal}

abbrev pub is_printable : ℕ → Bool
is_printable c = leb 0x20 c && leb c 0x7e

-- `safeTestText`
unfoldable pub safe_test_text : Text → Text
safe_test_text value = take 60 (filter is_printable value)

-- `lines.join("\n")`
unfoldable pub join_lines : List Text → Text
join_lines [] = []
join_lines (line ∷ []) = line
join_lines (line ∷ next ∷ rest) = line ++ text "\n" ++ join_lines (next ∷ rest)

abbrev pub stamped : Text → Text
stamped stamp = take 19 stamp

unfoldable pub stream_content : (name agent stamp : Text) → Text
unfolding safe_test_text join_lines
stream_content name agent stamp = join_lines (
    text "BT"
    ∷ text "/F1 18 Tf"
    ∷ text "50 720 Td"
    ∷ text "(ODOO PRINT GATEWAY TEST PAGE) Tj"
    ∷ text "/F1 12 Tf"
    ∷ text "0 -30 Td"
    ∷ (text "(Printer: " ++ safe_test_text name ++ text ") Tj")
    ∷ text "0 -20 Td"
    ∷ (text "(Agent: " ++ safe_test_text agent ++ text ") Tj")
    ∷ text "0 -20 Td"
    ∷ (text "(Status: OK | " ++ stamped stamp ++ text ") Tj")
    ∷ text "ET"
    ∷ [])

unfoldable pub header : Text
header = text "%PDF-1.4\n"

unfoldable pub catalog : Text
catalog = text "1 0 obj\n<< /Type /Catalog /Pages 2 0 R >>\nendobj\n"

unfoldable pub pages : Text
pages = text "2 0 obj\n<< /Type /Pages /Kids [3 0 R] /Count 1 >>\nendobj\n"

unfoldable pub only_page : Text
only_page =
    text
      "3 0 obj\n<< /Type /Page /Parent 2 0 R /MediaBox [0 0 612 792] /Resources << /Font << /F1 4 0 R >> >> /Contents 5 0 R >>\nendobj\n"

unfoldable pub font : Text
font = text "4 0 obj\n<< /Type /Font /Subtype /Type1 /BaseFont /Helvetica >>\nendobj\n"

unfoldable pub contents : Text → Text
contents stream =
    text "5 0 obj\n<< /Length "
    ++ decimal (length stream)
    ++ text " >>\nstream\n"
    ++ stream
    ++ text "\nendstream\nendobj\n"

zeros : ℕ → Text
zeros zero = []
zeros (suc n) = b'0' ∷ zeros n

-- `String(n).padStart(10, "0")`
unfoldable pub padded : ℕ → Text
unfolding zeros
padded n = zeros (10 - length (decimal n)) ++ decimal n

-- `off1` to `off5` and `startxref`, for an object after the last.
pub record Offsets : Type 0 where
  pub off1 : ℕ
  pub off2 : ℕ
  pub off3 : ℕ
  pub off4 : ℕ
  pub off5 : ℕ
  pub startxref : ℕ

unfoldable pub offsets : Text → Offsets
offsets stream =
    let off1 = length header in
    let off2 = off1 + length catalog in
    let off3 = off2 + length pages in
    let off4 = off3 + length only_page in
    let off5 = off4 + length font in
    record {
      off1 = off1;
      off2 = off2;
      off3 = off3;
      off4 = off4;
      off5 = off5;
      startxref = off5 + length (contents stream);
    }

abbrev in_use : ℕ → Text
in_use offset = padded offset ++ text " 00000 n "

unfoldable pub xref : Offsets → Text
unfolding join_lines padded
xref at = join_lines (
    text "xref"
    ∷ text "0 6"
    ∷ text "0000000000 65535 f "
    ∷ in_use at.off1
    ∷ in_use at.off2
    ∷ in_use at.off3
    ∷ in_use at.off4
    ∷ in_use at.off5
    ∷ text "trailer"
    ∷ text "<< /Size 6 /Root 1 0 R >>"
    ∷ text "startxref"
    ∷ decimal at.startxref
    ∷ text "%%EOF\n"
    ∷ [])

unfoldable pub assembled : (stream : Text) → Text
assembled stream =
    header
    ++ (catalog ++ (pages ++ (only_page ++ (font ++ (contents stream ++ xref (offsets stream))))))

-- `buildTestPdfPayload`
unfoldable pub build_test_pdf : (name agent stamp : Text) → Text
build_test_pdf name agent stamp = assembled (stream_content name agent stamp)
