-- ===== src/Payload/PageSize.antt =====
-- The sizes of the test pages.
use printer_repo.Prelude.{
  ℕ, ◌+◌, ◌≡◌, ◌≤◌, List, [], ◌∷◌, ◌++◌, length, length-append, length-take-le, arith, filter, take,
}
use printer_repo.Prelude.Text.{Text, text}
use printer_repo.Payload.TestDocument.{safe_test_text, join_lines, is_printable}
use printer_repo.Payload.TestPage.{zpl_page, tspl_page}

-- The lengths of the lines, with a line end each.
abbrev total : List Text → ℕ
total [] = 0
total (line ∷ rest) = length line + 1 + total rest

join_lines-total : (lines : List Text) → length (join_lines lines) ≤ total lines
unfolding join_lines text
join_lines-total [] = omega arith
join_lines-total (line ∷ []) = omega arith
join_lines-total (line ∷ next ∷ rest) = omega (
  arith,
  join_lines-total (next ∷ rest),
  length-append (line ++ text "\n") (join_lines (next ∷ rest)),
  length-append line (text "\n"),
)

framed :
    (before name after : Text)
    → length (before ++ name ++ after) ≡ length before + length name + length after
framed before name after =
    omega (arith, length-append (before ++ name) after, length-append before name)

safe-le : (value : Text) → length (safe_test_text value) ≤ 60
unfolding safe_test_text
safe-le value = length-take-le 60 (filter is_printable value)

pub zpl-le :
    (name agent stamp : Text)
    → length (zpl_page (safe_test_text name) (safe_test_text agent) stamp) ≤ 4096
unfolding zpl_page text
zpl-le name agent stamp = omega (
  arith,
  join_lines-total _,
  framed (text "^FO50,120^A0N,28,28^FDPrinter : ") (safe_test_text name) (text "^FS"),
  framed (text "^FO50,160^A0N,28,28^FDAgent   : ") (safe_test_text agent) (text "^FS"),
  framed (text "^FO50,200^A0N,28,28^FDStatus  : OK | ") (take 19 stamp) (text "^FS"),
  safe-le name,
  safe-le agent,
  length-take-le 19 stamp,
)

pub tspl-le :
    (name agent stamp : Text)
    → length (tspl_page (safe_test_text name) (safe_test_text agent) stamp) ≤ 4096
unfolding tspl_page text
tspl-le name agent stamp = omega (
  arith,
  join_lines-total _,
  framed (text "TEXT 50,80,\"2\",0,1,1,\"Printer : ") (safe_test_text name) (text "\""),
  framed (text "TEXT 50,110,\"2\",0,1,1,\"Agent   : ") (safe_test_text agent) (text "\""),
  framed (text "TEXT 50,140,\"2\",0,1,1,\"Status  : OK | ") (take 19 stamp) (text "\""),
  safe-le name,
  safe-le agent,
  length-take-le 19 stamp,
)
