-- ===== src/Payload/Offsets.antt =====
-- The cross-reference table of the test document.
use printer_repo.Prelude.{
  ℕ, suc, ◌+◌, ◌*◌, ◌∷◌, take, ◌≡◌, refl, sym, subst, ◌∙◌, ap, [], ◌++◌, length, length-append,
  arith,
}
use mathlib.Core.List.{append_assoc, append-nil}
use printer_repo.Prelude.Text.{Text, text}
use printer_repo.Prelude.Decimal.{decimal, value_after}
use printer_repo.Payload.TestDocument.{
  Offsets, stream_content, header, catalog, pages, only_page, font, contents, xref, offsets,
  assembled, build_test_pdf, padded, join_lines,
}

-- At `offset` the document goes on with `part`.
abbrev pub IsAt : Text → ℕ → Text → Type 0
IsAt document offset part =
    (before : Text) × (after : Text) × (document ≡ before ++ (part ++ after))
    × (length before ≡ offset)

start-IsAt : (part after : Text) → IsAt (part ++ after) 0 part
start-IsAt part after = ([], after, refl, refl)

next-IsAt :
    (x document part : Text) (offset : ℕ)
    → IsAt document offset part
    → IsAt (x ++ document) (length x + offset) part
next-IsAt x document part offset (before, after, e, l) = (
  x ++ before,
  after,
  rw e (sym (append_assoc x before (part ++ after))),
  length-append x before ∙ ap (λ n. length x + n) l,
)

end-IsAt : (part : Text) → IsAt part 0 part
end-IsAt part = ([], [], sym (append-nil part), refl)

moved :
    (document part : Text) (offset offset' : ℕ)
    → offset ≡ offset'
    → IsAt document offset part
    → IsAt document offset' part
moved document part offset offset' e h = subst (λ n. IsAt document n part) e h

-- The offsets lead to the five objects, around the stream, and to the table.
abbrev pub IsLocated : (document stream : Text) → Offsets → Type 0
IsLocated document stream at =
    IsAt document at.off1 catalog
    × IsAt document at.off2 pages
    × IsAt document at.off3 only_page
    × IsAt document at.off4 font
    × IsAt document at.off5 (contents stream)
    × IsAt document at.startxref (xref at)

assembled-IsLocated : (stream : Text) → IsLocated (assembled stream) stream (offsets stream)
unfolding assembled offsets
assembled-IsLocated stream = (
  moved _ _ _ _ (omega arith) (next-IsAt header _ _ _ (start-IsAt _ _)),
  moved _ _ _ _ (omega arith) (next-IsAt header _ _ _ (next-IsAt catalog _ _ _ (start-IsAt _ _))),
  moved _ _ _ _ (omega arith)
      (next-IsAt header _ _ _ (next-IsAt catalog _ _ _ (next-IsAt pages _ _ _ (start-IsAt _ _)))),
  moved _ _ _ _ (omega arith) (
      next-IsAt header _ _ _ (
        next-IsAt catalog _ _ _
          (next-IsAt pages _ _ _ (next-IsAt only_page _ _ _ (start-IsAt _ _))))),
  moved _ _ _ _ (omega arith) (
      next-IsAt header _ _ _ (
        next-IsAt catalog _ _ _ (
          next-IsAt pages _ _ _
            (next-IsAt only_page _ _ _ (next-IsAt font _ _ _ (start-IsAt _ _)))))),
  moved _ _ _ _ (omega arith) (
      next-IsAt header _ _ _ (
        next-IsAt catalog _ _ _ (
          next-IsAt pages _ _ _ (
            next-IsAt only_page _ _ _
              (next-IsAt font _ _ _ (next-IsAt (contents stream) _ _ _ (end-IsAt _))))))),
)

skip : ℕ → Text → Text
skip ℕ.zero t = t
skip (suc n) [] = []
skip (suc n) (c ∷ t) = skip n t

-- The number that a reader of the table finds for object `i`: the ten digits of its entry. An entry has 20
-- characters, and the entries begin behind the first 9.
unfoldable pub entry_of : Text → ℕ → ℕ
unfolding skip
entry_of table i = value_after 0 (take 10 (skip (9 + 20 * i) table))

-- A reader of the table finds the objects at the entries 1 to 5, and the table where its last lines say.
abbrev pub IsIndexed : (document stream table : Text) → Type 0
IsIndexed document stream table =
    IsAt document (entry_of table 1) catalog
    × IsAt document (entry_of table 2) pages
    × IsAt document (entry_of table 3) only_page
    × IsAt document (entry_of table 4) font
    × IsAt document (entry_of table 5) (contents stream)
    × ((before : Text) × (at : ℕ) × (table
          ≡ before ++ (text "startxref\n" ++ (decimal at ++ text "\n" ++ text "%%EOF\n")))
        × IsAt document at table)

entries :
    (stream : Text)
    → let at = offsets stream in
      (entry_of (xref at) 1 ≡ at.off1)
      × (entry_of (xref at) 2 ≡ at.off2)
      × (entry_of (xref at) 3 ≡ at.off3)
      × (entry_of (xref at) 4 ≡ at.off4)
      × (entry_of (xref at) 5 ≡ at.off5)
unfolding entry_of xref offsets padded join_lines header catalog pages only_page font decimal text
entries stream = (refl, refl, refl, refl, refl)

last_lines :
    (stream : Text)
    → xref (offsets stream)
      ≡ take 163 (xref (offsets stream))
        ++ (text "startxref\n"
            ++ (decimal (offsets stream).startxref ++ text "\n" ++ text "%%EOF\n"))
unfolding xref offsets padded join_lines header catalog pages only_page font text decimal
last_lines stream = refl

-- The table of the test document is right, whatever the names and the time: read at its fixed places, the
-- table itself gives for the objects 1 to 5 the offsets at which the document goes on with them, and its
-- last lines give the offset at which the document goes on with the table.
pub pdf-IsIndexed :
    (name agent stamp : Text)
    → IsIndexed
        (build_test_pdf name agent stamp)
        (stream_content name agent stamp)
        (xref (offsets (stream_content name agent stamp)))
unfolding build_test_pdf
pdf-IsIndexed name agent stamp =
    let stream = stream_content name agent stamp in
    let (l1, l2, l3, l4, l5, l) = assembled-IsLocated stream in
    let (e1, e2, e3, e4, e5) = entries stream in
    (
      moved _ _ _ _ (sym e1) l1,
      moved _ _ _ _ (sym e2) l2,
      moved _ _ _ _ (sym e3) l3,
      moved _ _ _ _ (sym e4) l4,
      moved _ _ _ _ (sym e5) l5,
      (take 163 (xref (offsets stream)), (offsets stream).startxref, last_lines stream, l),
    )
