-- ===== src/Json/Laws.antt =====
-- What property access sees after a deletion or an assignment.
use printer_repo.Prelude.{◌≡◌, refl, none, some, inl, inr, Bool-cases}
use printer_repo.Prelude.Text.{Text, text_eq}
use printer_repo.Json.{Json, Fields, done, field, get, delete, assign}

pub get-delete : (key : Text) (fields : Fields) → get key (delete key fields) ≡ none
unfolding get delete
get-delete key done = refl
get-delete key (field k v rest) = elim (Bool-cases (text_eq k key)) [
  | inl same ↦ rw same (get-delete key rest)
  | inr other ↦ rw (other, other) (get-delete key rest)
]

pub get-assign :
    (key : Text) (value v : Json) (fields : Fields)
    → get key fields ≡ some v
    → get key (assign key value fields) ≡ some value
unfolding get assign
get-assign key value v done h = cc
get-assign key value v (field k w rest) h = elim (Bool-cases (text_eq k key)) [
  | inl same ↦ rw (same, same) refl
  | inr other ↦ rw (other, other) (get-assign key value v rest (rw other at h))
]
