-- ===== src/Console/Like.antt =====
-- SQL's `LIKE`: `%` stands for any characters, `_` for one, and a backslash takes the next unit literally.
-- A character outside the basic plane is two units.
use printer_repo.Prelude.{ℕ, Bool, true, false, ◌&&◌, ◌||◌, [], ◌∷◌, if◌then◌else◌, leb, ◌==◌}
use printer_repo.Prelude.Text.{Text}

-- The test on what follows one character.
abbrev pub skip_low : (Text → Bool) → Text → Bool
skip_low rest [] = rest []
skip_low rest (d ∷ s) = if leb 0xdc00 d && leb d 0xdfff then rest s else rest (d ∷ s)

abbrev pub after_any : (Text → Bool) → Text → Bool
after_any rest [] = false
after_any rest (c ∷ s) = if leb 0xd800 c && leb c 0xdbff then skip_low rest s else rest s

abbrev pub after_unit : (Text → Bool) → ℕ → Text → Bool
after_unit rest d [] = false
after_unit rest d (c ∷ s) = c == d && rest s

unfoldable pub some_suffix : (Text → Bool) → Text → Bool
some_suffix rest [] = rest []
some_suffix rest (c ∷ s) = rest (c ∷ s) || some_suffix rest s

abbrev pub is_end : Text → Bool
is_end [] = true
is_end (c ∷ s) = false

-- `s LIKE pattern`, the pattern first. A backslash at the end of a pattern matches nothing.
unfoldable pub like : Text → Text → Bool
unfolding some_suffix
like [] s = is_end s
like (c ∷ []) s =
    if c == b'%' then true else if c == b'_' then after_any is_end s else after_unit is_end c s
like (c ∷ (d ∷ p)) s =
    if c == 92
    then after_unit (like p) d s
    else if c == b'%'
    then some_suffix (like (d ∷ p)) s
    else if c == b'_'
    then after_any (like (d ∷ p)) s
    else after_unit (like (d ∷ p)) c s
