-- ===== src/Prelude/Text.antt =====
-- JavaScript strings as lists of UTF-16 code units, with the string methods that the server calls.
-- `to_lower` folds the ASCII letters and the Kelvin sign, the units whose lower case is one ASCII unit.
use Prim.Native.Nat.{ℕ, ◌+◌, ◌-◌}
use Prim.Native.Char.{code}
use Prim.Native.String.{String}
use mathlib.Core.Path.{◌≡◌, refl, ap}
use mathlib.Core.Logic.{◌↔◌}
use mathlib.Core.Bool.{Bool, true, false, ◌&&◌, ◌||◌}
use mathlib.Core.Option.{Option, none, some}
use mathlib.Core.List.{List, [], ◌∷◌, ◌++◌, map, reverse}
use native.Mathlib.Omega.{arith}
use printer_repo.Prelude.Tests.{==_iff, leb, ◌==◌, if◌then◌else◌}

abbrev pub Text : Type 0
Text = List ℕ

-- The units of an ASCII literal.
unfoldable pub text : String → Text
text String.[] = []
text (String.◌∷◌ c s) = code c ∷ text s

unfoldable pub text_eq : Text → Text → Bool
text_eq [] [] = true
text_eq [] (b ∷ bs) = false
text_eq (a ∷ as') [] = false
text_eq (a ∷ as') (b ∷ bs) = a == b && text_eq as' bs

-- `s.startsWith(p)`
unfoldable pub starts_with : Text → Text → Bool
starts_with s [] = true
starts_with [] (b ∷ p) = false
starts_with (a ∷ s) (b ∷ p) = a == b && starts_with s p

-- `s.includes(p)`
unfoldable pub includes : Text → Text → Bool
unfolding starts_with
includes [] p = starts_with [] p
includes (a ∷ s) p = starts_with (a ∷ s) p || includes s p

is_space : ℕ → Bool
is_space c =
    (leb 9 c && leb c 13)
    || c == 32
    || c == 160
    || c == 0x1680
    || (leb 0x2000 c && leb c 0x200a)
    || c == 0x2028
    || c == 0x2029
    || c == 0x202f
    || c == 0x205f
    || c == 0x3000
    || c == 0xfeff

drop_space : Text → Text
unfolding is_space
drop_space [] = []
drop_space (c ∷ s) = let rest = drop_space s in if is_space c then rest else c ∷ s

-- `s.trim()`
unfoldable pub trim : Text → Text
unfolding drop_space
trim s = reverse (drop_space (reverse (drop_space s)))

-- `s.toLowerCase()`
lower_unit : ℕ → ℕ
lower_unit c = if leb b'A' c && leb c b'Z' then c + 32 else if c == 0x212a then b'k' else c

unfoldable pub to_lower : Text → Text
unfolding lower_unit
to_lower s = map lower_unit s

push_unit : ℕ → List Text → List Text
push_unit c [] = (c ∷ []) ∷ []
push_unit c (t ∷ ts) = (c ∷ t) ∷ ts

-- `s.split(…)` at a separator of one unit.
unfoldable pub split_on : ℕ → Text → List Text
unfolding push_unit
split_on d [] = [] ∷ []
split_on d (c ∷ s) = let rest = split_on d s in if c == d then [] ∷ rest else push_unit c rest

-- `s.toUpperCase()`, which folds the ASCII letters and the long s, the units whose upper case is one
-- ASCII letter or digit of the pairing alphabet.
upper_unit : ℕ → ℕ
upper_unit c = if leb b'a' c && leb c b'z' then c - 32 else if c == 0x17f then b'S' else c

unfoldable pub to_upper : Text → Text
unfolding upper_unit
to_upper s = map upper_unit s

pub text_eq_refl : (a : Text) → text_eq a a ≡ true
unfolding text_eq
text_eq_refl [] = refl
text_eq_refl (x ∷ xs) = ground (arith, text_eq_refl xs)

pub text_eq_sound : (a b : Text) → text_eq a b ≡ true → a ≡ b
unfolding text_eq
text_eq_sound [] [] h = refl
text_eq_sound [] (y ∷ ys) h = cc
text_eq_sound (x ∷ xs) [] h = cc
text_eq_sound (x ∷ xs) (y ∷ ys) h = ground (arith, text_eq_sound xs ys)

pub text_eq_iff : (a b : Text) → (text_eq a b ≡ true) ↔ (a ≡ b)
text_eq_iff a b =
    (text_eq_sound a b, λ e. ground (arith, ap (λ (t : Text). text_eq a t) e, text_eq_refl a))

pub starts_with-append : (p s : Text) → starts_with (p ++ s) p ≡ true
unfolding starts_with
starts_with-append [] s = refl
starts_with-append (x ∷ p) s = ground (arith, starts_with-append p s)

-- SQL's `a IS NOT DISTINCT FROM b`.
unfoldable pub not_distinct : Option Text → Option Text → Bool
not_distinct none none = true
not_distinct none (some b) = false
not_distinct (some a) none = false
not_distinct (some a) (some b) = text_eq a b

pub not_distinct_iff : (a b : Option Text) → (not_distinct a b ≡ true) ↔ (a ≡ b)
unfolding not_distinct
not_distinct_iff none none = ground arith
not_distinct_iff none (some b) = ground arith
not_distinct_iff (some a) none = ground arith
not_distinct_iff (some a) (some b) = ground (arith, text_eq_iff a b)

-- `t.includes(c)` for one unit.
unfoldable pub has_unit : ℕ → Text → Bool
has_unit d [] = false
has_unit d (c ∷ t) = c == d || has_unit d t

pub split_on-none : (d : ℕ) (t : Text) → has_unit d t ≡ false → split_on d t ≡ t ∷ []
unfolding split_on has_unit push_unit
split_on-none d [] h = refl
split_on-none d (c ∷ t) h = ground (arith, split_on-none d t)

pub split_on-append :
    (d : ℕ) (t s : Text) → has_unit d t ≡ false → split_on d (t ++ (d ∷ s)) ≡ t ∷ split_on d s
unfolding split_on has_unit push_unit
split_on-append d [] s h = ground (arith, ==_iff d d)
split_on-append d (c ∷ t) s h = ground (arith, split_on-append d t s)
