-- ===== src/Prelude/Decimal.antt =====
-- Natural numbers as JavaScript prints them, `String(n)`.
use Prim.Native.Nat.{ℕ, zero, suc, ◌+◌, ◌*◌, ◌-◌, ◌/◌, ◌%◌, ◌<◌}
use mathlib.Core.Path.{◌≡◌}
use mathlib.Core.List.{[], ◌∷◌, foldl}
use native.Mathlib.Omega.{arith}
use printer_repo.Prelude.Tests.{ltb, if◌then◌else◌}
use printer_repo.Prelude.Text.{Text}

-- The digits of `n` before `out`; the first argument bounds the rounds.
digits : ℕ → ℕ → Text → Text
digits zero n out = out
digits (suc rounds) n out =
    let rest = digits rounds (n / 10) ((b'0' + n % 10) ∷ out) in
    if ltb n 10 then (b'0' + n) ∷ out else rest

-- As many rounds as the number, and one more, are enough.
unfoldable pub decimal : ℕ → Text
unfolding digits
decimal n = digits (suc n) n []

-- The number that a text of digits spells after `n`.
abbrev pub value_after : ℕ → Text → ℕ
value_after = foldl (λ n c. n * 10 + (c - b'0'))

value-digits :
    (rounds n : ℕ) (out : Text)
    → n < rounds
    → value_after 0 (digits rounds n out) ≡ value_after n out
unfolding digits
value-digits zero n out h = absurd (omega arith)
value-digits (suc rounds) n out h =
    ground (arith, value-digits rounds (n / 10) ((b'0' + n % 10) ∷ out))

-- The printed digits spell the number.
pub value-decimal : (n : ℕ) → value_after 0 (decimal n) ≡ n
unfolding decimal
value-decimal n = value-digits (suc n) n [] (omega arith)
