-- ===== src/Prelude/Count.antt =====
-- How a count changes when some entries of a list are rewritten.
use Prim.Native.Nat.{◌+◌, ◌≤◌}
use mathlib.Core.Path.{◌≡◌}
use mathlib.Core.Bool.{Bool, true, ◌||◌}
use mathlib.Core.List.{List, [], ◌∷◌, map}
use native.Mathlib.Omega.{arith}
use printer_repo.Prelude.Lists.{All, count}

module _ {ℓ} {A : Type ℓ} where
  -- Where every rewritten entry that counts did count before or passes `q`, the count grows by at
  -- most the entries that pass `q`.
  pub count-map-le :
      (p q : A → Bool) (f : A → A) (xs : List A)
      → All (λ x. p (f x) ≡ true → (p x || q x) ≡ true) xs
      → count p (map f xs) ≤ count p xs + count q xs
  count-map-le p q f [] h = omega arith
  count-map-le p q f (x ∷ xs) (h, hs) = ground (arith, h, count-map-le p q f xs hs)

  pub count_mono :
      (p q : A → Bool) (xs : List A)
      → All (λ x. p x ≡ true → q x ≡ true) xs
      → count p xs ≤ count q xs
  count_mono p q [] h = omega arith
  count_mono p q (x ∷ xs) (h, hs) = ground (arith, h, count_mono p q xs hs)

  pub count-or-le :
      (p q : A → Bool) (xs : List A) → count (λ x. p x || q x) xs ≤ count p xs + count q xs
  count-or-le p q [] = omega arith
  count-or-le p q (x ∷ xs) = ground (arith, count-or-le p q xs)

  -- A property of all entries holds where it holds of every value.
  pub All_of {κ} : (P : A → Type κ) (xs : List A) → ((x : A) → P x) → All P xs
  All_of P [] f = tt
  All_of P (x ∷ xs) f = (f x, All_of P xs f)
