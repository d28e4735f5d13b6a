-- ===== src/Prelude/Lists/Cut.antt =====
-- Lists cut by position.
use Prim.Native.Nat.{ℕ, zero, suc, ◌≤◌}
use mathlib.Core.Path.{◌≡◌, refl, ap}
use mathlib.Core.Bool.{Bool}
use mathlib.Core.List.{List, [], ◌∷◌, ◌++◌}
use native.Mathlib.Omega.{arith}
use sozu_gateway.Prelude.Tests.{if◌then◌else◌}
use sozu_gateway.Prelude.Lists.{length, take}

module _ {ℓ} {A : Type ℓ} where
  abbrev pub drop : ℕ → List A → List A
  drop zero xs = xs
  drop (suc n) [] = []
  drop (suc n) (x ∷ xs) = drop n xs

  -- The length of the longest prefix with the property.
  abbrev pub span_length : (A → Bool) → List A → ℕ
  span_length p [] = 0
  span_length p (x ∷ xs) = let rest = span_length p xs in if p x then suc rest else 0

  abbrev pub reverse_onto : List A → List A → List A
  reverse_onto [] ys = ys
  reverse_onto (x ∷ xs) ys = reverse_onto xs (x ∷ ys)

  pub take_all : (xs : List A) → take (length xs) xs ≡ xs
  take_all [] = refl
  take_all (x ∷ xs) = ap (λ r. x ∷ r) (take_all xs)

  pub take-append : (xs ys : List A) → take (length xs) (xs ++ ys) ≡ xs
  take-append [] ys = refl
  take-append (x ∷ xs) ys = ap (λ r. x ∷ r) (take-append xs ys)

  pub drop-append : (xs ys : List A) → drop (length xs) (xs ++ ys) ≡ ys
  drop-append [] ys = refl
  drop-append (x ∷ xs) ys = drop-append xs ys

  pub span_length_le : (p : A → Bool) (xs : List A) → span_length p xs ≤ length xs
  span_length_le p [] = ground arith
  span_length_le p (x ∷ xs) = ground (arith, span_length_le p xs)
