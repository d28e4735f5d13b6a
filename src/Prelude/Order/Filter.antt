-- ===== src/Prelude/Order/Filter.antt =====
-- A sorted list restricted to some of its elements.
use mathlib.Core.Path.{◌≡◌, refl}
use mathlib.Core.Bool.{Bool, true}
use mathlib.Core.List.{List, [], ◌∷◌, ◌++◌}
use native.Mathlib.Omega.{arith}
use sozu_gateway.Prelude.Tests.{if◌then◌else◌}
use sozu_gateway.Prelude.Lists.{all, filter, all-filter, all-append}
use sozu_gateway.Prelude.Order.{Order}
use sozu_gateway.Prelude.Order.Sort.{sort_by, insert_by, sorted, sort_by-sorted}

module _ {ℓ κ} {A : Type ℓ} {K : Type κ} ⦃o : Order K⦄ (key : A → K) where
  head_le :
      (x y : A) (ys : List A)
      → o.le (key x) (key y) ≡ true
      → all (λ z. o.le (key y) (key z)) ys ≡ true
      → all (λ z. o.le (key x) (key z)) ys ≡ true
  head_le x y [] h k = refl
  head_le x y (z ∷ zs) h k = ground (arith, head_le x y zs, o.le_trans (key x) (key y) (key z))

  insert_first :
      (x : A) (ys : List A)
      → all (λ z. o.le (key x) (key z)) ys ≡ true
      → insert_by key x ys ≡ x ∷ ys
  unfolding insert_by
  insert_first x [] h = refl
  insert_first x (y ∷ ys) h = ground arith

  filter-insert_by :
      (p : A → Bool) (x : A) (ys : List A)
      → sorted key ys ≡ true
      → filter p (insert_by key x ys) ≡ (if p x then insert_by key x (filter p ys) else filter p ys)
  unfolding insert_by
  filter-insert_by p x [] h = refl
  filter-insert_by p x (y ∷ ys) h = ground (
    arith,
    filter-insert_by p x ys,
    head_le x y ys,
    all-filter (λ z. o.le (key x) (key z)) p ys,
    insert_first x (filter p ys),
  )

  -- The sort keeps the order among the elements that are chosen.
  pub filter-sort_by :
      (p : A → Bool) (xs : List A) → filter p (sort_by key xs) ≡ sort_by key (filter p xs)
  unfolding sort_by
  filter-sort_by p [] = refl
  filter-sort_by p (x ∷ xs) =
      ground
        (arith, filter-sort_by p xs, filter-insert_by p x (sort_by key xs), sort_by-sorted key xs)

  pub sorted-filter :
      (p : A → Bool) (xs : List A) → sorted key xs ≡ true → sorted key (filter p xs) ≡ true
  sorted-filter p [] h = refl
  sorted-filter p (x ∷ xs) h =
      ground (arith, sorted-filter p xs, all-filter (λ z. o.le (key x) (key z)) p xs)

  pub sorted-append :
      (xs : List A) (y : A)
      → sorted key xs ≡ true
      → all (λ x. o.le (key x) (key y)) xs ≡ true
      → sorted key (xs ++ y ∷ []) ≡ true
  sorted-append [] y h k = refl
  sorted-append (x ∷ xs) y h k =
      ground (arith, sorted-append xs y, all-append (λ z. o.le (key x) (key z)) xs (y ∷ []))
