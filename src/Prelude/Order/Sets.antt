-- ===== src/Prelude/Order/Sets.antt =====
-- Sets of ordered elements (`BTreeSet`, or `sort` then `dedup`): the strictly ascending list of
-- the elements. Two lists with the same elements have the same set.
use mathlib.Core.Path.{◌≡◌, refl, ap₂, ◌∙◌, sym}
use mathlib.Core.Bool.{Bool, true, false, not, ◌&&◌, ◌||◌}
use mathlib.Core.List.{List, [], ◌∷◌}
use native.Mathlib.Omega.{arith}
use sozu_gateway.Prelude.Tests.{if◌then◌else◌}
use sozu_gateway.Prelude.Lists.{all}
use sozu_gateway.Prelude.Lists.Keys.{contains}
use sozu_gateway.Prelude.Eq.{Eq, ◌==◌, ==-refl, eq_of-==}
use sozu_gateway.Prelude.Order.{Order}
use sozu_gateway.Prelude.Order.Sort.{sort_by, insert_by, sorted, sort_by-sorted}

module _ {ℓ} {A : Type ℓ} ⦃e : Eq A⦄ where
  -- Drops an element that equals the next.
  unfoldable pub dedup : List A → List A
  dedup [] = []
  dedup (x ∷ xs) = elim (dedup xs) [ [] ↦ x ∷ [] | y ∷ r ↦ if x == y then y ∷ r else x ∷ y ∷ r ]

  contains-dedup : (a : A) (xs : List A) → contains a (dedup xs) ≡ contains a xs
  unfolding dedup
  contains-dedup a [] = refl
  contains-dedup a (x ∷ xs) = ground (arith, contains-dedup a xs)

  pub all-dedup : (p : A → Bool) (xs : List A) → all p xs ≡ true → all p (dedup xs) ≡ true
  unfolding dedup
  all-dedup p [] h = refl
  all-dedup p (x ∷ xs) h = ground (arith, all-dedup p xs)

module _ {ℓ} {A : Type ℓ} ⦃e : Eq A⦄ ⦃o : Order A⦄ where
  unfoldable pub to_set : List A → List A
  unfolding dedup sort_by
  to_set xs = dedup (sort_by (λ x. x) xs)

  abbrev below : A → A → Bool
  below x y = o.le x y && not (o.le y x)

  -- Strictly ascending.
  abbrev pub ascending : List A → Bool
  ascending [] = true
  ascending (x ∷ xs) = all (below x) xs && ascending xs

  contains-insert_by :
      (a x : A) (ys : List A) → contains a (insert_by (λ z. z) x ys) ≡ (a == x || contains a ys)
  unfolding insert_by
  contains-insert_by a x [] = refl
  contains-insert_by a x (y ∷ ys) = ground (arith, contains-insert_by a x ys)

  contains-sort_by : (a : A) (xs : List A) → contains a (sort_by (λ z. z) xs) ≡ contains a xs
  unfolding sort_by
  contains-sort_by a [] = refl
  contains-sort_by a (x ∷ xs) =
      ground (arith, contains-insert_by a x (sort_by (λ z. z) xs), contains-sort_by a xs)

  -- A set has the elements of the list it is made from.
  pub contains-to_set : (a : A) (xs : List A) → contains a (to_set xs) ≡ contains a xs
  unfolding to_set
  contains-to_set a xs = contains-dedup a (sort_by (λ z. z) xs) ∙ contains-sort_by a xs

  all-below_head :
      (x y : A) (ys : List A)
      → o.le x y ≡ true
      → (x == y) ≡ false
      → all (below y) ys ≡ true
      → all (below x) ys ≡ true
  all-below_head x y [] h n k = refl
  all-below_head x y (z ∷ zs) h n k =
      ground (arith, all-below_head x y zs, o.le_trans x y z, o.le_trans z x y)

  dedup-ascending : (xs : List A) → sorted (λ z. z) xs ≡ true → ascending (dedup xs) ≡ true
  unfolding dedup
  dedup-ascending [] h = refl
  dedup-ascending (x ∷ xs) h =
      ground (arith, dedup-ascending xs, all-dedup (o.le x) xs, dedup_step x (dedup xs))
    where
      dedup_step :
          (x : A) (ys : List A)
          → ascending ys ≡ true
          → all (o.le x) ys ≡ true
          → ascending (elim ys [ [] ↦ x ∷ [] | y ∷ r ↦ if x == y then y ∷ r else x ∷ y ∷ r ]) ≡ true
      dedup_step x [] h k = refl
      dedup_step x (y ∷ ys) h k = ground (arith, all-below_head x y ys, o.le_antisym x y)

  pub to_set-ascending : (xs : List A) → ascending (to_set xs) ≡ true
  unfolding to_set
  to_set-ascending xs = dedup-ascending (sort_by (λ z. z) xs) (sort_by-sorted (λ z. z) xs)

  pub all-contains :
      (p : A → Bool) (a : A) (xs : List A) → all p xs ≡ true → contains a xs ≡ true → p a ≡ true
  all-contains p a [] h k = ground arith
  all-contains p a (x ∷ xs) h k = ground (arith, all-contains p a xs, eq_of-== a x)

  not_contains-below : (x : A) (xs : List A) → all (below x) xs ≡ true → contains x xs ≡ false
  not_contains-below x [] h = refl
  not_contains-below x (y ∷ xs) h = ground (arith, not_contains-below x xs, o.le_total x x)

  heads_eq :
      (x y : A) (xs ys : List A)
      → all (below x) xs ≡ true
      → all (below y) ys ≡ true
      → contains x (y ∷ ys) ≡ true
      → contains y (x ∷ xs) ≡ true
      → x ≡ y
  heads_eq x y xs ys hx hy kx ky = ground (
    arith,
    all-contains (below x) y xs hx,
    all-contains (below y) x ys hy,
    eq_of-== x y,
    eq_of-== y x,
  )

  tails_same :
      (x : A) (xs ys : List A)
      → all (below x) xs ≡ true
      → all (below x) ys ≡ true
      → ((a : A) → contains a (x ∷ xs) ≡ contains a (x ∷ ys))
      → (a : A) → contains a xs ≡ contains a ys
  tails_same x xs ys hx hy h a =
      ground (arith, h a, not_contains-below x xs hx, not_contains-below x ys hy, eq_of-== a x)

  -- Strictly ascending lists with the same elements are equal.
  pub ascending_ext :
      (xs ys : List A)
      → ascending xs ≡ true
      → ascending ys ≡ true
      → ((a : A) → contains a xs ≡ contains a ys)
      → xs ≡ ys
  ascending_ext [] [] hx hy h = refl
  ascending_ext [] (y ∷ ys) hx hy h = ground (arith, h y, ==-refl y)
  ascending_ext (x ∷ xs) [] hx hy h = ground (arith, h x, ==-refl x)
  ascending_ext (x ∷ xs) (y ∷ ys) hx hy h =
      let e : x ≡ y =
        heads_eq x y xs ys (ground arith) (ground arith) (ground (arith, h x, ==-refl x))
          (ground (arith, h y, ==-refl y)) in
      ap₂ ◌∷◌ e (
        ascending_ext xs ys (ground arith) (ground arith)
          (tails_same y xs ys (ground arith) (ground arith) (λ a. ground (arith, h a))))

  -- Equal sets are the sets of lists with the same elements.
  pub to_set-eq :
      (xs ys : List A) → ((a : A) → contains a xs ≡ contains a ys) → to_set xs ≡ to_set ys
  to_set-eq xs ys h =
      ascending_ext (to_set xs) (to_set ys) (to_set-ascending xs) (to_set-ascending ys)
        λ a. contains-to_set a xs ∙ h a ∙ sym (contains-to_set a ys)
