-- ===== src/Prelude/Lists/Upsert.antt =====
-- One element under each key: an element joins the one that has its key, or comes at the end
-- (a vector of groups with an index by key).
use mathlib.Core.Path.{◌≡◌, refl, ap}
use mathlib.Core.Bool.{Bool, true, false, ◌||◌}
use mathlib.Core.List.{List, [], ◌∷◌, map}
use mathlib.Core.Logic.{inl, inr}
use native.Mathlib.Omega.{arith}
use sozu_gateway.Prelude.Tests.{if◌then◌else◌, Bool-cases}
use sozu_gateway.Prelude.Eq.{Eq, ◌==◌, ==-refl, ==-comm, ==-same, ==-right, eq_of-==}
use sozu_gateway.Prelude.Lists.{All, all, any, find}
use mathlib.Core.Option.{some}
use sozu_gateway.Prelude.Lists.Keys.{contains, distinct}

module _ {ℓ κ} {K : Type ℓ} {A : Type κ} ⦃e : Eq K⦄ (key : A → K) where
  unfoldable pub upsert_by : K → (A → A) → A → List A → List A
  upsert_by k join new [] = new ∷ []
  upsert_by k join new (x ∷ xs) =
      let rest = upsert_by k join new xs in if key x == k then join x ∷ xs else x ∷ rest

  module _ (k : K) (join : A → A) (new : A) (joined : (x : A) → key (join x) ≡ key x)
      (new_key : key new ≡ k) where
    pub contains-upsert_by :
        (j : K) (xs : List A)
        → contains j (map key (upsert_by k join new xs)) ≡ (j == k || contains j (map key xs))
    unfolding upsert_by
    contains-upsert_by j [] = ground (arith, ==-right j (key new) k new_key)
    contains-upsert_by j (x ∷ xs) = ground (
      arith,
      contains-upsert_by j xs,
      ==-same j (key x) k,
      ==-right j (key (join x)) (key x) (joined x),
    )

    joined_contains :
        (x : A) (xs : List A) → contains (key (join x)) (map key xs) ≡ contains (key x) (map key xs)
    joined_contains x xs = ap (λ j. contains j (map key xs)) (joined x)

    pub distinct-upsert_by :
        (xs : List A)
        → distinct (map key xs) ≡ true
        → distinct (map key (upsert_by k join new xs)) ≡ true
    unfolding upsert_by
    distinct-upsert_by [] h = refl
    distinct-upsert_by (x ∷ xs) h =
        ground (arith, distinct-upsert_by xs, contains-upsert_by (key x) xs, joined_contains x xs)

module _ {ℓ κ} {K : Type ℓ} {A : Type κ} ⦃e : Eq K⦄ (key : A → K) (k : K) (join : A → A) (new : A)
    (p : A → Bool) (b : Bool) where
  -- What holds of some element, where the joined element has it from either side.
  pub any-upsert_by :
      p new ≡ b
      → ((x : A) → key x ≡ k → p (join x) ≡ (b || p x))
      → (xs : List A) → any p (upsert_by key k join new xs) ≡ (b || any p xs)
  unfolding upsert_by
  any-upsert_by n j [] = ground (arith, n)
  any-upsert_by n j (x ∷ xs) = elim (Bool-cases (key x == k)) [
    | inl t ↦ rw t (ground (arith, j x (eq_of-== (key x) k t)))
    | inr t ↦ rw t (ground (arith, any-upsert_by n j xs))
  ]

module _ {ℓ} {K A : Type ℓ} ⦃e : Eq K⦄ (key : A → K) where
  not_head :
      (k : K) (xs : List A) → contains k (map key xs) ≡ false → All (λ x. (key x == k) ≡ false) xs
  not_head k [] h = tt
  not_head k (x ∷ xs) h = (ground (arith, ==-comm k (key x)), not_head k xs (ground arith))

  found_later :
      (x : A) (xs ys : List A)
      → All (λ y. (key y == key x) ≡ false) ys
      → All (λ y. find (λ z. key y == key z) xs ≡ some y) ys
      → All (λ y. find (λ z. key y == key z) (x ∷ xs) ≡ some y) ys
  found_later x xs [] h k = tt
  found_later x xs (y ∷ ys) (n, h) (p, k) = (rw n p, found_later x xs ys h k)

  -- Under distinct keys each element is found by its key.
  pub find_self :
      (xs : List A)
      → distinct (map key xs) ≡ true
      → All (λ y. find (λ z. key y == key z) xs ≡ some y) xs
  find_self [] h = tt
  find_self (x ∷ xs) h = (
    rw (==-refl (key x)),
    found_later x xs xs (not_head (key x) xs (ground arith)) (find_self xs (ground arith)),
  )

  pub all_contained : (xs : List A) → all (λ x. contains (key x) (map key xs)) xs ≡ true
  all_contained xs = within [] xs
    where
      keep :
          (before : List K) (k : K) (ys : List A)
          → all (λ x. contains (key x) before) ys ≡ true
          → all (λ x. contains (key x) (k ∷ before)) ys ≡ true
      keep before k [] h = refl
      keep before k (y ∷ ys) h = ground (arith, keep before k ys)

      within : (before : List K) (ys : List A) → all (λ x. contains (key x) (map key ys)) ys ≡ true
      within before [] = refl
      within before (y ∷ ys) =
          ground (arith, ==-refl (key y), keep (map key ys) (key y) ys, within before ys)
