-- ===== src/Prelude/Order/Sort.antt =====
-- The stable sort by a key: sorted, a permutation, and blind to the order of its input.
use mathlib.Core.Path.{◌≡◌, refl, ◌∙◌}
use mathlib.Core.Logic.{inl, inr, ∥∥₁_elim}
use mathlib.Core.Bool.{Bool, true, ◌&&◌}
use mathlib.Core.HLevel.{hedberg}
use mathlib.Core.List.{List, [], ◌∷◌, Perm, Permᴰ}
use mathlib.Core.List.Perm
use native.Mathlib.Omega.{arith}
use sozu_gateway.Prelude.Tests.{if◌then◌else◌, Bool-cases}
use sozu_gateway.Prelude.Lists.{all}
use sozu_gateway.Prelude.Eq.{list_discrete}
use sozu_gateway.Prelude.Order.{Order}

module _ {ℓ κ} {A : Type ℓ} {K : Type κ} ⦃o : Order K⦄ (key : A → K) where
  unfoldable pub insert_by : A → List A → List A
  insert_by x [] = x ∷ []
  insert_by x (y ∷ ys) = if o.le (key x) (key y) then x ∷ y ∷ ys else y ∷ insert_by x ys

  unfoldable pub sort_by : List A → List A
  unfolding insert_by
  sort_by [] = []
  sort_by (x ∷ xs) = insert_by x (sort_by xs)

  -- Each element's key is at most every later one's.
  abbrev pub sorted : List A → Bool
  sorted [] = true
  sorted (x ∷ xs) = all (λ y. o.le (key x) (key y)) xs && sorted xs

  pub all-insert_by :
      (p : A → Bool) (x : A) (ys : List A) → all p (insert_by x ys) ≡ (p x && all p ys)
  unfolding insert_by
  all-insert_by p x [] = refl
  all-insert_by p x (y ∷ ys) = ground (arith, all-insert_by p x ys)

  pub all-sort_by : (p : A → Bool) (xs : List A) → all p (sort_by xs) ≡ all p xs
  unfolding sort_by
  all-sort_by p [] = refl
  all-sort_by p (x ∷ xs) = ground (arith, all-insert_by p x (sort_by xs), all-sort_by p xs)

  all-le_trans :
      (x y : A) (ys : List A)
      → o.le (key x) (key y) ≡ true
      → all (λ z. o.le (key y) (key z)) ys ≡ true
      → all (λ z. o.le (key x) (key z)) ys ≡ true
  all-le_trans x y [] h k = refl
  all-le_trans x y (z ∷ zs) h k =
      ground (arith, o.le_trans (key x) (key y) (key z), all-le_trans x y zs)

  insert_by-sorted : (x : A) (ys : List A) → sorted ys ≡ true → sorted (insert_by x ys) ≡ true
  unfolding insert_by
  insert_by-sorted x [] h = refl
  insert_by-sorted x (y ∷ ys) h = ground (
    arith,
    o.le_total (key x) (key y),
    all-le_trans x y ys,
    all-insert_by (λ z. o.le (key y) (key z)) x ys,
    insert_by-sorted x ys,
  )

  pub sort_by-sorted : (xs : List A) → sorted (sort_by xs) ≡ true
  unfolding sort_by
  sort_by-sorted [] = refl
  sort_by-sorted (x ∷ xs) = insert_by-sorted x (sort_by xs) (sort_by-sorted xs)

  insert_by-perm : (x : A) (ys : List A) → Perm (insert_by x ys) (x ∷ ys)
  unfolding insert_by
  insert_by-perm x [] = Perm.refl (x ∷ [])
  insert_by-perm x (y ∷ ys) = elim (Bool-cases (o.le (key x) (key y))) [
    | inl e ↦ rw e (Perm.refl (x ∷ y ∷ ys))
    | inr e ↦ rw e (Perm.trans (Perm.cons y (insert_by-perm x ys)) (Perm.swap x y ys))
  ]

  -- The sort loses no element and makes none up.
  pub sort_by-perm : (xs : List A) → Perm (sort_by xs) xs
  unfolding sort_by
  sort_by-perm [] = Perm.refl []
  sort_by-perm (x ∷ xs) = Perm.trans (insert_by-perm x (sort_by xs)) (Perm.cons x (sort_by-perm xs))

  insert_by_head :
      (x : A) (ys : List A) → all (λ y. o.le (key x) (key y)) ys ≡ true → insert_by x ys ≡ x ∷ ys
  unfolding insert_by
  insert_by_head x [] h = refl
  insert_by_head x (y ∷ ys) h = ground arith

  -- A sorted list stays as it is.
  pub sort_by_of-sorted : (xs : List A) → sorted xs ≡ true → sort_by xs ≡ xs
  unfolding sort_by
  sort_by_of-sorted [] h = refl
  sort_by_of-sorted (x ∷ xs) h = ground (arith, sort_by_of-sorted xs, insert_by_head x xs)

  module _ (injective : (a b : A) → key a ≡ key b → a ≡ b) where
    insert_by_comm :
        (x y : A) (zs : List A) → insert_by x (insert_by y zs) ≡ insert_by y (insert_by x zs)
    unfolding insert_by
    insert_by_comm x y [] =
        ground (arith, o.le_total (key x) (key y), o.le_antisym (key x) (key y), injective x y)
    insert_by_comm x y (z ∷ zs) = ground (
      arith,
      insert_by_comm x y zs,
      o.le_total (key x) (key y),
      o.le_antisym (key x) (key y),
      injective x y,
      o.le_trans (key x) (key y) (key z),
      o.le_trans (key y) (key x) (key z),
    )

    sort_by_permᴰ : {xs ys : List A} → Permᴰ xs ys → sort_by xs ≡ sort_by ys
    unfolding sort_by
    sort_by_permᴰ Permᴰ.nil = refl
    sort_by_permᴰ (Permᴰ.cons e p) = cc (sort_by_permᴰ p)
    sort_by_permᴰ (Permᴰ.swap {a} {b} {a'} {b'} {l} e f) =
        rw (e, f) (insert_by_comm b' a' (sort_by l))
    sort_by_permᴰ (Permᴰ.trans p q) = sort_by_permᴰ p ∙ sort_by_permᴰ q

    -- With distinct keys the result does not depend on the order of the input.
    pub sort_by_of_perm : Discrete A → {xs ys : List A} → Perm xs ys → sort_by xs ≡ sort_by ys
    sort_by_of_perm d p = ∥∥₁_elim p (hedberg (list_discrete d) _ _) sort_by_permᴰ
