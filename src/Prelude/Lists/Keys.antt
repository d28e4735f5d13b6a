-- ===== src/Prelude/Lists/Keys.antt =====
-- Sets of keys and maps by key: membership, duplicates dropped by key with the first kept
-- (`filter(|x| seen.insert(key(x)))`), and association lists.
use mathlib.Core.Path.{◌≡◌, refl, ap}
use mathlib.Core.Bool.{Bool, true, false, not, ◌&&◌, ◌||◌}
use mathlib.Core.Option.{Option, none, some}
use mathlib.Core.List.{List, [], ◌∷◌, ◌++◌, map}
use sozu_gateway.Prelude.Lists.{all, filter, find}
use native.Mathlib.Omega.{arith}
use sozu_gateway.Prelude.Tests.{if◌then◌else◌}
use sozu_gateway.Prelude.Eq.{Eq, ◌==◌, ==-refl, ==-comm, eq_of-==}

module _ {ℓ} {K : Type ℓ} ⦃e : Eq K⦄ where
  -- `set.contains(&k)`
  abbrev pub contains : K → List K → Bool
  contains k [] = false
  contains k (x ∷ xs) = k == x || contains k xs

  -- No key twice.
  abbrev pub distinct : List K → Bool
  distinct [] = true
  distinct (x ∷ xs) = not (contains x xs) && distinct xs

  pub contains-append :
      (k : K) (xs ys : List K) → contains k (xs ++ ys) ≡ (contains k xs || contains k ys)
  contains-append k [] ys = refl
  contains-append k (x ∷ xs) ys = ground (arith, contains-append k xs ys)

  pub contains-filter :
      (p : K → Bool) (k : K) (xs : List K) → contains k (filter p xs) ≡ (contains k xs && p k)
  contains-filter p k [] = refl
  contains-filter p k (x ∷ xs) = ground (arith, contains-filter p k xs, same_test x)
    where
      same_test : (x : K) → (k == x) ≡ true → p k ≡ p x
      same_test x h = ap p (eq_of-== k x h)

  module _ {κ} {A : Type κ} (key : A → K) where
    -- The elements whose key is not in `seen` and comes up for the first time.
    abbrev pub unique_from : List K → List A → List A
    unique_from seen [] = []
    unique_from seen (x ∷ xs) =
        let skip = unique_from seen xs in
        let keep = x ∷ unique_from (key x ∷ seen) xs in if contains (key x) seen then skip else keep

    abbrev pub unique_by : List A → List A
    unique_by = unique_from []

    -- Every key of the list is still there, but for those seen before.
    pub contains-unique_from :
        (k : K) (seen : List K) (xs : List A)
        → contains k (map key xs) ≡ true
        → (contains k seen || contains k (map key (unique_from seen xs))) ≡ true
    contains-unique_from k seen [] h = ground arith
    contains-unique_from k seen (x ∷ xs) h =
        ground (arith, contains-unique_from k seen xs, contains-unique_from k (key x ∷ seen) xs)

    -- No key that was seen before is kept.
    pub unique_from_fresh :
        (k : K) (seen : List K) (xs : List A)
        → contains k seen ≡ true
        → contains k (map key (unique_from seen xs)) ≡ false
    unique_from_fresh k seen [] h = refl
    unique_from_fresh k seen (x ∷ xs) h =
        ground (arith, unique_from_fresh k seen xs, unique_from_fresh k (key x ∷ seen) xs)

    pub distinct-unique_from :
        (seen : List K) (xs : List A) → distinct (map key (unique_from seen xs)) ≡ true
    distinct-unique_from seen [] = refl
    distinct-unique_from seen (x ∷ xs) = ground (
      arith,
      distinct-unique_from seen xs,
      distinct-unique_from (key x ∷ seen) xs,
      unique_from_fresh (key x) (key x ∷ seen) xs,
      ==-refl (key x),
    )

    unique_from_sub :
        (k : K) (seen : List K) (xs : List A)
        → contains k (map key (unique_from seen xs)) ≡ true
        → contains k (map key xs) ≡ true
    unique_from_sub k seen [] h = h
    unique_from_sub k seen (x ∷ xs) h =
        ground (arith, unique_from_sub k seen xs, unique_from_sub k (key x ∷ seen) xs)

    -- The keys are those of the list.
    pub contains-unique_by :
        (k : K) (xs : List A) → contains k (map key (unique_by xs)) ≡ contains k (map key xs)
    contains-unique_by k xs = ground (arith, unique_from_sub k [] xs, contains-unique_from k [] xs)

  module _ {κ} {V : Type κ} where
    -- `map.get(&k)`
    abbrev pub lookup : K → List (K × V) → Option V
    lookup k [] = none
    lookup k ((j, v) ∷ m) = if k == j then some v else lookup k m

module _ {ℓ κ} {K : Type ℓ} {A : Type κ} ⦃e : Eq K⦄ (key : A → K) where
  -- A list whose keys are distinct stays as it is.
  pub unique_from_of-distinct :
      (seen : List K) (xs : List A)
      → distinct (map key xs) ≡ true
      → all (λ x. not (contains (key x) seen)) xs ≡ true
      → unique_from key seen xs ≡ xs
  unique_from_of-distinct seen [] d h = refl
  unique_from_of-distinct seen (x ∷ xs) d h =
      ground (arith, unique_from_of-distinct (key x ∷ seen) xs, still_fresh (key x) seen xs)
    where
      still_fresh :
          (k : K) (seen : List K) (ys : List A)
          → contains k (map key ys) ≡ false
          → all (λ y. not (contains (key y) seen)) ys ≡ true
          → all (λ y. not (contains (key y) (k ∷ seen))) ys ≡ true
      still_fresh k seen [] n h = refl
      still_fresh k seen (y ∷ ys) n h = ground (arith, still_fresh k seen ys, ==-comm k (key y))

  nothing_seen : (xs : List A) → all (λ x. not (contains (key x) [])) xs ≡ true
  nothing_seen [] = refl
  nothing_seen (x ∷ xs) = nothing_seen xs

  pub unique_by_of-distinct : (xs : List A) → distinct (map key xs) ≡ true → unique_by key xs ≡ xs
  unique_by_of-distinct xs d = unique_from_of-distinct [] xs d (nothing_seen xs)

  -- The first element with a key is the one that is kept.
  pub find-unique_from :
      (k : K) (seen : List K) (xs : List A)
      → find (λ x. k == key x) (unique_from key seen xs)
        ≡ (if contains k seen then none else find (λ x. k == key x) xs)
  find-unique_from k seen [] = ground arith
  find-unique_from k seen (x ∷ xs) = ground (
    arith,
    find-unique_from k seen xs,
    find-unique_from k (key x ∷ seen) xs,
    contains_eq k (key x) seen,
  )
    where
      contains_eq : (k j : K) (seen : List K) → (k == j) ≡ true → contains k seen ≡ contains j seen
      contains_eq k j seen h = ap (λ i. contains i seen) (eq_of-== k j h)
