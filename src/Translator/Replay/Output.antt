-- ===== src/Translator/Replay/Output.antt =====
-- The output of the replay (`into_objects`, crates/translator/src/replay.rs) restricted to one key,
-- and the groups it starts from (`Keyed::new`).
use sozu_gateway.Prelude.{
  ℕ, ◌≡◌, inl, inr, refl, ap, ap₂, ◌∙◌, Bool, true, false, not, Option, none, some, List, [], ◌∷◌,
  ◌++◌, map, arith,
}
use sozu_gateway.Prelude.Tests.{Bool-cases}
use sozu_gateway.Prelude.Eq.{Eq, ◌==◌, ==-comm, ==-same, eq_of-==}
use sozu_gateway.Prelude.Lists.{filter, flat_map, all, append-nil, filter-append, filter-map}
use sozu_gateway.Prelude.Lists.Keys.{contains, lookup}
use sozu_gateway.Prelude.Order.{nat_order}
use sozu_gateway.Prelude.Order.Sort.{sort_by, sorted, sort_by_of-sorted}
use sozu_gateway.Prelude.Order.Filter.{filter-sort_by, sorted-filter}
use sozu_gateway.Prelude.Texts.{Text}
use sozu_gateway.Translator.Replay.Groups.{Group, Keyed, into_objects}
use sozu_gateway.Translator.Replay.Kept.{kept, kept_of, gone_since}
use sozu_gateway.Translator.Replay.Tidy.{tidy}

module _ {K T : Type 0} ⦃e : Eq K⦄ (key : T → K) (names : T → Option Text)
    (removed : List (Text × ℕ)) where
  kept_objects : K × Group T → List (ℕ × T)
  kept_objects g = filter (λ o. not (gone_since names removed o.1 g.1.since)) g.1.objects

  -- The objects under a key, of a list of objects and of the group that `lookup` finds.
  chosen : K → List (ℕ × T) → List (ℕ × T)
  chosen k = filter (λ o. key o.1 == k)

  own_all :
      (k : K) (q : ℕ × T → Bool) (os : List (ℕ × T))
      → all (λ o. key o.1 == k) os ≡ true
      → filter (λ o. key o.1 == k) (filter q os) ≡ filter q os
  own_all k q [] h = refl
  own_all k q (o ∷ os) h = ground (arith, own_all k q os)

  other_none :
      (j k : K) (q : ℕ × T → Bool) (os : List (ℕ × T))
      → all (λ o. key o.1 == j) os ≡ true
      → (k == j) ≡ false
      → filter (λ o. key o.1 == k) (filter q os) ≡ []
  other_none j k q [] h n = refl
  other_none j k q (o ∷ os) h n =
      ground (arith, other_none j k q os, ==-comm k j, ==-same k (key o.1) j, ==-comm (key o.1) k)

  found_objects : Option (Group T) → List (ℕ × T)
  found_objects none = []
  found_objects (some g) = filter (λ o. not (gone_since names removed o.1 g.since)) g.objects

  own_key :
      (j : K) (g : Group T) (k : K)
      → (k == j) ≡ true
      → all (λ o. key o.1 == j) g.objects ≡ true
      → all (λ o. key o.1 == k) g.objects ≡ true
  own_key j g k h a = ground (arith, eq_of-== k j)

  absent :
      (k : K) (m : List (K × Group T)) → contains k (map (λ g. g.0) m) ≡ false → lookup k m ≡ none
  absent k [] h = refl
  absent k ((j, g) ∷ m) h = ground (arith, absent k m)

  chosen-flat_map :
      (k : K) (m : List (K × Group T))
      → tidy key m ≡ true
      → chosen k (flat_map kept_objects m) ≡ found_objects (lookup k m)
  unfolding chosen kept_objects found_objects
  chosen-flat_map k [] h = refl
  chosen-flat_map k ((j, g) ∷ m) h =
      let rest = chosen-flat_map k m (ground arith) in
      let parts =
        filter-append (λ o. key o.1 == k) (kept_objects (j, g)) (flat_map kept_objects m) in
      elim (Bool-cases (k == j)) [
        | inl here ↦
            let own =
              own_all k (λ o. not (gone_since names removed o.1 g.since)) g.objects
                (own_key j g k here (ground arith)) in
            let none_else = absent k m (ground (arith, eq_of-== k j here)) in
            rw here (
              parts
              ∙ ap₂ (λ x y. x ++ y) own (rest ∙ ap found_objects none_else)
              ∙ append-nil (found_objects (some g)))
        | inr other ↦
            let nothing =
              other_none j k (λ o. not (gone_since names removed o.1 g.since)) g.objects
                (ground arith) other in
            rw other (parts ∙ ap₂ (λ x y. x ++ y) nothing rest)
      ]

  found-sorted :
      (k : K) (m : List (K × Group T))
      → tidy key m ≡ true
      → sorted (λ (o : ℕ × T). o.0) (found_objects (lookup k m)) ≡ true
  unfolding found_objects
  found-sorted k [] h = refl
  found-sorted k ((j, g) ∷ m) h = ground (
    arith,
    found-sorted k m,
    sorted-filter (λ (o : ℕ × T). o.0) (λ o. not (gone_since names removed o.1 g.since)) g.objects,
  )

  found_kept : (o : Option (Group T)) → map (λ o. o.1) (found_objects o) ≡ kept_of names removed o
  unfolding found_objects
  found_kept none = refl
  found_kept (some g) = refl

  -- Under each key the output holds what is kept, in order.
  pub filter-into_objects :
      (s : Keyed K T) (k : K)
      → tidy key s.groups ≡ true
      → filter
          (λ t. key t == k)
          (into_objects (λ j since os. filter (λ o. not (gone_since names removed o.1 since)) os) s)
        ≡ kept names removed s k
  unfolding into_objects chosen kept_objects
  filter-into_objects s k h =
      filter-map (λ t. key t == k) (λ o. o.1)
        (sort_by (λ (o : ℕ × T). o.0) (flat_map kept_objects s.groups))
      ∙ ap (map (λ o. o.1)) (
          filter-sort_by (λ (o : ℕ × T). o.0) (λ o. key o.1 == k) (flat_map kept_objects s.groups)
          ∙ ap (sort_by (λ (o : ℕ × T). o.0)) (chosen-flat_map k s.groups h)
          ∙ sort_by_of-sorted (λ (o : ℕ × T). o.0) (found_objects (lookup k s.groups))
              (found-sorted k s.groups h))
      ∙ found_kept (lookup k s.groups)
