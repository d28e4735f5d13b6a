-- ===== src/Translator/Replay/Start.antt =====
-- The groups that the replay starts from (`Keyed::new`, crates/translator/src/replay.rs).
use sozu_gateway.Prelude.{
  ℕ, suc, ◌≡◌, refl, ap, sym, ◌∙◌, Bool, true, not, ◌&&◌, Option, none, some, List, [], ◌∷◌, ◌++◌,
  map, arith,
}
use sozu_gateway.Prelude.Tests.{if◌then◌else◌, ltb, leb}
use sozu_gateway.Prelude.Eq.{Eq, nat_eq, ◌==◌, ==-refl, ==-comm, eq_of-==}
use sozu_gateway.Prelude.Lists.{filter, all, enumerate_from, all-append, append-nil, append_one}
use sozu_gateway.Prelude.Lists.Keys.{distinct, lookup}
use sozu_gateway.Prelude.Order.{nat_order}
use sozu_gateway.Prelude.Order.Filter.{sorted-append}
use sozu_gateway.Prelude.Texts.{Text}
use sozu_gateway.Translator.Replay.{after}
use sozu_gateway.Translator.Replay.Groups.{Group, push, push_all, new}
use sozu_gateway.Translator.Replay.Lookups.{joined, lookup-upsert}
use sozu_gateway.Translator.Replay.Kept.{kept, kept_of, gone_since, timely}
use sozu_gateway.Translator.Replay.Tidy.{tidy, tidy_group, all-upsert, distinct-upsert}

module _ {K T : Type 0} ⦃e : Eq K⦄ (key : T → K) where
  -- A group of `previous`, with positions before `n`.
  abbrev old : ℕ → K × Group T → Bool
  old n g = g.1.since == 0 && (all (λ o. ltb o.0 n) g.1.objects && tidy_group key g)

  abbrev appended : ℕ × T → Group T → Group T
  appended o g = record { since = g.since; objects = g.objects ++ o ∷ [] }

  earlier_le :
      (n : ℕ) (t : T) (os : List (ℕ × T))
      → all (λ o. ltb o.0 n) os ≡ true
      → all (λ (o : ℕ × T). leb o.0 n) os ≡ true
  earlier_le n t [] h = refl
  earlier_le n t (o ∷ os) h = ground (arith, earlier_le n t os)

  earlier_suc :
      (n : ℕ) (os : List (ℕ × T))
      → all (λ o. ltb o.0 n) os ≡ true
      → all (λ o. ltb o.0 (suc n)) os ≡ true
  earlier_suc n [] h = refl
  earlier_suc n (o ∷ os) h = ground (arith, earlier_suc n os)

  old-suc : (n : ℕ) (m : List (K × Group T)) → all (old n) m ≡ true → all (old (suc n)) m ≡ true
  old-suc n [] h = refl
  old-suc n (g ∷ m) h = ground (arith, old-suc n m, earlier_suc n g.1.objects)

  old-appended :
      (n : ℕ) (t : T) (g : Group T)
      → old n (key t, g) ≡ true
      → old (suc n) (key t, appended (n, t) g) ≡ true
  old-appended n t g h = ground (
    arith,
    earlier_suc n g.objects,
    all-append (λ o. ltb o.0 (suc n)) g.objects ((n, t) ∷ []),
    all-append (λ o. key o.1 == key t) g.objects ((n, t) ∷ []),
    ==-refl (key t),
    sorted-append (λ (o : ℕ × T). o.0) g.objects (n, t),
    earlier_le n t g.objects,
  )

  fresh_old :
      (n : ℕ) (t : T) → old (suc n) (key t, record { since = 0; objects = (n, t) ∷ [] }) ≡ true
  fresh_old n t = ground (arith, ==-refl (key t))

  old-push :
      (n : ℕ) (t : T) (m : List (K × Group T))
      → all (old n) m ≡ true
      → all (old (suc n)) (push (key t) (n, t) m) ≡ true
  unfolding push
  old-push n t m h =
      all-upsert key (old n) (old (suc n)) (key t) (appended (n, t)) _ (old-appended n t)
        (fresh_old n t) (old-suc n) m h

  distinct-push :
      (n : ℕ) (t : T) (m : List (K × Group T))
      → distinct (map (λ g. g.0) m) ≡ true
      → distinct (map (λ g. g.0) (push (key t) (n, t) m)) ≡ true
  unfolding push
  distinct-push n t m d = distinct-upsert key (key t) (appended (n, t)) _ m d

  old_tidy : (n : ℕ) (m : List (K × Group T)) → all (old n) m ≡ true → all (tidy_group key) m ≡ true
  old_tidy n [] h = refl
  old_tidy n (g ∷ m) h = ground (arith, old_tidy n m)

  old_timely :
      (n : ℕ) (m : List (K × Group T)) → all (old n) m ≡ true → all (λ g. ltb g.1.since 1) m ≡ true
  old_timely n [] h = refl
  old_timely n (g ∷ m) h = ground (arith, old_timely n m, eq_of-== g.1.since 0)

  old-push_all :
      (n : ℕ) (ts : List T) (m : List (K × Group T))
      → all (old n) m ≡ true
      → distinct (map (λ g. g.0) m) ≡ true
      → (tidy key (push_all key m (enumerate_from n ts)) ≡ true)
        × (all (λ g. ltb g.1.since 1) (push_all key m (enumerate_from n ts)) ≡ true)
  unfolding push_all
  old-push_all n [] m h d = (ground (arith, old_tidy n m), old_timely n m h)
  old-push_all n (t ∷ ts) m h d =
      old-push_all (suc n) ts (push (key t) (n, t) m) (old-push n t m h) (distinct-push n t m d)

  pub tidy-new : (ts : List T) → tidy key (new key ts).groups ≡ true
  unfolding new
  tidy-new ts = (old-push_all 0 ts [] refl refl).0

  pub timely-new : (ts : List T) → timely 1 [] (new key ts) ≡ true
  unfolding new
  timely-new ts = ground (arith, (old-push_all 0 ts [] refl refl).1)

  module _ (names : T → Option Text) where
    kept_list :
        (since : ℕ) (os : List (ℕ × T))
        → map (λ o. o.1) (filter (λ o. not (gone_since names [] o.1 since)) os) ≡ map (λ o. o.1) os
    unfolding after
    kept_list since [] = refl
    kept_list since (o ∷ os) = ground (arith, kept_list since os)

    objects_of : Option (Group T) → List T
    objects_of none = []
    objects_of (some g) = map (λ o. o.1) g.objects

    kept_objects_of : (o : Option (Group T)) → kept_of names [] o ≡ objects_of o
    unfolding objects_of
    kept_objects_of none = refl
    kept_objects_of (some g) = kept_list g.since g.objects

    map-append :
        (xs ys : List (ℕ × T)) → map (λ o. o.1) (xs ++ ys) ≡ map (λ o. o.1) xs ++ map (λ o. o.1) ys
    map-append [] ys = refl
    map-append (x ∷ xs) ys = ap (λ r. x.1 ∷ r) (map-append xs ys)

    joined_objects :
        (n : ℕ) (t : T) (o : Option (Group T))
        → objects_of
            (some (joined (appended (n, t)) (record { since = 0; objects = (n, t) ∷ [] }) o))
          ≡ objects_of o ++ t ∷ []
    unfolding objects_of
    joined_objects n t none = refl
    joined_objects n t (some g) = map-append g.objects ((n, t) ∷ [])

    objects-push :
        (k : K) (n : ℕ) (t : T) (m : List (K × Group T))
        → objects_of (lookup k (push (key t) (n, t) m))
          ≡ (if key t == k then objects_of (lookup k m) ++ t ∷ [] else objects_of (lookup k m))
    unfolding push
    objects-push k n t m = ground (
      arith,
      lookup-upsert k (key t) (appended (n, t)) (record { since = 0; objects = (n, t) ∷ [] }) m,
      joined_objects n t (lookup k m),
      ==-comm k (key t),
    )

    objects-push_all :
        (k : K) (n : ℕ) (ts : List T) (m : List (K × Group T))
        → objects_of (lookup k (push_all key m (enumerate_from n ts)))
          ≡ objects_of (lookup k m) ++ filter (λ t. key t == k) ts
    unfolding push_all objects_of
    objects-push_all k n [] m = sym (append-nil (objects_of (lookup k m)))
    objects-push_all k n (t ∷ ts) m = ground (
      arith,
      objects-push_all k (suc n) ts (push (key t) (n, t) m),
      objects-push k n t m,
      append_one (objects_of (lookup k m)) t (filter (λ u. key u == k) ts),
    )

    -- At the start each key holds its objects of the list, in order.
    pub kept-new :
        (ts : List T) (k : K) → kept names [] (new key ts) k ≡ filter (λ t. key t == k) ts
    unfolding new objects_of
    kept-new ts k =
        kept_objects_of (lookup k (push_all key [] (enumerate_from 0 ts)))
        ∙ objects-push_all k 0 ts []
