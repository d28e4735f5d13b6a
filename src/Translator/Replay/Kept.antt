-- ===== src/Translator/Replay/Kept.antt =====
-- What one kind of object of the replay (crates/translator/src/replay.rs) holds under a key, and
-- what a request does to it. The replay records the removal of a cluster with its step, and
-- settles it at the end.
use sozu_gateway.Prelude.{
  ℕ, suc, ◌<◌, ◌≡◌, inl, inr, refl, Bool, true, false, not, ◌&&◌, Option, none, some, List, [], ◌∷◌,
  map, arith,
}
use sozu_gateway.Prelude.Tests.{if◌then◌else◌, ltb, Option-cases}
use sozu_gateway.Prelude.Eq.{Eq, ◌==◌, list_eq, nat_eq}
use sozu_gateway.Prelude.Lists.{filter, all, enumerate_from}
use sozu_gateway.Prelude.Lists.Keys.{lookup}
use sozu_gateway.Prelude.Texts.{Text}
use sozu_gateway.Translator.Replay.{after, insert_step}
use sozu_gateway.Translator.Replay.Groups.{Group, Keyed, insert, set, remove}
use sozu_gateway.Translator.Replay.Lookups.{joined, lookup-upsert, lookup-remove}

-- What a request does to one kind of object: sets what is wanted under a key, drops a key,
-- removes a cluster, or nothing.
pub data Event (K T : Type 0) : Type 0 where
  put : K → Option (List T) → Event K T
  drop : K → Event K T
  gone : Text → Event K T
  skip : Event K T

after_late :
    (removed : List (Text × ℕ)) (id : Text) (step : ℕ)
    → all (λ r. ltb r.1 step) removed ≡ true
    → after removed id step ≡ false
unfolding after
after_late [] id step h = refl
after_late ((j, at) ∷ removed) id step h = ground (arith, after_late removed id step)

module _ {T : Type 0} (names : T → Option Text) where
  -- The object names the cluster.
  abbrev pub mentions : Text → T → Bool
  mentions id t = elim (names t) [ none ↦ false | some c ↦ c == id ]

  abbrev pub gone_since : List (Text × ℕ) → T → ℕ → Bool
  gone_since removed t since = elim (names t) [ none ↦ false | some id ↦ after removed id since ]

  abbrev pub kept_group : List (Text × ℕ) → Group T → List T
  kept_group removed g =
      map (λ o. o.1) (filter (λ o. not (gone_since removed o.1 g.since)) g.objects)

  abbrev pub kept_of : List (Text × ℕ) → Option (Group T) → List T
  kept_of removed none = []
  kept_of removed (some g) = kept_group removed g

  not_gone :
      (removed : List (Text × ℕ)) (t : T) (step : ℕ)
      → all (λ r. ltb r.1 step) removed ≡ true
      → gone_since removed t step ≡ false
  not_gone removed t step h = named (names t)
    where
      named :
          (o : Option Text) → (elim o [ none ↦ false | some id ↦ after removed id step ]) ≡ false
      named none = refl
      named (some id) = after_late removed id step h

  new_kept :
      (removed : List (Text × ℕ)) (n step : ℕ) (ts : List T)
      → all (λ r. ltb r.1 step) removed ≡ true
      → kept_group removed (record { since = step; objects = enumerate_from n ts }) ≡ ts
  new_kept removed n step [] h = refl
  new_kept removed n step (t ∷ ts) h =
      ground (arith, new_kept removed (suc n) step ts h, not_gone removed t step h)

  gone_kept :
      (removed : List (Text × ℕ)) (id : Text) (step since : ℕ) (os : List (ℕ × T))
      → since < step
      → kept_group (insert_step id step removed) (record { since = since; objects = os })
        ≡ filter
            (λ t. not (mentions id t))
            (kept_group removed (record { since = since; objects = os }))
  unfolding after insert_step
  gone_kept removed id step since [] h = refl
  gone_kept removed id step since ((n, t) ∷ os) h =
      ground (arith, gone_kept removed id step since os h)

module _ {K T : Type 0} ⦃e : Eq K⦄ where
  abbrev pub act : ℕ → Event K T → Keyed K T → Keyed K T
  act step (put k objects) s = set k objects step s
  act step (drop k) s = remove k s
  act step (gone id) s = s
  act step skip s = s

  abbrev pub act_removed : ℕ → Event K T → List (Text × ℕ) → List (Text × ℕ)
  act_removed step (gone id) removed = insert_step id step removed
  act_removed step (put k objects) removed = removed
  act_removed step (drop k) removed = removed
  act_removed step skip removed = removed

  -- Every recorded step is before `step`.
  abbrev pub timely : ℕ → List (Text × ℕ) → Keyed K T → Bool
  timely step removed s = all (λ g. ltb g.1.since step) s.groups && all (λ r. ltb r.1 step) removed

  -- What is held under `k` after an event that takes effect at once.
  abbrev pub settled : (T → Option Text) → K → Event K T → List T → List T
  settled names k (put j none) held = held
  settled names k (put j (some objects)) held = if k == j then objects else held
  settled names k (drop j) held = if k == j then [] else held
  settled names k (gone id) held = filter (λ t. not (mentions names id t)) held
  settled names k skip held = held

  -- What the replay holds under `k`.
  abbrev pub kept : (T → Option Text) → List (Text × ℕ) → Keyed K T → K → List T
  kept names removed s k = kept_of names removed (lookup k s.groups)

  lookup-insert :
      (j k : K) (g : Group T) (m : List (K × Group T))
      → lookup j (insert k g m) ≡ (if j == k then some g else lookup j m)
  unfolding insert
  lookup-insert j k g m = ground (arith, lookup-upsert j k (λ v. g) g m, constant (lookup j m))
    where
      constant : (o : Option (Group T)) → joined (λ v. g) g o ≡ g
      constant none = refl
      constant (some v) = refl

  lookup_since :
      (k : K) (step : ℕ) (m : List (K × Group T)) (g : Group T)
      → all (λ g. ltb g.1.since step) m ≡ true
      → lookup k m ≡ some g
      → g.since < step
  lookup_since k step [] g h f = cc
  lookup_since k step ((j, i) ∷ m) g h f = ground (arith, lookup_since k step m g)

  module _ (names : T → Option Text) where
    pub kept-act :
        (step : ℕ) (removed : List (Text × ℕ)) (event : Event K T) (s : Keyed K T) (k : K)
        → timely step removed s ≡ true
        → kept names (act_removed step event removed) (act step event s) k
          ≡ settled names k event (kept names removed s k)
    unfolding set remove
    kept-act step removed (put j none) s k h = refl
    kept-act step removed (put j (some objects)) s k h =
        rw (lookup-insert k j _ s.groups)
          (ground (arith, new_kept names removed s.next step objects (ground arith)))
    kept-act step removed (drop j) s k h = rw (lookup-remove k j s.groups) (ground arith)
    kept-act step removed (gone id) s k h = elim (Option-cases (lookup k s.groups)) [
      | inl e ↦ rw e refl
      | inr (g, e) ↦ rw e (
          gone_kept names removed id step g.since g.objects
            (lookup_since k step s.groups g (ground arith) e))
    ]
    kept-act step removed skip s k h = refl
