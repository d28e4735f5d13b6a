-- ===== src/Translator/Replay/Tidy.antt =====
-- Well-formed groups of the replay (crates/translator/src/replay.rs).
use sozu_gateway.Prelude.{
  ℕ, suc, ◌≤◌, ◌≡◌, refl, ap, Bool, true, false, not, ◌&&◌, ◌||◌, none, some, List, [], ◌∷◌, map,
  arith,
}
use sozu_gateway.Prelude.Tests.{leb}
use sozu_gateway.Prelude.Eq.{Eq, ◌==◌, ==-same, eq_of-==}
use sozu_gateway.Prelude.Lists.{filter, all, enumerate_from}
use sozu_gateway.Prelude.Lists.Keys.{contains, distinct}
use sozu_gateway.Prelude.Lists.Upsert.{upsert_by}
use sozu_gateway.Prelude.Order.{nat_order}
use sozu_gateway.Prelude.Order.Sort.{sorted}
use sozu_gateway.Translator.Replay.Groups.{Group, Keyed, insert, set, remove, new}
use sozu_gateway.Translator.Replay.Lookups.{upsert}
use sozu_gateway.Translator.Replay.Kept.{Event, put, drop, gone, skip, act}

module _ {K T : Type 0} ⦃e : Eq K⦄ (key : T → K) where
  -- The objects of a group have its key, and stand in the order of their positions.
  abbrev pub tidy_group : K × Group T → Bool
  tidy_group g = all (λ o. key o.1 == g.0) g.1.objects && sorted (λ (o : ℕ × T). o.0) g.1.objects

  -- One group for each key.
  abbrev pub tidy : List (K × Group T) → Bool
  tidy groups = distinct (map (λ g. g.0) groups) && all tidy_group groups

  pub all-upsert :
      (q p : K × Group T → Bool) (k : K) (join : Group T → Group T) (new : Group T)
      → ((g : Group T) → q (k, g) ≡ true → p (k, join g) ≡ true)
      → p (k, new) ≡ true
      → ((m : List (K × Group T)) → all q m ≡ true → all p m ≡ true)
      → (m : List (K × Group T)) → all q m ≡ true
      → all p (upsert k join new m) ≡ true
  unfolding upsert_by
  all-upsert q p k join new f h w [] a = ground arith
  all-upsert q p k join new f h w ((j, g) ∷ m) a =
      ground (arith, all-upsert q p k join new f h w m, f g, eq_of-== j k, w m, w ((j, g) ∷ []))

  contains-upsert :
      (j k : K) (join : Group T → Group T) (new : Group T) (m : List (K × Group T))
      → contains j (map (λ g. g.0) (upsert k join new m))
        ≡ (j == k || contains j (map (λ g. g.0) m))
  unfolding upsert_by
  contains-upsert j k join new [] = refl
  contains-upsert j k join new ((i, g) ∷ m) =
      ground (arith, contains-upsert j k join new m, ==-same j i k)

  pub distinct-upsert :
      (k : K) (join : Group T → Group T) (new : Group T) (m : List (K × Group T))
      → distinct (map (λ g. g.0) m) ≡ true
      → distinct (map (λ g. g.0) (upsert k join new m)) ≡ true
  unfolding upsert_by
  distinct-upsert k join new [] d = refl
  distinct-upsert k join new ((i, g) ∷ m) d = ground (
    arith,
    distinct-upsert k join new m,
    contains-upsert i k join new m,
    same_contains i k (map (λ g. g.0) m),
  )
    where
      same_contains : (i k : K) (ks : List K) → (i == k) ≡ true → contains i ks ≡ contains k ks
      same_contains i k ks h = ap (λ j. contains j ks) (eq_of-== i k h)

  enumerate_key :
      (k : K) (n : ℕ) (ts : List T)
      → all (λ t. key t == k) ts ≡ true
      → all (λ o. key o.1 == k) (enumerate_from n ts) ≡ true
  enumerate_key k n [] h = refl
  enumerate_key k n (t ∷ ts) h = ground (arith, enumerate_key k (suc n) ts)

  enumerate_late :
      (m n : ℕ) (ts : List T) → m ≤ n → all (λ (o : ℕ × T). leb m o.0) (enumerate_from n ts) ≡ true
  enumerate_late m n [] h = refl
  enumerate_late m n (t ∷ ts) h = ground (arith, enumerate_late m (suc n) ts)

  enumerate-sorted :
      (n : ℕ) (ts : List T) → sorted (λ (o : ℕ × T). o.0) (enumerate_from n ts) ≡ true
  enumerate-sorted n [] = refl
  enumerate-sorted n (t ∷ ts) =
      ground (arith, enumerate-sorted (suc n) ts, enumerate_late n (suc n) ts)

  -- What a request wants under a key has that key.
  abbrev pub keyed_event : Event K T → Bool
  keyed_event (put k (some ts)) = all (λ t. key t == k) ts
  keyed_event (put k none) = true
  keyed_event (drop k) = true
  keyed_event (gone id) = true
  keyed_event skip = true

  tidy-insert :
      (k : K) (g : Group T) (m : List (K × Group T))
      → tidy_group (k, g) ≡ true
      → tidy m ≡ true
      → tidy (insert k g m) ≡ true
  unfolding insert
  tidy-insert k g m h t = ground (
    arith,
    all-upsert tidy_group tidy_group k (λ v. g) g (λ v u. h) h (λ m a. a) m,
    distinct-upsert k (λ v. g) g m,
  )

  contains-remove :
      (j k : K) (m : List (K × Group T))
      → contains j (map (λ g. g.0) m) ≡ false
      → contains j (map (λ g. g.0) (filter (λ g. not (g.0 == k)) m)) ≡ false
  contains-remove j k [] h = refl
  contains-remove j k ((i, g) ∷ m) h = ground (arith, contains-remove j k m)

  tidy-remove :
      (k : K) (m : List (K × Group T))
      → tidy m ≡ true
      → tidy (filter (λ g. not (g.0 == k)) m) ≡ true
  tidy-remove k [] h = refl
  tidy-remove k ((i, g) ∷ m) h = ground (arith, tidy-remove k m, contains-remove i k m)

  pub tidy-act :
      (step : ℕ) (event : Event K T) (s : Keyed K T)
      → keyed_event event ≡ true
      → tidy s.groups ≡ true
      → tidy (act step event s).groups ≡ true
  unfolding set remove
  tidy-act step (put k none) s h t = t
  tidy-act step (put k (some ts)) s h t =
      tidy-insert k _ s.groups
        (ground (arith, enumerate_key k s.next ts, enumerate-sorted s.next ts)) t
  tidy-act step (drop k) s h t = tidy-remove k s.groups t
  tidy-act step (gone id) s h t = t
  tidy-act step skip s h t = t
