-- ===== src/Translator/Replay/Groups.antt =====
-- `Keyed`, `Group` and `wanted`, crates/translator/src/replay.rs: objects grouped under the key
-- that identifies them, each with its output position. A map is the list of its entries; the order
-- of the entries is not seen, since the output is sorted by position.

use sozu_gateway.Prelude.{ℕ, ◌+◌, not, Option, none, some, List, [], ◌∷◌, ◌++◌, map}
use sozu_gateway.Prelude.Tests.{if◌then◌else◌}
use sozu_gateway.Prelude.Eq.{Eq, ◌==◌}
use sozu_gateway.Prelude.Lists.{filter, flat_map, length, enumerate_from, is_empty}
use sozu_gateway.Prelude.Lists.Upsert.{upsert_by}
use sozu_gateway.Prelude.Order.{nat_order}
use sozu_gateway.Prelude.Order.Sort.{sort_by}

-- The objects, and the step of the request that set them, 0 for those of `previous`.
pub record Group (T : Type 0) : Type 0 where
  pub since : ℕ
  pub objects : List (ℕ × T)

-- The groups, and the next output position.
pub record Keyed (K T : Type 0) : Type 0 where
  pub groups : List (K × Group T)
  pub next : ℕ

module _ {K T : Type 0} ⦃e : Eq K⦄ where
  unfoldable pub insert : K → Group T → List (K × Group T) → List (K × Group T)
  insert k g = upsert_by (λ x. x.0) k (λ x. (k, g)) (k, g)

  -- `entry(key).or_insert_with(..).objects.push(..)`
  unfoldable pub push : K → ℕ × T → List (K × Group T) → List (K × Group T)
  push k o =
      upsert_by (λ x. x.0) k
        (λ x. (k, record { since = x.1.since; objects = x.1.objects ++ o ∷ [] }))
        (k, record { since = 0; objects = o ∷ [] })

  unfoldable pub push_all : (T → K) → List (K × Group T) → List (ℕ × T) → List (K × Group T)
  push_all key groups [] = groups
  push_all key groups (o ∷ os) = push_all key (push (key o.1) o groups) os

  unfoldable pub new : (T → K) → List T → Keyed K T
  unfolding push_all
  new key objects = record {
    groups = push_all key [] (enumerate_from 0 objects);
    next = length objects;
  }

  -- Without anything wanted the group stays.
  unfoldable pub set : K → Option (List T) → ℕ → Keyed K T → Keyed K T
  set k none step s = s
  set k (some objects) step s = record {
    groups = insert k (record { since = step; objects = enumerate_from s.next objects }) s.groups;
    next = s.next + length objects;
  }

  unfoldable pub remove : K → Keyed K T → Keyed K T
  remove k s = record { groups = filter (λ g. not (g.0 == k)) s.groups; next = s.next }

  -- The objects that `keep` returns for each group, in output order.
  unfoldable pub into_objects : (K → ℕ → List (ℕ × T) → List (ℕ × T)) → Keyed K T → List T
  into_objects keep s =
      map (λ o. o.1)
        (sort_by (λ (o : ℕ × T). o.0) (flat_map (λ g. keep g.0 g.1.since g.1.objects) s.groups))

  -- What `objects` hold under a key.
  unfoldable pub wanted : (T → K) → List T → K → Option (List T)
  wanted key objects k =
      let found : List T = filter (λ o. key o == k) objects in
      if is_empty found then none else some found
