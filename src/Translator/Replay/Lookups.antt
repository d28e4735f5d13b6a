-- ===== src/Translator/Replay/Lookups.antt =====
-- What the maps of the replay (crates/translator/src/replay.rs) hold under each key after an
-- insertion, a push or a removal.
use sozu_gateway.Prelude.{◌≡◌, refl, not, Option, none, some, List, [], ◌∷◌, arith}
use sozu_gateway.Prelude.Tests.{if◌then◌else◌}
use sozu_gateway.Prelude.Eq.{Eq, ◌==◌, ==-comm, ==-same}
use sozu_gateway.Prelude.Lists.{filter}
use sozu_gateway.Prelude.Lists.Keys.{lookup}
use sozu_gateway.Prelude.Lists.Upsert.{upsert_by}

abbrev pub joined : {V : Type 0} → (V → V) → V → Option V → V
joined join new none = new
joined join new (some v) = join v

module _ {K V : Type 0} ⦃e : Eq K⦄ where
  -- An entry is joined, or made.
  abbrev pub upsert : K → (V → V) → V → List (K × V) → List (K × V)
  upsert k join new = upsert_by (λ x. x.0) k (λ x. (k, join x.1)) (k, new)

  pub lookup-upsert :
      (j k : K) (join : V → V) (new : V) (m : List (K × V))
      → lookup j (upsert k join new m)
        ≡ (if j == k then some (joined join new (lookup j m)) else lookup j m)
  unfolding upsert_by
  lookup-upsert j k join new [] = refl
  lookup-upsert j k join new ((i, v) ∷ m) =
      ground (arith, lookup-upsert j k join new m, ==-same j i k, ==-comm i k, ==-comm j i)

  pub lookup-remove :
      (j k : K) (m : List (K × V))
      → lookup j (filter (λ g. not (g.0 == k)) m) ≡ (if j == k then none else lookup j m)
  lookup-remove j k [] = ground arith
  lookup-remove j k ((i, v) ∷ m) =
      ground (arith, lookup-remove j k m, ==-same j i k, ==-comm i k, ==-comm j i)
