-- ===== src/Prelude/Lists/Claims.antt =====
-- Lists of claims (key, value): no key twice, against one value for each key.
use mathlib.Core.Path.{◌≡◌, refl}
use mathlib.Core.Bool.{true}
use mathlib.Core.List.{List, [], ◌∷◌, map}
use native.Mathlib.Omega.{arith}
use sozu_gateway.Prelude.Tests.{Bool-cases}
use sozu_gateway.Prelude.Eq.{Eq, ◌==◌, ==-refl, eq_of-==, pair_eq}
use sozu_gateway.Prelude.Lists.Keys.{contains, distinct}
use mathlib.Core.Logic.{inl, inr}

module _ {ℓ} {K V : Type ℓ} ⦃e : Eq K⦄ ⦃f : Eq V⦄ where
  abbrev pub keys : List (K × V) → List K
  keys = map (λ c. c.0)

  -- Each key is claimed for one value.
  abbrev pub IsUnambiguous : List (K × V) → Type ℓ
  IsUnambiguous cs =
      (k : K) (v w : V) → contains (k, v) cs ≡ true → contains (k, w) cs ≡ true → v ≡ w

  claim_key :
      (k : K) (v : V) (cs : List (K × V)) → contains (k, v) cs ≡ true → contains k (keys cs) ≡ true
  claim_key k v [] h = h
  claim_key k v ((j, w) ∷ cs) h =
      ground (arith, claim_key k v cs, eq_of-== {A = K × V} (k, v) (j, w), ==-refl k)

  key_claim :
      (k : K) (cs : List (K × V))
      → contains k (keys cs) ≡ true
      → (v : V) × (contains (k, v) cs ≡ true)
  key_claim k [] h = cc
  key_claim k ((j, w) ∷ cs) h = elim (Bool-cases (k == j)) [
    | inl here ↦ (w, ground (arith, eq_of-== k j here, ==-refl {A = K × V} (k, w)))
    | inr there ↦ let (v, m) = key_claim k cs (ground arith) in (v, ground arith)
  ]

  pub IsUnambiguous-of-distinct : (cs : List (K × V)) → distinct (keys cs) ≡ true → IsUnambiguous cs
  IsUnambiguous-of-distinct [] h k v w p q = cc
  IsUnambiguous-of-distinct ((j, u) ∷ cs) h k v w p q = ground (
    arith,
    eq_of-== {A = K × V} (k, v) (j, u),
    eq_of-== {A = K × V} (k, w) (j, u),
    claim_key k v cs,
    claim_key k w cs,
    IsUnambiguous-of-distinct cs (ground arith) k v w,
  )

  tail-IsUnambiguous : (c : K × V) (cs : List (K × V)) → IsUnambiguous (c ∷ cs) → IsUnambiguous cs
  tail-IsUnambiguous c cs h k v w p q = h k v w (ground arith) (ground arith)

  -- Where no claim is made twice.
  pub distinct_of-unambiguous :
      (cs : List (K × V)) → distinct cs ≡ true → IsUnambiguous cs → distinct (keys cs) ≡ true
  distinct_of-unambiguous [] d h = refl
  distinct_of-unambiguous ((k, v) ∷ cs) d h = elim (Bool-cases (contains k (keys cs))) [
    | inl again ↦
        let (w, m) = key_claim k cs again in
        let e : w ≡ v = h k w v (ground arith) (ground (arith, ==-refl {A = K × V} (k, v))) in
        ground arith
    | inr new ↦
        ground (arith, distinct_of-unambiguous cs (ground arith) (tail-IsUnambiguous (k, v) cs h))
  ]
