-- ===== src/Prelude/Eq.antt =====
-- Decidable equality as an interface: one test `==` for every type that has an instance.
use Prim.Native.Nat.{ℕ}
use mathlib.Core.Path.{◌≡◌, refl, ap}
use mathlib.Core.Logic.{◌≢◌}
use mathlib.Core.Bool.{Bool, true, false}
use mathlib.Core.Option.{Option}
use mathlib.Core.List.{List}
use native.Mathlib.Decide.{ℕ_discrete}
use native.Mathlib.Omega.{arith}

pub record Eq {ℓ} (A : Type ℓ) : Type ℓ where
  pub dec : Discrete A

abbrev pub does {ℓ} : {P : Type ℓ} → Dec P → Bool
does (yes p) = true
does (no p) = false

infix 50 ◌==◌
abbrev pub ◌==◌ {ℓ} : {A : Type ℓ} ⦃e : Eq A⦄ → A → A → Bool
◌==◌ ⦃e⦄ a b = does (e.dec a b)

module _ {ℓ} {A : Type ℓ} ⦃e : Eq A⦄ where
  pub ==-refl : (a : A) → (a == a) ≡ true
  ==-refl a = elim (e.dec a a) as (λ d. does d ≡ true) [ yes p ↦ refl | no n ↦ absurd (n refl) ]

  pub eq_of-== : (a b : A) → (a == b) ≡ true → a ≡ b
  eq_of-== a b h = ground arith

  pub ==-comm : (a b : A) → (a == b) ≡ (b == a)
  ==-comm a b = ground arith

  -- Equal values test alike.
  pub ==-right : (c a b : A) → a ≡ b → (c == a) ≡ (c == b)
  ==-right c a b p = ap (λ x. c == x) p

  pub ==-same : (c a b : A) → (a == b) ≡ true → (c == a) ≡ (c == b)
  ==-same c a b h = ==-right c a b (eq_of-== a b h)

  pub ==_of_ne : (a b : A) → a ≢ b → (a == b) ≡ false
  ==_of_ne a b h = ground arith

  pub ne_of-== : (a b : A) → (a == b) ≡ false → a ≢ b
  ne_of-== a b h p = ground arith

unfoldable pub pair_discrete {ℓ κ} :
    {A : Type ℓ} {B : Type κ} → Discrete A → Discrete B → Discrete (A × B)
pair_discrete da db = hlevel (da, db)

unfoldable pub list_discrete {ℓ} : {A : Type ℓ} → Discrete A → Discrete (List A)
list_discrete da = hlevel da

unfoldable pub option_discrete {ℓ} : {A : Type ℓ} → Discrete A → Discrete (Option A)
option_discrete da = hlevel da

instance abbrev pub nat_eq : Eq ℕ
nat_eq = record { dec = ℕ_discrete }

instance abbrev pub list_eq {ℓ} : {A : Type ℓ} ⦃e : Eq A⦄ → Eq (List A)
list_eq ⦃e⦄ = record { dec = list_discrete e.dec }

instance abbrev pub option_eq {ℓ} : {A : Type ℓ} ⦃e : Eq A⦄ → Eq (Option A)
option_eq ⦃e⦄ = record { dec = option_discrete e.dec }

instance abbrev pub pair_eq {ℓ κ} : {A : Type ℓ} {B : Type κ} ⦃e : Eq A⦄ ⦃f : Eq B⦄ → Eq (A × B)
pair_eq ⦃e⦄ ⦃f⦄ = record { dec = pair_discrete e.dec f.dec }

unfoldable pub bool_discrete : Discrete Bool
bool_discrete = hlevel

instance abbrev pub bool_eq : Eq Bool
bool_eq = record { dec = bool_discrete }
