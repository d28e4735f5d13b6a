-- ===== src/Prelude/Order.antt =====
-- Total orders as Boolean tests (Rust's `Ord`), the derived lexicographic orders, and the stable
-- sort by a key (`sort_by_cached_key`, `sort_by_key`, `sort`).
pub mod Sort
pub mod Sets
pub mod Filter
use Prim.Native.Nat.{ℕ}
use mathlib.Core.Path.{◌≡◌, refl, ap}
use mathlib.Core.Logic.{◌⊎◌, inl, inr}
use mathlib.Core.Bool.{Bool, true, false, not, ◌&&◌, ◌||◌}
use mathlib.Core.List.{List, [], ◌∷◌}
use native.Mathlib.Omega.{arith}
use sozu_gateway.Prelude.Tests.{leb, if◌then◌else◌}

pub record Order {ℓ} (A : Type ℓ) : Type ℓ where
  pub le : A → A → Bool
  pub le_total : (a b : A) → (le a b ≡ true) ⊎ (le b a ≡ true)
  pub le_trans : (a b c : A) → le a b ≡ true → le b c ≡ true → le a c ≡ true
  pub le_antisym : (a b : A) → le a b ≡ true → le b a ≡ true → a ≡ b

pub nat_total : (a b : ℕ) → (leb a b ≡ true) ⊎ (leb b a ≡ true)
nat_total a b = ground arith

pub nat_trans : (a b c : ℕ) → leb a b ≡ true → leb b c ≡ true → leb a c ≡ true
nat_trans a b c p q = ground arith

pub nat_antisym : (a b : ℕ) → leb a b ≡ true → leb b a ≡ true → a ≡ b
nat_antisym a b p q = ground arith

instance abbrev pub nat_order : Order ℕ
nat_order = record {
  le = leb;
  le_total = nat_total;
  le_trans = nat_trans;
  le_antisym = nat_antisym;
}

-- `a` strictly first, or equal and then `rest`.
abbrev pub then_le : Bool → Bool → Bool → Bool
then_le ab ba rest = ab && (not ba || rest)

module _ {ℓ κ} {A : Type ℓ} {B : Type κ} ⦃o : Order A⦄ ⦃p : Order B⦄ where
  unfoldable pub pair_le : A × B → A × B → Bool
  pair_le (a, b) (c, d) = then_le (o.le a c) (o.le c a) (p.le b d)

  pub pair_total : (x y : A × B) → (pair_le x y ≡ true) ⊎ (pair_le y x ≡ true)
  unfolding pair_le
  pair_total (a, b) (c, d) = ground (arith, o.le_total a c, p.le_total b d)

  pub pair_trans : (x y z : A × B) → pair_le x y ≡ true → pair_le y z ≡ true → pair_le x z ≡ true
  unfolding pair_le
  pair_trans (a, b) (c, d) (e, f) h k =
      ground (arith, o.le_trans a c e, o.le_trans c e a, o.le_trans e a c, p.le_trans b d f)

  pub pair_antisym : (x y : A × B) → pair_le x y ≡ true → pair_le y x ≡ true → x ≡ y
  unfolding pair_le
  pair_antisym (a, b) (c, d) h k = ground (arith, o.le_antisym a c, p.le_antisym b d)

  instance abbrev pub pair_order : Order (A × B)
  pair_order = record {
    le = pair_le;
    le_total = pair_total;
    le_trans = pair_trans;
    le_antisym = pair_antisym;
  }

module _ {ℓ} {A : Type ℓ} ⦃o : Order A⦄ where
  unfoldable pub list_le : List A → List A → Bool
  list_le [] ys = true
  list_le (x ∷ xs) [] = false
  list_le (x ∷ xs) (y ∷ ys) = then_le (o.le x y) (o.le y x) (list_le xs ys)

  pub list_total : (xs ys : List A) → (list_le xs ys ≡ true) ⊎ (list_le ys xs ≡ true)
  unfolding list_le
  list_total [] ys = inl refl
  list_total (x ∷ xs) [] = inr refl
  list_total (x ∷ xs) (y ∷ ys) = ground (arith, o.le_total x y, list_total xs ys)

  pub list_trans :
      (xs ys zs : List A) → list_le xs ys ≡ true → list_le ys zs ≡ true → list_le xs zs ≡ true
  unfolding list_le
  list_trans [] ys zs h k = refl
  list_trans (x ∷ xs) [] zs h k = ground arith
  list_trans (x ∷ xs) (y ∷ ys) [] h k = k
  list_trans (x ∷ xs) (y ∷ ys) (z ∷ zs) h k =
      ground (arith, o.le_trans x y z, o.le_trans y z x, o.le_trans z x y, list_trans xs ys zs)

  pub list_antisym : (xs ys : List A) → list_le xs ys ≡ true → list_le ys xs ≡ true → xs ≡ ys
  unfolding list_le
  list_antisym [] [] h k = refl
  list_antisym [] (y ∷ ys) h k = ground arith
  list_antisym (x ∷ xs) [] h k = ground arith
  list_antisym (x ∷ xs) (y ∷ ys) h k = ground (arith, o.le_antisym x y, list_antisym xs ys)

  instance abbrev pub list_order : Order (List A)
  list_order = record {
    le = list_le;
    le_total = list_total;
    le_trans = list_trans;
    le_antisym = list_antisym;
  }

-- The order of a key that tells the elements apart (a derived `Ord`).
module _ {ℓ κ} {A : Type ℓ} {K : Type κ} ⦃o : Order K⦄ (key : A → K) where
  abbrev pub order_by : ((a b : A) → key a ≡ key b → a ≡ b) → Order A
  order_by injective = record {
    le = λ a b. o.le (key a) (key b);
    le_total = λ a b. o.le_total (key a) (key b);
    le_trans = λ a b c. o.le_trans (key a) (key b) (key c);
    le_antisym = λ a b h k. injective a b (o.le_antisym (key a) (key b) h k);
  }

-- `std::cmp::Reverse`
pub record Reverse {ℓ} (A : Type ℓ) : Type ℓ where
  pub value : A

module _ {ℓ} {A : Type ℓ} ⦃o : Order A⦄ where
  instance abbrev pub reverse_order : Order (Reverse A)
  reverse_order = record {
    le = λ a b. o.le b.value a.value;
    le_total = λ a b. o.le_total b.value a.value;
    le_trans = λ a b c h k. o.le_trans c.value b.value a.value k h;
    le_antisym = λ a b h k. ap (λ (v : A). record { value = v }) (o.le_antisym a.value b.value k h);
  }

  -- `a < b`
  abbrev pub lt : A → A → Bool
  lt a b = not (o.le b a)
