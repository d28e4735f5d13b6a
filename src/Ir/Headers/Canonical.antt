-- ===== src/Ir/Headers/Canonical.antt =====
-- The canonical form of a header conjunction (`HeaderMatch::canonical`, crates/ir/src/lib.rs)
-- and the set of its conditions.
use sozu_gateway.Prelude.{
  ℕ, ◌+◌, ◌≡◌, refl, inl, inr, sym, ap, ◌∙◌, ◌↔◌, Bool, true, false, ◌&&◌, ◌||◌, List, [], ◌∷◌, map,
  ℕ_discrete, arith,
}
use sozu_gateway.Prelude.Tests.{leb, Bool-cases}
use sozu_gateway.Prelude.Eq.{Eq, ◌==◌, nat_eq, list_eq, eq_of-==, ==_of_ne, ==-refl}
use sozu_gateway.Prelude.Lists.{any}
use sozu_gateway.Prelude.Texts.{Text, lower, to_ascii_lowercase, to_ascii_lowercase_idem}
use sozu_gateway.Prelude.Lists.Keys.{contains}
use sozu_gateway.Prelude.Order.Sets.{ascending, contains-to_set, to_set-eq, to_set-ascending}
use sozu_gateway.Ir.{HeaderMatch, HeaderMatchKind}
use sozu_gateway.Ir.Headers.{canonical, lowered, header_order, header_eq}

unfoldable pub HeaderMatchKind_discrete : Discrete HeaderMatchKind
HeaderMatchKind_discrete = hlevel ℕ_discrete

instance abbrev pub kind_eq : Eq HeaderMatchKind
kind_eq = record { dec = HeaderMatchKind_discrete }

==-cons : (a b : ℕ) (s t : Text) → ((a ∷ s) == (b ∷ t)) ≡ (a == b && s == t)
==-cons a b s t =
    ground (arith, eq_of-== (a ∷ s) (b ∷ t), ==_of_ne (a ∷ s) (b ∷ t), eq_of-== s t, ==_of_ne s t)

-- One letter, in either case.
abbrev same_letter : ℕ → ℕ → Bool
same_letter a b =
    a == b || leb b'A' a && leb a b'Z' && b == a + 32 || leb b'A' b && leb b b'Z' && a == b + 32

abbrev same_name : Text → Text → Bool
same_name [] [] = true
same_name [] (b ∷ t) = false
same_name (a ∷ s) [] = false
same_name (a ∷ s) (b ∷ t) = same_letter a b && same_name s t

-- One condition: names are compared without regard to case, kinds and values as they are.
abbrev pub same_condition : HeaderMatch → HeaderMatch → Bool
same_condition m n = same_name m.name n.name && m.kind == n.kind

same_letter_lem : (a b : ℕ) → (lower a == lower b) ≡ same_letter a b
unfolding lower
same_letter_lem a b = ground arith

same_name_lem : (s t : Text) → (to_ascii_lowercase s == to_ascii_lowercase t) ≡ same_name s t
unfolding to_ascii_lowercase
same_name_lem [] [] = ==-refl {A = Text} []
same_name_lem [] (b ∷ t) = ground (arith, ==_of_ne [] (lower b ∷ to_ascii_lowercase t))
same_name_lem (a ∷ s) [] = ground (arith, ==_of_ne (lower a ∷ to_ascii_lowercase s) [])
same_name_lem (a ∷ s) (b ∷ t) =
    ==-cons (lower a) (lower b) (to_ascii_lowercase s) (to_ascii_lowercase t)
    ∙ ground (arith, same_letter_lem a b, same_name_lem s t)

same_condition_lem : (m n : HeaderMatch) → (lowered m == lowered n) ≡ same_condition m n
same_condition_lem m n = ground (
  arith,
  same_name_lem m.name n.name,
  eq_of-== (lowered m) (lowered n),
  ==_of_ne (lowered m) (lowered n),
  eq_of-== (to_ascii_lowercase m.name) (to_ascii_lowercase n.name),
  ==_of_ne (to_ascii_lowercase m.name) (to_ascii_lowercase n.name),
)

contains-lowered :
    (m : HeaderMatch) (xs : List HeaderMatch)
    → contains (lowered m) (map lowered xs) ≡ any (same_condition m) xs
contains-lowered m [] = refl
contains-lowered m (x ∷ xs) = ground (arith, same_condition_lem m x, contains-lowered m xs)

lowered_idem : (m : HeaderMatch) → lowered (lowered m) ≡ lowered m
lowered_idem m = cc (to_ascii_lowercase_idem m.name)

-- What a lowered list holds is itself in lower case.
lowered_of-contains :
    (m : HeaderMatch) (xs : List HeaderMatch) → contains m (map lowered xs) ≡ true → lowered m ≡ m
lowered_of-contains m [] h = cc
lowered_of-contains m (x ∷ xs) h = elim (Bool-cases (m == lowered x)) [
  | inl t ↦ let e : m ≡ lowered x = eq_of-== m (lowered x) t in cc (e, lowered_idem x)
  | inr t ↦ lowered_of-contains m xs (ground (arith, t, h))
]

same_members :
    (xs ys : List HeaderMatch)
    → ((m : HeaderMatch) → any (same_condition m) xs ≡ any (same_condition m) ys)
    → (m : HeaderMatch) → contains m (map lowered xs) ≡ true
    → contains m (map lowered ys) ≡ true
same_members xs ys h m c =
    let e = lowered_of-contains m xs c in
    ap (λ k. contains k (map lowered ys)) (sym e)
    ∙ contains-lowered m ys
    ∙ sym (h m)
    ∙ sym (contains-lowered m xs)
    ∙ ap (λ k. contains k (map lowered xs)) e
    ∙ c

-- Two conjunctions have one canonical form exactly when they list the same conditions, whatever
-- the order, the repetitions and the case of the letters of a name.
pub canonical-eq_iff :
    (xs ys : List HeaderMatch)
    → (canonical xs ≡ canonical ys)
      ↔ ((m : HeaderMatch) → any (same_condition m) xs ≡ any (same_condition m) ys)
unfolding canonical
canonical-eq_iff xs ys = (
  λ e m.
      sym (contains-lowered m xs)
      ∙ sym (contains-to_set (lowered m) (map lowered xs))
      ∙ ap (contains (lowered m)) e
      ∙ contains-to_set (lowered m) (map lowered ys)
      ∙ contains-lowered m ys,
  λ h.
      to_set-eq (map lowered xs) (map lowered ys)
        λ m. ground (arith, same_members xs ys h m, same_members ys xs (λ n. sym (h n)) m),
)

pub canonical-ascending : (xs : List HeaderMatch) → ascending (canonical xs) ≡ true
unfolding canonical
canonical-ascending xs = to_set-ascending (map lowered xs)
