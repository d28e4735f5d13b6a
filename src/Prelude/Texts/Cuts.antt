-- ===== src/Prelude/Texts/Cuts.antt =====
-- A text and what is cut from it: prefixes, suffixes, and the part before a character.
use sozu_gateway.Prelude.{
  ℕ, suc, ◌≤◌, ◌≡◌, ◌≢◌, refl, ap, sym, ◌∙◌, inl, inr, false, Option, none, some, [], ◌∷◌, ◌++◌,
  arith,
}
use sozu_gateway.Prelude.Tests.{if◌then◌else◌, Bool-cases}
use sozu_gateway.Prelude.Eq.{◌==◌, nat_eq, list_eq, ==-refl, eq_of-==, ==_of_ne}
use sozu_gateway.Prelude.Lists.{length}
use sozu_gateway.Prelude.Lists.Keys.{contains}
use sozu_gateway.Prelude.Texts.{Text, strip_prefix, strip_suffix}

pub append-strip_prefix : (t p rest : Text) → strip_prefix t p ≡ some rest → t ≡ p ++ rest
unfolding strip_prefix
append-strip_prefix t [] rest h = cc
append-strip_prefix [] (d ∷ p) rest h = ground (arith, h)
append-strip_prefix (c ∷ t) (d ∷ p) rest h = elim (Bool-cases (c == d)) [
  | inl e ↦
      let head : c ≡ d = eq_of-== c d e in
      let later = append-strip_prefix t p rest (ground (arith, h, e)) in
      ap (λ x. x ∷ t) head ∙ ap (λ r. d ∷ r) later
  | inr e ↦ ground (arith, h, e)
]

pub strip_prefix-append : (p rest : Text) → strip_prefix (p ++ rest) p ≡ some rest
unfolding strip_prefix
strip_prefix-append [] rest = ground arith
strip_prefix-append (c ∷ p) rest = rw (==-refl c) (strip_prefix-append p rest)

abbrev put : ℕ → Option Text → Option Text
put c none = none
put c (some p) = some (c ∷ p)

strip_suffix-step :
    (c : ℕ) (t suffix : Text)
    → strip_suffix (c ∷ t) suffix
      ≡ (if (c ∷ t) == suffix then some [] else put c (strip_suffix t suffix))
unfolding strip_suffix
strip_suffix-step c t suffix = ground arith

put-some :
    (c : ℕ) (o : Option Text) (p : Text)
    → put c o ≡ some p
    → (q : Text) × (o ≡ some q) × (p ≡ c ∷ q)
put-some c none p h = cc
put-some c (some q) p h = (q, refl, cc)

pub append-strip_suffix : (t suffix p : Text) → strip_suffix t suffix ≡ some p → t ≡ p ++ suffix
unfolding strip_suffix
append-strip_suffix [] suffix p h = elim (Bool-cases ([] == suffix)) [
  | inl e ↦
      let none_left : [] ≡ p = ground (arith, h, e) in
      eq_of-== [] suffix e ∙ ap (λ x. x ++ suffix) none_left
  | inr e ↦ ground (arith, h, e)
]
append-strip_suffix (c ∷ t) suffix p h = elim (Bool-cases ((c ∷ t) == suffix)) [
  | inl e ↦
      let none_left : [] ≡ p = ground (arith, h, e, strip_suffix-step c t suffix) in
      eq_of-== (c ∷ t) suffix e ∙ ap (λ x. x ++ suffix) none_left
  | inr e ↦
      let (q, found, is) =
        put-some c (strip_suffix t suffix) p (ground (arith, h, e, strip_suffix-step c t suffix)) in
      ap (λ r. c ∷ r) (append-strip_suffix t suffix q found) ∙ ap (λ x. x ++ suffix) (sym is)
]

shorter : (p s : Text) → length s ≤ length (p ++ s)
shorter [] s = omega arith
shorter (c ∷ p) s = omega (arith, shorter p s)

not_same : (c : ℕ) (p s : Text) → (c ∷ p ++ s) ≢ s
not_same c p s h =
    let n : suc (length (p ++ s)) ≡ length s = ap length h in omega (arith, n, shorter p s)

pub strip_suffix-append : (p suffix : Text) → strip_suffix (p ++ suffix) suffix ≡ some p
unfolding strip_suffix
strip_suffix-append [] [] = ground arith
strip_suffix-append [] (c ∷ s) = rw (==-refl (c ∷ s)) refl
strip_suffix-append (c ∷ p) suffix =
    strip_suffix-step c (p ++ suffix) suffix
    ∙ rw (==_of_ne (c ∷ p ++ suffix) suffix (not_same c p suffix)) refl
    ∙ ap (put c) (strip_suffix-append p suffix)

-- Two texts that are cut at their first `c` alike are cut into the same parts.
pub cut_unique :
    (c : ℕ) (a b s t : Text)
    → contains c a ≡ false
    → contains c b ≡ false
    → a ++ c ∷ s ≡ b ++ c ∷ t
    → (a ≡ b) × (s ≡ t)
cut_unique c [] [] s t h k e = (refl, cc)
cut_unique c [] (x ∷ b) s t h k e = let head : c ≡ x = cc in ground (arith, k, head)
cut_unique c (x ∷ a) [] s t h k e = let head : x ≡ c = cc in ground (arith, h, head)
cut_unique c (x ∷ a) (y ∷ b) s t h k e =
    let head : x ≡ y = cc in
    let tail : a ++ c ∷ s ≡ b ++ c ∷ t = cc in
    let (same, left) = cut_unique c a b s t (ground (arith, h)) (ground (arith, k)) tail in
    (ap (λ z. z ∷ a) head ∙ ap (λ z. y ∷ z) same, left)
