-- ===== src/Builder/Routes/Paths.antt =====
-- Paths with a request target in common (`paths_meet`, crates/builder/src/lib.rs).
use sozu_gateway.Prelude.{
  ◌≡◌, ◌⊎◌, refl, ap, sym, ◌∙◌, inl, inr, Bool, true, false, ◌||◌, [], ◌∷◌, ◌++◌, arith,
}
use sozu_gateway.Prelude.Tests.{Bool-cases, Option-cases}
use sozu_gateway.Prelude.Eq.{◌==◌, nat_eq, list_eq, eq_of-==, ==-comm}
use sozu_gateway.Prelude.Lists.{is_empty}
use sozu_gateway.Prelude.Texts.{Text, codes, starts_with, strip_prefix}
use sozu_gateway.Prelude.Texts.Cuts.{append-strip_prefix, strip_prefix-append}
use sozu_gateway.Ir.{PathMatch}
use sozu_gateway.Builder.Routes.{prefix_body, ends_element, prefix_covers, queried, paths_meet}

-- The targets of a path: an exact path takes itself and its queries; what a pattern matches is a
-- parameter.
abbrev pub takes : (Text → Text → Bool) → PathMatch → Text → Bool
takes matches (PathMatch.regex r) target = matches r target
takes matches (PathMatch.prefix p) target = prefix_covers p target
takes matches (PathMatch.exact e) target = target == e || queried target e

-- Of two prefixes of one text, one extends the other.
overlap :
    (a b r q : Text)
    → a ++ r ≡ b ++ q
    → ((s : Text) × (b ≡ a ++ s) × (r ≡ s ++ q)) ⊎ ((s : Text) × (a ≡ b ++ s) × (q ≡ s ++ r))
overlap [] b r q h = inl (b, refl, h)
overlap (x ∷ a) [] r q h = inr (x ∷ a, refl, sym h)
overlap (x ∷ a) (y ∷ b) r q h =
    let head : x ≡ y = cc in
    elim (overlap a b r q cc) [
      | inl (s, e, f) ↦ inl (s, ap (λ z. z ∷ b) (sym head) ∙ ap (λ z. x ∷ z) e, f)
      | inr (s, e, f) ↦ inr (s, ap (λ z. z ∷ a) head ∙ ap (λ z. y ∷ z) e, f)
    ]

-- The start of a rest that ends an element ends it too.
ends_start : (s q r : Text) → r ≡ s ++ q → ends_element r ≡ true → ends_element s ≡ true
unfolding starts_with
ends_start [] q r e h = refl
ends_start (c ∷ s) q r e h =
    let whole : ends_element (c ∷ s ++ q) ≡ true = sym (ap ends_element e) ∙ h in
    ground (arith, whole)

covers_of :
    (p target s : Text)
    → target ≡ prefix_body p ++ s
    → ends_element s ≡ true
    → prefix_covers p target ≡ true
unfolding prefix_covers
covers_of p target s e h =
    let found =
      ap (λ t. strip_prefix t (prefix_body p)) e ∙ strip_prefix-append (prefix_body p) s in
    ground (arith, found, h)

-- A covered target, behind its prefix; the root is followed by anything.
rest_of :
    (p target : Text)
    → prefix_covers p target ≡ true
    → is_empty (prefix_body p) ≡ false
    → (r : Text) × (target ≡ prefix_body p ++ r) × (ends_element r ≡ true)
unfolding prefix_covers
rest_of p target h n = elim (Option-cases (strip_prefix target (prefix_body p))) [
  | inl m ↦ ground (arith, h, n, m)
  | inr (r, m) ↦ (r, append-strip_prefix target (prefix_body p) r m, ground (arith, h, n, m))
]

root_covers : (p target : Text) → is_empty (prefix_body p) ≡ true → prefix_covers p target ≡ true
unfolding prefix_covers
root_covers p target h = rw h refl

queried_of : (path s : Text) → starts_with s (codes "?") ≡ true → queried (path ++ s) path ≡ true
queried_of path s h = let found = strip_prefix-append path s in ground (arith, found, h)

query_of :
    (target path : Text)
    → queried target path ≡ true
    → (s : Text) × (target ≡ path ++ s) × (starts_with s (codes "?") ≡ true)
query_of target path h = elim (Option-cases (strip_prefix target path)) [
  | inl m ↦ ground (arith, h, m)
  | inr (s, m) ↦ (s, append-strip_prefix target path s m, ground (arith, h, m))
]

-- The bodies of two prefixes of one target.
prefixes_meet :
    (x y target : Text)
    → prefix_covers x target ≡ true
    → prefix_covers y target ≡ true
    → (prefix_covers x (prefix_body y) || prefix_covers y (prefix_body x)) ≡ true
prefixes_meet x y target h k = elim (Bool-cases (is_empty (prefix_body x))) [
  | inl e ↦ let root = root_covers x (prefix_body y) e in ground (arith, root)
  | inr e ↦ elim (Bool-cases (is_empty (prefix_body y))) [
    | inl f ↦ let root = root_covers y (prefix_body x) f in ground (arith, root)
    | inr f ↦
        let (r, under, ends) = rest_of x target h e in
        let (q, over, stops) = rest_of y target k f in
        elim (overlap (prefix_body x) (prefix_body y) r q (sym under ∙ over)) [
          | inl (s, longer, split) ↦
              let covered = covers_of x (prefix_body y) s longer (ends_start s q r split ends) in
              ground (arith, covered)
          | inr (s, longer, split) ↦
              let covered = covers_of y (prefix_body x) s longer (ends_start s r q split stops) in
              ground (arith, covered)
        ]
  ]
]

starts_query :
    (s r q : Text)
    → starts_with r (codes "?") ≡ true
    → r ≡ s ++ q
    → (is_empty s || starts_with s (codes "?")) ≡ true
unfolding starts_with
starts_query [] r q h e = refl
starts_query (c ∷ s) r q h e =
    let whole : starts_with (c ∷ s ++ q) (codes "?") ≡ true =
      sym (ap (λ t. starts_with t (codes "?")) e) ∙ h in
    ground (arith, whole)

is_query : (s : Text) → starts_with s (codes "?") ≡ true → ends_element s ≡ true
is_query s h = ground (arith, h)

append_nil : (s : Text) → s ++ [] ≡ s
append_nil [] = refl
append_nil (c ∷ s) = ap (λ r. c ∷ r) (append_nil s)

no_rest : (a b s : Text) → a ≡ b ++ s → is_empty s ≡ true → a ≡ b
no_rest a b [] e h = e ∙ append_nil b
no_rest a b (c ∷ s) e h = cc

-- An exact path and a prefix that take one target.
exact_meets :
    (p e target : Text)
    → (target == e || queried target e) ≡ true
    → prefix_covers p target ≡ true
    → (prefix_covers p e || queried (prefix_body p) e) ≡ true
exact_meets p e target h k = elim (Bool-cases (target == e)) [
  | inl same ↦
      let covered = sym (ap (prefix_covers p) (eq_of-== target e same)) ∙ k in
      ground (arith, covered)
  | inr other ↦ elim (Bool-cases (is_empty (prefix_body p))) [
    | inl root ↦ let covered = root_covers p e root in ground (arith, covered)
    | inr named ↦
        let (q, asked, query) = query_of target e (ground (arith, h, other)) in
        let (r, under, ends) = rest_of p target k named in
        elim (overlap (prefix_body p) e r q (sym under ∙ asked)) [
          | inl (s, longer, split) ↦
              let covered = covers_of p e s longer (ends_start s q r split ends) in
              ground (arith, covered)
          | inr (s, longer, split) ↦ elim (Bool-cases (is_empty s)) [
            | inl done ↦
                let same = no_rest (prefix_body p) e s longer done in
                let covered = covers_of p e [] (sym same ∙ sym (append_nil (prefix_body p))) refl in
                ground (arith, covered)
            | inr more ↦
                let start = starts_query s q r query split in
                let found =
                  ap (λ t. queried t e) longer ∙ queried_of e s (ground (arith, start, more)) in
                ground (arith, found)
          ]
        ]
  ]
]

extended :
    (x y s : Text)
    → y ≡ x ++ s
    → (is_empty s || starts_with s (codes "?")) ≡ true
    → (x == y || queried x y || queried y x) ≡ true
extended x y s e h = elim (Bool-cases (is_empty s)) [
  | inl done ↦ let same = no_rest y x s e done in ground (arith, same)
  | inr more ↦
      let found = ap (λ t. queried t x) e ∙ queried_of x s (ground (arith, h, more)) in
      ground (arith, found)
]

-- Two exact paths that take one target.
exacts_meet :
    (x y target : Text)
    → (target == x || queried target x) ≡ true
    → (target == y || queried target y) ≡ true
    → (x == y || queried x y || queried y x) ≡ true
exacts_meet x y target h k = elim (Bool-cases (target == x)) [
  | inl is ↦
      let taken : (x == y || queried x y) ≡ true =
        sym (ap (λ t. t == y || queried t y) (eq_of-== target x is)) ∙ k in
      ground (arith, taken)
  | inr n ↦ elim (Bool-cases (target == y)) [
    | inl is ↦
        let asked : queried target x ≡ true = ground (arith, h, n) in
        let taken = sym (ap (λ t. queried t x) (eq_of-== target y is)) ∙ asked in
        ground (arith, taken)
    | inr m ↦
        let (r, under, query) = query_of target x (ground (arith, h, n)) in
        let (q, over, asked) = query_of target y (ground (arith, k, m)) in
        elim (overlap x y r q (sym under ∙ over)) [
          | inl (s, longer, split) ↦ extended x y s longer (starts_query s r q query split)
          | inr (s, longer, split) ↦
              let turned = extended y x s longer (starts_query s q r asked split) in
              ground (arith, turned, ==-comm x y)
        ]
  ]
]

-- Two paths that take one request target are found to meet, so that no pair of routes that a request
-- can match is missed, whatever a pattern matches.
pub paths_meet-of_target :
    (matches : Text → Text → Bool) (a b : PathMatch) (target : Text)
    → takes matches a target ≡ true
    → takes matches b target ≡ true
    → paths_meet a b ≡ true
unfolding paths_meet
paths_meet-of_target matches (PathMatch.regex r) b target h k = refl
paths_meet-of_target matches (PathMatch.exact x) (PathMatch.regex r) target h k = refl
paths_meet-of_target matches (PathMatch.prefix x) (PathMatch.regex r) target h k = refl
paths_meet-of_target matches (PathMatch.prefix x) (PathMatch.prefix y) target h k =
    prefixes_meet x y target h k
paths_meet-of_target matches (PathMatch.exact x) (PathMatch.prefix p) target h k =
    exact_meets p x target h k
paths_meet-of_target matches (PathMatch.prefix p) (PathMatch.exact x) target h k =
    exact_meets p x target k h
paths_meet-of_target matches (PathMatch.exact x) (PathMatch.exact y) target h k =
    exacts_meet x y target h k
