-- ===== src/Builder/Gateway/Intersection.antt =====
-- The hosts that a route serves on a listener (`host_intersection` and `effective_hostnames`,
-- crates/builder/src/gateway.rs).
use sozu_gateway.Prelude.{
  ◌≡◌, refl, ap, sym, ◌∙◌, inl, inr, Bool, true, false, ◌&&◌, ◌||◌, Option, none, some, List, [],
  ◌∷◌, ◌++◌, arith,
}
use sozu_gateway.Prelude.Tests.{Bool-cases}
use sozu_gateway.Prelude.Eq.{◌==◌, nat_eq, list_eq, eq_of-==, ==-comm}
use sozu_gateway.Prelude.Lists.{any, filter_map}
use sozu_gateway.Prelude.Texts.{Text, codes}
use sozu_gateway.Prelude.Texts.Cuts.{cut_unique}
use sozu_gateway.Builder.Gateway.{wildcard_covers, host_intersection, effective_hostnames}
use sozu_gateway.Builder.Gateway.Hostnames.{IsCovered, wildcard_covers-IsCovered}

-- A hostname admits itself, and a wildcard also the hosts of one more label.
abbrev pub admits : Text → Text → Bool
admits pattern host = pattern == host || wildcard_covers pattern host

-- Two wildcards over one host are the same.
one_wildcard : (a b host : Text) → IsCovered a host → IsCovered b host → a ≡ b
one_wildcard a b host i j =
    let (same, suffix) =
      cut_unique b'.' i.label j.label i.suffix j.suffix (ground (arith, i.one_label))
        (ground (arith, j.one_label)) (sym i.under ∙ j.under) in
    i.star ∙ ap (λ s. codes "*." ++ s) suffix ∙ sym j.star

-- A wildcard that covers a wildcard is the same.
no_wider : (a b host : Text) → IsCovered a b → IsCovered b host → a ≡ b
no_wider a b host i j =
    let (same, suffix) =
      cut_unique b'.' i.label (codes "*") i.suffix j.suffix (ground (arith, i.one_label))
        (ground arith) (sym i.under ∙ j.star) in
    i.star ∙ ap (λ s. codes "*." ++ s) suffix ∙ sym j.star

-- What a narrower hostname admits, the wider one admits.
narrower :
    (wide narrow host : Text)
    → (wide == narrow) ≡ false
    → wildcard_covers wide narrow ≡ true
    → admits narrow host ≡ true
    → admits wide host ≡ true
narrower wide narrow host d c h = elim (Bool-cases (narrow == host)) [
  | inl e ↦
      let covers = sym (ap (wildcard_covers wide) (eq_of-== narrow host e)) ∙ c in
      ground (arith, covers)
  | inr e ↦
      let under = wildcard_covers-IsCovered narrow host (ground (arith, h, e)) in
      let same = no_wider wide narrow host (wildcard_covers-IsCovered wide narrow c) under in
      ground (arith, d, same)
]

abbrev pub admits_some : Option Text → Text → Bool
admits_some none host = false
admits_some (some pattern) host = admits pattern host

left_only : (a b : Bool) → (a ≡ true → b ≡ true) → a ≡ (a && b)
left_only true b h = sym (h refl)
left_only false b h = refl

right_only : (a b : Bool) → (b ≡ true → a ≡ true) → b ≡ (a && b)
right_only true b h = refl
right_only false true h = cc (h refl)
right_only false false h = refl

never_both : (a b : Bool) → (a ≡ true → b ≡ false) → false ≡ (a && b)
never_both true b h = sym (h refl)
never_both false b h = refl

-- Hostnames that neither equal nor cover each other have no host in common.
apart :
    (route listener host : Text)
    → (route == listener) ≡ false
    → wildcard_covers listener route ≡ false
    → wildcard_covers route listener ≡ false
    → admits route host ≡ true
    → admits listener host ≡ false
apart route listener host e c d h = elim (Bool-cases (route == host)) [
  | inl r ↦ let is : route ≡ host = eq_of-== route host r in ground (arith, c, e, is)
  | inr r ↦ elim (Bool-cases (admits listener host)) [
    | inr n ↦ n
    | inl n ↦ elim (Bool-cases (listener == host)) [
      | inl l ↦ let is : listener ≡ host = eq_of-== listener host l in ground (arith, d, h, r, is)
      | inr l ↦
          let same : route ≡ listener =
            one_wildcard route listener host
              (wildcard_covers-IsCovered route host (ground (arith, h, r)))
              (wildcard_covers-IsCovered listener host (ground (arith, n, l))) in
          ground (arith, e, same)
    ]
  ]
]

-- The hostname that both sides allow admits the hosts that both admit.
host_intersection-admits :
    (route listener host : Text)
    → admits_some (host_intersection route listener) host
      ≡ admits route host && admits listener host
unfolding host_intersection
host_intersection-admits route listener host = elim (Bool-cases (route == listener)) [
  | inl e ↦
      let same : route ≡ listener = eq_of-== route listener e in
      rw e (ap (λ b. b) (ground (arith, ap (λ r. admits r host) same)))
  | inr e ↦ elim (Bool-cases (wildcard_covers listener route)) [
    | inl c ↦
        rw (e, c)
          (left_only (admits route host) (admits listener host)
            (narrower listener route host (==-comm listener route ∙ e) c))
    | inr c ↦ elim (Bool-cases (wildcard_covers route listener)) [
      | inl d ↦
          rw (e, c, d)
            (right_only (admits route host) (admits listener host)
              (narrower route listener host e d))
      | inr d ↦
          rw (e, c, d)
            (never_both (admits route host) (admits listener host)
              (apart route listener host e c d))
    ]
  ]
]

abbrev pub allows : Option Text → Text → Bool
allows none host = true
allows (some listener) host = admits listener host

any_step :
    (o : Option Text) (host : Text) (routes : List Text) (listener : Text)
    → any
        (λ p. admits p host)
        (elim o [
          | none ↦ filter_map (λ h. host_intersection h listener) routes
          | some y ↦ y ∷ filter_map (λ h. host_intersection h listener) routes
        ])
      ≡ admits_some o host
        || any (λ p. admits p host) (filter_map (λ h. host_intersection h listener) routes)
any_step none host routes listener = refl
any_step (some y) host routes listener = refl

any-filter_map :
    (routes : List Text) (listener host : Text)
    → any (λ p. admits p host) (filter_map (λ h. host_intersection h listener) routes)
      ≡ any (λ p. admits p host) routes && admits listener host
any-filter_map [] listener host = refl
any-filter_map (r ∷ routes) listener host =
    any_step (host_intersection r listener) host routes listener
    ∙ ground (arith, host_intersection-admits r listener host, any-filter_map routes listener host)

-- A route with hostnames serves, on a listener, exactly the hosts that one of its hostnames and the
-- listener's hostname admit; a listener without a hostname admits every host.
pub effective_hostnames-admits :
    (routes : List Text) (listener : Option Text) (host : Text)
    → any (λ p. admits p host) (effective_hostnames (some routes) listener)
      ≡ any (λ p. admits p host) routes && allows listener host
unfolding effective_hostnames
effective_hostnames-admits routes none host = ground arith
effective_hostnames-admits routes (some l) host = any-filter_map routes l host
