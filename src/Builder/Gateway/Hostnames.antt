-- ===== src/Builder/Gateway/Hostnames.antt =====
-- A wildcard and the hosts that it covers (`wildcard_covers`, crates/builder/src/gateway.rs).
use sozu_gateway.Prelude.{
  ◌≡◌, refl, ap, sym, ◌∙◌, inl, inr, Bool, true, false, Option, none, some, [], ◌∷◌, ◌++◌, arith,
}
use sozu_gateway.Prelude.Tests.{Option-cases}
use sozu_gateway.Prelude.Eq.{nat_eq, list_eq}
use sozu_gateway.Prelude.Texts.{Text, codes, strip_prefix, strip_suffix}
use sozu_gateway.Prelude.Texts.Cuts.{
  append-strip_prefix, strip_prefix-append, append-strip_suffix, strip_suffix-append,
}
use sozu_gateway.Builder.Gateway.{is_label, wildcard_covers}

-- `*.suffix` and a host of one more label.
pub record IsCovered (wildcard host : Text) : Type 0 where
  pub label : Text
  pub suffix : Text
  pub star : wildcard ≡ codes "*." ++ suffix
  pub under : host ≡ label ++ b'.' ∷ suffix
  pub one_label : is_label label ≡ true

dot_between : (a s : Text) → (a ++ codes ".") ++ s ≡ a ++ b'.' ∷ s
dot_between [] s = refl
dot_between (c ∷ a) s = ap (λ r. c ∷ r) (dot_between a s)

pub wildcard_covers-IsCovered :
    (wildcard host : Text) → wildcard_covers wildcard host ≡ true → IsCovered wildcard host
unfolding wildcard_covers
wildcard_covers-IsCovered wildcard host h =
    elim (Option-cases (strip_prefix wildcard (codes "*."))) [
      | inl n ↦ ground (arith, h, n)
      | inr (suffix, n) ↦ elim (Option-cases (strip_suffix host suffix)) [
        | inl m ↦ ground (arith, h, n, m)
        | inr (prefix, m) ↦ elim (Option-cases (strip_suffix prefix (codes "."))) [
          | inl l ↦ ground (arith, h, n, m, l)
          | inr (label, l) ↦ record {
            label = label;
            suffix = suffix;
            star = append-strip_prefix wildcard (codes "*.") suffix n;
            under =
                append-strip_suffix host suffix prefix m
                ∙ ap (λ p. p ++ suffix) (append-strip_suffix prefix (codes ".") label l)
                ∙ dot_between label suffix;
            one_label = ground (arith, h, n, m, l);
          }
        ]
      ]
    ]

-- The tests of `wildcard_covers`, the last first.
abbrev from_label : Option Text → Bool
from_label o = elim o [ none ↦ false | some label ↦ is_label label ]

abbrev from_prefix : Option Text → Bool
from_prefix o = elim o [ none ↦ false | some prefix ↦ from_label (strip_suffix prefix (codes ".")) ]

abbrev from_suffix : Text → Option Text → Bool
from_suffix host o = elim o [ none ↦ false | some suffix ↦ from_prefix (strip_suffix host suffix) ]

covers :
    (label suffix : Text)
    → is_label label ≡ true
    → wildcard_covers (codes "*." ++ suffix) (label ++ b'.' ∷ suffix) ≡ true
unfolding wildcard_covers
covers label suffix h =
    ap (from_suffix (label ++ b'.' ∷ suffix)) (strip_prefix-append (codes "*.") suffix)
    ∙ ap (λ host. from_prefix (strip_suffix host suffix)) (sym (dot_between label suffix))
    ∙ ap from_prefix (strip_suffix-append (label ++ codes ".") suffix)
    ∙ ap from_label (strip_suffix-append label (codes "."))
    ∙ h

pub wildcard_covers_of-IsCovered :
    (wildcard host : Text) → IsCovered wildcard host → wildcard_covers wildcard host ≡ true
wildcard_covers_of-IsCovered wildcard host i =
    ap (λ w. wildcard_covers w host) i.star
    ∙ ap (wildcard_covers (codes "*." ++ i.suffix)) i.under
    ∙ covers i.label i.suffix i.one_label
