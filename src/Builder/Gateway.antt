-- ===== src/Builder/Gateway.antt =====
-- The hostnames of Gateway API routes and the grants of references, crates/builder/src/gateway.rs.
pub mod Hostnames
pub mod Intersection
use sozu_gateway.Prelude.{ℕ, Bool, true, false, not, ◌&&◌, Option, none, some, List, [], ◌∷◌, ◌++◌}
use sozu_gateway.Prelude.Tests.{if◌then◌else◌}
use sozu_gateway.Prelude.Eq.{◌==◌, nat_eq, list_eq}
use sozu_gateway.Prelude.Lists.{any, filter_map, is_empty}
use sozu_gateway.Prelude.Lists.Keys.{contains}
use sozu_gateway.Prelude.Texts.{Text, codes, strip_prefix, strip_suffix}

-- One label, without a dot.
abbrev pub is_label : Text → Bool
is_label label = not (is_empty label) && not (contains b'.' label)

unfoldable pub wildcard_covers : Text → Text → Bool
wildcard_covers wildcard host = elim (strip_prefix wildcard (codes "*.")) [
  | none ↦ false
  | some suffix ↦ elim (strip_suffix host suffix) [
    | none ↦ false
    | some prefix ↦ elim (strip_suffix prefix (codes ".")) [
      | none ↦ false
      | some label ↦ is_label label
    ]
  ]
]

unfoldable pub host_intersection : Text → Text → Option Text
host_intersection route listener =
    if (if route == listener then true else wildcard_covers listener route)
    then some route
    else if wildcard_covers route listener
    then some listener
    else none

unfoldable pub effective_hostnames : Option (List Text) → Option Text → List Text
effective_hostnames (some routes) (some l) = filter_map (λ h. host_intersection h l) routes
effective_hostnames (some routes) none = routes
effective_hostnames none (some l) = l ∷ []
effective_hostnames none none = codes "*" ∷ []

-- What the builder reads of a `ReferenceGrant`.
pub record GrantFrom : Type 0 where
  pub group : Text
  pub kind : Text
  pub namespace : Text

pub record GrantTo : Type 0 where
  pub group : Text
  pub kind : Text
  pub name : Option Text

pub record ReferenceGrant : Type 0 where
  pub namespace : Option Text
  pub from : List GrantFrom
  pub to : List GrantTo

abbrev pub or_default : Option Text → Text
or_default none = codes "default"
or_default (some namespace) = namespace

unfoldable pub reference_granted :
    List ReferenceGrant → Text → Text → Text → Text → Text → Text → Text → Bool
reference_granted grants to_ns to_group to_kind to_name from_ns from_group from_kind =
    any
      (λ (grant : ReferenceGrant).
        or_default grant.namespace == to_ns
        && any
            (λ (f : GrantFrom).
              f.group == from_group && f.kind == from_kind && f.namespace == from_ns)
            grant.from
        && any
            (λ (t : GrantTo).
              t.group == to_group
              && t.kind == to_kind
              && elim t.name [ none ↦ true | some n ↦ n == to_name ])
            grant.to)
      grants
