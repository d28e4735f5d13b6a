-- ===== src/Builder/Routes/Collisions.antt =====
-- One frontend under each route key, crates/builder/src/lib.rs: `resolve_frontend_collisions` and
-- the claims it arbitrates by.
pub mod Winners
use sozu_gateway.Prelude.{
  ℕ, Bool, true, false, not, ◌&&◌, ◌||◌, Option, none, some, List, [], ◌∷◌, ◌++◌, ℕ_discrete,
}
use sozu_gateway.Prelude.Tests.{if◌then◌else◌}
use sozu_gateway.Prelude.Eq.{Eq, ◌==◌, nat_eq, list_eq, option_eq, pair_eq, bool_eq}
use sozu_gateway.Prelude.Lists.{find}
use sozu_gateway.Prelude.Lists.Keys.{lookup, unique_by}
use sozu_gateway.Prelude.Order.{Order, nat_order, list_order, pair_order}
use sozu_gateway.Prelude.Order.Sort.{sort_by}
use sozu_gateway.Prelude.Texts.{Text, codes}
use sozu_gateway.Prelude.Int.{ℤ}
use sozu_gateway.Wire.{ℤ_discrete}
use sozu_gateway.Ir.{
  Frontend, FrontendFilters, PathMatch, SozuPathRule, HeaderMatch, HeaderMatch_discrete, address_eq,
}
use sozu_gateway.Ir.Rule.{sozu_rule}
use sozu_gateway.Ir.Headers.{canonical}
use sozu_gateway.Ir.RouteKey.{Show, SozuRouteKey, sozu_route_key, route_key_eq}

pub record Parent : Type 0 where
  pub gateway_namespace : Text
  pub gateway_name : Text
  pub section_name : Option Text
  pub port : Option ℤ

pub data FrontendSource : Type 0 where
  ingress : Text → Text → FrontendSource
  http_route : Text → Text → Parent → FrontendSource

pub record SourcedFrontend : Type 0 where
  pub frontend : Frontend
  pub source : FrontendSource

-- `(kind, namespace, name)`
abbrev pub OwnerIdent : Type 0
OwnerIdent = ℕ × (Text × Text)

-- Whether the time is absent, the time, and `namespace/name`.
abbrev pub OwnerClaim : Type 0
OwnerClaim = Bool × (Option Text × Text)

unfoldable pub owner_ident : FrontendSource → OwnerIdent
owner_ident (ingress namespace name) = (0, (namespace, name))
owner_ident (http_route namespace name parent) = (1, (namespace, name))

abbrev pub Claims : Type 0
Claims = List (OwnerIdent × OwnerClaim)

unfoldable pub claim_for : OwnerIdent → Claims → OwnerClaim
claim_for (kind, (namespace, name)) claims = elim (lookup (kind, (namespace, name)) claims) [
  | some claim ↦ claim
  | none ↦ (true, (none, namespace ++ b'/' ∷ name))
]

unfoldable pub claim_of : FrontendSource → Claims → OwnerClaim
unfolding claim_for
claim_of source claims = claim_for (owner_ident source) claims

-- A claim as Rust orders it: `false` before `true`, `None` before `Some`.
abbrev pub claim_rank : OwnerClaim → ℕ × (List Text × Text)
claim_rank (absent, (time, name)) =
    ((if absent then 1 else 0), ((elim time [ none ↦ [] | some t ↦ t ∷ [] ]), name))

unfoldable pub SozuPathRule_discrete : Discrete SozuPathRule
SozuPathRule_discrete = hlevel ℕ_discrete

instance abbrev rule_eq : Eq SozuPathRule
rule_eq = record { dec = SozuPathRule_discrete }

unfoldable pub FrontendFilters_discrete : Discrete FrontendFilters
FrontendFilters_discrete = hlevel ℕ_discrete

instance abbrev filters_eq : Eq FrontendFilters
filters_eq = record { dec = FrontendFilters_discrete }

unfoldable pub FrontendSource_discrete : Discrete FrontendSource
FrontendSource_discrete = hlevel (ℤ_discrete, ℕ_discrete)

instance abbrev source_eq : Eq FrontendSource
source_eq = record { dec = FrontendSource_discrete }

instance abbrev header_eq : Eq HeaderMatch
header_eq = record { dec = HeaderMatch_discrete }

unfoldable pub same_match : Frontend → Frontend → Bool
same_match a b =
    a.tls == b.tls
    && a.listener == b.listener
    && a.hostname == b.hostname
    && sozu_rule a.path == sozu_rule b.path
    && a.method == b.method
    && canonical a.header_matches == canonical b.header_matches

unfoldable pub path_value : PathMatch → Text
path_value (PathMatch.prefix v) = v
path_value (PathMatch.exact v) = v
path_value (PathMatch.regex v) = v

-- `Problem::RouteCollision`
pub record RouteCollision : Type 0 where
  pub hostname : Text
  pub path : Text
  pub winner : Text
  pub key_only : Bool

unfoldable pub collision : Frontend → Frontend → RouteCollision
collision winner loser = record {
  hostname = loser.hostname;
  path = path_value loser.path;
  winner = elim winner.cluster_id [ none ↦ codes "<redirect>" | some id ↦ id ];
  key_only = not (same_match winner loser);
}

-- What becomes of a frontend, beside the winner of its key.
pub data Fate : Type 0 where
  silent : Fate
  folded : Fate
  collides : RouteCollision → Fate

unfoldable pub fate : SourcedFrontend → SourcedFrontend → Fate
fate winner sf =
    let same_effect : Bool =
      winner.frontend.cluster_id == sf.frontend.cluster_id
      && winner.frontend.filters == sf.frontend.filters in
    if same_match winner.frontend sf.frontend
      && (owner_ident winner.source == owner_ident sf.source || same_effect)
    then if same_effect && not (sf.source == winner.source) then folded else silent
    else collides (collision winner.frontend sf.frontend)

pub record Resolved : Type 0 where
  pub kept : List SourcedFrontend
  pub folded : List SourcedFrontend
  pub collisions : List (FrontendSource × RouteCollision)

-- By claim, and a claim's frontends as they were emitted.
unfoldable pub by_claim : Claims → List SourcedFrontend → List SourcedFrontend
by_claim claims = sort_by (λ sf. claim_rank (claim_of sf.source claims))

module _ (show : Show) where
  abbrev pub route_key : SourcedFrontend → SozuRouteKey
  route_key sf = sozu_route_key show sf.frontend

  unfoldable pub winner_of : List SourcedFrontend → SourcedFrontend → Option SourcedFrontend
  winner_of kept sf = find (λ w. route_key sf == route_key w) kept

  -- The second loop.
  unfoldable pub settle_losers : List SourcedFrontend → List SourcedFrontend → Resolved
  unfolding winner_of
  settle_losers kept [] = record { kept = kept; folded = []; collisions = [] }
  settle_losers kept (sf ∷ rest) =
      let later = settle_losers kept rest in
      elim (winner_of kept sf) [
        | none ↦ later
        | some winner ↦ elim (fate winner sf) [
          | silent ↦ later
          | folded ↦ record later { folded = sf ∷ later.folded }
          | collides problem ↦ record later { collisions = (sf.source, problem) ∷ later.collisions }
        ]
      ]

  unfoldable pub resolve_frontend_collisions : List SourcedFrontend → Claims → Resolved
  unfolding by_claim settle_losers
  resolve_frontend_collisions frontends claims =
      let sorted = by_claim claims frontends in settle_losers (unique_by route_key sorted) sorted
