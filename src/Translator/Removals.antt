-- ===== src/Translator/Removals.antt =====
-- `expand_cluster_removals` and `drop_superseded_backend_removes`, crates/translator/src/lib.rs:
-- the corrections of a diff before it is put in order. What Sōzu's state says a cluster removal
-- takes with it (`ConfigState::cluster_removal_requests`) is a parameter.
pub mod Corrected
use sozu_gateway.Prelude.{Bool, true, false, not, Option, none, some, List, [], ◌∷◌, ◌++◌}
use sozu_gateway.Prelude.Tests.{if◌then◌else◌}
use sozu_gateway.Prelude.Eq.{list_eq, nat_eq, pair_eq}
use sozu_gateway.Prelude.Lists.{filter, filter_map, flat_map, is_empty}
use sozu_gateway.Prelude.Lists.Keys.{contains}
use sozu_gateway.Prelude.Texts.{Text}
use sozu_gateway.Ir.{SocketAddr, address_eq}
use sozu_gateway.Wire.{Request, RequestType, unwire}
use sozu_gateway.Wire.RequestType.{remove_cluster, add_backend, remove_backend}

-- The cluster that a request removes.
unfoldable pub removed_cluster_of : RequestType → Option Text
removed_cluster_of (remove_cluster id) = some id
removed_cluster_of _ = none

unfoldable pub removed_cluster : Request → Option Text
unfolding removed_cluster_of
removed_cluster r = elim r.request_type [ none ↦ none | some kind ↦ removed_cluster_of kind ]

unfoldable pub expand_one : (Text → List Request) → Request → List Request
expand_one removals req = elim (removed_cluster req) [
  | none ↦ req ∷ []
  | some cluster_id ↦ removals cluster_id ++ req ∷ []
]

unfoldable pub expand_cluster_removals : (Text → List Request) → List Request → List Request
unfolding expand_one
expand_cluster_removals removals = flat_map (expand_one removals)

-- (cluster id, backend id, address)
abbrev pub BackendKey : Type 0
BackendKey = Text × (Text × SocketAddr)

unfoldable pub added_backend_of : RequestType → Option BackendKey
unfolding unwire
added_backend_of (add_backend b) = some (b.cluster_id, (b.backend_id, unwire b.address))
added_backend_of _ = none

unfoldable pub removed_backend_of : RequestType → Option BackendKey
unfolding unwire
removed_backend_of (remove_backend b) = some (b.cluster_id, (b.backend_id, unwire b.address))
removed_backend_of _ = none

unfoldable pub added_backend : Request → Option BackendKey
added_backend r = elim r.request_type [ none ↦ none | some kind ↦ added_backend_of kind ]

unfoldable pub removed_backend : Request → Option BackendKey
removed_backend r = elim r.request_type [ none ↦ none | some kind ↦ removed_backend_of kind ]

-- Not the removal of a backend that is among `added`.
unfoldable pub not_superseded : List BackendKey → Request → Bool
not_superseded added req = elim (removed_backend req) [
  | none ↦ true
  | some key ↦ not (contains key added)
]

unfoldable pub drop_superseded_backend_removes : List Request → List Request
unfolding not_superseded
drop_superseded_backend_removes requests =
    let added : List BackendKey = filter_map added_backend requests in
    if is_empty added then requests else filter (not_superseded added) requests
