-- ===== src/Agent/Repair.antt =====
-- The requests that the agent repairs a refusal with, crates/sozu-agent/src/lib.rs: `addition_for`,
-- `removal_for`, `owner_query` and `stored_removal`. The display of an HTTP frontend and the verbs
-- that Sōzu's helpers pick are parameters.
pub mod Keys
use sozu_gateway.Prelude.{Bool, true, false, ◌&&◌, Option, none, some, List, [], ◌∷◌}
use sozu_gateway.Prelude.Eq.{◌==◌, list_eq, nat_eq, option_eq, pair_eq}
use sozu_gateway.Prelude.Lists.{find}
use sozu_gateway.Prelude.Order.{list_order, nat_order}
use sozu_gateway.Prelude.Order.Sets.{to_set}
use sozu_gateway.Prelude.Texts.{Text, to_ascii_lowercase}
use sozu_gateway.Wire.{
  Request, RequestType, RequestHttpFrontend, RequestTcpFrontend, RequestUdpFrontend,
  FrontendFilters, AddCertificate, ReplaceCertificate, Verbs, to_request, wire_address_eq,
}
use sozu_gateway.Wire.RequestType.{
  add_http_frontend, add_https_frontend, add_http_frontend_with_header_predicates,
  add_https_frontend_with_header_predicates, remove_http_frontend, remove_https_frontend,
  remove_http_frontend_with_header_predicates, remove_https_frontend_with_header_predicates,
  add_tcp_frontend, remove_tcp_frontend, add_udp_frontend, remove_udp_frontend, add_certificate,
  list_frontends,
}

-- What Sōzu lists.
pub record ListedFrontends : Type 0 where
  pub http_frontends : List RequestHttpFrontend
  pub https_frontends : List RequestHttpFrontend
  pub tcp_frontends : List RequestTcpFrontend
  pub udp_frontends : List RequestUdpFrontend

unfoldable pub addition_for : ReplaceCertificate → Request
addition_for replace = to_request (
    add_certificate (record {
      address = replace.address;
      certificate = replace.new_certificate;
      expired_at = replace.new_expired_at;
    }))

-- SNI in lower case, ALPN sorted and without repetition.
unfoldable pub tcp_claim : RequestTcpFrontend → Option Text × List Text
tcp_claim front =
    (elim front.sni [ none ↦ none | some s ↦ some (to_ascii_lowercase s) ], to_set front.alpn)

abbrev http_filters : Text → FrontendFilters
http_filters hostname = record {
  http = true;
  https = false;
  tcp = false;
  domain = some hostname;
  cluster_id = none;
}

abbrev https_filters : Text → FrontendFilters
https_filters hostname = record {
  http = false;
  https = true;
  tcp = false;
  domain = some hostname;
  cluster_id = none;
}

abbrev l4_filters : FrontendFilters
l4_filters = record { http = false; https = false; tcp = true; domain = none; cluster_id = none }

unfoldable pub query_filters : RequestType → Option FrontendFilters
query_filters (add_http_frontend f) = some (http_filters f.hostname)
query_filters (remove_http_frontend f) = some (http_filters f.hostname)
query_filters (add_http_frontend_with_header_predicates f) = some (http_filters f.hostname)
query_filters (remove_http_frontend_with_header_predicates f) = some (http_filters f.hostname)
query_filters (add_https_frontend f) = some (https_filters f.hostname)
query_filters (remove_https_frontend f) = some (https_filters f.hostname)
query_filters (add_https_frontend_with_header_predicates f) = some (https_filters f.hostname)
query_filters (remove_https_frontend_with_header_predicates f) = some (https_filters f.hostname)
query_filters (add_tcp_frontend f) = some l4_filters
query_filters (remove_tcp_frontend f) = some l4_filters
query_filters (add_udp_frontend f) = some l4_filters
query_filters (remove_udp_frontend f) = some l4_filters
query_filters _ = none

unfoldable pub owner_query : Request → Option Request
unfolding query_filters
owner_query r = elim r.request_type [
  | none ↦ none
  | some kind ↦ elim (query_filters kind) [
    | none ↦ none
    | some filters ↦ some (to_request (list_frontends filters))
  ]
]

module _ (verbs : Verbs) (display : RequestHttpFrontend → Text) where
  unfoldable pub removal_of : RequestType → Option RequestType
  removal_of (add_http_frontend f) = some (verbs.remove_http f)
  removal_of (add_http_frontend_with_header_predicates f) = some (verbs.remove_http f)
  removal_of (add_https_frontend f) = some (verbs.remove_https f)
  removal_of (add_https_frontend_with_header_predicates f) = some (verbs.remove_https f)
  removal_of (add_tcp_frontend f) = some (remove_tcp_frontend f)
  removal_of (add_udp_frontend f) = some (remove_udp_frontend f)
  removal_of _ = none

  abbrev request_of : Option RequestType → Option Request
  request_of none = none
  request_of (some kind) = some (to_request kind)

  unfoldable pub removal_for : Request → Option Request
  unfolding removal_of
  removal_for r = elim r.request_type [ none ↦ none | some kind ↦ request_of (removal_of kind) ]

  unfoldable pub stored_http : RequestHttpFrontend → ListedFrontends → Option RequestType
  stored_http f listed = elim (find (λ s. display s == display f) listed.http_frontends) [
    | none ↦ none
    | some s ↦ some (verbs.remove_http s)
  ]

  unfoldable pub stored_https : RequestHttpFrontend → ListedFrontends → Option RequestType
  stored_https f listed = elim (find (λ s. display s == display f) listed.https_frontends) [
    | none ↦ none
    | some s ↦ some (verbs.remove_https s)
  ]

  unfoldable pub stored_tcp : RequestTcpFrontend → ListedFrontends → Option RequestType
  stored_tcp f listed =
      elim (find (λ (s : RequestTcpFrontend). s.address == f.address && tcp_claim s == tcp_claim f)
        listed.tcp_frontends) [ none ↦ none | some s ↦ some (remove_tcp_frontend s) ]

  unfoldable pub stored_udp : RequestUdpFrontend → ListedFrontends → Option RequestType
  stored_udp f listed =
      elim (find (λ (s : RequestUdpFrontend). s.address == f.address) listed.udp_frontends) [
        | none ↦ none
        | some s ↦ some (remove_udp_frontend s)
      ]

  unfoldable pub stored_kind : ListedFrontends → RequestType → Option RequestType
  unfolding stored_http stored_https stored_tcp stored_udp
  stored_kind listed (add_http_frontend f) = stored_http f listed
  stored_kind listed (remove_http_frontend f) = stored_http f listed
  stored_kind listed (add_http_frontend_with_header_predicates f) = stored_http f listed
  stored_kind listed (remove_http_frontend_with_header_predicates f) = stored_http f listed
  stored_kind listed (add_https_frontend f) = stored_https f listed
  stored_kind listed (remove_https_frontend f) = stored_https f listed
  stored_kind listed (add_https_frontend_with_header_predicates f) = stored_https f listed
  stored_kind listed (remove_https_frontend_with_header_predicates f) = stored_https f listed
  stored_kind listed (add_tcp_frontend f) = stored_tcp f listed
  stored_kind listed (remove_tcp_frontend f) = stored_tcp f listed
  stored_kind listed (add_udp_frontend f) = stored_udp f listed
  stored_kind listed (remove_udp_frontend f) = stored_udp f listed
  stored_kind listed _ = none

  unfoldable pub stored_removal : Request → ListedFrontends → Option Request
  stored_removal r listed = elim r.request_type [
    | none ↦ none
    | some kind ↦ request_of (stored_kind listed kind)
  ]
