-- ===== src/Translator/Payloads.antt =====
-- One element of the representation to one request payload, crates/translator/src/lib.rs. Fields
-- that the source leaves unset are left out of the payload types.
use sozu_gateway.Prelude.{Bool, true, Option, none, some, List, [], map}
use sozu_gateway.Prelude.Tests.{if◌then◌else◌}
use sozu_gateway.Prelude.Eq.{◌==◌, list_eq, nat_eq}
use sozu_gateway.Prelude.Lists.{filter}
use sozu_gateway.Prelude.Lists.Keys.{contains}
use sozu_gateway.Prelude.Texts.{Text, codes}
use sozu_gateway.Ir
use sozu_gateway.Ir.{
  Ir, LbAlgorithm, PathMatch, SozuPathRule, SocketAddr, L4Frontend, L4Protocol, L4Protocol_discrete,
  protocol_eq,
}
use sozu_gateway.Ir.Rule.{sozu_rule}
use sozu_gateway.Ir.Headers.{canonical}
use sozu_gateway.Wire
use sozu_gateway.Wire.{
  Request, RequestType, RequestHttpFrontend, LoadBalancingAlgorithms, PathRule, PathRuleKind,
  HealthCheckConfig, HealthCheckMode, UdpAffinityKey, HeaderPredicate, Header, HeaderPosition,
  RedirectPolicy, RedirectScheme, RulePosition, CertificateAndKey, ListenerType, Verbs, wire,
  to_request,
}
use sozu_gateway.Wire.RequestType.{
  add_cluster, add_backend, add_certificate, remove_certificate, replace_certificate,
  add_tcp_listener, add_udp_listener, activate_listener, add_tcp_frontend, add_udp_frontend,
}

unfoldable pub lb_algorithm : LbAlgorithm → LoadBalancingAlgorithms
lb_algorithm LbAlgorithm.round_robin = LoadBalancingAlgorithms.round_robin
lb_algorithm LbAlgorithm.random = LoadBalancingAlgorithms.random
lb_algorithm LbAlgorithm.least_loaded = LoadBalancingAlgorithms.least_loaded
lb_algorithm LbAlgorithm.power_of_two = LoadBalancingAlgorithms.power_of_two

unfoldable pub rule_payload : SozuPathRule → PathRule
rule_payload (SozuPathRule.prefix v) = record { kind = PathRuleKind.prefix; value = v }
rule_payload (SozuPathRule.regex v) = record { kind = PathRuleKind.regex; value = v }

unfoldable pub path_rule : PathMatch → PathRule
unfolding rule_payload
path_rule path = rule_payload (sozu_rule path)

unfoldable pub health_check_config : Ir.HealthCheck → HealthCheckConfig
health_check_config check = record {
  uri = codes "/";
  interval = check.interval_secs;
  timeout = check.timeout_secs;
  healthy_threshold = check.healthy_threshold;
  unhealthy_threshold = check.unhealthy_threshold;
  expected_status = 0;
  mode = HealthCheckMode.tcp;
  accepted_statuses = [];
  port = check.port;
  headers = [];
}

abbrev map_option {ℓ} : {A B : Type ℓ} → (A → B) → Option A → Option B
map_option f none = none
map_option f (some a) = some (f a)

unfoldable pub cluster_request : Ir.Cluster → Bool → Request
unfolding lb_algorithm
cluster_request c udp = to_request (
    add_cluster (record {
      cluster_id = c.id;
      sticky_session = c.sticky_session;
      https_redirect = c.https_redirect;
      load_balancing = lb_algorithm c.load_balancing;
      max_connections_per_ip = if udp then none else c.max_connections_per_ip;
      retry_after = c.retry_after;
      udp = if udp then some UdpAffinityKey.source_ip_port else none;
      http2 = if c.http2 then some true else none;
      health_check = if udp then none else map_option health_check_config c.health_check;
    }))

-- The ids of the clusters that a UDP frontend names.
unfoldable pub udp_clusters : Ir → List Text
udp_clusters ir =
    map (λ f. f.cluster_id)
      (filter (λ (f : L4Frontend). f.protocol == L4Protocol.udp) ir.l4_frontends)

unfoldable pub cluster_requests : Ir → List Request
unfolding udp_clusters
cluster_requests ir =
    map (λ cluster. cluster_request cluster (contains cluster.id (udp_clusters ir))) ir.clusters

unfoldable pub backend_request : Ir.Backend → Request
backend_request b = to_request (
    add_backend (record {
      cluster_id = b.cluster_id;
      backend_id = b.backend_id;
      address = wire b.address;
      sticky_id = b.sticky_id;
      load_balancing_parameters = b.weight;
      backup = none;
    }))

unfoldable pub header_predicate : Ir.HeaderMatch → HeaderPredicate
header_predicate m = elim m.kind [
  | Ir.HeaderMatchKind.exact value ↦ record {
    name = m.name;
    kind = Wire.HeaderMatchKind.exact;
    value = some value;
  }
  | Ir.HeaderMatchKind.regex value ↦ record {
    name = m.name;
    kind = Wire.HeaderMatchKind.regex;
    value = some value;
  }
]

unfoldable pub header_predicates : List Ir.HeaderMatch → List HeaderPredicate
header_predicates matches = map header_predicate (canonical matches)

unfoldable pub header_position : Ir.HeaderTarget → HeaderPosition
header_position Ir.HeaderTarget.request = HeaderPosition.request
header_position Ir.HeaderTarget.response = HeaderPosition.response

-- An absent value is sent as the empty text, which deletes the header.
unfoldable pub header_mod : Ir.HeaderMod → Header
unfolding header_position
header_mod m = record {
  position = header_position m.on;
  key = m.key;
  val = elim m.value [ none ↦ [] | some v ↦ v ];
}

unfoldable pub redirect_policy : Ir.RedirectStatus → RedirectPolicy
redirect_policy Ir.RedirectStatus.moved_permanently = RedirectPolicy.permanent
redirect_policy Ir.RedirectStatus.found = RedirectPolicy.found
redirect_policy Ir.RedirectStatus.permanent_redirect = RedirectPolicy.permanent_redirect

unfoldable pub redirect_scheme : Ir.Scheme → RedirectScheme
redirect_scheme Ir.Scheme.http = RedirectScheme.use_http
redirect_scheme Ir.Scheme.https = RedirectScheme.use_https

unfoldable pub apply_redirect : RequestHttpFrontend → Ir.Redirect → RequestHttpFrontend
unfolding redirect_policy redirect_scheme
apply_redirect payload redirect = record payload {
  redirect = some (redirect_policy redirect.status);
  redirect_scheme = elim redirect.scheme [
    | none ↦ payload.redirect_scheme
    | some scheme ↦ some (redirect_scheme scheme)
  ];
  rewrite_host = redirect.hostname;
  rewrite_path = redirect.path;
  rewrite_port = redirect.port;
}

unfoldable pub apply_filters : RequestHttpFrontend → Ir.FrontendFilters → RequestHttpFrontend
unfolding apply_redirect header_mod
apply_filters payload filters =
    let with_headers : RequestHttpFrontend = record payload {
      headers = map header_mod filters.header_mods;
    } in
    let redirected : RequestHttpFrontend = elim filters.redirect [
      | none ↦ with_headers
      | some redirect ↦ apply_redirect with_headers redirect
    ] in
    elim filters.rewrite [
      | none ↦ redirected
      | some rewrite ↦ record redirected {
        rewrite_host = rewrite.hostname;
        rewrite_path = rewrite.path;
      }
    ]

-- The bare catch-all goes after the frontends of specific hosts.
unfoldable pub frontend_payload : Ir.Frontend → RequestHttpFrontend
unfolding path_rule header_predicates header_predicate apply_filters
frontend_payload f = apply_filters payload f.filters
  where
    payload : RequestHttpFrontend
    payload = record {
      cluster_id = f.cluster_id;
      address = wire f.listener;
      hostname = f.hostname;
      path = path_rule f.path;
      method = f.method;
      position = if f.hostname == codes "*" then RulePosition.post else RulePosition.tree;
      header_predicates = header_predicates f.header_matches;
      headers = [];
      redirect = none;
      redirect_scheme = none;
      rewrite_host = none;
      rewrite_path = none;
      rewrite_port = none;
    }

unfoldable pub frontend_request : Verbs → Bool → RequestHttpFrontend → Request
frontend_request verbs tls payload =
    if tls then to_request (verbs.add_https payload) else to_request (verbs.add_http payload)

unfoldable pub certificate_and_key : Ir.Certificate → CertificateAndKey
certificate_and_key c = record {
  certificate = c.certificate;
  certificate_chain = c.chain;
  key = c.key;
  names = c.names;
}

unfoldable pub add_certificate_request : Ir.Certificate → Request
unfolding certificate_and_key
add_certificate_request c = to_request (
    add_certificate (record {
      address = wire c.listener;
      certificate = certificate_and_key c;
      expired_at = none;
    }))

unfoldable pub remove_certificate_request : SocketAddr → Text → Request
remove_certificate_request listener fingerprint =
    to_request (remove_certificate (record { address = wire listener; fingerprint = fingerprint }))

unfoldable pub replace_certificate_request : Ir.Certificate → Text → Request
unfolding certificate_and_key
replace_certificate_request new old_fingerprint = to_request (
    replace_certificate (record {
      address = wire new.listener;
      new_certificate = certificate_and_key new;
      old_fingerprint = old_fingerprint;
      new_expired_at = none;
    }))
