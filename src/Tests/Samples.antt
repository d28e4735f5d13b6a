-- ===== src/Tests/Samples.antt =====
-- Sample objects, for the tests: a state of two clusters, two routes, a TCP listener and a
-- certificate.
use sozu_gateway.Prelude.{ℕ, false, not, Option, none, some, List, [], ◌∷◌, ◌++◌, map}
use sozu_gateway.Prelude.Lists.{filter}
use sozu_gateway.Prelude.Lists.Keys.{contains}
use sozu_gateway.Prelude.Eq.{list_eq, nat_eq}
use sozu_gateway.Prelude.Results.{ok}
use sozu_gateway.Prelude.Texts.{Text, codes}
use sozu_gateway.Ir.{
  Ir, SocketAddr, v4, Cluster, Backend, Frontend, FrontendFilters, Certificate, L4Frontend,
  L4Protocol, PathMatch, round_robin,
}
use sozu_gateway.Ir.RouteKey.{Show}
use sozu_gateway.Wire.{Request, RequestHttpFrontend, Verbs, request_eq}
use sozu_gateway.Wire.RequestType.{
  add_http_frontend, add_https_frontend, remove_http_frontend, remove_https_frontend,
}
use sozu_gateway.Translator.Tiers.{tier}
use sozu_gateway.Translator.Certificates.{Pem}
use sozu_gateway.Translator.Reconcile.{Sozu}

abbrev pub address : ℕ → SocketAddr
address port = record { ip = v4 127; port = port; flowinfo = 0; scope_id = 0 }

abbrev pub cluster : ℕ → Cluster
cluster n = record {
  id = n ∷ [];
  load_balancing = round_robin;
  sticky_session = false;
  https_redirect = false;
  max_connections_per_ip = none;
  retry_after = none;
  http2 = false;
  health_check = none;
}

abbrev pub backend : ℕ → Backend
backend n = record {
  cluster_id = n ∷ [];
  backend_id = codes "b";
  address = address 8080;
  weight = none;
  sticky_id = none;
}

abbrev no_filters : FrontendFilters
no_filters = record { header_mods = []; redirect = none; rewrite = none }

abbrev pub frontend : ℕ → Option Text → Frontend
frontend n cluster_id = record {
  hostname = n ∷ [];
  path = PathMatch.prefix (codes "/");
  method = none;
  cluster_id = cluster_id;
  tls = false;
  listener = address 80;
  filters = no_filters;
  header_matches = [];
}

abbrev pub tcp : ℕ → ℕ → L4Frontend
tcp port n = record { protocol = L4Protocol.tcp; listener = address port; cluster_id = n ∷ [] }

abbrev pub certificate : ℕ → List Text → Certificate
certificate n names = record {
  listener = address 443;
  certificate = n ∷ [];
  chain = [];
  key = codes "key";
  names = names;
}

abbrev pub state : Ir
state = record {
  clusters = cluster 1 ∷ cluster 2 ∷ [];
  frontends = frontend 7 (some (1 ∷ [])) ∷ frontend 8 none ∷ frontend 7 (some (2 ∷ [])) ∷ [];
  backends = backend 1 ∷ [];
  certificates = certificate 5 (codes "a" ∷ []) ∷ [];
  l4_frontends = tcp 25 2 ∷ [];
}

abbrev pub empty : Ir
empty = record {
  clusters = [];
  frontends = [];
  backends = [];
  certificates = [];
  l4_frontends = [];
}

-- A TCP route.
abbrev pub tcp_state : Ir
tcp_state = record empty { clusters = cluster 2 ∷ []; l4_frontends = tcp 25 2 ∷ [] }

-- A state without the routes.
abbrev pub bare : Ir
bare = record state { frontends = []; backends = [] }

abbrev pub show : Show
show = record { address = λ a. a.port ∷ []; debug = λ t. t }

abbrev pub verbs : Verbs
verbs = record {
  add_http = add_http_frontend;
  add_https = add_https_frontend;
  remove_http = remove_http_frontend;
  remove_https = remove_https_frontend;
}

abbrev pub pem : Pem
pem = record {
  calculate_fingerprint = λ t. ok t;
  parse_pem = λ t. ok t;
  split_certificate_chain = λ t. t ∷ [];
}

abbrev pub display : RequestHttpFrontend → Text
display f = f.address.port ∷ b';' ∷ f.hostname ++ b';' ∷ b'P' ∷ f.path.value

abbrev pub encoded : Request → Text
encoded r = tier r ∷ []

-- A data plane that keeps the requests it is given.
abbrev pub sozu : Sozu
sozu = record {
  State = List Request;
  initial = [];
  apply = λ s r. ok (s ++ r ∷ []);
  diff = λ s t. filter (λ r. not (contains (encoded r) (map encoded s))) t;
  cluster_removal_requests = λ s id. [];
  json = encoded;
  display = display;
  verbs = verbs;
  show = show;
  pem = pem;
}
