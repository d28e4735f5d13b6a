-- ===== src/Wire.antt =====
-- The requests that the source sends to Sōzu (sozu-command-lib): the verbs and payload fields
-- that it reads or writes. What it never looks into is an opaque text. Sōzu's own functions are
-- parameters of the modules that call them.
use sozu_gateway.Prelude.{ℕ, Bool, Option, some, List, ℕ_discrete}
use sozu_gateway.Prelude.Eq.{Eq}
use sozu_gateway.Prelude.Int.{ℤ}
use sozu_gateway.Prelude.Texts.{Text}
use sozu_gateway.Ir.{IpAddr, IpAddr_discrete, SocketAddr}

-- An address on the wire: IP and port.
pub record Address : Type 0 where
  pub ip : IpAddr
  pub port : ℕ

-- `SocketAddr::into`
unfoldable pub wire : SocketAddr → Address
wire a = record { ip = a.ip; port = a.port }

-- `Address::into`
unfoldable pub unwire : Address → SocketAddr
unwire a = record { ip = a.ip; port = a.port; flowinfo = 0; scope_id = 0 }

pub data LoadBalancingAlgorithms : Type 0 where
  round_robin random least_loaded power_of_two : LoadBalancingAlgorithms

pub data HealthCheckMode : Type 0 where
  http tcp : HealthCheckMode

pub record HealthCheckConfig : Type 0 where
  pub uri : Text
  pub interval : ℕ
  pub timeout : ℕ
  pub healthy_threshold : ℕ
  pub unhealthy_threshold : ℕ
  pub expected_status : ℕ
  pub mode : HealthCheckMode
  pub accepted_statuses : List ℕ
  pub port : Option ℕ
  pub headers : List Text

pub data UdpAffinityKey : Type 0 where
  source_ip source_ip_port : UdpAffinityKey

pub record Cluster : Type 0 where
  pub cluster_id : Text
  pub sticky_session : Bool
  pub https_redirect : Bool
  pub load_balancing : LoadBalancingAlgorithms
  pub max_connections_per_ip : Option ℕ
  pub retry_after : Option ℕ
  pub udp : Option UdpAffinityKey
  pub http2 : Option Bool
  pub health_check : Option HealthCheckConfig

pub record AddBackend : Type 0 where
  pub cluster_id : Text
  pub backend_id : Text
  pub address : Address
  pub sticky_id : Option Text
  pub load_balancing_parameters : Option ℤ
  pub backup : Option Bool

pub record RemoveBackend : Type 0 where
  pub cluster_id : Text
  pub backend_id : Text
  pub address : Address

pub data PathRuleKind : Type 0 where
  prefix regex : PathRuleKind

pub record PathRule : Type 0 where
  pub kind : PathRuleKind
  pub value : Text

pub data RulePosition : Type 0 where
  post tree : RulePosition

pub data HeaderMatchKind : Type 0 where
  exact regex : HeaderMatchKind

pub record HeaderPredicate : Type 0 where
  pub name : Text
  pub kind : HeaderMatchKind
  pub value : Option Text

pub data HeaderPosition : Type 0 where
  request response : HeaderPosition

pub record Header : Type 0 where
  pub position : HeaderPosition
  pub key : Text
  pub val : Text

pub data RedirectPolicy : Type 0 where
  permanent found permanent_redirect : RedirectPolicy

pub data RedirectScheme : Type 0 where
  use_http use_https : RedirectScheme

pub record RequestHttpFrontend : Type 0 where
  pub cluster_id : Option Text
  pub address : Address
  pub hostname : Text
  pub path : PathRule
  pub method : Option Text
  pub position : RulePosition
  pub header_predicates : List HeaderPredicate
  pub headers : List Header
  pub redirect : Option RedirectPolicy
  pub redirect_scheme : Option RedirectScheme
  pub rewrite_host : Option Text
  pub rewrite_path : Option Text
  pub rewrite_port : Option ℕ

pub record RequestTcpFrontend : Type 0 where
  pub cluster_id : Text
  pub address : Address
  pub sni : Option Text
  pub alpn : List Text

pub record RequestUdpFrontend : Type 0 where
  pub cluster_id : Text
  pub address : Address

pub record CertificateAndKey : Type 0 where
  pub certificate : Text
  pub certificate_chain : List Text
  pub key : Text
  pub names : List Text

pub record AddCertificate : Type 0 where
  pub address : Address
  pub certificate : CertificateAndKey
  pub expired_at : Option ℕ

pub record RemoveCertificate : Type 0 where
  pub address : Address
  pub fingerprint : Text

pub record ReplaceCertificate : Type 0 where
  pub address : Address
  pub new_certificate : CertificateAndKey
  pub old_fingerprint : Text
  pub new_expired_at : Option ℕ

pub record TcpListenerConfig : Type 0 where
  pub address : Address
  pub expect_proxy : Bool
  pub front_timeout : ℕ
  pub back_timeout : ℕ
  pub connect_timeout : ℕ
  pub active : Bool

pub record UdpListenerConfig : Type 0 where
  pub address : Address
  pub front_timeout : ℕ
  pub back_timeout : ℕ
  pub max_rx_datagram_size : ℕ
  pub max_flows : ℕ
  pub active : Bool

pub data ListenerType : Type 0 where
  http https tcp udp unknown : ListenerType

pub record ListenerRef : Type 0 where
  pub address : Address
  pub proxy : ListenerType

-- `ListFrontends`
pub record FrontendFilters : Type 0 where
  pub http : Bool
  pub https : Bool
  pub tcp : Bool
  pub domain : Option Text
  pub cluster_id : Option Text

pub data RequestType : Type 0 where
  add_http_listener : Text → RequestType
  add_https_listener : Text → RequestType
  add_tcp_listener : TcpListenerConfig → RequestType
  add_udp_listener : UdpListenerConfig → RequestType
  activate_listener : ListenerRef → RequestType
  deactivate_listener : ListenerRef → RequestType
  remove_listener : ListenerRef → RequestType
  add_cluster : Cluster → RequestType
  remove_cluster : Text → RequestType
  add_backend : AddBackend → RequestType
  add_unix_backend : Text → RequestType
  remove_backend : RemoveBackend → RequestType
  add_http_frontend : RequestHttpFrontend → RequestType
  add_https_frontend : RequestHttpFrontend → RequestType
  add_http_frontend_with_header_predicates : RequestHttpFrontend → RequestType
  add_https_frontend_with_header_predicates : RequestHttpFrontend → RequestType
  add_http_frontend_with_silent_close : RequestHttpFrontend → RequestType
  add_https_frontend_with_silent_close : RequestHttpFrontend → RequestType
  remove_http_frontend : RequestHttpFrontend → RequestType
  remove_https_frontend : RequestHttpFrontend → RequestType
  remove_http_frontend_with_header_predicates : RequestHttpFrontend → RequestType
  remove_https_frontend_with_header_predicates : RequestHttpFrontend → RequestType
  add_tcp_frontend : RequestTcpFrontend → RequestType
  remove_tcp_frontend : RequestTcpFrontend → RequestType
  add_udp_frontend : RequestUdpFrontend → RequestType
  remove_udp_frontend : RequestUdpFrontend → RequestType
  add_certificate : AddCertificate → RequestType
  remove_certificate : RemoveCertificate → RequestType
  replace_certificate : ReplaceCertificate → RequestType
  list_frontends : FrontendFilters → RequestType
  status : RequestType
  other : Text → RequestType

pub record Request : Type 0 where
  pub request_type : Option RequestType

-- Why a configuration state refuses a request.
pub data StateError : Type 0 where
  not_found : Text → StateError
  exists : Text → StateError
  no_change : StateError
  refused : Text → StateError

-- `RequestType::into`
abbrev pub to_request : RequestType → Request
to_request r = record { request_type = some r }

unfoldable pub Address_discrete : Discrete Address
Address_discrete = hlevel (IpAddr_discrete, ℕ_discrete)

unfoldable pub RequestHttpFrontend_discrete : Discrete RequestHttpFrontend
RequestHttpFrontend_discrete = hlevel (Address_discrete, ℕ_discrete)

unfoldable pub Cluster_discrete : Discrete Cluster
Cluster_discrete = hlevel ℕ_discrete

unfoldable pub ℤ_discrete : Discrete ℤ
ℤ_discrete = hlevel ℕ_discrete

unfoldable pub RequestType_discrete : Discrete RequestType
RequestType_discrete =
    hlevel
      (Address_discrete, RequestHttpFrontend_discrete, Cluster_discrete, ℤ_discrete, ℕ_discrete)

unfoldable pub Request_discrete : Discrete Request
Request_discrete = hlevel RequestType_discrete

instance abbrev pub wire_address_eq : Eq Address
wire_address_eq = record { dec = Address_discrete }

instance abbrev pub request_eq : Eq Request
request_eq = record { dec = Request_discrete }

-- Sōzu's choice of the verb for an HTTP(S) frontend (`RequestType::add_http_frontend` and its
-- siblings).
pub record Verbs : Type 0 where
  pub add_http : RequestHttpFrontend → RequestType
  pub add_https : RequestHttpFrontend → RequestType
  pub remove_http : RequestHttpFrontend → RequestType
  pub remove_https : RequestHttpFrontend → RequestType
