-- ===== src/Ir.antt =====
-- The intermediate representation: the data types of `crates/ir/src/lib.rs`. Its compiled path
-- rules, header conjunctions and route keys are in the modules below.
pub mod Rule
pub mod Headers
pub mod RouteKey
use sozu_gateway.Prelude.{ℕ, ◌≡◌, Bool, Option, List, arith, ℕ_discrete}
use sozu_gateway.Prelude.Eq.{Eq}
use sozu_gateway.Prelude.Order.{Order, nat_order, pair_order, order_by}
use sozu_gateway.Prelude.Texts.{Text}
use sozu_gateway.Prelude.Int.{ℤ}

-- `std::net::SocketAddr`: an IPv6 address also carries a flow label and a scope id.
pub data IpAddr : Type 0 where
  v4 : ℕ → IpAddr
  v6 : ℕ → IpAddr

pub record SocketAddr : Type 0 where
  pub ip : IpAddr
  pub port : ℕ
  pub flowinfo : ℕ
  pub scope_id : ℕ

pub data LbAlgorithm : Type 0 where
  round_robin random least_loaded power_of_two : LbAlgorithm

pub data PathMatch : Type 0 where
  prefix : Text → PathMatch
  exact : Text → PathMatch
  regex : Text → PathMatch

pub data SozuPathRule : Type 0 where
  prefix : Text → SozuPathRule
  regex : Text → SozuPathRule

pub record HealthCheck : Type 0 where
  pub interval_secs : ℕ
  pub timeout_secs : ℕ
  pub healthy_threshold : ℕ
  pub unhealthy_threshold : ℕ
  pub port : Option ℕ

pub record Cluster : Type 0 where
  pub id : Text
  pub load_balancing : LbAlgorithm
  pub sticky_session : Bool
  pub https_redirect : Bool
  pub max_connections_per_ip : Option ℕ
  pub retry_after : Option ℕ
  pub http2 : Bool
  pub health_check : Option HealthCheck

pub record Backend : Type 0 where
  pub cluster_id : Text
  pub backend_id : Text
  pub address : SocketAddr
  pub weight : Option ℤ
  pub sticky_id : Option Text

pub data HeaderMatchKind : Type 0 where
  exact : Text → HeaderMatchKind
  regex : Text → HeaderMatchKind

pub record HeaderMatch : Type 0 where
  pub name : Text
  pub kind : HeaderMatchKind

pub data HeaderTarget : Type 0 where
  request response : HeaderTarget

pub record HeaderMod : Type 0 where
  pub on : HeaderTarget
  pub key : Text
  pub value : Option Text

pub data Scheme : Type 0 where
  http https : Scheme

pub data RedirectStatus : Type 0 where
  moved_permanently found permanent_redirect : RedirectStatus

pub record Redirect : Type 0 where
  pub scheme : Option Scheme
  pub status : RedirectStatus
  pub hostname : Option Text
  pub path : Option Text
  pub port : Option ℕ

pub record Rewrite : Type 0 where
  pub hostname : Option Text
  pub path : Option Text

pub record FrontendFilters : Type 0 where
  pub header_mods : List HeaderMod
  pub redirect : Option Redirect
  pub rewrite : Option Rewrite

pub record Frontend : Type 0 where
  pub hostname : Text
  pub path : PathMatch
  pub method : Option Text
  pub cluster_id : Option Text
  pub tls : Bool
  pub listener : SocketAddr
  pub filters : FrontendFilters
  pub header_matches : List HeaderMatch

pub record Certificate : Type 0 where
  pub listener : SocketAddr
  pub certificate : Text
  pub chain : List Text
  pub key : Text
  pub names : List Text

pub data L4Protocol : Type 0 where
  tcp udp : L4Protocol

pub record L4Frontend : Type 0 where
  pub protocol : L4Protocol
  pub listener : SocketAddr
  pub cluster_id : Text

pub record Ir : Type 0 where
  pub clusters : List Cluster
  pub frontends : List Frontend
  pub backends : List Backend
  pub certificates : List Certificate
  pub l4_frontends : List L4Frontend

unfoldable pub IpAddr_discrete : Discrete IpAddr
IpAddr_discrete = hlevel ℕ_discrete

unfoldable pub SocketAddr_discrete : Discrete SocketAddr
SocketAddr_discrete = hlevel (IpAddr_discrete, ℕ_discrete)

unfoldable pub L4Protocol_discrete : Discrete L4Protocol
L4Protocol_discrete = hlevel

unfoldable pub HeaderMatch_discrete : Discrete HeaderMatch
HeaderMatch_discrete = hlevel ℕ_discrete

pub Frontend_discrete : Discrete Frontend
Frontend_discrete = hlevel ℕ_discrete

instance abbrev pub address_eq : Eq SocketAddr
address_eq = record { dec = SocketAddr_discrete }

instance abbrev pub protocol_eq : Eq L4Protocol
protocol_eq = record { dec = L4Protocol_discrete }

-- The address as Sōzu's wire type carries it: IP and port alone.
unfoldable pub plain : SocketAddr → SocketAddr
plain a = record { ip = a.ip; port = a.port; flowinfo = 0; scope_id = 0 }

abbrev pub ip_key : IpAddr → ℕ × ℕ
ip_key (v4 n) = (0, n)
ip_key (v6 n) = (1, n)

pub ip_key_injective : (a b : IpAddr) → ip_key a ≡ ip_key b → a ≡ b
ip_key_injective (v4 n) b e = ground arith
ip_key_injective (v6 n) b e = ground arith

-- The derived order: IPv4 before IPv6, then address, port, flow label and scope id.
abbrev pub address_key : SocketAddr → (ℕ × ℕ) × (ℕ × (ℕ × ℕ))
address_key a = (ip_key a.ip, (a.port, (a.flowinfo, a.scope_id)))

pub address_key_injective : (a b : SocketAddr) → address_key a ≡ address_key b → a ≡ b
address_key_injective a b e = ground (arith, ip_key_injective a.ip b.ip)

instance abbrev pub address_order : Order SocketAddr
address_order = order_by address_key address_key_injective

unfoldable pub Ir_discrete : Discrete Ir
Ir_discrete = hlevel (SocketAddr_discrete, L4Protocol_discrete, Frontend_discrete, ℕ_discrete)

instance abbrev pub ir_eq : Eq Ir
ir_eq = record { dec = Ir_discrete }
