-- ===== src/Translator/Replay/Exact.antt =====
-- The routing state that acknowledged requests leave, and the replay that describes it exactly:
-- `simulate`, `settle`, `evict`, `comparable` and `replay_if_exact`, crates/translator/src/replay.rs.
pub mod Explained
use sozu_gateway.Prelude.{
  ℕ, Bool, true, false, not, ◌&&◌, ◌||◌, Option, none, some, List, [], ◌∷◌, map,
}
use sozu_gateway.Prelude.Tests.{if◌then◌else◌}
use sozu_gateway.Prelude.Eq.{Eq, ◌==◌, nat_eq, list_eq, option_eq, pair_eq}
use sozu_gateway.Prelude.Lists.{any, filter, is_empty}
use sozu_gateway.Prelude.Order.{Order, nat_order, list_order}
use sozu_gateway.Prelude.Order.Sets.{to_set}
use sozu_gateway.Prelude.Order.Sort.{sort_by}
use sozu_gateway.Prelude.Results.{Result, ok, err}
use sozu_gateway.Prelude.Texts.{Text, to_ascii_lowercase}
use sozu_gateway.Ir.{Ir, SocketAddr, address_eq}
use sozu_gateway.Wire.{
  Request, RequestType, RequestHttpFrontend, RequestTcpFrontend, RequestUdpFrontend, StateError,
  not_found, exists, no_change, refused, unwire,
}
use sozu_gateway.Wire.RequestType.{
  add_tcp_listener, add_udp_listener, deactivate_listener, remove_listener, remove_cluster,
  remove_backend, add_http_frontend, add_https_frontend, add_http_frontend_with_header_predicates,
  add_https_frontend_with_header_predicates, remove_http_frontend, remove_https_frontend,
  remove_http_frontend_with_header_predicates, remove_https_frontend_with_header_predicates,
  add_tcp_frontend, remove_tcp_frontend, add_udp_frontend, remove_udp_frontend, remove_certificate,
}
use sozu_gateway.Translator.Reconcile.{Sozu, routing_state}
use sozu_gateway.Translator.Replay.{names_a_certificate, apply_acknowledged}

-- A public field of Sōzu's `ConfigState`.
pub record Field (State A : Type 0) : Type 0 where
  pub get : State → A
  pub put : A → State → State

-- Frontends as Sōzu stores them; what the source does not read is one text.
pub record TcpFrontend : Type 0 where
  pub address : SocketAddr
  pub sni : Option Text
  pub alpn : List Text
  pub rest : Text

pub record UdpFrontend : Type 0 where
  pub address : SocketAddr
  pub rest : Text

-- The public fields of `ConfigState`, its equality, and the JSON of what it holds. A map is a list
-- of entries.
pub record ConfigFields (State : Type 0) : Type 1 where
  pub HttpFrontend : Type 0
  pub Backend : Type 0
  pub http_fronts : Field State (List (Text × HttpFrontend))
  pub https_fronts : Field State (List (Text × HttpFrontend))
  pub backends : Field State (List (Text × List Backend))
  pub tcp_fronts : Field State (List (Text × List TcpFrontend))
  pub udp_fronts : Field State (List (Text × List UdpFrontend))
  pub clear_request_counts : State → State
  pub backend_json : Backend → Text
  pub tcp_json : TcpFrontend → Text
  pub udp_json : UdpFrontend → Text
  pub state_eq : Eq State

unfoldable pub is_teardown : RequestType → Bool
is_teardown (remove_cluster id) = true
is_teardown (remove_backend b) = true
is_teardown (remove_http_frontend f) = true
is_teardown (remove_https_frontend f) = true
is_teardown (remove_http_frontend_with_header_predicates f) = true
is_teardown (remove_https_frontend_with_header_predicates f) = true
is_teardown (remove_tcp_frontend f) = true
is_teardown (remove_udp_frontend f) = true
is_teardown (remove_listener l) = true
is_teardown (remove_certificate c) = true
is_teardown (deactivate_listener l) = true
is_teardown _ = false

-- SNI in lower case, ALPN sorted and without repetition.
unfoldable pub tcp_claim : RequestTcpFrontend → Option Text × List Text
tcp_claim front =
    (elim front.sni [ none ↦ none | some s ↦ some (to_ascii_lowercase s) ], to_set front.alpn)

unfoldable pub holds_tcp : RequestTcpFrontend → TcpFrontend → Bool
unfolding tcp_claim
holds_tcp f held = held.address == unwire f.address && (held.sni, held.alpn) == tcp_claim f

unfoldable pub holds_udp : RequestUdpFrontend → UdpFrontend → Bool
holds_udp f held = held.address == unwire f.address

-- `BTreeMap::remove`, and whether anything was there.
unfoldable pub remove_key :
    {State V : Type 0} → Field State (List (Text × V)) → Text → State → State × Bool
remove_key field key state = (
  field.put (filter (λ (e : Text × _). not (e.0 == key)) (field.get state)) state,
  any (λ (e : Text × _). e.0 == key) (field.get state),
)

-- `retain` on each bucket, and whether it dropped anything.
unfoldable pub drop_held :
    {State V : Type 0} → Field State (List (Text × List V)) → (V → Bool) → State → State × Bool
drop_held field holds state = (
  field.put (map (λ (e : Text × List _). (e.0, filter (λ v. not (holds v)) e.1)) (field.get state))
      state,
  any (λ (e : Text × List _). any holds e.1) (field.get state),
)

-- Sorted buckets, no empty one.
unfoldable pub tidy_buckets :
    {State V : Type 0} → Field State (List (Text × List V)) → (V → Text) → State → State
tidy_buckets field json state =
    field.put
      (map (λ (e : Text × List _). (e.0, sort_by json e.1))
        (filter (λ (e : Text × List _). not (is_empty e.1)) (field.get state)))
      state

module _ (z : Sozu) (fields : ConfigFields z.State) where
  open fields use {
    http_fronts, https_fronts, backends, tcp_fronts, udp_fronts, clear_request_counts, backend_json,
    tcp_json, udp_json, state_eq,
  }

  -- What the state stores under a frontend request's key is removed, whichever cluster it names;
  -- whether anything was there.
  unfoldable pub evict : z.State → RequestType → z.State × Bool
  unfolding remove_key drop_held
  evict state (add_http_frontend f) = remove_key http_fronts (z.display f) state
  evict state (remove_http_frontend f) = remove_key http_fronts (z.display f) state
  evict state (add_http_frontend_with_header_predicates f) =
      remove_key http_fronts (z.display f) state
  evict state (remove_http_frontend_with_header_predicates f) =
      remove_key http_fronts (z.display f) state
  evict state (add_https_frontend f) = remove_key https_fronts (z.display f) state
  evict state (remove_https_frontend f) = remove_key https_fronts (z.display f) state
  evict state (add_https_frontend_with_header_predicates f) =
      remove_key https_fronts (z.display f) state
  evict state (remove_https_frontend_with_header_predicates f) =
      remove_key https_fronts (z.display f) state
  evict state (add_tcp_frontend f) = drop_held tcp_fronts (holds_tcp f) state
  evict state (remove_tcp_frontend f) = drop_held tcp_fronts (holds_tcp f) state
  evict state (add_udp_frontend f) = drop_held udp_fronts (holds_udp f) state
  evict state (remove_udp_frontend f) = drop_held udp_fronts (holds_udp f) state
  evict state _ = (state, false)

  -- The holder is evicted, and the request sent again.
  unfoldable pub repair : z.State → Request → RequestType → z.State × Bool
  unfolding evict
  repair state request kind =
      let (left, evicted) = evict state kind in
      if not evicted
      then (left, false)
      else elim (z.apply left request) [ ok next ↦ (next, true) | err e ↦ (left, false) ]

  -- A refusal that the agent settles, as an `Exists` and as any other one.
  unfoldable pub settle_exists : z.State → Request → RequestType → z.State × Bool
  unfolding repair
  settle_exists state request (add_tcp_listener l) = (state, true)
  settle_exists state request (add_udp_listener l) = (state, true)
  settle_exists state request (add_http_frontend f) = repair state request (add_http_frontend f)
  settle_exists state request (add_https_frontend f) = repair state request (add_https_frontend f)
  settle_exists state request (add_http_frontend_with_header_predicates f) =
      repair state request (add_http_frontend_with_header_predicates f)
  settle_exists state request (add_https_frontend_with_header_predicates f) =
      repair state request (add_https_frontend_with_header_predicates f)
  settle_exists state request (add_tcp_frontend f) = repair state request (add_tcp_frontend f)
  settle_exists state request (add_udp_frontend f) = repair state request (add_udp_frontend f)
  settle_exists state request _ = (state, false)

  unfoldable pub settle_other : z.State → Request → RequestType → z.State × Bool
  unfolding repair
  settle_other state request (add_udp_frontend f) = repair state request (add_udp_frontend f)
  settle_other state request _ = (state, false)

  -- A teardown of what the state does not hold.
  unfoldable pub settle_gone : z.State → Request → RequestType → z.State × Bool
  unfolding evict settle_other
  settle_gone state request kind =
      if is_teardown kind then ((evict state kind).0, true) else settle_other state request kind

  unfoldable pub settle_refused : z.State → Request → RequestType → StateError → z.State × Bool
  unfolding settle_gone settle_exists settle_other
  settle_refused state request kind (not_found id) = settle_gone state request kind
  settle_refused state request kind no_change = settle_gone state request kind
  settle_refused state request kind (exists id) = settle_exists state request kind
  settle_refused state request kind (refused why) = settle_other state request kind

  -- The next state and whether the acknowledgement is explained, or `none` for a request that
  -- carries nothing.
  unfoldable pub settle : z.State → Request → Option (z.State × Bool)
  unfolding settle_refused
  settle state request = elim request.request_type [
    | none ↦ none
    | some kind ↦ elim (z.apply state request) [
      | ok next ↦ some (next, true)
      | err refusal ↦ some (settle_refused state request kind refusal)
    ]
  ]

  unfoldable pub comparable : z.State → z.State
  unfolding tidy_buckets
  comparable state = tidy_buckets udp_fronts udp_json (
      tidy_buckets tcp_fronts tcp_json
        (tidy_buckets backends backend_json (clear_request_counts state)))

  -- The loop over the acknowledged requests.
  unfoldable pub simulate_from : z.State → List Request → Option z.State
  simulate_from state [] = some state
  simulate_from state (request ∷ requests) =
      let skipped = simulate_from state requests in
      if names_a_certificate request then skipped else elim (settle state request) [
        | none ↦ none
        | some (next, settled) ↦
            let rest = simulate_from next requests in if settled then rest else none
      ]

  unfoldable pub simulate : Ir → List Request → Option z.State
  unfolding simulate_from comparable
  simulate previous acknowledged = elim (routing_state z previous) [
    | err e ↦ none
    | ok state ↦ elim (simulate_from state acknowledged) [
      | none ↦ none
      | some left ↦ some (comparable left)
    ]
  ]

  unfoldable pub replay_if_exact : Ir → Ir → List Request → Option Ir
  unfolding simulate comparable
  replay_if_exact previous desired acknowledged =
      if is_empty acknowledged
      then some previous
      else let replayed = apply_acknowledged z.show z.display z.pem previous desired acknowledged in
        elim (simulate previous acknowledged) [
          | none ↦ none
          | some simulated ↦ elim (routing_state z replayed) [
            | err e ↦ none
            | ok described ↦
                if ◌==◌ ⦃e = state_eq⦄ (comparable described) simulated then some replayed else none
          ]
        ]
