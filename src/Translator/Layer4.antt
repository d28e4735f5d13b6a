-- ===== src/Translator/Layer4.antt =====
-- Layer 4 (TCP/UDP) listeners and frontends, crates/translator/src/lib.rs: their requests, exact
-- duplicates dropped, and the refusal of two clusters on one address.
pub mod Conflicts
use sozu_gateway.Prelude.{ℕ, Bool, true, false, none, List, [], ◌∷◌, map}
use sozu_gateway.Prelude.Tests.{if◌then◌else◌}
use sozu_gateway.Prelude.Eq.{Eq, ◌==◌, list_eq, nat_eq, pair_eq}
use sozu_gateway.Prelude.Results.{Result, ok, err}
use sozu_gateway.Prelude.Lists.Keys.{unique_by}
use sozu_gateway.Prelude.Texts.{Text}
use sozu_gateway.Ir.{SocketAddr, L4Frontend, L4Protocol, protocol_eq, address_eq}
use sozu_gateway.Wire.{Request, RequestType, ListenerType, wire, to_request}
use sozu_gateway.Wire.RequestType.{
  add_tcp_listener, add_udp_listener, activate_listener, add_tcp_frontend, add_udp_frontend,
}

unfoldable pub tcp_listener_add : SocketAddr → Request
tcp_listener_add addr = to_request (
    add_tcp_listener (record {
      address = wire addr;
      expect_proxy = false;
      front_timeout = 60;
      back_timeout = 30;
      connect_timeout = 3;
      active = true;
    }))

unfoldable pub udp_listener_add : SocketAddr → Request
udp_listener_add addr = to_request (
    add_udp_listener (record {
      address = wire addr;
      front_timeout = 30;
      back_timeout = 30;
      max_rx_datagram_size = 1500;
      max_flows = 0;
      active = true;
    }))

unfoldable pub activate_listener_request : SocketAddr → ListenerType → Request
activate_listener_request addr proxy =
    to_request (activate_listener (record { address = wire addr; proxy = proxy }))

unfoldable pub l4_frontend_request : L4Frontend → Request
l4_frontend_request f = elim f.protocol [
  | L4Protocol.tcp ↦ to_request (
      add_tcp_frontend
        (record { cluster_id = f.cluster_id; address = wire f.listener; sni = none; alpn = [] }))
  | L4Protocol.udp ↦
      to_request
        (add_udp_frontend (record { cluster_id = f.cluster_id; address = wire f.listener }))
]

abbrev pub L4Key : Type 0
L4Key = L4Protocol × SocketAddr

abbrev pub l4_key : L4Frontend → L4Key
l4_key f = (f.protocol, f.listener)

abbrev pub l4_claim : L4Frontend → L4Key × Text
l4_claim f = (l4_key f, f.cluster_id)

unfoldable pub unique_l4_frontends : List L4Frontend → List L4Frontend
unique_l4_frontends = unique_by l4_claim

unfoldable pub l4_listener_add : L4Frontend → Request
unfolding tcp_listener_add udp_listener_add
l4_listener_add f = elim f.protocol [
  | L4Protocol.tcp ↦ tcp_listener_add f.listener
  | L4Protocol.udp ↦ udp_listener_add f.listener
]

unfoldable pub l4_listener_adds : List L4Frontend → List Request
unfolding l4_listener_add
l4_listener_adds l4 = map l4_listener_add (unique_by l4_key l4)

unfoldable pub l4_listener_activation : L4Frontend → Request
unfolding activate_listener_request
l4_listener_activation f = elim f.protocol [
  | L4Protocol.tcp ↦ activate_listener_request f.listener ListenerType.tcp
  | L4Protocol.udp ↦ activate_listener_request f.listener ListenerType.udp
]

unfoldable pub l4_listener_activations : List L4Frontend → List Request
unfolding l4_listener_activation
l4_listener_activations l4 = map l4_listener_activation (unique_by l4_key l4)
