-- ===== src/Translator/Replay.antt =====
-- `apply_acknowledged`, crates/translator/src/replay.rs: the previous state with the acknowledged
-- requests replayed onto it. Displays and fingerprints are parameters.
pub mod Groups
pub mod Lookups
pub mod Kept
pub mod Tidy
pub mod Output
pub mod Start
pub mod Fold
pub mod Backends
pub mod Routes
pub mod Exact
use sozu_gateway.Prelude.{
  ℕ, zero, suc, ◌+◌, Bool, true, false, not, ◌&&◌, ◌||◌, Option, none, some, List, [], ◌∷◌, ◌++◌,
  map,
}
use sozu_gateway.Prelude.Tests.{if◌then◌else◌, ltb}
use sozu_gateway.Prelude.Eq.{Eq, ◌==◌, nat_eq, list_eq, pair_eq, option_eq}
use sozu_gateway.Prelude.Lists.{filter, any, is_empty}
use sozu_gateway.Prelude.Lists.Keys.{lookup}
use sozu_gateway.Prelude.Results.{ok, err}
use sozu_gateway.Prelude.Texts.{Text, to_ascii_lowercase}
use sozu_gateway.Ir.{
  Ir, SocketAddr, Cluster, Backend, Frontend, Certificate, L4Frontend, L4Protocol, plain,
  address_eq, protocol_eq,
}
use sozu_gateway.Ir.RouteKey.{Show, SozuRouteKey, sozu_route_key, route_key_eq}
use sozu_gateway.Wire.{Request, RequestType, RequestHttpFrontend, ListenerType, unwire}
use sozu_gateway.Wire.RequestType.{
  add_tcp_listener, add_udp_listener, remove_listener, add_cluster, remove_cluster, add_backend,
  remove_backend, add_http_frontend, add_https_frontend, add_http_frontend_with_header_predicates,
  add_https_frontend_with_header_predicates, remove_http_frontend, remove_https_frontend,
  remove_http_frontend_with_header_predicates, remove_https_frontend_with_header_predicates,
  add_tcp_frontend, remove_tcp_frontend, add_udp_frontend, remove_udp_frontend, add_certificate,
  remove_certificate, replace_certificate,
}
use sozu_gateway.Translator.Removals.{BackendKey}
use sozu_gateway.Translator.Layer4.{L4Key}
use sozu_gateway.Translator.Certificates.{Pem, hex}
use sozu_gateway.Translator.Replay.Groups.{Keyed, Group, new, set, remove, into_objects, wanted}

-- `None` for a certificate that cannot be fingerprinted.
abbrev pub CertificateKey : Type 0
CertificateKey = Option (SocketAddr × Text)

unfoldable pub backend_key : Backend → BackendKey
backend_key b = (b.cluster_id, (b.backend_id, plain b.address))

unfoldable pub l4_key : L4Frontend → L4Key
l4_key f = (f.protocol, plain f.listener)

unfoldable pub names_a_certificate_kind : RequestType → Bool
names_a_certificate_kind (add_certificate c) = true
names_a_certificate_kind (remove_certificate c) = true
names_a_certificate_kind (replace_certificate c) = true
names_a_certificate_kind _ = false

unfoldable pub names_a_certificate : Request → Bool
unfolding names_a_certificate_kind
names_a_certificate r = elim r.request_type [
  | none ↦ false
  | some kind ↦ names_a_certificate_kind kind
]

pub record Replay : Type 0 where
  pub clusters : Keyed Text Cluster
  pub backends : Keyed BackendKey Backend
  pub frontends : Keyed SozuRouteKey Frontend
  pub l4 : Keyed L4Key L4Frontend
  pub certificates : Keyed CertificateKey Certificate
  pub wanted_clusters : Text → Option (List Cluster)
  pub wanted_backends : BackendKey → Option (List Backend)
  pub wanted_frontends : SozuRouteKey → Option (List Frontend)
  pub wanted_l4 : L4Key → Option (List L4Frontend)
  pub wanted_certificates : CertificateKey → Option (List Certificate)
  pub removed_clusters : List (Text × ℕ)
  pub released : List (L4Key × ℕ)
  pub listener_added : List (L4Key × ℕ)
  pub listener_removed : List (L4Key × ℕ)

-- `BTreeMap<_, usize>`: the last insertion under a key stands first.
unfoldable pub insert_step : {K : Type 0} → K → ℕ → List (K × ℕ) → List (K × ℕ)
insert_step k step m = (k, step) ∷ m

-- The map of `k` has a step after `since`.
unfoldable pub after : {K : Type 0} ⦃e : Eq K⦄ → List (K × ℕ) → K → ℕ → Bool
after m k since = elim (lookup k m) [ none ↦ false | some at ↦ ltb since at ]

module _ (show : Show) (display : RequestHttpFrontend → Text) (pem : Pem) where
  unfoldable pub route_key : Bool → RequestHttpFrontend → SozuRouteKey
  route_key https payload = record { https = https; key = display payload }

  unfoldable pub fingerprint_of : Text → Option Text
  fingerprint_of text = elim (pem.calculate_fingerprint text) [
    | ok bytes ↦ some (hex bytes)
    | err e ↦ none
  ]

  unfoldable pub certificate_key : Certificate → CertificateKey
  unfolding fingerprint_of
  certificate_key c = elim (fingerprint_of c.certificate) [
    | none ↦ none
    | some fp ↦ some (plain c.listener, fp)
  ]

  -- Without certificate requests the certificates are not fingerprinted.
  unfoldable pub cert_key : Bool → Certificate → CertificateKey
  unfolding certificate_key
  cert_key certificates c = if certificates then certificate_key c else none

  unfoldable pub new_replay : Ir → Ir → Bool → Replay
  unfolding cert_key
  new_replay previous desired certificates = record {
    clusters = new (λ c. c.id) previous.clusters;
    backends = new backend_key previous.backends;
    frontends = new (sozu_route_key show) previous.frontends;
    l4 = new l4_key previous.l4_frontends;
    certificates = new (cert_key certificates) previous.certificates;
    wanted_clusters = wanted (λ c. c.id) desired.clusters;
    wanted_backends = wanted backend_key desired.backends;
    wanted_frontends = wanted (sozu_route_key show) desired.frontends;
    wanted_l4 = wanted l4_key desired.l4_frontends;
    wanted_certificates = wanted (cert_key certificates) desired.certificates;
    removed_clusters = [];
    released = [];
    listener_added = [];
    listener_removed = [];
  }

  unfoldable pub set_frontend : SozuRouteKey → ℕ → Replay → Replay
  set_frontend key step s = record s {
    frontends = set key (s.wanted_frontends key) step s.frontends;
  }

  unfoldable pub set_l4 : L4Key → ℕ → Replay → Replay
  set_l4 key step s = record s { l4 = set key (s.wanted_l4 key) step s.l4 }

  unfoldable pub set_certificate : CertificateKey → ℕ → Replay → Replay
  set_certificate key step s = record s {
    certificates = set key (s.wanted_certificates key) step s.certificates;
  }

  -- HTTP and HTTPS listeners are never in the state.
  unfoldable pub listener_protocol : ListenerType → Option L4Protocol
  listener_protocol ListenerType.tcp = some L4Protocol.tcp
  listener_protocol ListenerType.udp = some L4Protocol.udp
  listener_protocol _ = none

  unfoldable pub replace_in : ℕ → SocketAddr → Text → Option Text → Replay → Replay
  unfolding set_certificate
  replace_in step address old none s = s
  replace_in step address old (some fp) s =
      let kept =
        if old == fp then s.certificates else remove (some (address, old)) s.certificates in
      set_certificate (some (address, fp)) step (record s { certificates = kept })

  -- Replays one acknowledged request, the `step`th of the batch.
  unfoldable pub apply_kind : ℕ → RequestType → Replay → Replay
  unfolding set_frontend set_l4 set_certificate route_key fingerprint_of replace_in
      listener_protocol insert_step unwire
  apply_kind step (add_cluster c) s = record s {
    clusters = set c.cluster_id (s.wanted_clusters c.cluster_id) step s.clusters;
  }
  apply_kind step (remove_cluster id) s = record s {
    clusters = remove id s.clusters;
    removed_clusters = insert_step id step s.removed_clusters;
  }
  apply_kind step (add_backend b) s =
      let key : BackendKey = (b.cluster_id, (b.backend_id, plain (unwire b.address))) in
      record s { backends = set key (s.wanted_backends key) step s.backends }
  apply_kind step (remove_backend b) s = record s {
    backends = remove (b.cluster_id, (b.backend_id, plain (unwire b.address))) s.backends;
  }
  apply_kind step (add_http_frontend f) s = set_frontend (route_key false f) step s
  apply_kind step (add_http_frontend_with_header_predicates f) s =
      set_frontend (route_key false f) step s
  apply_kind step (add_https_frontend f) s = set_frontend (route_key true f) step s
  apply_kind step (add_https_frontend_with_header_predicates f) s =
      set_frontend (route_key true f) step s
  apply_kind step (remove_http_frontend f) s = record s {
    frontends = remove (route_key false f) s.frontends;
  }
  apply_kind step (remove_http_frontend_with_header_predicates f) s = record s {
    frontends = remove (route_key false f) s.frontends;
  }
  apply_kind step (remove_https_frontend f) s = record s {
    frontends = remove (route_key true f) s.frontends;
  }
  apply_kind step (remove_https_frontend_with_header_predicates f) s = record s {
    frontends = remove (route_key true f) s.frontends;
  }
  apply_kind step (add_tcp_frontend f) s = set_l4 (L4Protocol.tcp, plain (unwire f.address)) step s
  apply_kind step (add_udp_frontend f) s = set_l4 (L4Protocol.udp, plain (unwire f.address)) step s
  apply_kind step (remove_tcp_frontend f) s = record s {
    released = insert_step (L4Protocol.tcp, plain (unwire f.address)) step s.released;
  }
  apply_kind step (remove_udp_frontend f) s = record s {
    released = insert_step (L4Protocol.udp, plain (unwire f.address)) step s.released;
  }
  apply_kind step (add_tcp_listener l) s = record s {
    listener_added = insert_step (L4Protocol.tcp, plain (unwire l.address)) step s.listener_added;
  }
  apply_kind step (add_udp_listener l) s = record s {
    listener_added = insert_step (L4Protocol.udp, plain (unwire l.address)) step s.listener_added;
  }
  apply_kind step (remove_listener l) s = elim (listener_protocol l.proxy) [
    | none ↦ s
    | some protocol ↦ record s {
      listener_removed = insert_step (protocol, plain (unwire l.address)) step s.listener_removed;
    }
  ]
  apply_kind step (add_certificate add) s = elim (fingerprint_of add.certificate.certificate) [
    | none ↦ s
    | some fp ↦ set_certificate (some (plain (unwire add.address), fp)) step s
  ]
  apply_kind step (remove_certificate r) s = record s {
    certificates =
        remove (some (plain (unwire r.address), to_ascii_lowercase r.fingerprint)) s.certificates;
  }
  apply_kind step (replace_certificate r) s =
      replace_in step (plain (unwire r.address)) (to_ascii_lowercase r.old_fingerprint)
        (fingerprint_of r.new_certificate.certificate) s
  apply_kind step _ s = s

  unfoldable pub apply : ℕ → Request → Replay → Replay
  apply step r s = elim r.request_type [ none ↦ s | some kind ↦ apply_kind step kind s ]

  unfoldable pub apply_all : ℕ → List Request → Replay → Replay
  apply_all step [] s = s
  apply_all step (r ∷ rs) s = apply_all (suc step) rs (apply step r s)

  -- Whether the cluster was removed after the group that names it was set.
  unfoldable pub removed_since : Replay → Option Text → ℕ → Bool
  removed_since s cluster_id since = elim cluster_id [
    | none ↦ false
    | some id ↦ after s.removed_clusters id since
  ]

  unfoldable pub listener_gone : Replay → L4Key → Bool
  listener_gone s key = elim (lookup key s.listener_removed) [
    | none ↦ false
    | some removed ↦ elim (lookup key s.listener_added) [ none ↦ true | some at ↦ ltb at removed ]
  ]

  -- Frontends that Sōzu no longer holds stay while their listener is held.
  unfoldable pub held_l4 : Replay → L4Key → ℕ → List (ℕ × L4Frontend) → List (ℕ × L4Frontend)
  unfolding removed_since listener_gone
  held_l4 s key since objects =
      let held : List (ℕ × L4Frontend) =
        filter
          (λ o.
            not (after s.released key since) && not (removed_since s (some (o.1.cluster_id)) since))
          objects in
      if not (is_empty held) || listener_gone s key then held else objects

  unfoldable pub finish : Replay → Ir
  unfolding removed_since held_l4
  finish s = record {
    clusters = into_objects (λ k since os. os) s.clusters;
    frontends =
        into_objects (λ k since os. filter (λ o. not (removed_since s o.1.cluster_id since)) os)
          s.frontends;
    backends =
        into_objects
          (λ k since os. filter (λ o. not (removed_since s (some o.1.cluster_id) since)) os)
          s.backends;
    certificates = into_objects (λ k since os. os) s.certificates;
    l4_frontends = into_objects (held_l4 s) s.l4;
  }

  unfoldable pub apply_acknowledged : Ir → Ir → List Request → Ir
  unfolding new_replay apply_all finish
  apply_acknowledged previous desired acknowledged =
      if is_empty acknowledged
      then previous
      else finish (
          apply_all 1 acknowledged
            (new_replay previous desired (any names_a_certificate acknowledged)))
