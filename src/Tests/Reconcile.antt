-- ===== src/Tests/Reconcile.antt =====
-- `reconcile` at sample states, and its properties there.
use sozu_gateway.Prelude.{◌<◌, ◌≡◌, refl, true, false, List, [], ◌∷◌, map, ℕ_discrete}
use sozu_gateway.Prelude.Eq.{list_discrete, pair_discrete, list_eq, nat_eq, pair_eq}
use sozu_gateway.Prelude.Lists.{filter-not}
use sozu_gateway.Prelude.Lists.Upsert.{all_contained, upsert_by}
use sozu_gateway.Prelude.Lists.Keys.{contains, distinct}
use sozu_gateway.Prelude.Order.{list_le, pair_le}
use sozu_gateway.Prelude.Order.Sort.{sort_by}
use sozu_gateway.Prelude.Order.Sets.{to_set, dedup}
use sozu_gateway.Prelude.Results.{ok}
use sozu_gateway.Prelude.Texts.{codes}
use sozu_gateway.Ir.{address_eq, SocketAddr_discrete, L4Protocol_discrete}
use sozu_gateway.Wire.{Request, Request_discrete, RequestType_discrete}
use sozu_gateway.Translator.Payloads.{cluster_requests, cluster_request, udp_clusters}
use sozu_gateway.Translator.Layer4.{
  l4_listener_adds, l4_listener_add, tcp_listener_add, l4_frontend_request, unique_l4_frontends,
}
use sozu_gateway.Translator.Layer4.Conflicts.{check_l4_conflicts}
use sozu_gateway.Translator.Frontends.{http_frontend_requests, payloads, unique_frontends}
use sozu_gateway.Translator.Tiers.{tier, canonicalize, canonicalize_ranked}
use sozu_gateway.Translator.Tiers.Phases.{Phase, position, before, in_phase}
use sozu_gateway.Translator.References.{
  IsClosed, check_cluster_references, declared, refuse_unknown,
}
use sozu_gateway.Translator.Removals.{
  removed_cluster, added_backend, added_backend_of, expand_cluster_removals,
  drop_superseded_backend_removes,
}
use sozu_gateway.Translator.Certificates.{
  KeyedCert, keyed_certs, key_cert, fingerprint_of, served_chain, insert_cert, cert_key, hex,
  hex_digit,
}
use sozu_gateway.Translator.Certificates.Keys.{Holds, keyed_certs-Holds}
use sozu_gateway.Translator.Certificates.Diff.{
  certificate_requests, diff_certs, ranked_trades, settle_added, removed_certs,
}
use sozu_gateway.Translator.Certificates.Diff.Idempotent.{certificate_requests_self}
use sozu_gateway.Translator.Reconcile.{routing_state, routing_requests, routing_diff, reconcile}
use sozu_gateway.Translator.Reconcile.Batches.{reconcile_self, reconcile-before}
use sozu_gateway.Tests.Samples.{empty, tcp_state, certificate, sozu, pem, encoded, cluster, tcp}

abbrev tcp_requests : List Request
tcp_requests =
    tcp_listener_add (tcp 25 2).listener
    ∷ cluster_request (cluster 2) false
    ∷ l4_frontend_request (tcp 25 2)
    ∷ []

tcp_folds : routing_state sozu tcp_state ≡ ok tcp_requests
unfolding routing_state routing_requests canonicalize sort_by check_l4_conflicts unique_l4_frontends
    cluster_requests udp_clusters l4_listener_adds http_frontend_requests payloads unique_frontends
    L4Protocol_discrete SocketAddr_discrete list_discrete pair_discrete ℕ_discrete to_set dedup
    pair_le list_le tier tcp_listener_add cluster_request l4_frontend_request l4_listener_add
tcp_folds = refl

keyed_one :
    keyed_certs pem (certificate 5 (codes "a" ∷ []) ∷ [])
    ≡ ok (
        record {
          listener = (certificate 5 []).listener;
          fingerprint = codes "05";
          chain = [];
          cert = certificate 5 (codes "a" ∷ []);
        }
        ∷ [])
unfolding keyed_certs key_cert fingerprint_of served_chain insert_cert upsert_by hex hex_digit
    list_discrete ℕ_discrete
keyed_one = refl

keyed_none : keyed_certs pem [] ≡ ok []
unfolding keyed_certs
keyed_none = refl

abbrev entry : KeyedCert
entry = record {
  listener = (certificate 5 []).listener;
  fingerprint = codes "05";
  chain = [];
  cert = certificate 5 (codes "a" ∷ []);
}

keyed_certs-Holds_example :
    (distinct (map cert_key (entry ∷ [])) ≡ true)
    × Holds pem (entry ∷ []) (certificate 5 (codes "a" ∷ []) ∷ [])
keyed_certs-Holds_example =
    keyed_certs-Holds pem (certificate 5 (codes "a" ∷ []) ∷ []) (entry ∷ []) keyed_one

certificate_requests_self_example :
    certificate_requests encoded pem
      (certificate 5 (codes "a" ∷ []) ∷ [])
      (certificate 5 (codes "a" ∷ []) ∷ [])
    ≡ ok []
certificate_requests_self_example =
    certificate_requests_self encoded pem (certificate 5 (codes "a" ∷ []) ∷ []) _ keyed_one

diff_same : (s : List Request) → sozu.diff s s ≡ []
diff_same s = filter-not (λ r. contains (encoded r) (map encoded s)) s (all_contained encoded s)

tcp-IsClosed : IsClosed tcp_state
unfolding list_discrete ℕ_discrete declared
tcp-IsClosed = record { backends = tt; frontends = tt; l4_frontends = (refl, tt) }

reconcile_self_example : reconcile sozu tcp_state tcp_state ≡ ok []
reconcile_self_example =
    reconcile_self sozu tcp_state tcp_requests [] tcp-IsClosed tcp_folds keyed_none
      (diff_same tcp_requests)

tcp_reconciles : reconcile sozu empty tcp_state ≡ ok tcp_requests
unfolding reconcile check_cluster_references declared refuse_unknown routing_state routing_requests
    canonicalize canonicalize_ranked sort_by check_l4_conflicts unique_l4_frontends cluster_requests
    udp_clusters l4_listener_adds http_frontend_requests payloads unique_frontends
    L4Protocol_discrete SocketAddr_discrete list_discrete pair_discrete ℕ_discrete to_set dedup
    pair_le list_le tier tcp_listener_add cluster_request l4_frontend_request l4_listener_add
    certificate_requests keyed_certs diff_certs ranked_trades settle_added removed_certs
    routing_diff expand_cluster_removals drop_superseded_backend_removes Request_discrete
    RequestType_discrete removed_cluster added_backend added_backend_of
tcp_reconciles = refl

reconcile-before_example :
    IsClosed tcp_state
    × ((a b : Phase)
        → position a < position b
        → before (in_phase a) (in_phase b) tcp_requests ≡ true)
reconcile-before_example = reconcile-before sozu empty tcp_state tcp_requests tcp_reconciles
