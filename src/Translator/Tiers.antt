-- ===== src/Translator/Tiers.antt =====
-- The dependency-safe order of a batch, crates/translator/src/lib.rs: `tier`, `CertRank`,
-- `canonicalize` and `canonicalize_ranked`. The JSON encoding of a request is the encoder's,
-- taken as a parameter.
pub mod Sorted
pub mod Phases
use sozu_gateway.Prelude.{ℕ, ◌≡◌, Bool, Option, none, some, List, [], ◌∷◌, map, arith, ℕ_discrete}
use sozu_gateway.Prelude.Eq.{Eq}
use sozu_gateway.Prelude.Order.{Order, nat_order, list_order, pair_order}
use sozu_gateway.Prelude.Order.Sort.{sort_by}
use sozu_gateway.Prelude.Texts.{Text}
use sozu_gateway.Wire.{Request, RequestType}
use sozu_gateway.Wire.RequestType.{
  add_http_listener, add_https_listener, add_tcp_listener, add_udp_listener, activate_listener,
  deactivate_listener, remove_listener, add_cluster, remove_cluster, add_backend, add_unix_backend,
  remove_backend, add_http_frontend, add_https_frontend, add_http_frontend_with_header_predicates,
  add_https_frontend_with_header_predicates, add_http_frontend_with_silent_close,
  add_https_frontend_with_silent_close, remove_http_frontend, remove_https_frontend,
  remove_http_frontend_with_header_predicates, remove_https_frontend_with_header_predicates,
  add_tcp_frontend, remove_tcp_frontend, add_udp_frontend, remove_udp_frontend, add_certificate,
  remove_certificate, replace_certificate, list_frontends, status, other,
}

unfoldable pub tier_of : RequestType → ℕ
tier_of (add_http_listener l) = 0
tier_of (add_https_listener l) = 0
tier_of (add_tcp_listener l) = 0
tier_of (add_udp_listener l) = 0
tier_of (activate_listener l) = 1
tier_of (add_cluster c) = 2
tier_of (add_backend b) = 3
tier_of (add_unix_backend b) = 3
tier_of (add_certificate c) = 4
tier_of (replace_certificate c) = 4
tier_of (remove_http_frontend f) = 5
tier_of (remove_https_frontend f) = 5
tier_of (remove_http_frontend_with_header_predicates f) = 5
tier_of (remove_https_frontend_with_header_predicates f) = 5
tier_of (remove_tcp_frontend f) = 5
tier_of (remove_udp_frontend f) = 5
tier_of (add_http_frontend f) = 6
tier_of (add_https_frontend f) = 6
tier_of (add_http_frontend_with_header_predicates f) = 6
tier_of (add_https_frontend_with_header_predicates f) = 6
tier_of (add_http_frontend_with_silent_close f) = 6
tier_of (add_https_frontend_with_silent_close f) = 6
tier_of (add_tcp_frontend f) = 6
tier_of (add_udp_frontend f) = 6
tier_of (remove_backend b) = 7
tier_of (remove_certificate c) = 9
tier_of (deactivate_listener l) = 10
tier_of (remove_listener l) = 11
tier_of (remove_cluster id) = 12
tier_of _ = 100

unfoldable pub tier : Request → ℕ
unfolding tier_of
tier r = elim r.request_type [ none ↦ 100 | some kind ↦ tier_of kind ]

-- Where a certificate request sits within its tier.
pub data CertRank : Type 0 where
  gains : CertRank
  trades : ℕ → CertRank
  withdraws : CertRank

-- The derived `Ord`.
abbrev pub rank_key : CertRank → ℕ × ℕ
rank_key gains = (0, 0)
rank_key (trades n) = (1, n)
rank_key withdraws = (2, 0)

pub CertRank_discrete : Discrete CertRank
CertRank_discrete = hlevel ℕ_discrete

instance abbrev pub cert_rank_eq : Eq CertRank
cert_rank_eq = record { dec = CertRank_discrete }

module _ (json : Request → Text) where
  abbrev pub batch_key : CertRank × Request → ℕ × ((ℕ × ℕ) × Text)
  batch_key (rank, req) = (tier req, (rank_key rank, json req))

  unfoldable pub sort_batch : List (CertRank × Request) → List (CertRank × Request)
  sort_batch = sort_by batch_key

  unfoldable pub canonicalize_ranked : List (CertRank × Request) → List Request
  unfolding sort_batch
  canonicalize_ranked requests = map (λ r. r.1) (sort_batch requests)

  unfoldable pub canonicalize : List Request → List Request
  unfolding canonicalize_ranked
  canonicalize requests = canonicalize_ranked (map (λ r. (gains, r)) requests)
