-- ===== src/Translator/Tiers/Phases.antt =====
-- The dependencies that the canonical order respects (module documentation and `tier`,
-- crates/translator/src/lib.rs): the phases of a batch, in the order they run.
use sozu_gateway.Prelude.{
  ℕ, ◌<◌, ◌≡◌, refl, Bool, true, not, ◌&&◌, ◌||◌, Option, none, some, List, [], ◌∷◌, arith,
}
use sozu_gateway.Prelude.Tests.{leb}
use sozu_gateway.Prelude.Eq.{Eq, ◌==◌, eq_of-==}
use sozu_gateway.Prelude.Lists.{all}
use sozu_gateway.Prelude.Order.{nat_order}
use sozu_gateway.Prelude.Order.Sort.{sorted}
use sozu_gateway.Prelude.Texts.{Text}
use sozu_gateway.Wire.{Request, RequestType}
use sozu_gateway.Wire.RequestType.{
  add_http_listener, add_https_listener, add_tcp_listener, add_udp_listener, activate_listener,
  deactivate_listener, remove_listener, add_cluster, remove_cluster, add_backend, add_unix_backend,
  remove_backend, add_http_frontend, add_https_frontend, add_http_frontend_with_header_predicates,
  add_https_frontend_with_header_predicates, add_http_frontend_with_silent_close,
  add_https_frontend_with_silent_close, remove_http_frontend, remove_https_frontend,
  remove_http_frontend_with_header_predicates, remove_https_frontend_with_header_predicates,
  add_tcp_frontend, remove_tcp_frontend, add_udp_frontend, remove_udp_frontend, add_certificate,
  remove_certificate, replace_certificate, list_frontends, status, other,
}
use sozu_gateway.Translator.Tiers.{CertRank, tier, tier_of, canonicalize_ranked}
use sozu_gateway.Translator.Tiers.Sorted.{canonicalize_ranked-sorted}

-- Listeners come up, then what hangs on them; a key is freed before it is taken again; what is
-- left unused goes, a cluster last.
pub data Phase : Type 0 where
  listener_add listener_activation cluster_add backend_add certificate_set : Phase
  frontend_removal frontend_add backend_removal certificate_removal : Phase
  listener_deactivation listener_removal cluster_removal unordered : Phase

Phase_discrete : Discrete Phase
Phase_discrete = hlevel

instance abbrev phase_eq : Eq Phase
phase_eq = record { dec = Phase_discrete }

pub phase_of : RequestType → Phase
phase_of (add_http_listener l) = listener_add
phase_of (add_https_listener l) = listener_add
phase_of (add_tcp_listener l) = listener_add
phase_of (add_udp_listener l) = listener_add
phase_of (activate_listener l) = listener_activation
phase_of (deactivate_listener l) = listener_deactivation
phase_of (remove_listener l) = listener_removal
phase_of (add_cluster c) = cluster_add
phase_of (remove_cluster id) = cluster_removal
phase_of (add_backend b) = backend_add
phase_of (add_unix_backend b) = backend_add
phase_of (remove_backend b) = backend_removal
phase_of (add_http_frontend f) = frontend_add
phase_of (add_https_frontend f) = frontend_add
phase_of (add_http_frontend_with_header_predicates f) = frontend_add
phase_of (add_https_frontend_with_header_predicates f) = frontend_add
phase_of (add_http_frontend_with_silent_close f) = frontend_add
phase_of (add_https_frontend_with_silent_close f) = frontend_add
phase_of (remove_http_frontend f) = frontend_removal
phase_of (remove_https_frontend f) = frontend_removal
phase_of (remove_http_frontend_with_header_predicates f) = frontend_removal
phase_of (remove_https_frontend_with_header_predicates f) = frontend_removal
phase_of (add_tcp_frontend f) = frontend_add
phase_of (remove_tcp_frontend f) = frontend_removal
phase_of (add_udp_frontend f) = frontend_add
phase_of (remove_udp_frontend f) = frontend_removal
phase_of (add_certificate c) = certificate_set
phase_of (remove_certificate c) = certificate_removal
phase_of (replace_certificate c) = certificate_set
phase_of (list_frontends f) = unordered
phase_of status = unordered
phase_of (other r) = unordered

pub phase : Request → Phase
phase r = elim r.request_type [ none ↦ unordered | some kind ↦ phase_of kind ]

-- The position of a phase in a batch.
abbrev pub position : Phase → ℕ
position listener_add = 0
position listener_activation = 1
position cluster_add = 2
position backend_add = 3
position certificate_set = 4
position frontend_removal = 5
position frontend_add = 6
position backend_removal = 7
position certificate_removal = 8
position listener_deactivation = 9
position listener_removal = 10
position cluster_removal = 11
position unordered = 12

-- The tier of a phase.
abbrev tier_at : Phase → ℕ
tier_at listener_add = 0
tier_at listener_activation = 1
tier_at cluster_add = 2
tier_at backend_add = 3
tier_at certificate_set = 4
tier_at frontend_removal = 5
tier_at frontend_add = 6
tier_at backend_removal = 7
tier_at certificate_removal = 9
tier_at listener_deactivation = 10
tier_at listener_removal = 11
tier_at cluster_removal = 12
tier_at unordered = 100

tier_of-phase : (kind : RequestType) → tier_of kind ≡ tier_at (phase_of kind)
unfolding tier_of phase_of
tier_of-phase (add_http_listener l) = refl
tier_of-phase _ = refl

tier-phase : (r : Request) → tier r ≡ tier_at (phase r)
unfolding tier phase
tier-phase r = ground (arith, option_case r.request_type)
  where
    option_case :
        (o : Option RequestType)
        → (elim o [ none ↦ 100 | some kind ↦ tier_of kind ])
          ≡ tier_at (elim o [ none ↦ unordered | some kind ↦ phase_of kind ])
    option_case none = refl
    option_case (some kind) = tier_of-phase kind

tier_at_mono : (a b : Phase) → position a < position b → tier_at a < tier_at b
tier_at_mono listener_add b h = ground arith
tier_at_mono _ b h = ground arith

-- No element with `q` stands before one with `p`.
abbrev pub before {ℓ} : {A : Type ℓ} → (A → Bool) → (A → Bool) → List A → Bool
before p q [] = true
before p q (x ∷ xs) = (not (q x) || all (λ y. not (p y)) xs) && before p q xs

abbrev pub in_phase : Phase → Request → Bool
in_phase a r = phase r == a

none_later :
    (a b : Phase) (r : Request) (rs : List Request)
    → position a < position b
    → phase r ≡ b
    → all (λ s. leb (tier r) (tier s)) rs ≡ true
    → all (λ s. not (in_phase a s)) rs ≡ true
none_later a b r [] h e k = refl
none_later a b r (s ∷ rs) h e k = ground (
  arith,
  none_later a b r rs h e,
  eq_of-== (phase s) a,
  tier-phase r,
  tier-phase s,
  tier_at_mono a b h,
)

before_of-sorted :
    (a b : Phase) (rs : List Request)
    → position a < position b
    → sorted tier rs ≡ true
    → before (in_phase a) (in_phase b) rs ≡ true
before_of-sorted a b [] h k = refl
before_of-sorted a b (r ∷ rs) h k =
    ground (arith, none_later a b r rs h, eq_of-== (phase r) b, before_of-sorted a b rs h)

-- In the sorted list no request of a later phase stands before one of an earlier phase.
pub canonicalize_ranked-before :
    (json : Request → Text) (a b : Phase) (xs : List (CertRank × Request))
    → position a < position b
    → before (in_phase a) (in_phase b) (canonicalize_ranked json xs) ≡ true
canonicalize_ranked-before json a b xs h =
    before_of-sorted a b (canonicalize_ranked json xs) h (canonicalize_ranked-sorted json xs)
