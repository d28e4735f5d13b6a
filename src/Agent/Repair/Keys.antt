-- ===== src/Agent/Repair/Keys.antt =====
-- The routes that a repair removes (`removal_for` and `stored_removal`,
-- crates/sozu-agent/src/lib.rs).
use sozu_gateway.Prelude.{
  ◌≡◌, ◌⊎◌, ap, sym, ◌∙◌, Bool, true, ◌&&◌, Option, none, some, List, [], ◌∷◌, inl, inr, arith,
}
use sozu_gateway.Prelude.Tests.{Bool-cases, Option-cases}
use sozu_gateway.Prelude.Eq.{◌==◌, list_eq, nat_eq, option_eq, pair_eq, eq_of-==}
use sozu_gateway.Prelude.Lists.{find}
use sozu_gateway.Prelude.Texts.{Text}
use sozu_gateway.Wire.{
  Request, RequestType, RequestHttpFrontend, RequestTcpFrontend, RequestUdpFrontend, Address, Verbs,
  wire_address_eq,
}
use sozu_gateway.Wire.RequestType.{
  add_http_frontend, add_https_frontend, add_http_frontend_with_header_predicates,
  add_https_frontend_with_header_predicates, remove_http_frontend, remove_https_frontend,
  remove_http_frontend_with_header_predicates, remove_https_frontend_with_header_predicates,
  add_tcp_frontend, remove_tcp_frontend, add_udp_frontend, remove_udp_frontend,
}
use sozu_gateway.Agent.Repair.{
  ListedFrontends, tcp_claim, removal_of, request_of, removal_for, stored_http, stored_https,
  stored_tcp, stored_udp, stored_kind, stored_removal,
}

-- What Sōzu holds a route under.
pub data RouteSlot : Type 0 where
  http_slot : Text → RouteSlot
  https_slot : Text → RouteSlot
  tcp_slot : Address → Option Text × List Text → RouteSlot
  udp_slot : Address → RouteSlot

module _ (display : RequestHttpFrontend → Text) where
  abbrev pub slot_of : RequestType → Option RouteSlot
  slot_of (add_http_frontend f) = some (http_slot (display f))
  slot_of (add_http_frontend_with_header_predicates f) = some (http_slot (display f))
  slot_of (remove_http_frontend f) = some (http_slot (display f))
  slot_of (remove_http_frontend_with_header_predicates f) = some (http_slot (display f))
  slot_of (add_https_frontend f) = some (https_slot (display f))
  slot_of (add_https_frontend_with_header_predicates f) = some (https_slot (display f))
  slot_of (remove_https_frontend f) = some (https_slot (display f))
  slot_of (remove_https_frontend_with_header_predicates f) = some (https_slot (display f))
  slot_of (add_tcp_frontend f) = some (tcp_slot f.address (tcp_claim f))
  slot_of (remove_tcp_frontend f) = some (tcp_slot f.address (tcp_claim f))
  slot_of (add_udp_frontend f) = some (udp_slot f.address)
  slot_of (remove_udp_frontend f) = some (udp_slot f.address)
  slot_of _ = none

  abbrev pub slot : Request → Option RouteSlot
  slot r = elim r.request_type [ none ↦ none | some kind ↦ slot_of kind ]

  -- Sōzu's verbs remove the frontend they are given.
  pub record RemovesThat (verbs : Verbs) : Type 0 where
    pub http :
        (f : RequestHttpFrontend) → slot_of (verbs.remove_http f) ≡ some (http_slot (display f))
    pub https :
        (f : RequestHttpFrontend) → slot_of (verbs.remove_https f) ≡ some (https_slot (display f))

find-holds {ℓ} : {A : Type ℓ} (p : A → Bool) (xs : List A) (x : A) → find p xs ≡ some x → p x ≡ true
find-holds p [] x h = cc
find-holds p (y ∷ ys) x h = elim (Bool-cases (p y)) [
  | inl t ↦ let same : y ≡ x = ground (arith, h, t) in ap p (sym same) ∙ t
  | inr t ↦ find-holds p ys x (ground (arith, h, t))
]

module _ (verbs : Verbs) (display : RequestHttpFrontend → Text)
    (that : RemovesThat display verbs) where
  removal_of-slot :
      (kind removal : RequestType)
      → removal_of verbs display kind ≡ some removal
      → slot_of display removal ≡ slot_of display kind
  unfolding removal_of
  removal_of-slot (add_http_frontend f) removal h = ground (arith, that.http f)
  removal_of-slot (add_http_frontend_with_header_predicates f) removal h =
      ground (arith, that.http f)
  removal_of-slot (add_https_frontend f) removal h = ground (arith, that.https f)
  removal_of-slot (add_https_frontend_with_header_predicates f) removal h =
      ground (arith, that.https f)
  removal_of-slot kind removal h = ground arith

  stored_http-slot :
      (f : RequestHttpFrontend) (listed : ListedFrontends) (removal : RequestType)
      → stored_http verbs display f listed ≡ some removal
      → slot_of display removal ≡ some (http_slot (display f))
  unfolding stored_http
  stored_http-slot f listed removal h =
      elim (Option-cases (find (λ s. display s == display f) listed.http_frontends)) [
        | inl n ↦ ground arith
        | inr (s, n) ↦
            let held = find-holds (λ s. display s == display f) listed.http_frontends s n in
            ground (arith, that.http s, eq_of-== (display s) (display f) held)
      ]

  stored_https-slot :
      (f : RequestHttpFrontend) (listed : ListedFrontends) (removal : RequestType)
      → stored_https verbs display f listed ≡ some removal
      → slot_of display removal ≡ some (https_slot (display f))
  unfolding stored_https
  stored_https-slot f listed removal h =
      elim (Option-cases (find (λ s. display s == display f) listed.https_frontends)) [
        | inl n ↦ ground arith
        | inr (s, n) ↦
            let held = find-holds (λ s. display s == display f) listed.https_frontends s n in
            ground (arith, that.https s, eq_of-== (display s) (display f) held)
      ]

  stored_tcp-slot :
      (f : RequestTcpFrontend) (listed : ListedFrontends) (removal : RequestType)
      → stored_tcp verbs display f listed ≡ some removal
      → slot_of display removal ≡ some (tcp_slot f.address (tcp_claim f))
  unfolding stored_tcp
  stored_tcp-slot f listed removal h =
      let same : RequestTcpFrontend → Bool =
        λ (s : RequestTcpFrontend). s.address == f.address && tcp_claim s == tcp_claim f in
      elim (Option-cases (find same listed.tcp_frontends)) [
        | inl n ↦ ground arith
        | inr (s, n) ↦
            let held : same s ≡ true = find-holds same listed.tcp_frontends s n in
            let address = eq_of-== s.address f.address (ground (arith, held)) in
            let claim = eq_of-== (tcp_claim s) (tcp_claim f) (ground (arith, held)) in
            let is : removal ≡ remove_tcp_frontend s = ground (arith, h, n) in
            ap (slot_of display) is
            ∙ ap (λ a. some (tcp_slot a (tcp_claim s))) address
            ∙ ap (λ c. some (tcp_slot f.address c)) claim
      ]

  stored_udp-slot :
      (f : RequestUdpFrontend) (listed : ListedFrontends) (removal : RequestType)
      → stored_udp verbs display f listed ≡ some removal
      → slot_of display removal ≡ some (udp_slot f.address)
  unfolding stored_udp
  stored_udp-slot f listed removal h =
      let same : RequestUdpFrontend → Bool = λ (s : RequestUdpFrontend). s.address == f.address in
      elim (Option-cases (find same listed.udp_frontends)) [
        | inl n ↦ ground arith
        | inr (s, n) ↦
            let held : same s ≡ true = find-holds same listed.udp_frontends s n in
            let is : removal ≡ remove_udp_frontend s = ground (arith, h, n) in
            ap (slot_of display) is
            ∙ ap (λ a. some (udp_slot a)) (eq_of-== s.address f.address held)
      ]

  stored_kind-slot :
      (listed : ListedFrontends) (kind removal : RequestType)
      → stored_kind verbs display listed kind ≡ some removal
      → slot_of display removal ≡ slot_of display kind
  unfolding stored_kind
  stored_kind-slot listed (add_http_frontend f) removal h = stored_http-slot f listed removal h
  stored_kind-slot listed (remove_http_frontend f) removal h = stored_http-slot f listed removal h
  stored_kind-slot listed (add_http_frontend_with_header_predicates f) removal h =
      stored_http-slot f listed removal h
  stored_kind-slot listed (remove_http_frontend_with_header_predicates f) removal h =
      stored_http-slot f listed removal h
  stored_kind-slot listed (add_https_frontend f) removal h = stored_https-slot f listed removal h
  stored_kind-slot listed (remove_https_frontend f) removal h = stored_https-slot f listed removal h
  stored_kind-slot listed (add_https_frontend_with_header_predicates f) removal h =
      stored_https-slot f listed removal h
  stored_kind-slot listed (remove_https_frontend_with_header_predicates f) removal h =
      stored_https-slot f listed removal h
  stored_kind-slot listed (add_tcp_frontend f) removal h = stored_tcp-slot f listed removal h
  stored_kind-slot listed (remove_tcp_frontend f) removal h = stored_tcp-slot f listed removal h
  stored_kind-slot listed (add_udp_frontend f) removal h = stored_udp-slot f listed removal h
  stored_kind-slot listed (remove_udp_frontend f) removal h = stored_udp-slot f listed removal h
  stored_kind-slot listed kind removal h = ground arith

  lift-slot :
      (f : RequestType → Option RequestType)
      → ((kind removal : RequestType)
          → f kind ≡ some removal
          → slot_of display removal ≡ slot_of display kind)
      → (r removal : Request)
      → elim r.request_type [ none ↦ none | some kind ↦ request_of verbs display (f kind) ]
        ≡ some removal
      → slot display removal ≡ slot display r
  lift-slot f each r removal h = elim (Option-cases r.request_type) [
    | inl n ↦ ground arith
    | inr (kind, n) ↦ elim (Option-cases (f kind)) [
      | inl m ↦ ground arith
      | inr (k, m) ↦ ground (arith, each kind k m, h, n, m)
    ]
  ]

  -- A repair removes no other route: the removal that answers a duplicate add, its own or that of
  -- an entry which Sōzu lists, stands under the slot of the add; so does the removal of a stale
  -- holder.
  pub removals-slot :
      (r removal : Request) (listed : ListedFrontends)
      → (removal_for verbs display r ≡ some removal)
        ⊎ (stored_removal verbs display r listed ≡ some removal)
      → slot display removal ≡ slot display r
  unfolding removal_for stored_removal
  removals-slot r removal listed (inl own) =
      lift-slot (removal_of verbs display) removal_of-slot r removal own
  removals-slot r removal listed (inr held) =
      lift-slot (stored_kind verbs display listed) (stored_kind-slot listed) r removal held
