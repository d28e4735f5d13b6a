-- ===== src/Translator/Replay/Exact/Explained.antt =====
-- What an accepted replay describes, and which refusals its simulation explains
-- (`replay_if_exact` and `settle`, crates/translator/src/replay.rs).
use sozu_gateway.Prelude.{
  ◌≡◌, ap, sym, ◌∙◌, inl, inr, Bool, true, false, ◌||◌, refl, some, List, ◌∷◌, arith,
}
use sozu_gateway.Prelude.Tests.{Bool-cases, Option-cases}
use sozu_gateway.Prelude.Eq.{◌==◌, eq_of-==}
use sozu_gateway.Prelude.Results.{ok, Result-cases}
use sozu_gateway.Ir.{Ir}
use sozu_gateway.Wire.{Request, RequestType, StateError, not_found, exists, no_change, refused}
use sozu_gateway.Wire.RequestType.{
  add_tcp_listener, add_udp_listener, add_http_frontend, add_https_frontend,
  add_http_frontend_with_header_predicates, add_https_frontend_with_header_predicates,
  add_tcp_frontend, add_udp_frontend,
}
use sozu_gateway.Prelude.Texts.{Text}
use sozu_gateway.Agent.Messages.{is_teardown_kind}
use sozu_gateway.Translator.Reconcile.{Sozu, routing_state}
use sozu_gateway.Translator.Replay.{apply_acknowledged}
use sozu_gateway.Translator.Replay.Exact.{
  ConfigFields, evict, repair, is_teardown, settle_exists, settle_other, settle_gone,
  settle_refused, comparable, simulate, replay_if_exact,
}

is_teardown-agent : (kind : RequestType) → is_teardown kind ≡ is_teardown_kind kind
unfolding is_teardown is_teardown_kind
is_teardown-agent kind = ground arith

-- What a refusal says: the object is missing or as it should be, or the key is held.
abbrev pub is_missing : StateError → Bool
is_missing (not_found id) = true
is_missing no_change = true
is_missing (exists id) = false
is_missing (refused why) = false

abbrev pub is_held : StateError → Bool
is_held (exists id) = true
is_held _ = false

abbrev pub is_listener_add : RequestType → Bool
is_listener_add (add_tcp_listener l) = true
is_listener_add (add_udp_listener l) = true
is_listener_add _ = false

abbrev pub is_udp_add : RequestType → Bool
is_udp_add (add_udp_frontend f) = true
is_udp_add _ = false

abbrev pub is_frontend_add : RequestType → Bool
is_frontend_add (add_http_frontend f) = true
is_frontend_add (add_https_frontend f) = true
is_frontend_add (add_http_frontend_with_header_predicates f) = true
is_frontend_add (add_https_frontend_with_header_predicates f) = true
is_frontend_add (add_tcp_frontend f) = true
is_frontend_add (add_udp_frontend f) = true
is_frontend_add _ = false

or_true : (b : Bool) → (b || true) ≡ true
or_true b = ground arith

module _ (z : Sozu) (fields : ConfigFields z.State) where
  -- The replayed IR has a routing state, and the simulation ends in the same one.
  pub record IsExact (previous desired : Ir) (acknowledged : List Request) (replayed : Ir)
      : Type 0 where
    pub is_replay :
        replayed ≡ apply_acknowledged z.show z.display z.pem previous desired acknowledged
    pub described : z.State
    pub has_state : routing_state z replayed ≡ ok described
    pub simulated : simulate z fields previous acknowledged ≡ some (comparable z fields described)

  -- An accepted replay of acknowledged requests is the IR that they lead to, and its routing state,
  -- in the comparable form, is what the simulation of those requests leaves.
  pub replay_if_exact-IsExact :
      (previous desired replayed : Ir) (q : Request) (acknowledged : List Request)
      → replay_if_exact z fields previous desired (q ∷ acknowledged) ≡ some replayed
      → IsExact previous desired (q ∷ acknowledged) replayed
  unfolding replay_if_exact
  replay_if_exact-IsExact previous desired replayed q acknowledged h =
      let all = q ∷ acknowledged in
      let out = apply_acknowledged z.show z.display z.pem previous desired all in
      elim (Option-cases (simulate z fields previous all)) [
        | inl n ↦ ground (arith, n, h)
        | inr (s, n) ↦ elim (Result-cases (routing_state z out)) [
          | inl (e, r) ↦ ground (arith, n, r, h)
          | inr (d, r) ↦ elim (Bool-cases (◌==◌ ⦃e = fields.state_eq⦄ (comparable z fields d) s)) [
            | inr f ↦ ground (arith, n, r, f, h)
            | inl t ↦
                let is : out ≡ replayed = ground (arith, n, r, t, h) in
                record {
                  is_replay = sym is;
                  described = d;
                  has_state = ap (routing_state z) (sym is) ∙ r;
                  simulated = n ∙ ap some (sym (eq_of-== ⦃e = fields.state_eq⦄ _ _ t));
                }
          ]
        ]
      ]

  -- How the agent settles a refused request, with the state that it leaves: what a teardown tears
  -- down is gone, a listener to add is there, or the holder of the key, whoever it is, makes room
  -- and the request is applied.
  pub data IsSettled (state : z.State) (request : Request) (next : z.State)
      : RequestType → StateError → Type 0 where
    torn_down :
        {kind : RequestType} {refusal : StateError}
        → is_missing refusal ≡ true
        → is_teardown_kind kind ≡ true
        → next ≡ (evict z fields state kind).0
        → IsSettled state request next kind refusal
    is_there :
        {kind : RequestType} {refusal : StateError}
        → is_held refusal ≡ true
        → is_listener_add kind ≡ true
        → next ≡ state
        → IsSettled state request next kind refusal
    replaced :
        {kind : RequestType} {refusal : StateError}
        → (is_held refusal || is_udp_add kind) ≡ true
        → is_frontend_add kind ≡ true
        → (evict z fields state kind).1 ≡ true
        → z.apply (evict z fields state kind).0 request ≡ ok next
        → IsSettled state request next kind refusal

  repair-replaces :
      (state next : z.State) (request : Request) (kind : RequestType)
      → repair z fields state request kind ≡ (next, true)
      → ((evict z fields state kind).1 ≡ true)
        × (z.apply (evict z fields state kind).0 request ≡ ok next)
  unfolding repair
  repair-replaces state next request kind h = elim (Bool-cases (evict z fields state kind).1) [
    | inr f ↦ ground (arith, f, h)
    | inl t ↦ elim (Result-cases (z.apply (evict z fields state kind).0 request)) [
      | inl (e, r) ↦ ground (arith, t, r, h)
      | inr (s, r) ↦ let same : s ≡ next = ground (arith, t, r, h) in (t, r ∙ ap ok same)
    ]
  ]

  by_repair :
      (state next : z.State) (request : Request) (kind : RequestType) (refusal : StateError)
      → (is_held refusal || is_udp_add kind) ≡ true
      → is_frontend_add kind ≡ true
      → repair z fields state request kind ≡ (next, true)
      → IsSettled state request next kind refusal
  by_repair state next request kind refusal r a h =
      let (evicted, applied) = repair-replaces state next request kind h in
      replaced r a evicted applied

  unsettled :
      {kind : RequestType} {refusal : StateError} (state next : z.State) (request : Request)
      → ◌≡◌ {A = z.State × Bool} (state, false) (next, true)
      → IsSettled state request next kind refusal
  unsettled state next request h = absurd (cc h)

  same_state :
      (state next : z.State) → ◌≡◌ {A = z.State × Bool} (state, true) (next, true) → next ≡ state
  same_state state next h = cc

  exists-IsSettled :
      (state next : z.State) (request : Request) (kind : RequestType) (id : Text)
      → settle_exists z fields state request kind ≡ (next, true)
      → IsSettled state request next kind (exists id)
  unfolding settle_exists
  exists-IsSettled state next request (add_tcp_listener l) id h =
      is_there refl refl (same_state state next h)
  exists-IsSettled state next request (add_udp_listener l) id h =
      is_there refl refl (same_state state next h)
  exists-IsSettled state next request (add_http_frontend f) id h =
      by_repair state next request _ _ refl refl h
  exists-IsSettled state next request (add_https_frontend f) id h =
      by_repair state next request _ _ refl refl h
  exists-IsSettled state next request (add_http_frontend_with_header_predicates f) id h =
      by_repair state next request _ _ refl refl h
  exists-IsSettled state next request (add_https_frontend_with_header_predicates f) id h =
      by_repair state next request _ _ refl refl h
  exists-IsSettled state next request (add_tcp_frontend f) id h =
      by_repair state next request _ _ refl refl h
  exists-IsSettled state next request (add_udp_frontend f) id h =
      by_repair state next request _ _ refl refl h
  exists-IsSettled state next request _ id h = unsettled state next request h

  other-IsSettled :
      (state next : z.State) (request : Request) (kind : RequestType) (refusal : StateError)
      → settle_other z fields state request kind ≡ (next, true)
      → IsSettled state request next kind refusal
  unfolding settle_other
  other-IsSettled state next request (add_udp_frontend f) refusal h =
      by_repair state next request (add_udp_frontend f) refusal (or_true (is_held refusal)) refl h
  other-IsSettled state next request _ refusal h = unsettled state next request h

  gone-IsSettled :
      (state next : z.State) (request : Request) (kind : RequestType) (refusal : StateError)
      → is_missing refusal ≡ true
      → settle_gone z fields state request kind ≡ (next, true)
      → IsSettled state request next kind refusal
  unfolding settle_gone
  gone-IsSettled state next request kind refusal m h = elim (Bool-cases (is_teardown kind)) [
    | inl t ↦
        let same : next ≡ (evict z fields state kind).0 = ground (arith, t, h) in
        torn_down m (sym (is_teardown-agent kind) ∙ t) same
    | inr t ↦ other-IsSettled state next request kind refusal (ground (arith, h, t))
  ]

  -- A refused request is explained in three ways only: a teardown, by the agent's own list, of
  -- what is missing, which is evicted all the same; a listener to add that is held already, with
  -- the state as it was; and a frontend to add, held or UDP, where the holder of its key was there
  -- to evict and the same request is then applied.
  pub settle_refused-IsSettled :
      (state next : z.State) (request : Request) (kind : RequestType) (refusal : StateError)
      → settle_refused z fields state request kind refusal ≡ (next, true)
      → IsSettled state request next kind refusal
  unfolding settle_refused
  settle_refused-IsSettled state next request kind (not_found id) h =
      gone-IsSettled state next request kind (not_found id) refl h
  settle_refused-IsSettled state next request kind no_change h =
      gone-IsSettled state next request kind no_change refl h
  settle_refused-IsSettled state next request kind (exists id) h =
      exists-IsSettled state next request kind id h
  settle_refused-IsSettled state next request kind (refused why) h =
      other-IsSettled state next request kind (refused why) h
