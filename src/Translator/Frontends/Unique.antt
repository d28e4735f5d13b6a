-- ===== src/Translator/Frontends/Unique.antt =====
-- The second deduplication of HTTP(S) frontends (`http_frontend_requests`,
-- crates/translator/src/lib.rs), by payload.
use sozu_gateway.Prelude.{◌≡◌, refl, Bool, true, List, [], ◌∷◌, map, arith}
use sozu_gateway.Prelude.Eq.{list_eq, nat_eq, pair_eq, bool_eq, eq_of-==, ==_of_ne}
use sozu_gateway.Prelude.Lists.Keys.{
  contains, distinct, distinct-unique_from, unique_by_of-distinct,
}
use sozu_gateway.Prelude.Lists.{All}
use sozu_gateway.Prelude.Texts.{Text}
use sozu_gateway.Ir.{Frontend, Ir}
use sozu_gateway.Ir.RouteKey.{Show, SozuRouteKey, sozu_route_key, route_key_eq}
use sozu_gateway.Wire.{RequestHttpFrontend, Verbs}
use sozu_gateway.Translator.Payloads.{frontend_payload}
use sozu_gateway.Translator.Frontends.{unique_frontends, payload_key, payloads}

module _ (show : Show) where
  distinct-unique_frontends :
      (ir : Ir) → distinct (map (sozu_route_key show) (unique_frontends show ir)) ≡ true
  unfolding unique_frontends
  distinct-unique_frontends ir = distinct-unique_from (sozu_route_key show) [] ir.frontends

abbrev pair_of : SozuRouteKey → Bool × Text
pair_of k = (k.https, k.key)

abbrev pub candidates : List Frontend → List (Bool × RequestHttpFrontend)
candidates = map (λ f. (f.tls, frontend_payload f))

contains-pair_of :
    (k : SozuRouteKey) (ks : List SozuRouteKey)
    → contains (pair_of k) (map pair_of ks) ≡ contains k ks
contains-pair_of k [] = refl
contains-pair_of k (j ∷ ks) = ground (
  arith,
  contains-pair_of k ks,
  eq_of-== (pair_of k) (pair_of j),
  ==_of_ne (pair_of k) (pair_of j),
)

distinct-pair_of : (ks : List SozuRouteKey) → distinct (map pair_of ks) ≡ distinct ks
distinct-pair_of [] = refl
distinct-pair_of (k ∷ ks) = ground (arith, contains-pair_of k ks, distinct-pair_of ks)

module _ (show : Show) (verbs : Verbs) (display : RequestHttpFrontend → Text) where
  -- Sōzu displays the frontend's payload as the frontend's route key.
  abbrev pub IsPinned : Frontend → Type 0
  IsPinned f = display (frontend_payload f) ≡ (sozu_route_key show f).key

  payload_keys :
      (fs : List Frontend)
      → All IsPinned fs
      → map (payload_key show verbs display) (candidates fs)
        ≡ map pair_of (map (sozu_route_key show) fs)
  unfolding sozu_route_key
  payload_keys [] h = refl
  payload_keys (f ∷ fs) (p, h) = cc (p, payload_keys fs h)

  -- Where Sōzu displays the payload of each kept frontend as its route key, the second pass
  -- drops nothing: each kept frontend is sent, in order.
  pub payloads-eq_candidates :
      (ir : Ir)
      → All IsPinned (unique_frontends show ir)
      → payloads show verbs display ir ≡ candidates (unique_frontends show ir)
  unfolding payloads
  payloads-eq_candidates ir h =
      unique_by_of-distinct (payload_key show verbs display) (candidates (unique_frontends show ir))
        (rw (payload_keys (unique_frontends show ir) h) (
          rw (distinct-pair_of (map (sozu_route_key show) (unique_frontends show ir)))
            (distinct-unique_frontends show ir)))
