-- ===== src/Translator/Frontends.antt =====
-- `unique_frontends` and `http_frontend_requests`, crates/translator/src/lib.rs: HTTP(S) frontends
-- deduplicated by the key Sōzu stores them under, first occurrence kept. Sōzu's `Display` of a
-- payload and its choice of verb are parameters.
pub mod Unique
pub mod Firsts
use sozu_gateway.Prelude.{Bool, List, map}
use sozu_gateway.Prelude.Eq.{list_eq, nat_eq, pair_eq, bool_eq}
use sozu_gateway.Prelude.Lists.Keys.{unique_by}
use sozu_gateway.Prelude.Texts.{Text}
use sozu_gateway.Ir.{Frontend, Ir}
use sozu_gateway.Ir.RouteKey.{Show, SozuRouteKey, sozu_route_key, route_key_eq}
use sozu_gateway.Wire.{Request, RequestHttpFrontend, Verbs}
use sozu_gateway.Translator.Payloads.{frontend_payload, frontend_request}

unfoldable pub unique_frontends : Show → Ir → List Frontend
unique_frontends show ir = unique_by (sozu_route_key show) ir.frontends

module _ (show : Show) (verbs : Verbs) (display : RequestHttpFrontend → Text) where
  abbrev pub payload_key : Bool × RequestHttpFrontend → Bool × Text
  payload_key (tls, payload) = (tls, display payload)

  unfoldable pub payloads : Ir → List (Bool × RequestHttpFrontend)
  unfolding unique_frontends
  payloads ir =
      unique_by payload_key (map (λ f. (f.tls, frontend_payload f)) (unique_frontends show ir))

  unfoldable pub http_frontend_requests : Ir → List Request
  unfolding payloads
  http_frontend_requests ir = map (λ p. frontend_request verbs p.0 p.1) (payloads ir)
