-- ===== src/Tests/Replay.antt =====
-- The replay properties after a failed batch that removed a cluster and added a backend of another.
use sozu_gateway.Prelude.{◌≡◌, false, none, List, [], ◌∷◌}
use sozu_gateway.Prelude.Eq.{◌==◌, pair_eq, list_eq, nat_eq}
use sozu_gateway.Prelude.Lists.{filter}
use sozu_gateway.Ir.{address_eq}
use sozu_gateway.Ir.RouteKey.{sozu_route_key, route_key_eq}
use sozu_gateway.Wire.{Request, to_request}
use sozu_gateway.Wire.RequestType.{remove_cluster}
use sozu_gateway.Translator.Payloads.{backend_request, frontend_request, frontend_payload}
use sozu_gateway.Translator.Replay.{apply_acknowledged, backend_key}
use sozu_gateway.Translator.Replay.Groups.{wanted}
use sozu_gateway.Translator.Replay.Fold.{settled_all, event_of}
use sozu_gateway.Translator.Replay.Backends.{
  backend_event, backend_cluster, backends-apply_acknowledged,
}
use sozu_gateway.Translator.Replay.Routes.{route_event, route_cluster, frontends-apply_acknowledged}
use sozu_gateway.Tests.Samples.{state, bare, backend, frontend, show, display, pem, verbs}

abbrev acknowledged : List Request
acknowledged =
    to_request (remove_cluster (1 ∷ []))
    ∷ backend_request (backend 2)
    ∷ frontend_request verbs false (frontend_payload (frontend 7 none))
    ∷ []

backends-apply_acknowledged_example :
    filter
      (λ b. backend_key b == backend_key (backend 1))
      (apply_acknowledged show display pem state bare acknowledged).backends
    ≡ settled_all backend_cluster
        (event_of (backend_event (wanted backend_key bare.backends)))
        (backend_key (backend 1))
        acknowledged
        (filter (λ b. backend_key b == backend_key (backend 1)) state.backends)
backends-apply_acknowledged_example =
    backends-apply_acknowledged show display pem state bare acknowledged (backend_key (backend 1))

frontends-apply_acknowledged_example :
    filter
      (λ f. sozu_route_key show f == sozu_route_key show (frontend 7 none))
      (apply_acknowledged show display pem bare state acknowledged).frontends
    ≡ settled_all route_cluster
        (event_of (route_event show display pem (wanted (sozu_route_key show) state.frontends)))
        (sozu_route_key show (frontend 7 none))
        acknowledged
        (filter
          (λ f. sozu_route_key show f == sozu_route_key show (frontend 7 none))
          bare.frontends)
frontends-apply_acknowledged_example =
    frontends-apply_acknowledged show display pem bare state acknowledged
      (sozu_route_key show (frontend 7 none))
