-- ===== src/Translator/Reconcile.antt =====
-- The translator's public functions, crates/translator/src/lib.rs: `routing_state`,
-- `ir_to_requests` and `reconcile`. Sōzu's configuration state, its diff and its encodings are
-- the parameters in `Sozu`.
pub mod Batches
use sozu_gateway.Prelude.{List, [], ◌++◌, map, arith}
use sozu_gateway.Prelude.Results.{Result, ok, err, ◌>>=◌, ◌>>◌, map_err, try_fold}
use sozu_gateway.Prelude.Order.Sets.{dedup}
use sozu_gateway.Prelude.Texts.{Text}
use sozu_gateway.Ir.{Ir}
use sozu_gateway.Ir.RouteKey.{Show}
use sozu_gateway.Wire.{Request, StateError, RequestHttpFrontend, Verbs, request_eq}
use sozu_gateway.Translator.Errors.{TranslatorError, dispatch}
use sozu_gateway.Translator.Payloads.{cluster_requests, backend_request, add_certificate_request}
use sozu_gateway.Translator.Layer4.{
  l4_listener_adds, l4_listener_activations, l4_frontend_request, unique_l4_frontends,
}
use sozu_gateway.Translator.Layer4.Conflicts.{check_l4_conflicts}
use sozu_gateway.Translator.Frontends.{http_frontend_requests}
use sozu_gateway.Translator.Tiers.{CertRank, gains, canonicalize, canonicalize_ranked}
use sozu_gateway.Translator.References.{check_cluster_references}
use sozu_gateway.Translator.Removals.{expand_cluster_removals, drop_superseded_backend_removes}
use sozu_gateway.Translator.Certificates.{Pem}
use sozu_gateway.Translator.Certificates.Diff.{certificate_requests}

-- sozu-command-lib: `ConfigState` with its `new`, `dispatch`, `diff` and
-- `cluster_removal_requests`; the encodings; the certificate functions.
pub record Sozu : Type 1 where
  pub State : Type 0
  pub initial : State
  pub apply : State → Request → Result StateError State
  pub diff : State → State → List Request
  pub cluster_removal_requests : State → Text → List Request
  pub json : Request → Text
  pub display : RequestHttpFrontend → Text
  pub verbs : Verbs
  pub show : Show
  pub pem : Pem

module _ (z : Sozu) where
  open z use {
    State, initial, apply, diff, cluster_removal_requests, json, display, verbs, show, pem,
  }

  unfoldable pub routing_requests : Ir → List Request
  routing_requests ir =
      cluster_requests ir
      ++ (map backend_request ir.backends
          ++ (http_frontend_requests show verbs display ir
              ++ (l4_listener_adds ir.l4_frontends
                  ++ map l4_frontend_request (unique_l4_frontends ir.l4_frontends))))

  -- The routing graph folded into a configuration state.
  unfoldable pub routing_state : Ir → Result TranslatorError State
  routing_state ir = do
    check_l4_conflicts (unique_l4_frontends ir.l4_frontends)
    try_fold (λ state req. map_err (λ e. dispatch e req) (apply state req)) initial
        (canonicalize json (routing_requests ir))

  unfoldable pub ir_to_requests : Ir → List Request
  ir_to_requests ir = canonicalize json (
      cluster_requests ir
      ++ (map backend_request ir.backends
          ++ (http_frontend_requests show verbs display ir
              ++ (map add_certificate_request ir.certificates
                  ++ (l4_listener_adds ir.l4_frontends
                      ++ (l4_listener_activations ir.l4_frontends
                          ++ map l4_frontend_request (unique_l4_frontends ir.l4_frontends)))))))

  -- The corrected routing diff.
  unfoldable pub routing_diff : State → State → List Request
  routing_diff previous desired =
      drop_superseded_backend_removes
        (expand_cluster_removals (cluster_removal_requests previous) (diff previous desired))

  unfoldable pub reconcile : Ir → Ir → Result TranslatorError (List Request)
  reconcile previous desired = do
    check_cluster_references desired
    previous_state ← routing_state previous
    desired_state ← routing_state desired
    certs ← certificate_requests json pem previous.certificates desired.certificates
    ok (
        dedup (
          canonicalize_ranked json
            (map (λ req. (gains, req)) (routing_diff previous_state desired_state) ++ certs)))
