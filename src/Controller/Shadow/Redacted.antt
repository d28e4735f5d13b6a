-- ===== src/Controller/Shadow/Redacted.antt =====
-- A reloaded shadow, which has no private keys (`redact_private_keys`,
-- crates/controller/src/shadow.rs), and the diff from it.
use sozu_gateway.Prelude.{◌≡◌, ap, List, map, ◌++◌}
use sozu_gateway.Prelude.Results.{Result, ok, ◌>>=◌, ◌>>◌}
use sozu_gateway.Prelude.Order.Sets.{dedup}
use sozu_gateway.Ir.{Ir}
use sozu_gateway.Wire.{Request, request_eq}
use sozu_gateway.Translator.Payloads.{cluster_requests}
use sozu_gateway.Translator.Frontends.{http_frontend_requests}
use sozu_gateway.Translator.Tiers.{CertRank, gains, canonicalize_ranked}
use sozu_gateway.Translator.References.{check_cluster_references}
use sozu_gateway.Translator.Errors.{TranslatorError}
use sozu_gateway.Translator.Certificates.Diff.Public.{certificate_requests-keyless}
use sozu_gateway.Translator.Reconcile.{
  Sozu, routing_requests, routing_state, routing_diff, reconcile,
}
use sozu_gateway.Controller.Shadow.{redact_private_keys}

-- A reloaded shadow diffs like the one that was persisted: towards every desired state the same
-- batch is sent, or the same error is returned.
pub reconcile-redact_private_keys :
    (z : Sozu) (previous desired : Ir)
    → reconcile z (redact_private_keys previous) desired ≡ reconcile z previous desired
unfolding reconcile redact_private_keys routing_state routing_requests cluster_requests
    http_frontend_requests
reconcile-redact_private_keys z previous desired =
    ap
      (λ (certs : Result TranslatorError (List (CertRank × Request))). do
        check_cluster_references desired
        previous_state ← routing_state z previous
        desired_state ← routing_state z desired
        found ← certs
        ok (
            dedup (
              canonicalize_ranked z.json (
                map (λ req. (gains, req)) (routing_diff z previous_state desired_state) ++ found))))
      (certificate_requests-keyless z.json z.pem previous.certificates desired.certificates)
