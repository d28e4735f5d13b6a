-- ===== src/Tests/Batches.antt =====
-- The batch properties at sample batches.
use sozu_gateway.Prelude.{◌≡◌, false, not, List, [], ◌∷◌}
use sozu_gateway.Ir.{address_eq}
use sozu_gateway.Prelude.Eq.{pair_eq, list_eq, nat_eq}
use sozu_gateway.Prelude.Lists.{filter}
use sozu_gateway.Prelude.Texts.{codes}
use sozu_gateway.Wire.{Request, to_request, wire, request_eq}
use sozu_gateway.Wire.RequestType.{remove_cluster, remove_backend}
use sozu_gateway.Translator.Payloads.{backend_request, cluster_request}
use sozu_gateway.Translator.Tiers.{CertRank, gains}
use sozu_gateway.Translator.Removals.{drop_superseded_backend_removes}
use sozu_gateway.Translator.Removals.Corrected.{drop_superseded_lem, superseded}
use sozu_gateway.Tests.Samples.{cluster, backend, address}

abbrev gone : Request
gone = to_request (remove_cluster (1 ∷ []))

abbrev batch : List (CertRank × Request)
batch = (gains, gone) ∷ (gains, cluster_request (cluster 2) false) ∷ []

abbrev removal : Request
removal = to_request (
    remove_backend
      (record { cluster_id = 1 ∷ []; backend_id = codes "b"; address = wire (address 8080) }))

-- The removal of a backend that the same batch adds.
abbrev superseding : List Request
superseding = removal ∷ backend_request (backend 1) ∷ gone ∷ []

drop_superseded_example :
    drop_superseded_backend_removes superseding
    ≡ filter (λ r. not (superseded superseding r)) superseding
drop_superseded_example = drop_superseded_lem superseding
