-- ===== src/Tests/Scopes.antt =====
-- Two Gateways with instances of their own.
use sozu_gateway.Prelude.{◌≡◌, ◌↔◌, refl, true, List, [], ◌∷◌, map, ℕ_discrete}
use sozu_gateway.Prelude.Results.{ok}
use sozu_gateway.Prelude.Texts.{codes}
use sozu_gateway.Controller.Scope.{
  GatewayId, GatewayId_discrete, validate, validate_from, from_str, to_string, has_dns_names,
}
use sozu_gateway.Controller.Scope.Owners.{shared, dedicated, owners, owners-validate}
use sozu_gateway.Controller.Scope.Names.{from_str-eq-ok_iff}

abbrev public_gateway : GatewayId
public_gateway = record { namespace = codes "edge"; name = codes "public" }

abbrev gateways : List GatewayId
gateways = public_gateway ∷ record { namespace = codes "edge"; name = codes "private" } ∷ []

valid : validate (shared gateways) ≡ ok tt
unfolding validate validate_from GatewayId_discrete ℕ_discrete
valid = refl

owners-validate_example :
    owners (shared gateways ∷ map dedicated gateways) (codes "edge") (codes "public") ≡ 1
owners-validate_example = owners-validate (codes "edge") (codes "public") gateways valid

from_str-eq-ok_iff_example : (from_str (codes "edge/public") ≡ ok public_gateway) ↔ (
    (codes "edge/public" ≡ to_string public_gateway)
    × (has_dns_names (codes "edge") (codes "public") ≡ true))
from_str-eq-ok_iff_example = from_str-eq-ok_iff (codes "edge/public") public_gateway
