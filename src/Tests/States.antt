-- ===== src/Tests/States.antt =====
-- The properties of states and of whole batches at the sample states.
use sozu_gateway.Prelude.{◌≡◌, refl, ◌↔◌, [], ◌∷◌, map}
use sozu_gateway.Prelude.Lists.{All}
use sozu_gateway.Prelude.Lists.Claims.{IsUnambiguous}
use sozu_gateway.Prelude.Eq.{pair_eq, list_eq, nat_eq, bool_discrete, list_discrete}
use sozu_gateway.Prelude.Results.{ok}
use sozu_gateway.Prelude.Order.Sort.{sort_by}
use sozu_gateway.Prelude.Order.Sets.{to_set, dedup}
use sozu_gateway.Prelude.{ℕ_discrete}
use sozu_gateway.Ir.{address_eq, protocol_eq, plain}
use sozu_gateway.Ir.Rule.{sozu_rule}
use sozu_gateway.Wire.{wire}
use sozu_gateway.Prelude.Texts.{trim_end_matches}
use sozu_gateway.Ir.Headers.{canonical}
use sozu_gateway.Translator.Payloads.{
  frontend_payload, apply_filters, rule_payload, path_rule, header_predicates,
}
use sozu_gateway.Ir.RouteKey.{
  sozu_route_key, SozuRouteKey_discrete, route_key_eq, show_rule, show_method,
}
use sozu_gateway.Translator.References.{
  IsClosed, check_cluster_references, check_cluster_references-eq-ok_iff,
}
use sozu_gateway.Translator.Layer4.{l4_claim, unique_l4_frontends}
use sozu_gateway.Translator.Layer4.Conflicts.{check_l4_conflicts, check_l4_conflicts-eq-ok_iff}
use sozu_gateway.Translator.Frontends.{unique_frontends, payloads}
use sozu_gateway.Translator.Frontends.Unique.{candidates, IsPinned, payloads-eq_candidates}
use sozu_gateway.Tests.Samples.{state, show, verbs, display, tcp}

check_cluster_references_example : (check_cluster_references state ≡ ok tt) ↔ IsClosed state
check_cluster_references_example = check_cluster_references-eq-ok_iff state

check_l4_conflicts_example :
    (check_l4_conflicts (unique_l4_frontends (tcp 25 1 ∷ tcp 25 2 ∷ [])) ≡ ok tt)
    ↔ IsUnambiguous (map l4_claim (tcp 25 1 ∷ tcp 25 2 ∷ []))
check_l4_conflicts_example = check_l4_conflicts-eq-ok_iff (tcp 25 1 ∷ tcp 25 2 ∷ [])

state-IsPinned : All (IsPinned show verbs display) (unique_frontends show state)
unfolding unique_frontends SozuRouteKey_discrete sozu_route_key frontend_payload sozu_rule
    list_discrete ℕ_discrete bool_discrete plain apply_filters path_rule header_predicates canonical
    show_rule show_method trim_end_matches rule_payload wire to_set sort_by dedup
state-IsPinned = (refl, (refl, tt))

payloads_example : payloads show verbs display state ≡ candidates (unique_frontends show state)
payloads_example = payloads-eq_candidates show verbs display state state-IsPinned
