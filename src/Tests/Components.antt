-- ===== src/Tests/Components.antt =====
-- The search for components on a cycle with a tail.
use sozu_gateway.Prelude.{ℕ, ◌≡◌, refl, List, [], ◌∷◌, ℕ_discrete}
use sozu_gateway.Prelude.Eq.{option_discrete}
use sozu_gateway.Prelude.Lists.{length, range_from}
use sozu_gateway.Translator.Certificates.Components.{visit_all, start, strongly_connected}
use sozu_gateway.Translator.Certificates.Components.Fuel.{search-calls}

abbrev graph : List (List ℕ)
graph = (1 ∷ []) ∷ (0 ∷ 2 ∷ []) ∷ (2 ∷ []) ∷ []

components : strongly_connected graph ≡ (1 ∷ 1 ∷ 0 ∷ [], 2)
unfolding strongly_connected option_discrete ℕ_discrete
components = refl

search-calls_example :
    let done = visit_all graph (start graph) (range_from 0 (length graph)) in
    (done.calls ≡ []) × (strongly_connected graph ≡ (done.component, done.components))
search-calls_example = search-calls graph refl
