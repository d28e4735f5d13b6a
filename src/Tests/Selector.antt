-- ===== src/Tests/Selector.antt =====
-- The selector property at a sample selector.
use sozu_gateway.Prelude.{◌≡◌, ◌&&◌, none, some, [], ◌∷◌}
use sozu_gateway.Prelude.Eq.{◌==◌, list_eq, nat_eq, option_eq}
use sozu_gateway.Prelude.Lists.{all}
use sozu_gateway.Prelude.Lists.Keys.{lookup}
use sozu_gateway.Prelude.Texts.{Text, codes}
use sozu_gateway.Builder.Selector.{Labels, ApiSelector, matches, parse, flattened}
use sozu_gateway.Builder.Selector.Semantics.{expression_admits, matches-parse}

abbrev labels : Labels
labels = (codes "a", codes "1") ∷ (codes "b", codes "2") ∷ []

abbrev selector : ApiSelector
selector = record {
  match_labels = some ((codes "a", codes "1") ∷ []);
  match_expressions = some (
      record { key = codes "b"; operator = codes "In"; values = some (codes "3" ∷ codes "2" ∷ []) }
      ∷ record { key = codes "c"; operator = codes "DoesNotExist"; values = none }
      ∷ []);
}

matches-parse_example : matches (parse (λ t. t) (some selector)) labels ≡ (
    all (λ (l : Text × Text). lookup l.0 labels == some l.1) (flattened selector.match_labels)
    && all (expression_admits labels) (flattened selector.match_expressions))
matches-parse_example = matches-parse (λ t. t) (some selector) labels
