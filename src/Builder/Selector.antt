-- ===== src/Builder/Selector.antt =====
-- Label selectors of `allowedRoutes.namespaces.selector`, crates/builder/src/selector.rs. A map of
-- labels is the list of its entries. The quoting of a string in a message is a parameter.
pub mod Semantics
use sozu_gateway.Prelude.{
  Bool, true, false, not, Option, none, some, List, [], ◌∷◌, ◌++◌, map, ◌&&◌, ◌||◌,
}
use sozu_gateway.Prelude.Tests.{if◌then◌else◌, is_some}
use sozu_gateway.Prelude.Eq.{◌==◌, list_eq, nat_eq, option_eq}
use sozu_gateway.Prelude.Lists.{all, is_empty}
use sozu_gateway.Prelude.Lists.Keys.{contains, lookup}
use sozu_gateway.Prelude.Order.{list_order, nat_order}
use sozu_gateway.Prelude.Order.Sets.{to_set}
use sozu_gateway.Prelude.Results.{Result, ok, err, traverse}
use sozu_gateway.Prelude.Texts.{Text, codes}

abbrev pub Labels : Type 0
Labels = List (Text × Text)

-- One entry of `matchExpressions`.
pub record ApiExpression : Type 0 where
  pub key : Text
  pub operator : Text
  pub values : Option (List Text)

pub record ApiSelector : Type 0 where
  pub match_labels : Option Labels
  pub match_expressions : Option (List ApiExpression)

pub data Term : Type 0 where
  equals : Text → Text → Term
  is_in : Text → List Text → Term
  not_in : Text → List Text → Term
  exists_key : Text → Term
  does_not_exist : Text → Term

pub data NamespaceSelector : Type 0 where
  terms : List Term → NamespaceSelector
  unevaluable : Text → NamespaceSelector

-- `.iter().flatten()`
abbrev pub flattened {ℓ} : {A : Type ℓ} → Option (List A) → List A
flattened none = []
flattened (some xs) = xs

-- The requirement on the value of a key.
unfoldable pub term_holds : Labels → Term → Bool
term_holds labels (equals key value) = lookup key labels == some value
term_holds labels (is_in key values) = elim (lookup key labels) [
  | none ↦ false
  | some v ↦ contains v values
]
term_holds labels (not_in key values) = elim (lookup key labels) [
  | none ↦ true
  | some v ↦ not (contains v values)
]
term_holds labels (exists_key key) = is_some (lookup key labels)
term_holds labels (does_not_exist key) = not (is_some (lookup key labels))

-- An unevaluable selector admits nothing.
unfoldable pub matches : NamespaceSelector → Labels → Bool
unfolding term_holds
matches (unevaluable reason) labels = false
matches (terms ts) labels = all (term_holds labels) ts

unfoldable pub unevaluable_reason : NamespaceSelector → Option Text
unevaluable_reason (unevaluable reason) = some reason
unevaluable_reason (terms ts) = none

module _ (debug : Text → Text) where
  unfoldable pub about : ApiExpression → Text → Text → Text
  about expr verb rest =
      codes "matchExpressions[" ++ expr.key ++ codes "] " ++ verb ++ debug expr.operator ++ rest

  unfoldable pub parse_expression : ApiExpression → Result Text Term
  parse_expression expr =
      let values : List Text = to_set (flattened expr.values) in
      if (expr.operator == codes "In" || expr.operator == codes "NotIn") && is_empty values
      then err (about expr (codes "operator ") (codes " needs a non-empty values list"))
      else if expr.operator == codes "In"
      then ok (is_in expr.key values)
      else if expr.operator == codes "NotIn"
      then ok (not_in expr.key values)
      else if (expr.operator == codes "Exists" || expr.operator == codes "DoesNotExist")
          && not (is_empty values)
      then err (about expr (codes "operator ") (codes " must not carry values"))
      else if expr.operator == codes "Exists"
      then ok (exists_key expr.key)
      else if expr.operator == codes "DoesNotExist"
      then ok (does_not_exist expr.key)
      else err (about expr (codes "uses operator ") (codes ", which this controller does not know"))

  -- The label terms come first, then those of the expressions; the first error is returned.
  unfoldable pub parse_selector : ApiSelector → NamespaceSelector
  unfolding parse_expression
  parse_selector selector =
      elim (traverse parse_expression (flattened selector.match_expressions)) [
        | ok ts ↦
            terms
              (map (λ (l : Text × Text). equals l.0 l.1) (flattened selector.match_labels) ++ ts)
        | err reason ↦ unevaluable reason
      ]

  unfoldable pub parse : Option ApiSelector → NamespaceSelector
  unfolding parse_selector
  parse none =
      unevaluable (codes "allowedRoutes.namespaces.from is Selector but no selector is set")
  parse (some selector) = parse_selector selector
