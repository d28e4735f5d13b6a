-- ===== src/Builder/Selector/Semantics.antt =====
-- What a selector (crates/builder/src/selector.rs) admits.
use sozu_gateway.Prelude.{
  ◌≡◌, refl, ap₂, ◌∙◌, Bool, true, false, not, ◌&&◌, ◌||◌, Option, none, some, List, [], ◌∷◌, ◌++◌,
  map, arith,
}
use sozu_gateway.Prelude.Tests.{if◌then◌else◌, is_some}
use sozu_gateway.Prelude.Eq.{◌==◌, ==-refl, list_eq, nat_eq, option_eq}
use sozu_gateway.Prelude.Lists.{all, is_empty, all-append}
use sozu_gateway.Prelude.Lists.Keys.{contains, lookup}
use sozu_gateway.Prelude.Order.{list_order, nat_order}
use sozu_gateway.Prelude.Order.Sets.{to_set, contains-to_set}
use sozu_gateway.Prelude.Results.{Result, ok, err, ◌>>=◌, traverse}
use sozu_gateway.Prelude.Texts.{Text, codes}
use sozu_gateway.Builder.Selector.{
  Labels, ApiExpression, ApiSelector, Term, equals, is_in, not_in, exists_key, does_not_exist,
  terms, unevaluable, flattened, term_holds, matches, parse_expression, parse_selector, parse,
}

-- The operators of Kubernetes, and any other.
data Operator : Type 0 where
  op_in op_not_in op_exists op_does_not_exist op_other : Operator

operator_of : Text → Operator
operator_of t =
    if t == codes "In"
    then op_in
    else if t == codes "NotIn"
    then op_not_in
    else if t == codes "Exists"
    then op_exists
    else if t == codes "DoesNotExist"
    then op_does_not_exist
    else op_other

-- Whether the value of a label meets a requirement that Kubernetes accepts.
meets : Operator → List Text → Option Text → Bool
meets op_in values none = false
meets op_in values (some v) = contains v values
meets op_not_in values none = not (is_empty values)
meets op_not_in values (some v) = not (is_empty values) && not (contains v values)
meets op_exists values found = is_empty values && is_some found
meets op_does_not_exist values found = is_empty values && not (is_some found)
meets op_other values found = false

-- The requirement is one that Kubernetes accepts, and the labels meet it.
pub expression_admits : Labels → ApiExpression → Bool
unfolding operator_of meets
expression_admits labels e =
    meets (operator_of e.operator) (flattened e.values) (lookup e.key labels)

empty-to_set : (xs : List Text) → is_empty (to_set xs) ≡ is_empty xs
empty-to_set xs = same (to_set xs) xs (λ a. contains-to_set a xs)
  where
    same :
        (s xs : List Text) → ((a : Text) → contains a s ≡ contains a xs) → is_empty s ≡ is_empty xs
    same [] [] h = refl
    same [] (x ∷ xs) h = ground (arith, h x, ==-refl x)
    same (y ∷ s) [] h = ground (arith, h y, ==-refl y)
    same (y ∷ s) (x ∷ xs) h = refl

-- An expression that is accepted holds as Kubernetes' does, and any other admits nothing.
holds : Labels → Result Text Term → Bool
holds labels (ok t) = term_holds labels t
holds labels (err r) = false

in_branch :
    (values s : List Text) (found : Option Text)
    → ((v : Text) → contains v s ≡ contains v values)
    → (if is_empty s then false else elim found [ none ↦ false | some v ↦ contains v s ])
      ≡ meets op_in values found
unfolding meets
in_branch values [] none h = refl
in_branch values [] (some v) h = h v
in_branch values (x ∷ s) none h = refl
in_branch values (x ∷ s) (some v) h = h v

not_in_branch :
    (values s : List Text) (found : Option Text)
    → is_empty s ≡ is_empty values
    → ((v : Text) → contains v s ≡ contains v values)
    → (if is_empty s then false else elim found [ none ↦ true | some v ↦ not (contains v s) ])
      ≡ meets op_not_in values found
unfolding meets
not_in_branch values [] none e h = ground arith
not_in_branch values [] (some v) e h = ground arith
not_in_branch values (x ∷ s) none e h = ground arith
not_in_branch values (x ∷ s) (some v) e h = ground (arith, h v)

branches :
    (labels : Labels) (key : Text) (a b c d : Bool) (values s : List Text) (m n o : Text)
    → is_empty s ≡ is_empty values
    → ((v : Text) → contains v s ≡ contains v values)
    → holds labels (
        if (a || b) && is_empty s
        then err m
        else if a
        then ok (is_in key s)
        else if b
        then ok (not_in key s)
        else if (c || d) && not (is_empty s)
        then err n
        else if c
        then ok (exists_key key)
        else if d
        then ok (does_not_exist key)
        else err o)
      ≡ meets
          (if a
            then op_in
            else if b
            then op_not_in
            else if c
            then op_exists
            else if d
            then op_does_not_exist
            else op_other)
          values
          (lookup key labels)
unfolding holds meets term_holds
branches labels key true b c d values s m n o e h =
    ground (arith, in_branch values s (lookup key labels) h)
branches labels key false true c d values s m n o e h =
    ground (arith, not_in_branch values s (lookup key labels) e h)
branches labels key false false c d values s m n o e h = ground arith

parsed_admits :
    (debug : Text → Text) (labels : Labels) (e : ApiExpression)
    → holds labels (parse_expression debug e) ≡ expression_admits labels e
unfolding parse_expression expression_admits operator_of
parsed_admits debug labels e =
    branches labels e.key (e.operator == codes "In") (e.operator == codes "NotIn")
      (e.operator == codes "Exists") (e.operator == codes "DoesNotExist") (flattened e.values)
      (to_set (flattened e.values)) _ _ _ (empty-to_set (flattened e.values))
      (λ v. contains-to_set v (flattened e.values))

-- The terms of the labels.
label_terms :
    (labels ls : Labels)
    → all (term_holds labels) (map (λ (l : Text × Text). equals l.0 l.1) ls)
      ≡ all (λ (l : Text × Text). lookup l.0 labels == some l.1) ls
unfolding term_holds
label_terms labels [] = refl
label_terms labels (l ∷ ls) = ground (arith, label_terms labels ls)

all_hold : Labels → Result Text (List Term) → Bool
all_hold labels (ok ts) = all (term_holds labels) ts
all_hold labels (err r) = false

both_hold :
    (labels : Labels) (first : Result Text Term) (rest : Result Text (List Term))
    → all_hold labels (first >>= λ t. rest >>= λ ts. ok (t ∷ ts))
      ≡ (holds labels first && all_hold labels rest)
unfolding all_hold holds
both_hold labels (ok t) (ok ts) = refl
both_hold labels (ok t) (err r) = ground arith
both_hold labels (err r) rest = refl

traverse_hold :
    (debug : Text → Text) (labels : Labels) (es : List ApiExpression)
    → all_hold labels (traverse (parse_expression debug) es) ≡ all (expression_admits labels) es
unfolding all_hold
traverse_hold debug labels [] = refl
traverse_hold debug labels (e ∷ es) =
    both_hold labels (parse_expression debug e) (traverse (parse_expression debug) es)
    ∙ ap₂ ◌&&◌ (parsed_admits debug labels e) (traverse_hold debug labels es)

selector_hold :
    (labels : Labels) (front : List Term) (parsed : Result Text (List Term))
    → matches (elim parsed [ ok ts ↦ terms (front ++ ts) | err reason ↦ unevaluable reason ]) labels
      ≡ (all (term_holds labels) front && all_hold labels parsed)
unfolding all_hold matches
selector_hold labels front (ok ts) = all-append (term_holds labels) front ts
selector_hold labels front (err r) = ground arith

-- A parsed selector admits a namespace exactly when the namespace has each of the labels and each
-- expression is one that Kubernetes accepts and holds of the labels: a selector with an expression
-- that is not accepted admits nothing, and neither does an absent selector.
pub matches-parse :
    (debug : Text → Text) (selector : Option ApiSelector) (labels : Labels)
    → matches (parse debug selector) labels ≡ elim selector [
      | none ↦ false
      | some s ↦
          all (λ (l : Text × Text). lookup l.0 labels == some l.1) (flattened s.match_labels)
          && all (expression_admits labels) (flattened s.match_expressions)
    ]
unfolding parse parse_selector matches
matches-parse debug none labels = refl
matches-parse debug (some s) labels =
    selector_hold labels (map (λ (l : Text × Text). equals l.0 l.1) (flattened s.match_labels))
      (traverse (parse_expression debug) (flattened s.match_expressions))
    ∙ ap₂ ◌&&◌ (label_terms labels (flattened s.match_labels))
        (traverse_hold debug labels (flattened s.match_expressions))
