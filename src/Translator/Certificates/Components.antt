-- ===== src/Translator/Certificates/Components.antt =====
-- `strongly_connected`, crates/translator/src/lib.rs: Tarjan's algorithm with an explicit stack,
-- one step at a time. A vector is a list; an unseen index is `none`.
pub mod Fuel
use Prim.Native.Nat.{min}
use sozu_gateway.Prelude.{ℕ, zero, suc, ◌+◌, Bool, true, false, Option, none, some, List, [], ◌∷◌}
use sozu_gateway.Prelude.Tests.{if◌then◌else◌}
use sozu_gateway.Prelude.Eq.{◌==◌, nat_eq, option_eq}
use sozu_gateway.Prelude.Lists.{length, get_or, get_elem?, set, replicate, range_from}

pub record State : Type 0 where
  pub index : List (Option ℕ)
  pub low : List ℕ
  pub on_stack : List Bool
  pub stack : List ℕ
  pub component : List ℕ
  pub next_index : ℕ
  pub components : ℕ
  -- (node, next edge to follow), the innermost first
  pub calls : List (ℕ × ℕ)

-- A node is entered: numbered, put on the stack and called.
unfoldable pub enter : ℕ → State → State
enter node s = record s {
  index = set s.index node (some s.next_index);
  low = set s.low node s.next_index;
  on_stack = set s.on_stack node true;
  stack = node ∷ s.stack;
  next_index = s.next_index + 1;
  calls = (node, 0) ∷ s.calls;
}

-- The stack down to `node` becomes one component.
unfoldable pub close : ℕ → ℕ → List ℕ → List Bool → List ℕ → List Bool × (List ℕ × List ℕ)
close node c [] on_stack component = (on_stack, (component, []))
close node c (member ∷ stack) on_stack component =
    let on_stack' = set on_stack member false in
    let component' = set component member c in
    let rest = close node c stack on_stack' component' in
    if member == node then (on_stack', (component', stack)) else rest

unfoldable pub close_component : ℕ → State → State
unfolding close
close_component node s =
    let (on_stack, tail) = close node s.components s.stack s.on_stack s.component in
    let (component, stack) = tail in
    record s {
      on_stack = on_stack;
      component = component;
      stack = stack;
      components = s.components + 1;
    }

unfoldable pub low_at : State → ℕ → ℕ
low_at s n = get_or s.low n 0

-- The edge from `node` to `target` is followed.
unfoldable pub follow : ℕ → ℕ → State → State
unfolding enter low_at
follow node target s = elim (get_or s.index target none) [
  | none ↦ enter target s
  | some at ↦
      if get_or s.on_stack target false
      then record s { low = set s.low node (min (low_at s node) at) }
      else s
]

-- The call of `node` returns to its caller.
unfoldable pub leave : ℕ → State → State
unfolding close_component low_at
leave node s =
    let returned : State = elim s.calls [
      | [] ↦ s
      | (parent, _) ∷ _ ↦ record s {
        low = set s.low parent (min (low_at s parent) (low_at s node));
      }
    ] in
    if some (low_at returned node) == get_or returned.index node none
    then close_component node returned
    else returned

-- The edges and the returns.
unfoldable pub sum_lengths : List (List ℕ) → ℕ
sum_lengths [] = 0
sum_lengths (x ∷ xs) = length x + 1 + sum_lengths xs

module _ (edges : List (List ℕ)) where
  unfoldable pub step : State → State
  unfolding follow leave
  step s = elim s.calls [
    | [] ↦ s
    | (node, edge) ∷ rest ↦ elim (get_elem? (get_or edges node []) edge) [
      | some target ↦ follow node target (record s { calls = (node, suc edge) ∷ rest })
      | none ↦ leave node (record s { calls = rest })
    ]
  ]

  unfoldable pub run : ℕ → State → State
  unfolding step
  run zero s = s
  run (suc fuel) s = elim s.calls [ [] ↦ s | _ ↦ run fuel (step s) ]

  -- A step follows an edge or returns from a node.
  unfoldable pub enough : ℕ
  unfolding sum_lengths
  enough = sum_lengths edges

  unfoldable pub visit : State → ℕ → State
  unfolding run enter enough
  visit s root = elim (get_or s.index root none) [ some at ↦ s | none ↦ run enough (enter root s) ]

  unfoldable pub visit_all : State → List ℕ → State
  unfolding visit
  visit_all s [] = s
  visit_all s (root ∷ roots) = visit_all (visit s root) roots

  -- Before any node is seen; `UNSEEN` in `component` is the count of nodes, which no component
  -- has as its number.
  unfoldable pub start : State
  start =
      let nodes = length edges in
      record {
        index = replicate nodes none;
        low = replicate nodes 0;
        on_stack = replicate nodes false;
        stack = [];
        component = replicate nodes nodes;
        next_index = 0;
        components = 0;
        calls = [];
      }

  unfoldable pub strongly_connected : List ℕ × ℕ
  unfolding visit_all start
  strongly_connected =
      let done = visit_all start (range_from 0 (length edges)) in (done.component, done.components)
