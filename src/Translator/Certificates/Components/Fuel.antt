-- ===== src/Translator/Certificates/Components/Fuel.antt =====
-- The fuel of the search for components (`strongly_connected`, crates/translator/src/lib.rs).
use sozu_gateway.Prelude.{
  ℕ, zero, suc, ◌+◌, ◌-◌, ◌<◌, ◌≤◌, ◌≡◌, ◌⊎◌, inl, inr, refl, ap, ap₂, ◌∙◌, Bool, true, Option,
  none, some, List, [], ◌∷◌, arith,
}
use sozu_gateway.Prelude.Tests.{ltb, Option-cases}
use sozu_gateway.Prelude.Eq.{nat_eq, option_eq}
use sozu_gateway.Prelude.Lists.{length, get_or, get_elem?, set, all, replicate, range_from}
use sozu_gateway.Translator.Certificates.Components.{
  State, enter, close_component, follow, leave, step, run, sum_lengths, enough, visit, visit_all,
  start, strongly_connected,
}

length-set {ℓ} : {A : Type ℓ} (xs : List A) (i : ℕ) (v : A) → length (set xs i v) ≡ length xs
length-set [] i v = refl
length-set (x ∷ xs) zero v = refl
length-set (x ∷ xs) (suc i) v = ap suc (length-set xs i v)

length-replicate {ℓ} : {A : Type ℓ} (n : ℕ) (a : A) → length (replicate n a) ≡ n
length-replicate zero a = refl
length-replicate (suc n) a = ap suc (length-replicate n a)

-- The work that the unseen nodes stand for: each edge once, and the return.
unseen : List (Option ℕ) → List (List ℕ) → ℕ
unseen [] es = 0
unseen (i ∷ is) [] = 0
unseen (none ∷ is) (e ∷ es) = length e + 1 + unseen is es
unseen (some n ∷ is) (e ∷ es) = unseen is es

unseen-set :
    (is : List (Option ℕ)) (es : List (List ℕ)) (n v : ℕ)
    → length is ≡ length es
    → n < length es
    → get_or is n none ≡ none
    → unseen (set is n (some v)) es + (length (get_or es n []) + 1) ≡ unseen is es
unfolding unseen
unseen-set [] [] n v l b h = ground arith
unseen-set [] (e ∷ es) n v l b h = ground arith
unseen-set (i ∷ is) [] n v l b h = ground arith
unseen-set (none ∷ is) (e ∷ es) zero v l b h = ground arith
unseen-set (some i ∷ is) (e ∷ es) zero v l b h = ground arith
unseen-set (none ∷ is) (e ∷ es) (suc n) v l b h =
    ground (arith, unseen-set is es n v (ground arith) (ground arith) h)
unseen-set (some i ∷ is) (e ∷ es) (suc n) v l b h =
    unseen-set is es n v (ground arith) (ground arith) h

unseen_le : (is : List (Option ℕ)) (es : List (List ℕ)) → unseen is es ≤ sum_lengths es
unfolding unseen sum_lengths
unseen_le [] es = ground arith
unseen_le (i ∷ is) [] = ground arith
unseen_le (none ∷ is) (e ∷ es) = ground (arith, unseen_le is es)
unseen_le (some n ∷ is) (e ∷ es) = ground (arith, unseen_le is es)

-- Each target is a node.
abbrev pub bounded : List (List ℕ) → Bool
bounded edges = all (λ e. all (λ t. ltb t (length edges)) e) edges

get_or-all :
    (p : List ℕ → Bool) (es : List (List ℕ)) (n : ℕ)
    → all p es ≡ true
    → p [] ≡ true
    → p (get_or es n []) ≡ true
get_or-all p [] n h e = e
get_or-all p (x ∷ es) zero h e = ground arith
get_or-all p (x ∷ es) (suc n) h e = get_or-all p es n (ground arith) e

get_elem_all :
    (p : ℕ → Bool) (xs : List ℕ) (i t : ℕ) → all p xs ≡ true → get_elem? xs i ≡ some t → p t ≡ true
get_elem_all p [] i t h e = cc
get_elem_all p (x ∷ xs) zero t h e = ground arith
get_elem_all p (x ∷ xs) (suc i) t h e = get_elem_all p xs i t (ground arith) e

get_elem_lt : (xs : List ℕ) (i t : ℕ) → get_elem? xs i ≡ some t → i < length xs
get_elem_lt [] i t e = cc
get_elem_lt (x ∷ xs) zero t e = ground arith
get_elem_lt (x ∷ xs) (suc i) t e = ground (arith, get_elem_lt xs i t e)

calls_cases : (cs : List (ℕ × ℕ)) → (cs ≡ []) ⊎ ((c : ℕ × ℕ) × (r : List (ℕ × ℕ)) × (cs ≡ c ∷ r))
calls_cases [] = inl refl
calls_cases (c ∷ r) = inr (c, r, refl)

leave_same :
    (node : ℕ) (s : State) → ((leave node s).calls ≡ s.calls) × ((leave node s).index ≡ s.index)
unfolding leave close_component
leave_same node s = (ground arith, ground arith)

follow_fresh :
    (node target : ℕ) (s : State)
    → get_or s.index target none ≡ none
    → follow node target s ≡ enter target s
unfolding follow
follow_fresh node target s h = ground arith

follow_seen :
    (node target at : ℕ) (s : State)
    → get_or s.index target none ≡ some at
    → ((follow node target s).calls ≡ s.calls) × ((follow node target s).index ≡ s.index)
unfolding follow
follow_seen node target at s h = (ground arith, ground arith)

module _ (edges : List (List ℕ)) where
  step-follow :
      (s : State) (node edge target : ℕ) (rest : List (ℕ × ℕ))
      → s.calls ≡ (node, edge) ∷ rest
      → get_elem? (get_or edges node []) edge ≡ some target
      → step edges s ≡ follow node target (record s { calls = (node, suc edge) ∷ rest })
  unfolding step
  step-follow s node edge target rest c h = ground arith

  step-leave :
      (s : State) (node edge : ℕ) (rest : List (ℕ × ℕ))
      → s.calls ≡ (node, edge) ∷ rest
      → get_elem? (get_or edges node []) edge ≡ none
      → step edges s ≡ leave node (record s { calls = rest })
  unfolding step
  step-leave s node edge rest c h = ground arith

  run_empty : (fuel : ℕ) (s : State) → s.calls ≡ [] → run edges (suc fuel) s ≡ s
  unfolding run
  run_empty fuel s h = ground arith

  run-step :
      (fuel : ℕ) (s : State) (c : ℕ × ℕ) (r : List (ℕ × ℕ))
      → s.calls ≡ c ∷ r
      → run edges (suc fuel) s ≡ run edges fuel (step edges s)
  unfolding run
  run-step fuel s c r h = ground arith

  -- The work left in the calls.
  pending : List (ℕ × ℕ) → ℕ
  pending [] = 0
  pending ((n, e) ∷ calls) = length (get_or edges n []) - e + 1 + pending calls

  measure : State → ℕ
  unfolding pending
  measure s = unseen s.index edges + pending s.calls

  measure-enter :
      (n : ℕ) (s : State)
      → length s.index ≡ length edges
      → n < length edges
      → get_or s.index n none ≡ none
      → measure (enter n s) ≡ measure s
  unfolding measure pending enter
  measure-enter n s l lt h = ground (arith, unseen-set s.index edges n s.next_index l lt h)

  length-enter : (n : ℕ) (s : State) → length (enter n s).index ≡ length s.index
  unfolding enter
  length-enter n s = length-set s.index n (some s.next_index)

  measure-follow :
      (node target : ℕ) (s : State)
      → length s.index ≡ length edges
      → target < length edges
      → (measure (follow node target s) ≡ measure s)
        × (length (follow node target s).index ≡ length edges)
  unfolding measure
  measure-follow node target s l lt = elim (Option-cases (get_or s.index target none)) [
    | inl e ↦
        let fresh = follow_fresh node target s e in
        (
          ap measure fresh ∙ measure-enter target s l lt e,
          ap (λ (x : State). length x.index) fresh ∙ length-enter target s ∙ l,
        )
    | inr (at, e) ↦
        let (calls, index) = follow_seen node target at s e in
        (ap₂ (λ i c. unseen i edges + pending c) index calls, ap length index ∙ l)
  ]

  measure-step :
      (s : State) (call : ℕ × ℕ) (rest : List (ℕ × ℕ))
      → bounded edges ≡ true
      → length s.index ≡ length edges
      → s.calls ≡ call ∷ rest
      → (measure (step edges s) < measure s) × (length (step edges s).index ≡ length edges)
  unfolding measure pending
  measure-step s (node, edge) rest b l e =
      let whole = ap pending e in
      elim (Option-cases (get_elem? (get_or edges node []) edge)) [
        | inl none_left ↦
            let popped : State = record s { calls = rest } in
            let (same_calls, same_index) = leave_same node popped in
            let stepped = step-leave s node edge rest e none_left in
            let work =
              ap measure stepped ∙ ap₂ (λ i c. unseen i edges + pending c) same_index same_calls in
            (
              omega (arith, work, whole),
              ap (λ (x : State). length x.index) stepped ∙ ap length same_index ∙ l,
            )
        | inr (target, found) ↦
            let next : State = record s { calls = (node, suc edge) ∷ rest } in
            let lt =
              get_elem_all (λ t. ltb t (length edges)) (get_or edges node []) edge target
                (get_or-all (λ e. all (λ t. ltb t (length edges)) e) edges node b refl) found in
            let (same, sized) = measure-follow node target next l (ground arith) in
            let stepped = step-follow s node edge target rest e found in
            let work = ap measure stepped ∙ same in
            let within = get_elem_lt (get_or edges node []) edge target found in
            (omega (arith, work, whole, within), ap (λ (x : State). length x.index) stepped ∙ sized)
      ]

  stopped : (s : State) → measure s ≤ 0 → s.calls ≡ []
  unfolding measure pending
  stopped s h = elim (calls_cases s.calls) [
    | inl e ↦ e
    | inr (c, r, e) ↦ let whole = ap pending e in ground (arith, whole)
  ]

  run-calls :
      (fuel : ℕ) (s : State)
      → bounded edges ≡ true
      → length s.index ≡ length edges
      → measure s ≤ fuel
      → ((run edges fuel s).calls ≡ []) × (length (run edges fuel s).index ≡ length edges)
  unfolding run
  run-calls zero s b l h = (stopped s h, l)
  run-calls (suc fuel) s b l h = elim (calls_cases s.calls) [
    | inl e ↦
        let done = run_empty fuel s e in
        (ap (λ (x : State). x.calls) done ∙ e, ap (λ (x : State). length x.index) done ∙ l)
    | inr (c, r, e) ↦
        let (less, sized) = measure-step s c r b l e in
        let next = run-step fuel s c r e in
        let (calls, index) = run-calls fuel (step edges s) b sized (ground arith) in
        (ap (λ (x : State). x.calls) next ∙ calls, ap (λ (x : State). length x.index) next ∙ index)
  ]

  visit_seen :
      (s : State) (root at : ℕ) → get_or s.index root none ≡ some at → visit edges s root ≡ s
  unfolding visit
  visit_seen s root at h = ground arith

  visit_fresh :
      (s : State) (root : ℕ)
      → get_or s.index root none ≡ none
      → visit edges s root ≡ run edges (enough edges) (enter root s)
  unfolding visit
  visit_fresh s root h = ground arith

  enter-enough :
      (s : State) (root : ℕ)
      → length s.index ≡ length edges
      → s.calls ≡ []
      → root < length edges
      → get_or s.index root none ≡ none
      → measure (enter root s) ≤ enough edges
  unfolding measure pending enough
  enter-enough s root l c lt h =
      let whole = ap pending c in
      omega (arith, measure-enter root s l lt h, whole, unseen_le s.index edges)

  visit-calls :
      (s : State) (root : ℕ)
      → bounded edges ≡ true
      → length s.index ≡ length edges
      → s.calls ≡ []
      → root < length edges
      → ((visit edges s root).calls ≡ []) × (length (visit edges s root).index ≡ length edges)
  visit-calls s root b l c lt = elim (Option-cases (get_or s.index root none)) [
    | inl e ↦
        let fresh = visit_fresh s root e in
        let (calls, index) =
          run-calls (enough edges) (enter root s) b (length-enter root s ∙ l)
            (enter-enough s root l c lt e) in
        (
          ap (λ (x : State). x.calls) fresh ∙ calls,
          ap (λ (x : State). length x.index) fresh ∙ index,
        )
    | inr (at, e) ↦
        let seen = visit_seen s root at e in
        (ap (λ (x : State). x.calls) seen ∙ c, ap (λ (x : State). length x.index) seen ∙ l)
  ]

  visit_all-calls :
      (s : State) (roots : List ℕ)
      → bounded edges ≡ true
      → length s.index ≡ length edges
      → s.calls ≡ []
      → all (λ r. ltb r (length edges)) roots ≡ true
      → (visit_all edges s roots).calls ≡ []
  unfolding visit_all
  visit_all-calls s [] b l c h = c
  visit_all-calls s (root ∷ roots) b l c h =
      let (calls, index) = visit-calls s root b l c (ground arith) in
      visit_all-calls (visit edges s root) roots b index calls (ground arith)

  all-range_from : (n count m : ℕ) → n + count ≤ m → all (λ r. ltb r m) (range_from n count) ≡ true
  all-range_from n zero m h = refl
  all-range_from n (suc count) m h = ground (arith, all-range_from (suc n) count m)

  -- Where each edge leads to a node, the search for components runs to its end: no call is left
  -- open when its fuel is spent, and the components are those that it has then found.
  pub search-calls :
      bounded edges ≡ true
      → let done = visit_all edges (start edges) (range_from 0 (length edges)) in
        (done.calls ≡ []) × (strongly_connected edges ≡ (done.component, done.components))
  unfolding start strongly_connected
  search-calls b = (
    visit_all-calls (start edges) (range_from 0 (length edges)) b
        (length-replicate (length edges) none) refl
        (all-range_from 0 (length edges) (length edges) (ground arith)),
    refl,
  )
