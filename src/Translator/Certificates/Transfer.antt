-- ===== src/Translator/Certificates/Transfer.antt =====
-- `transfer_order`, crates/translator/src/lib.rs: the order in which the replaces of one batch
-- that both give and take names run. The search for cycles is in Certificates/Components.
use sozu_gateway.Prelude.{ℕ, zero, suc, ◌-◌, not, ◌&&◌, List, [], ◌∷◌, ◌++◌, map}
use sozu_gateway.Prelude.Tests.{if◌then◌else◌, ltb}
use sozu_gateway.Prelude.Eq.{◌==◌, list_eq, nat_eq, pair_eq}
use sozu_gateway.Prelude.Lists.{
  filter, flat_map, length, get_or, set, enumerate_from, range_from, is_empty,
}
use sozu_gateway.Prelude.Lists.Keys.{contains}
use sozu_gateway.Prelude.Order.{nat_order, list_order, pair_order}
use sozu_gateway.Prelude.Order.Sort.{sort_by, insert_by}
use sozu_gateway.Prelude.Order.Sets.{to_set}
use sozu_gateway.Prelude.Texts.{Text}
use sozu_gateway.Ir.{SocketAddr, address_eq, address_order}
use sozu_gateway.Wire.{Request}
use sozu_gateway.Translator.Certificates.Components.{strongly_connected}

-- An SNI name as the resolver keys it.
abbrev pub SniKey : Type 0
SniKey = SocketAddr × Text

pub record Trade : Type 0 where
  pub request : Request
  pub gives : List SniKey
  pub takes : List SniKey

-- The positions of the trades whose set, by `part`, holds the name.
movers : (Trade → List SniKey) → SniKey → List Trade → List ℕ
movers part name trades =
    map (λ t. t.0) (filter (λ t. contains name (part t.1)) (enumerate_from 0 trades))

-- The names that one trade gives and another takes, in their order, with givers and takers.
pub transfers : List Trade → List (List ℕ × List ℕ)
unfolding movers
transfers trades =
    let names : List SniKey =
      to_set
        (flat_map (λ (t : Trade). t.gives) trades ++ flat_map (λ (t : Trade). t.takes) trades) in
    filter (λ (m : List ℕ × List ℕ). not (is_empty m.0) && not (is_empty m.1))
      (map (λ name. (movers (λ t. t.gives) name trades, movers (λ t. t.takes) name trades)) names)

-- The graph: the trades, then one node for each transferred name.
pub transfer_edges : List Trade → List (List ℕ)
unfolding transfers
transfer_edges trades =
    let count = length trades in
    let moved = enumerate_from count (transfers trades) in
    map
      (λ i.
        map (λ (m : ℕ × (List ℕ × List ℕ)). m.0)
          (filter (λ (m : ℕ × (List ℕ × List ℕ)). contains i m.1.0) moved))
      (range_from 0 count)
    ++ map (λ (m : ℕ × (List ℕ × List ℕ)). m.1.1) moved

index_of : ℕ → List ℕ → ℕ
index_of n [] = 0
index_of n (x ∷ xs) = let later = suc (index_of n xs) in if x == n then 0 else later

-- Each trade's place in the order of the JSON encodings.
pub json_places : (Request → Text) → List Trade → List ℕ
unfolding index_of
json_places json trades =
    let by_key = sort_by (λ (t : ℕ × Trade). json t.1.request) (enumerate_from 0 trades) in
    map (λ i. index_of i (map (λ (t : ℕ × Trade). t.0) by_key)) (range_from 0 (length trades))

-- The order of the trades, over a graph whose components are known.
module _ (count : ℕ) (seq : List ℕ) (edges : List (List ℕ)) (component : List ℕ) where
  members : ℕ → List ℕ
  members c =
      map (λ (n : ℕ × ℕ). n.0) (filter (λ (n : ℕ × ℕ). n.1 == c) (enumerate_from 0 component))

  trades_on : ℕ → List ℕ
  unfolding members
  trades_on c = sort_by (λ trade. get_or seq trade 0) (filter (λ n. ltb n count) (members c))

  -- A component with no trade comes first; any other at its first trade's place.
  priority : ℕ → ℕ × ℕ
  unfolding trades_on
  priority c = elim (trades_on c) [ [] ↦ (0, 0) | trade ∷ _ ↦ (1, get_or seq trade 0) ]

  -- The edges that leave a component, as the components they enter.
  leaving : ℕ → List ℕ
  unfolding members
  leaving c =
      filter (λ t. not (t == c))
        (map (λ target. get_or component target 0)
          (flat_map (λ node. get_or edges node []) (members c)))

  count_of : ℕ → List ℕ → ℕ
  count_of n [] = 0
  count_of n (x ∷ xs) = let rest = count_of n xs in if x == n then suc rest else rest

  waiting_at : ℕ → ℕ → ℕ
  unfolding leaving count_of
  waiting_at components t = count_of t (flat_map leaving (range_from 0 components))

  record Queue : Type 0 where
    waiting : List ℕ
    ready : List ℕ

  push_ready : ℕ → List ℕ → List ℕ
  unfolding priority
  push_ready c ready = insert_by {K = (ℕ × ℕ) × ℕ} (λ c. (priority c, c)) c ready

  -- One edge into `t` is done.
  arrive : Queue → ℕ → Queue
  unfolding push_ready
  arrive q t =
      let left : ℕ = get_or q.waiting t 0 - 1 in
      record {
        waiting = set q.waiting t left;
        ready = if left == 0 then push_ready t q.ready else q.ready;
      }

  arrive_all : Queue → List ℕ → Queue
  unfolding arrive
  arrive_all q [] = q
  arrive_all q (t ∷ ts) = arrive_all (arrive q t) ts

  -- The trades in the order they run. Each round takes a component off the queue, so as many
  -- rounds as components are enough.
  drain : ℕ → Queue → List ℕ
  unfolding arrive_all trades_on leaving
  drain zero q = []
  drain (suc rounds) q = elim q.ready [
    | [] ↦ []
    | c ∷ ready ↦
        trades_on c
        ++ drain rounds (arrive_all (record { waiting = q.waiting; ready = ready }) (leaving c))
  ]

  run_order : ℕ → List ℕ
  unfolding waiting_at push_ready drain
  run_order components =
      let waiting : List ℕ = map (waiting_at components) (range_from 0 components) in
      let ready : List ℕ =
        sort_by {K = (ℕ × ℕ) × ℕ} (λ c. (priority c, c))
          (filter (λ c. get_or waiting c 0 == 0) (range_from 0 components)) in
      drain components (record { waiting = waiting; ready = ready })

-- The position of each trade in the order.
unfoldable pub transfer_order : (Request → Text) → List Trade → List ℕ
unfolding transfer_edges json_places run_order index_of strongly_connected
transfer_order json trades =
    let count = length trades in
    let edges = transfer_edges trades in
    let (component, components) = strongly_connected edges in
    let order = run_order count (json_places json trades) edges component components in
    map (λ i. index_of i order) (range_from 0 count)
