-- ===== src/Builder/Routes/Collisions/Winners.antt =====
-- The winners of the route keys (`resolve_frontend_collisions`, crates/builder/src/lib.rs).
use sozu_gateway.Prelude.{
  ℕ, ◌≡◌, refl, ap, sym, ◌∙◌, Bool, true, false, Option, none, some, List, [], ◌∷◌, map, arith,
}
use sozu_gateway.Prelude.Eq.{Eq, ◌==◌, ==-refl}
use sozu_gateway.Prelude.Lists.{all, find}
use sozu_gateway.Prelude.Lists.Keys.{unique_by, find-unique_from}
use sozu_gateway.Prelude.Order.{Order, nat_order, list_order, pair_order}
use sozu_gateway.Prelude.Order.Sort.{sorted, sort_by-sorted, all-sort_by}
use sozu_gateway.Prelude.Texts.{Text}
use sozu_gateway.Ir.RouteKey.{Show, route_key_eq}
use sozu_gateway.Builder.Routes.Collisions.{
  SourcedFrontend, Claims, claim_of, claim_rank, route_key, by_claim, winner_of, settle_losers,
  resolve_frontend_collisions,
}

abbrev claim_order : Order (ℕ × (List Text × Text))
claim_order = pair_order

-- The first element under each key comes first in the order.
module _ {K R A : Type 0} ⦃e : Eq K⦄ ⦃o : Order R⦄ (key : A → K) (rank : A → R) where
  abbrev pub first_of : List A → A → Bool
  first_of xs y = elim (find (λ w. key y == key w) xs) [
    | none ↦ false
    | some w ↦ o.le (rank w) (rank y)
  ]

  first_later :
      (x : A) (xs ys : List A)
      → all (λ y. o.le (rank x) (rank y)) ys ≡ true
      → all (first_of xs) ys ≡ true
      → all (first_of (x ∷ xs)) ys ≡ true
  first_later x xs [] h k = refl
  first_later x xs (y ∷ ys) h k =
      ground (arith, first_later x xs ys (ground (arith, h)) (ground (arith, k)), h, k)

  pub firsts-sorted : (xs : List A) → sorted rank xs ≡ true → all (first_of xs) xs ≡ true
  firsts-sorted [] h = refl
  firsts-sorted (x ∷ xs) h = ground (
    arith,
    first_later x xs xs (ground (arith, h)) (firsts-sorted xs (ground (arith, h))),
    ==-refl (key x),
    o.le_total (rank x) (rank x),
  )

all_alike :
    {A : Type 0} (p q : A → Bool) → ((x : A) → p x ≡ q x) → (xs : List A) → all p xs ≡ all q xs
all_alike p q h [] = refl
all_alike p q h (x ∷ xs) = ground (arith, h x, all_alike p q h xs)

map_twice :
    {A B C : Type 0} (f : A → B) (g : B → C) (xs : List A)
    → map g (map f xs) ≡ map (λ x. g (f x)) xs
map_twice f g [] = refl
map_twice f g (x ∷ xs) = ap (λ ys. g (f x) ∷ ys) (map_twice f g xs)

module _ (show : Show) where
  -- The losers do not change what is kept.
  kept-after :
      (kept : List SourcedFrontend) (sf : SourcedFrontend) (rest : List SourcedFrontend)
      → (settle_losers show kept (sf ∷ rest)).kept ≡ (settle_losers show kept rest).kept
  unfolding settle_losers
  kept-after kept sf rest = ground arith

  kept-settle_losers :
      (kept frontends : List SourcedFrontend) → (settle_losers show kept frontends).kept ≡ kept
  unfolding settle_losers
  kept-settle_losers kept [] = refl
  kept-settle_losers kept (sf ∷ rest) = kept-after kept sf rest ∙ kept-settle_losers kept rest

  module _ (claims : Claims) where
    abbrev rank : SourcedFrontend → ℕ × (List Text × Text)
    rank sf = claim_rank (claim_of sf.source claims)

    kept-resolve :
        (frontends : List SourcedFrontend)
        → (resolve_frontend_collisions show frontends claims).kept
          ≡ unique_by (route_key show) (by_claim claims frontends)
    unfolding resolve_frontend_collisions
    kept-resolve frontends = kept-settle_losers _ (by_claim claims frontends)

    -- Whether a frontend's route is kept, for a claim that is at least as old.
    abbrev pub has_winner : List SourcedFrontend → SourcedFrontend → Bool
    has_winner kept sf = elim (winner_of show kept sf) [
      | none ↦ false
      | some w ↦ claim_order.le (rank w) (rank sf)
    ]

    winner_of_unique :
        (sorted : List SourcedFrontend) (sf : SourcedFrontend)
        → has_winner (unique_by (route_key show) sorted) sf
          ≡ first_of (route_key show) rank sorted sf
    unfolding winner_of
    winner_of_unique sorted sf =
        ap
          (λ (o : Option SourcedFrontend). elim o [
            | none ↦ false
            | some w ↦ claim_order.le (rank w) (rank sf)
          ])
          (find-unique_from (route_key show) (route_key show sf) [] sorted)

    -- Every frontend's route is kept, for an owner whose claim is at least as old as its own, whatever
    -- backends, redirects or filters the frontends have.
    pub resolve-has_winner :
        (frontends : List SourcedFrontend)
        → all (has_winner (resolve_frontend_collisions show frontends claims).kept) frontends ≡ true
    unfolding by_claim
    resolve-has_winner frontends =
        ap (λ kept. all (has_winner kept) frontends) (kept-resolve frontends)
        ∙ all_alike _ _ (winner_of_unique (by_claim claims frontends)) frontends
        ∙ sym (
            all-sort_by rank (first_of (route_key show) rank (by_claim claims frontends)) frontends)
        ∙ firsts-sorted (route_key show) rank (by_claim claims frontends)
            (sort_by-sorted rank frontends)
