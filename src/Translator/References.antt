-- ===== src/Translator/References.antt =====
-- `check_cluster_references`, crates/translator/src/lib.rs: every backend and frontend names a
-- cluster that the state declares.
use sozu_gateway.Prelude.{
  ◌≡◌, refl, ◌↔◌, inl, inr, true, not, none, some, List, [], ◌∷◌, map, arith,
}
use sozu_gateway.Prelude.Tests.{Option-cases}
use sozu_gateway.Prelude.Eq.{list_eq, nat_eq}
use sozu_gateway.Prelude.Results.{Result, ok, err, ◌>>◌, >>-eq-ok}
use sozu_gateway.Prelude.Lists.{find, filter_map, All}
use sozu_gateway.Prelude.Lists.Keys.{contains}
use sozu_gateway.Prelude.Texts.{Text, codes}
use sozu_gateway.Ir.{Ir, Frontend, Backend, L4Frontend}
use sozu_gateway.Translator.Errors.{TranslatorError, unknown_cluster}

unfoldable pub declared : Ir → List Text
declared desired = map (λ c. c.id) desired.clusters

-- Refuses the first of the ids that is not declared.
unfoldable pub refuse_unknown : List Text → Text → List Text → Result TranslatorError (Unit {0})
refuse_unknown known what ids = elim (find (λ id. not (contains id known)) ids) [
  | none ↦ ok tt
  | some id ↦ err (unknown_cluster what id)
]

unfoldable pub check_cluster_references : Ir → Result TranslatorError (Unit {0})
check_cluster_references desired = do
  refuse_unknown (declared desired) (codes "a backend") (map (λ b. b.cluster_id) desired.backends)
  refuse_unknown (declared desired) (codes "an HTTP frontend")
      (filter_map (λ f. f.cluster_id) desired.frontends)
  refuse_unknown (declared desired) (codes "an L4 frontend")
      (map (λ f. f.cluster_id) desired.l4_frontends)

-- A cluster named by a backend, an HTTP frontend or an L4 frontend is declared.
pub record IsClosed (ir : Ir) : Type 0 where
  pub backends : All (λ (b : Backend). contains b.cluster_id (declared ir) ≡ true) ir.backends
  pub frontends :
      All
        (λ (f : Frontend). (id : Text) → f.cluster_id ≡ some id → contains id (declared ir) ≡ true)
        ir.frontends
  pub l4_frontends :
      All (λ (f : L4Frontend). contains f.cluster_id (declared ir) ≡ true) ir.l4_frontends

module _ (known : List Text) (what : Text) where
  All-known :
      {A : Type 0} (id : A → Text) (xs : List A)
      → refuse_unknown known what (map id xs) ≡ ok tt
      → All (λ x. contains (id x) known ≡ true) xs
  unfolding refuse_unknown
  All-known id [] h = tt
  All-known id (x ∷ xs) h = (ground arith, All-known id xs (ground arith))

  known-All :
      {A : Type 0} (id : A → Text) (xs : List A)
      → All (λ x. contains (id x) known ≡ true) xs
      → refuse_unknown known what (map id xs) ≡ ok tt
  unfolding refuse_unknown
  known-All id [] h = refl
  known-All id (x ∷ xs) (p, h) = ground (arith, known-All id xs h)

  All-some_known :
      (xs : List Frontend)
      → refuse_unknown known what (filter_map (λ f. f.cluster_id) xs) ≡ ok tt
      → All (λ f. (id : Text) → f.cluster_id ≡ some id → contains id known ≡ true) xs
  unfolding refuse_unknown
  All-some_known [] h = tt
  All-some_known (x ∷ xs) h = (λ id e. ground arith, All-some_known xs (ground arith))

  some_known-All :
      (xs : List Frontend)
      → All (λ f. (id : Text) → f.cluster_id ≡ some id → contains id known ≡ true) xs
      → refuse_unknown known what (filter_map (λ f. f.cluster_id) xs) ≡ ok tt
  unfolding refuse_unknown
  some_known-All [] h = refl
  some_known-All (x ∷ xs) (p, h) = elim (Option-cases x.cluster_id) [
    | inl e ↦ rw e (some_known-All xs h)
    | inr (id, e) ↦ rw e (ground (arith, p id e, some_known-All xs h))
  ]

-- The check passes exactly for the states in which every named cluster is declared.
pub check_cluster_references-eq-ok_iff :
    (ir : Ir) → (check_cluster_references ir ≡ ok tt) ↔ IsClosed ir
unfolding check_cluster_references
check_cluster_references-eq-ok_iff ir = (closed, passes)
  where
    known : List Text
    known = declared ir

    closed : check_cluster_references ir ≡ ok tt → IsClosed ir
    closed h =
        let (b, rest) = >>-eq-ok _ _ h in
        let (f, l) = >>-eq-ok _ _ rest in
        record {
          backends = All-known known (codes "a backend") (λ b. b.cluster_id) ir.backends b;
          frontends = All-some_known known (codes "an HTTP frontend") ir.frontends f;
          l4_frontends =
              All-known known (codes "an L4 frontend") (λ f. f.cluster_id) ir.l4_frontends l;
        }

    passes : IsClosed ir → check_cluster_references ir ≡ ok tt
    passes c = rw (
      known-All known (codes "a backend") (λ b. b.cluster_id) ir.backends c.backends,
      some_known-All known (codes "an HTTP frontend") ir.frontends c.frontends,
      known-All known (codes "an L4 frontend") (λ f. f.cluster_id) ir.l4_frontends c.l4_frontends,
    )
