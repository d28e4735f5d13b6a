-- ===== src/Translator/Reconcile/Batches.antt =====
-- The batches that `reconcile` returns (crates/translator/src/lib.rs).
use sozu_gateway.Prelude.{◌<◌, ◌≡◌, refl, Bool, true, not, List, [], ◌∷◌, arith}
use sozu_gateway.Prelude.Results.{Result, ok, >>=-eq-ok}
use sozu_gateway.Prelude.Order.Sort.{sort_by}
use sozu_gateway.Prelude.Order.Sets.{dedup, all-dedup}
use sozu_gateway.Prelude.Texts.{Text}
use sozu_gateway.Ir.{Ir}
use sozu_gateway.Wire.{Request, request_eq}
use sozu_gateway.Translator.Errors.{TranslatorError}
use sozu_gateway.Translator.Tiers.{CertRank, canonicalize_ranked}
use sozu_gateway.Translator.Tiers.Phases.{
  Phase, position, in_phase, before, canonicalize_ranked-before,
}
use sozu_gateway.Translator.References.{
  IsClosed, check_cluster_references, check_cluster_references-eq-ok_iff,
}
use sozu_gateway.Translator.Removals.{expand_cluster_removals, drop_superseded_backend_removes}
use sozu_gateway.Translator.Certificates.{KeyedCert, keyed_certs}
use sozu_gateway.Translator.Certificates.Diff.{certificate_requests}
use sozu_gateway.Translator.Certificates.Diff.Idempotent.{certificate_requests_self}
use sozu_gateway.Translator.Reconcile.{Sozu, routing_state, routing_diff, reconcile}

before-dedup :
    (p q : Request → Bool) (rs : List Request) → before p q rs ≡ true → before p q (dedup rs) ≡ true
unfolding dedup
before-dedup p q [] h = refl
before-dedup p q (r ∷ rs) h = ground (arith, before-dedup p q rs, all-dedup (λ s. not (p s)) rs)

routing_diff_self : (z : Sozu) (s : z.State) → z.diff s s ≡ [] → routing_diff z s s ≡ []
unfolding routing_diff drop_superseded_backend_removes expand_cluster_removals
routing_diff_self z s h = rw h

no_batch : (json : Request → Text) → dedup (canonicalize_ranked json []) ≡ []
unfolding dedup canonicalize_ranked sort_by
no_batch json = refl

-- From a state to itself nothing is sent: the state names only clusters that it declares, its
-- routing graph folds, its certificates can be read, and Sōzu's diff of a state with itself is
-- empty.
pub reconcile_self :
    (z : Sozu) (ir : Ir) (s : z.State) (ks : List KeyedCert)
    → IsClosed ir
    → routing_state z ir ≡ ok s
    → keyed_certs z.pem ir.certificates ≡ ok ks
    → z.diff s s ≡ []
    → reconcile z ir ir ≡ ok []
unfolding reconcile
reconcile_self z ir s ks closed folds keyed same = rw (
  (check_cluster_references-eq-ok_iff ir).1 closed,
  folds,
  certificate_requests_self z.json z.pem ir.certificates ks keyed,
  routing_diff_self z s same,
  no_batch z.json,
)

ordered_of :
    (json : Request → Text) (xs : List (CertRank × Request)) (batch : List Request)
    → ◌≡◌ {A = Result TranslatorError (List Request)}
        (ok (dedup (canonicalize_ranked json xs)))
        (ok batch)
    → (a b : Phase) → position a < position b
    → before (in_phase a) (in_phase b) batch ≡ true
ordered_of json xs batch h a b lt =
    let e : dedup (canonicalize_ranked json xs) ≡ batch = cc in
    let ordered =
      before-dedup (in_phase a) (in_phase b) (canonicalize_ranked json xs)
        (canonicalize_ranked-before json a b xs lt) in
    rw (← e) ordered

-- Every batch that is returned runs its phases in order, whatever Sōzu's diff gave; and the
-- desired state names only clusters that it declares.
pub reconcile-before :
    (z : Sozu) (previous desired : Ir) (batch : List Request)
    → reconcile z previous desired ≡ ok batch
    → IsClosed desired
      × ((a b : Phase) → position a < position b → before (in_phase a) (in_phase b) batch ≡ true)
unfolding reconcile
reconcile-before z previous desired batch h =
    let (_, checked, rest) = >>=-eq-ok (check_cluster_references desired) _ h in
    let (s, _, rest₁) = >>=-eq-ok (routing_state z previous) _ rest in
    let (t, _, rest₂) = >>=-eq-ok (routing_state z desired) _ rest₁ in
    let (certs, _, last) =
      >>=-eq-ok (certificate_requests z.json z.pem previous.certificates desired.certificates) _
        rest₂ in
    ((check_cluster_references-eq-ok_iff desired).0 checked, ordered_of z.json _ batch last)
