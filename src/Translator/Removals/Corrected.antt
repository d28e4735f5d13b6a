-- ===== src/Translator/Removals/Corrected.antt =====
-- What the corrections of a diff keep and drop (`expand_cluster_removals`,
-- `drop_superseded_backend_removes`, crates/translator/src/lib.rs).
use mathlib.Core.Path.{fun_ext}
use sozu_gateway.Prelude.{
  ◌≡◌, refl, sym, ap, ◌∙◌, Bool, true, false, not, ◌&&◌, ◌||◌, Option, none, some, List, [], ◌∷◌,
  arith,
}
use sozu_gateway.Prelude.Tests.{if◌then◌else◌}
use sozu_gateway.Prelude.Eq.{◌==◌, eq_of-==, ==_of_ne, list_eq, nat_eq, pair_eq}
use sozu_gateway.Prelude.Lists.{filter, filter_map, is_empty, all, any, filter-all}
use sozu_gateway.Prelude.Lists.Keys.{contains}
use sozu_gateway.Prelude.Texts.{Text}
use sozu_gateway.Ir.{SocketAddr, address_eq}
use sozu_gateway.Wire.{Request, RequestType, RemoveBackend, unwire, request_eq}
use sozu_gateway.Wire.RequestType.{add_backend, remove_backend}
use sozu_gateway.Translator.Removals.{
  BackendKey, added_backend, removed_backend, added_backend_of, removed_backend_of, not_superseded,
  drop_superseded_backend_removes,
}

none_added : (rs : List Request) → all (not_superseded []) rs ≡ true
unfolding not_superseded
none_added [] = refl
none_added (r ∷ rs) = ground (arith, none_added rs)

drop_filter :
    (rs : List Request)
    → drop_superseded_backend_removes rs ≡ filter (not_superseded (filter_map added_backend rs)) rs
unfolding drop_superseded_backend_removes
drop_filter rs = by_added (filter_map added_backend rs)
  where
    by_added :
        (added : List BackendKey)
        → (if is_empty added then rs else filter (not_superseded added) rs)
          ≡ filter (not_superseded added) rs
    by_added [] = sym (filter-all (not_superseded []) rs (none_added rs))
    by_added (k ∷ ks) = refl

-- Whether a request adds the backend that `b` removes: one cluster, one id, one address.
abbrev adds_that : RemoveBackend → RequestType → Bool
adds_that b (add_backend a) =
    b.cluster_id == a.cluster_id
    && b.backend_id == a.backend_id
    && unwire b.address == unwire a.address
adds_that b _ = false

abbrev adds_back : RemoveBackend → Request → Bool
adds_back b q = elim q.request_type [ none ↦ false | some kind ↦ adds_that b kind ]

abbrev superseded_kind : List Request → RequestType → Bool
superseded_kind rs (remove_backend b) = any (adds_back b) rs
superseded_kind rs _ = false

-- The removal of a backend that some request of the batch adds.
abbrev pub superseded : List Request → Request → Bool
superseded rs r = elim r.request_type [ none ↦ false | some kind ↦ superseded_kind rs kind ]

abbrev key_of : RemoveBackend → BackendKey
key_of b = (b.cluster_id, (b.backend_id, unwire b.address))

key_test :
    (b : RemoveBackend) (cluster_id backend_id : Text) (at : SocketAddr)
    → (key_of b == (cluster_id, (backend_id, at)))
      ≡ (b.cluster_id == cluster_id && b.backend_id == backend_id && unwire b.address == at)
key_test b cluster_id backend_id at = ground (
  arith,
  eq_of-== (key_of b) (cluster_id, (backend_id, at)),
  ==_of_ne (key_of b) (cluster_id, (backend_id, at)),
)

contains-added_of :
    (b : RemoveBackend) (kind : RequestType) (rest : List BackendKey)
    → contains (key_of b) (elim (added_backend_of kind) [ none ↦ rest | some k ↦ k ∷ rest ])
      ≡ (adds_that b kind || contains (key_of b) rest)
unfolding added_backend_of
contains-added_of b (add_backend a) rest =
    ap (λ t. t || contains (key_of b) rest)
      (key_test b a.cluster_id a.backend_id (unwire a.address))
contains-added_of b _ rest = refl

contains-added :
    (b : RemoveBackend) (rs : List Request)
    → contains (key_of b) (filter_map added_backend rs) ≡ any (adds_back b) rs
unfolding added_backend
contains-added b [] = refl
contains-added b (q ∷ rs) = by_kind (contains-added b rs) q.request_type
  where
    by_kind :
        contains (key_of b) (filter_map added_backend rs) ≡ any (adds_back b) rs
        → (o : Option RequestType)
        → contains (key_of b) (filter_map added_backend (record { request_type = o } ∷ rs))
          ≡ any (adds_back b) (record { request_type = o } ∷ rs)
    by_kind ih none = ih
    by_kind ih (some kind) =
        contains-added_of b kind (filter_map added_backend rs) ∙ ap (λ t. adds_that b kind || t) ih

not_superseded_of :
    (rs : List Request) (kind : RequestType)
    → not_superseded (filter_map added_backend rs) (record { request_type = some kind })
      ≡ not (superseded_kind rs kind)
unfolding not_superseded removed_backend removed_backend_of
not_superseded_of rs (remove_backend b) = ap not (contains-added b rs)
not_superseded_of rs _ = refl

not_superseded_lem :
    (rs : List Request) (r : Request)
    → not_superseded (filter_map added_backend rs) r ≡ not (superseded rs r)
unfolding not_superseded removed_backend
not_superseded_lem rs r = by_kind r.request_type
  where
    by_kind :
        (o : Option RequestType)
        → not_superseded (filter_map added_backend rs) (record { request_type = o })
          ≡ not (superseded rs (record { request_type = o }))
    by_kind none = refl
    by_kind (some kind) = not_superseded_of rs kind

-- The corrected batch is the diff in its order, repetitions kept, less exactly the removals of a
-- backend that some request of the diff adds with the same cluster, id and address.
pub drop_superseded_lem :
    (rs : List Request)
    → drop_superseded_backend_removes rs ≡ filter (λ r. not (superseded rs r)) rs
drop_superseded_lem rs =
    drop_filter rs ∙ ap (λ keep. filter keep rs) (fun_ext (not_superseded_lem rs))
