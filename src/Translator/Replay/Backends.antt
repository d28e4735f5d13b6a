-- ===== src/Translator/Replay/Backends.antt =====
-- What the replay of the acknowledged requests (`apply_acknowledged`,
-- crates/translator/src/replay.rs) leaves of the backends.
use sozu_gateway.Prelude.{ℕ, ◌≡◌, refl, ap, ◌∙◌, true, Option, some, List, [], ◌∷◌, arith}
use sozu_gateway.Prelude.Eq.{◌==◌, pair_eq, list_eq, nat_eq}
use sozu_gateway.Prelude.Lists.{filter, any}
use sozu_gateway.Prelude.Texts.{Text}
use sozu_gateway.Ir.{Ir, Backend, plain, address_eq}
use sozu_gateway.Ir.RouteKey.{Show, route_key_eq}
use sozu_gateway.Wire.{Request, RequestType, RequestHttpFrontend, unwire}
use sozu_gateway.Wire.RequestType.{remove_cluster, add_backend, remove_backend}
use sozu_gateway.Translator.Removals.{BackendKey}
use sozu_gateway.Translator.Certificates.{Pem}
use sozu_gateway.Translator.Replay.{
  Replay, apply_kind, apply_all, apply_acknowledged, replace_in, set_certificate, set_frontend,
  set_l4, backend_key, new_replay, finish, removed_since, names_a_certificate,
}
use sozu_gateway.Translator.Replay.Groups.{wanted}
use sozu_gateway.Translator.Replay.Kept.{Event, put, drop, gone, skip, act, act_removed}
use sozu_gateway.Translator.Replay.Output.{filter-into_objects}
use sozu_gateway.Translator.Replay.Start.{tidy-new, timely-new, kept-new}
use sozu_gateway.Translator.Replay.Fold.{settled_all, event_of, wanted_keyed, all_kept}
use sozu_gateway.Translator.Replay.Tidy.{keyed_event}

-- What a request does to the backends.
abbrev pub backend_event :
    (BackendKey → Option (List Backend)) → RequestType → Event BackendKey Backend
backend_event wants (add_backend b) =
    let key : BackendKey = (b.cluster_id, (b.backend_id, plain (unwire b.address))) in
    put key (wants key)
backend_event wants (remove_backend b) =
    drop (b.cluster_id, (b.backend_id, plain (unwire b.address)))
backend_event wants (remove_cluster id) = gone id
backend_event wants _ = skip

abbrev pub backend_cluster : Backend → Option Text
backend_cluster b = some b.cluster_id

module _ (show : Show) (display : RequestHttpFrontend → Text) (pem : Pem) where
  backends_step :
      (step : ℕ) (kind : RequestType) (s : Replay)
      → (apply_kind show display pem step kind s).backends
        ≡ act step (backend_event s.wanted_backends kind) s.backends
  unfolding apply_kind set_frontend set_l4 set_certificate replace_in
  backends_step step _ s = ground arith

  backends_removed :
      (step : ℕ) (kind : RequestType) (s : Replay)
      → (apply_kind show display pem step kind s).removed_clusters
        ≡ act_removed step (backend_event s.wanted_backends kind) s.removed_clusters
  unfolding apply_kind set_frontend set_l4 set_certificate replace_in
  backends_removed step _ s = ground arith

  wanted_backends_step :
      (step : ℕ) (kind : RequestType) (s : Replay)
      → (apply_kind show display pem step kind s).wanted_backends ≡ s.wanted_backends
  unfolding apply_kind set_frontend set_l4 set_certificate replace_in
  wanted_backends_step step _ s = ground arith

  backends_keyed :
      (desired : Ir) (kind : RequestType)
      → keyed_event backend_key (backend_event (wanted backend_key desired.backends) kind) ≡ true
  backends_keyed desired (add_backend b) = wanted_keyed backend_key desired.backends _
  backends_keyed desired _ = ground arith

  -- Under each key the replayed state holds the backends that the acknowledged requests leave one
  -- after the other, in order: an add sets those that the desired state has under the key, if
  -- any, a removal drops them, and the removal of a cluster drops those that name it.
  pub backends-apply_acknowledged :
      (previous desired : Ir) (acknowledged : List Request) (k : BackendKey)
      → filter
          (λ b. backend_key b == k)
          (apply_acknowledged show display pem previous desired acknowledged).backends
        ≡ settled_all backend_cluster
            (event_of (backend_event (wanted backend_key desired.backends)))
            k
            acknowledged
            (filter (λ b. backend_key b == k) previous.backends)
  unfolding apply_acknowledged finish new_replay removed_since
  backends-apply_acknowledged previous desired [] k = refl
  backends-apply_acknowledged previous desired (r ∷ rs) k =
      let start = new_replay show display pem previous desired (any names_a_certificate (r ∷ rs)) in
      let (neat, held) =
        all_kept show display pem backend_key backend_cluster (λ s. s.backends)
          (λ s. s.wanted_backends) backend_event backends_step backends_removed wanted_backends_step
          (wanted backend_key desired.backends) (backends_keyed desired) 1 (r ∷ rs) start
          (record {
            same = refl;
            neat = tidy-new backend_key previous.backends;
            early = timely-new backend_key previous.backends;
          }) in
      filter-into_objects backend_key backend_cluster
        (apply_all show display pem 1 (r ∷ rs) start).removed_clusters
        (apply_all show display pem 1 (r ∷ rs) start).backends k neat
      ∙ held k
      ∙ ap
          (settled_all backend_cluster
            (event_of (backend_event (wanted backend_key desired.backends))) k (r ∷ rs))
          (kept-new backend_key backend_cluster previous.backends k)
