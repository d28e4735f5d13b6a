-- ===== src/Translator/Replay/Routes.antt =====
-- What the replay of the acknowledged requests (`apply_acknowledged`,
-- crates/translator/src/replay.rs) leaves of the HTTP frontends.
use sozu_gateway.Prelude.{ℕ, ◌≡◌, refl, ap, ◌∙◌, true, false, Option, List, [], ◌∷◌, arith}
use sozu_gateway.Prelude.Eq.{◌==◌, pair_eq, list_eq, nat_eq}
use sozu_gateway.Prelude.Lists.{filter, any}
use sozu_gateway.Prelude.Texts.{Text}
use sozu_gateway.Ir.{Ir, Frontend}
use sozu_gateway.Ir.RouteKey.{Show, SozuRouteKey, sozu_route_key, route_key_eq}
use sozu_gateway.Wire.{Request, RequestType, RequestHttpFrontend}
use sozu_gateway.Wire.RequestType.{
  remove_cluster, add_http_frontend, add_https_frontend, add_http_frontend_with_header_predicates,
  add_https_frontend_with_header_predicates, remove_http_frontend, remove_https_frontend,
  remove_http_frontend_with_header_predicates, remove_https_frontend_with_header_predicates,
}
use sozu_gateway.Translator.Certificates.{Pem}
use sozu_gateway.Translator.Replay.{
  Replay, apply_kind, apply_all, apply_acknowledged, replace_in, set_certificate, set_frontend,
  set_l4, route_key, new_replay, finish, removed_since, names_a_certificate,
}
use sozu_gateway.Translator.Replay.Groups.{wanted}
use sozu_gateway.Translator.Replay.Kept.{Event, put, drop, gone, skip, act, act_removed}
use sozu_gateway.Translator.Replay.Output.{filter-into_objects}
use sozu_gateway.Translator.Replay.Start.{tidy-new, timely-new, kept-new}
use sozu_gateway.Translator.Replay.Fold.{settled_all, event_of, wanted_keyed, all_kept}
use sozu_gateway.Translator.Replay.Tidy.{keyed_event}

-- The frontends under the payload's route key, whatever their cluster.
abbrev pub set_route :
    (SozuRouteKey → Option (List Frontend)) → SozuRouteKey → Event SozuRouteKey Frontend
set_route wants k = put k (wants k)

abbrev pub route_cluster : Frontend → Option Text
route_cluster f = f.cluster_id

module _ (show : Show) (display : RequestHttpFrontend → Text) (pem : Pem) where
  -- What a request does to the HTTP frontends.
  abbrev pub route_event :
      (SozuRouteKey → Option (List Frontend)) → RequestType → Event SozuRouteKey Frontend
  route_event wants (add_http_frontend f) = set_route wants (route_key show display pem false f)
  route_event wants (add_http_frontend_with_header_predicates f) =
      set_route wants (route_key show display pem false f)
  route_event wants (add_https_frontend f) = set_route wants (route_key show display pem true f)
  route_event wants (add_https_frontend_with_header_predicates f) =
      set_route wants (route_key show display pem true f)
  route_event wants (remove_http_frontend f) = drop (route_key show display pem false f)
  route_event wants (remove_http_frontend_with_header_predicates f) =
      drop (route_key show display pem false f)
  route_event wants (remove_https_frontend f) = drop (route_key show display pem true f)
  route_event wants (remove_https_frontend_with_header_predicates f) =
      drop (route_key show display pem true f)
  route_event wants (remove_cluster id) = gone id
  route_event wants _ = skip

  routes_step :
      (step : ℕ) (kind : RequestType) (s : Replay)
      → (apply_kind show display pem step kind s).frontends
        ≡ act step (route_event s.wanted_frontends kind) s.frontends
  unfolding apply_kind set_frontend set_l4 set_certificate replace_in
  routes_step step _ s = ground arith

  routes_removed :
      (step : ℕ) (kind : RequestType) (s : Replay)
      → (apply_kind show display pem step kind s).removed_clusters
        ≡ act_removed step (route_event s.wanted_frontends kind) s.removed_clusters
  unfolding apply_kind set_frontend set_l4 set_certificate replace_in
  routes_removed step _ s = ground arith

  wanted_routes_step :
      (step : ℕ) (kind : RequestType) (s : Replay)
      → (apply_kind show display pem step kind s).wanted_frontends ≡ s.wanted_frontends
  unfolding apply_kind set_frontend set_l4 set_certificate replace_in
  wanted_routes_step step _ s = ground arith

  set_route_keyed :
      (desired : Ir) (k : SozuRouteKey)
      → keyed_event
          (sozu_route_key show)
          (set_route (wanted (sozu_route_key show) desired.frontends) k)
        ≡ true
  set_route_keyed desired k = wanted_keyed (sozu_route_key show) desired.frontends k

  routes_keyed :
      (desired : Ir) (kind : RequestType)
      → keyed_event
          (sozu_route_key show)
          (route_event (wanted (sozu_route_key show) desired.frontends) kind)
        ≡ true
  routes_keyed desired (add_http_frontend f) = set_route_keyed desired _
  routes_keyed desired (add_http_frontend_with_header_predicates f) = set_route_keyed desired _
  routes_keyed desired (add_https_frontend f) = set_route_keyed desired _
  routes_keyed desired (add_https_frontend_with_header_predicates f) = set_route_keyed desired _
  routes_keyed desired _ = ground arith

  -- Under each route key the replayed state holds the frontends that the acknowledged requests
  -- leave one after the other, in order: an add sets those that the desired state has under the
  -- key, if any, a removal drops them whatever their cluster, and the removal of a cluster drops
  -- those that name it.
  pub frontends-apply_acknowledged :
      (previous desired : Ir) (acknowledged : List Request) (k : SozuRouteKey)
      → filter
          (λ f. sozu_route_key show f == k)
          (apply_acknowledged show display pem previous desired acknowledged).frontends
        ≡ settled_all route_cluster
            (event_of (route_event (wanted (sozu_route_key show) desired.frontends)))
            k
            acknowledged
            (filter (λ f. sozu_route_key show f == k) previous.frontends)
  unfolding apply_acknowledged finish new_replay removed_since
  frontends-apply_acknowledged previous desired [] k = refl
  frontends-apply_acknowledged previous desired (r ∷ rs) k =
      let start = new_replay show display pem previous desired (any names_a_certificate (r ∷ rs)) in
      let (neat, held) =
        all_kept show display pem (sozu_route_key show) route_cluster (λ s. s.frontends)
          (λ s. s.wanted_frontends) route_event routes_step routes_removed wanted_routes_step
          (wanted (sozu_route_key show) desired.frontends) (routes_keyed desired) 1 (r ∷ rs) start
          (record {
            same = refl;
            neat = tidy-new (sozu_route_key show) previous.frontends;
            early = timely-new (sozu_route_key show) previous.frontends;
          }) in
      filter-into_objects (sozu_route_key show) route_cluster
        (apply_all show display pem 1 (r ∷ rs) start).removed_clusters
        (apply_all show display pem 1 (r ∷ rs) start).frontends k neat
      ∙ held k
      ∙ ap
          (settled_all route_cluster
            (event_of (route_event (wanted (sozu_route_key show) desired.frontends))) k (r ∷ rs))
          (kept-new (sozu_route_key show) route_cluster previous.frontends k)
