-- ===== src/Tests/Exact.antt =====
-- The replay after a failed batch, over a configuration state that takes every request.
use sozu_gateway.Prelude.{ℕ, ℕ_discrete, ◌≡◌, refl, true, some, List, [], ◌∷◌}
use sozu_gateway.Prelude.Results.{ok}
use sozu_gateway.Ir.{Ir}
use sozu_gateway.Wire.{RequestHttpFrontend, not_found, to_request}
use sozu_gateway.Wire.RequestType.{remove_cluster, status}
use sozu_gateway.Prelude.Order.Sort.{sort_by}
use sozu_gateway.Translator.Layer4.{unique_l4_frontends, l4_listener_adds}
use sozu_gateway.Translator.Layer4.Conflicts.{check_l4_conflicts}
use sozu_gateway.Translator.Tiers.{canonicalize}
use sozu_gateway.Translator.Payloads.{cluster_requests}
use sozu_gateway.Translator.Frontends.{http_frontend_requests}
use sozu_gateway.Translator.Reconcile.{Sozu, routing_state, routing_requests}
use sozu_gateway.Translator.Replay.Groups.{into_objects, new}
use sozu_gateway.Translator.Replay.{names_a_certificate, apply, apply_kind, apply_acknowledged}
use sozu_gateway.Translator.Replay.Exact.{
  ConfigFields, Field, settle_refused, settle_gone, is_teardown, evict, settle, replay_if_exact,
}
use sozu_gateway.Translator.Replay.Exact.Explained.{
  IsExact, replay_if_exact-IsExact, IsSettled, settle_refused-IsSettled,
}
use sozu_gateway.Controller.Shadow.{replay_acknowledged}
use sozu_gateway.Controller.Shadow.Replayed.{Moves, replay_acknowledged-Moves}
use sozu_gateway.Tests.Shadow.{disk, shadow, file, no_files}
use sozu_gateway.Tests.Samples.{empty, sozu}

-- The state is the count of the clusters that were removed.
abbrev counting : Sozu
counting = record sozu {
  State = ℕ;
  initial = 0;
  apply = λ s r. ok s;
  diff = λ s t. [];
  cluster_removal_requests = λ s id. [];
}

abbrev nothing_held : {A : Type 0} → Field ℕ (List A)
nothing_held = record { get = λ s. []; put = λ held s. s }

abbrev fields : ConfigFields ℕ
fields = record {
  HttpFrontend = RequestHttpFrontend;
  Backend = ℕ;
  http_fronts = nothing_held;
  https_fronts = nothing_held;
  backends = nothing_held;
  tcp_fronts = nothing_held;
  udp_fronts = nothing_held;
  clear_request_counts = λ s. s;
  backend_json = λ b. b ∷ [];
  tcp_json = λ f. f.rest;
  udp_json = λ f. f.rest;
  state_eq = record { dec = ℕ_discrete };
}

abbrev replayed : Ir
replayed =
    apply_acknowledged counting.show counting.display counting.pem empty empty
      (to_request status ∷ [])

replay_if_exact_run :
    replay_if_exact counting fields empty empty (to_request status ∷ []) ≡ some replayed
unfolding replay_if_exact routing_state check_l4_conflicts unique_l4_frontends canonicalize sort_by
    routing_requests cluster_requests http_frontend_requests l4_listener_adds names_a_certificate
    settle apply_acknowledged into_objects apply apply_kind new ℕ_discrete
replay_if_exact_run = refl

replay_if_exact-IsExact_example :
    IsExact counting fields empty empty (to_request status ∷ []) replayed
replay_if_exact-IsExact_example =
    replay_if_exact-IsExact counting fields empty empty replayed (to_request status) []
      replay_if_exact_run

-- A teardown of what is not there.
gone_run :
    settle_refused counting fields 0
      (to_request (remove_cluster []))
      (remove_cluster [])
      (not_found [])
    ≡ (0, true)
unfolding settle_refused settle_gone is_teardown evict
gone_run = refl

settle_refused-IsSettled_example :
    IsSettled counting fields 0
      (to_request (remove_cluster []))
      0
      (remove_cluster [])
      (not_found [])
settle_refused-IsSettled_example =
    settle_refused-IsSettled counting fields 0 0 (to_request (remove_cluster []))
      (remove_cluster []) (not_found []) gone_run

replay_acknowledged-Moves_example :
    Moves disk counting fields file shadow empty
      (to_request status ∷ to_request status ∷ [])
      1
      no_files
      (replay_acknowledged disk counting fields file shadow empty
        (to_request status ∷ to_request status ∷ [])
        1
        no_files)
replay_acknowledged-Moves_example =
    replay_acknowledged-Moves disk counting fields file shadow empty
      (to_request status ∷ to_request status ∷ []) 1 no_files
