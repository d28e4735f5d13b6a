-- ===== src/Lib.antt =====
-- Models and proofs of the sozu-gateway controller: from watched Kubernetes objects to the
-- configuration requests that a Sōzu data plane is sent.
--
-- The program builds an intermediate representation (the IR) of the wanted state, translates the
-- difference between the IR that was applied and the wanted one into a batch of requests, and sends
-- the batch; where a batch fails part-way, it replays the acknowledged requests onto the applied IR.
--
-- Files and code:
--   Ir, Ir/Rule, Ir/Headers, Ir/RouteKey: the types of crates/ir/src/lib.rs, sozu_rule and
--     regex_escape, HeaderMatch::canonical, and Frontend::sozu_route_key. Ir/Rule/Decode reads a
--     rule back, as an independent description, and Ir/RouteKey/Spelled a route key.
--   Wire: the request types of sozu-command-lib that the translator builds, field by field, with
--     the requests it only orders or refuses.
--   Translator: crates/translator/src/lib.rs. Payloads builds each request (cluster_request,
--     backend_request, frontend_payload, apply_filters and the certificate requests). Layer4 has the
--     layer-4 listeners and frontends, Layer4/Conflicts check_l4_conflicts. Frontends has
--     unique_frontends and http_frontend_requests. Tiers has tier, CertRank and canonicalize_ranked.
--     References has check_cluster_references. Removals has expand_cluster_removals and
--     drop_superseded_backend_removes. Certificates has keyed_certs and served_chain,
--     Certificates/Diff certificate_requests, Certificates/Transfer transfer_order, and
--     Certificates/Components strongly_connected. Reconcile has routing_state,
--     ir_to_requests and reconcile.
--   Translator/Replay: crates/translator/src/replay.rs. Groups is Keyed and Group; the parent file
--     is Replay with new, apply and finish, and apply_acknowledged. Exact has simulate, settle,
--     evict, comparable and replay_if_exact. The other files below it state what each request
--     does to one kind of object, for the theorems about the replay.
--   Agent: crates/sozu-agent/src/lib.rs. Messages has the tests of a refusal (is_teardown,
--     is_duplicate_add, worker_segments, is_already_gone, gone_from_main_process,
--     is_replace_into_empty_listener), Repair the requests it is repaired with (addition_for,
--     removal_for, owner_query, stored_removal), Channel one exchange (channel_mut, send_one,
--     send_with_retry), Settle the repairs (key_holder, evict_stale_holder, add_replacement and
--     the arms of apply_tracked), and Apply the batch (apply_tracked, apply_unless).
--     Generation has SocketIdentity and SozuGeneration.
--   Controller/Shadow: crates/controller/src/shadow.rs. The parent has load_initial, persist,
--     check_restart_generation and replay_acknowledged; the files below it state what a check proves
--     (Proven), what the file holds (File), the diff from a reloaded shadow (Redacted) and the
--     shadow after a failed batch (Replayed).
--   Controller/Scope: crates/controller/src/scope.rs, GatewayId and GatewayScope.
--   Builder: crates/builder/src. Selector is selector.rs. Gateway has wildcard_covers,
--     host_intersection, effective_hostnames and reference_granted of gateway.rs. Routes has
--     paths_meet, can_meet, gw_precedence and outranks of lib.rs, Routes/Collisions
--     resolve_frontend_collisions with its claims, Certificates arbitrate_certificate_names without
--     the grouping of its reports and merge_certificates, Ports the exposed ports of a BuildConfig,
--     and Admission path_match, admit_path and tls_covers.
--   Prelude: lists, sorting, sets, results, texts and decidable equality for all of them.
--   Tests: runs at fixed inputs, and each theorem at sample states.
--
-- A String is a list of code points, a SocketAddr a record, a u16 or u64 a natural number (the
-- modelled code does no arithmetic on them). A BTreeSet is a strictly ascending list, a BTreeMap a
-- list of entries or a function of the key where it is only read, and BTreeMap order is modelled
-- where the output depends on it. sort_by_key is a stable insertion sort.
--
-- Taken as parameters, since their code is not in the repository: the configuration state of
-- sozu-command-lib with its dispatch, diff and cluster_removal_requests, its certificate functions,
-- the Display of an address and of a frontend payload, the JSON encoding of a request, and the
-- quoting of strings.
--
-- strongly_connected is iterative in the code; the model bounds its steps by fuel computed from the
-- graph: a step follows one edge or leaves a node, and each is done once, so that the count of edges
-- and nodes is enough (Certificates/Components/Fuel). The drain of the ready components in
-- transfer_order takes one component a round, so its fuel is the count of components.
--
-- The agent reads replies until one is terminal or the deadline has passed. A round waits for the time
-- that is left, so that the model's rounds, one more than the timeout in nanoseconds, are enough
-- (Agent/Channel/Deadline). The clock moves only where the world does, so that the deadline and the
-- first check of it read one time.
--
-- Not modelled: the thread and the queue of the agent (SozuAgentHandle) and its probes, the rest of
-- the builder, the rest of the controller, which watches and writes Kubernetes
-- objects, the Prometheus encoding, and the generated Gateway API types.
pub mod Agent
pub mod Builder
pub mod Controller
pub mod Ir
pub mod Prelude
pub mod Tests
pub mod Translator
pub mod Wire
