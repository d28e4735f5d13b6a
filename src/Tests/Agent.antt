-- ===== src/Tests/Agent.antt =====
-- Runs of the agent's batches and of its repairs, over a socket that answers.
use sozu_gateway.Prelude.{
  ℕ, ℕ_discrete, zero, suc, ◌+◌, ◌<◌, ◌≤◌, ◌≡◌, ◌∙◌, ap, inr, refl, true, false, ◌&&◌, none, some,
  List, [], ◌∷◌, arith,
}
use sozu_gateway.Prelude.Eq.{list_discrete}
use sozu_gateway.Prelude.Lists.{all, any, length}
use sozu_gateway.Prelude.Results.{Result, ok, err}
use sozu_gateway.Prelude.Texts.{Text, codes, contains_text, to_ascii_lowercase, trim, is_whitespace}
use sozu_gateway.Wire.{Request, wire, Address, RequestTcpFrontend, to_request}
use sozu_gateway.Wire.RequestType.{remove_cluster, status, add_tcp_frontend, remove_tcp_frontend}
use sozu_gateway.Agent.Messages.{
  benign, says_gone, scan, at_boundary, label_length, bodies, slice, is_ascii_digit, kind_specific,
  is_already_gone, is_teardown, is_teardown_kind, is_frontend_teardown_kind, is_frontend_teardown,
  is_duplicate_add, duplicate_needles, is_replace_into_empty_listener, worker_segments,
}
use sozu_gateway.Agent.Messages.Gone.{harmless, kind_needles, lost, is_already_gone-segments}
use sozu_gateway.Agent.Repair.{ListedFrontends, tcp_claim, stored_tcp, stored_kind, stored_removal}
use sozu_gateway.Agent.Repair.Keys.{slot, RemovesThat, removals-slot}
use sozu_gateway.Agent.Channel.{
  failure, Io, Agent, Response, status_ok, status_failure, no_content, receive, refusal_of,
  send_with_retry,
}
use sozu_gateway.Agent.Channel.Steps.{IsPaired, IsInStep, is_terminal, send_with_retry-IsInStep}
use sozu_gateway.Agent.Channel.Deadline.{receive-enough}
use sozu_gateway.Agent.Settle.{Library, settle_refusal}
use sozu_gateway.Agent.Apply.{
  ApplyError, start, deliver, replayable_of, apply_from, apply_tracked, apply_unless,
}
use sozu_gateway.Agent.Apply.Counts.{apply_unless-bounds}
use sozu_gateway.Agent.Apply.Stops.{Ended, apply_from-Ended}
use sozu_gateway.Agent.Apply.Completes.{IsUp, apply_unless-ok}
use sozu_gateway.Tests.Samples.{address, verbs, display}

abbrev said : Text → Response
said m = record { response_status = status_ok; message = m; content = no_content }

abbrev refused : Text → Response
refused m = record { response_status = status_failure; message = m; content = no_content }

-- The world counts the reads: its clock ticks with each.
abbrev socket : (ℕ → Response) → Io
socket reply = record {
  World = ℕ;
  connect = λ w. (ok tt, w);
  write_message = λ q w. (ok tt, w);
  read_message = λ wait w. (ok (reply w), suc w);
  now = λ w. w;
  sleep = λ time w. w + time;
  is_abandoned = λ w. false;
}

-- Everything is applied.
abbrev willing : Io
willing = socket (λ w. said (codes "done"))

-- The second request is refused.
abbrev second_refused : ℕ → Response
second_refused zero = said (codes "done")
second_refused (suc w) = refused (codes "no such cluster")

abbrev unwilling : Io
unwilling = socket second_refused

abbrev lib : Library
lib = record { verbs = verbs; display = display; to_lowercase = λ t. t }

abbrev fresh : (io : Io) → io.World → Agent io
fresh io w = record { world = w; connected = false; reconnects = 0; read_timeout = 20 }

abbrev batch : List Request
batch = to_request (remove_cluster (codes "a")) ∷ to_request status ∷ to_request status ∷ []

willing-IsUp : IsUp willing
unfolding contains_text to_ascii_lowercase ℕ_discrete
willing-IsUp = record {
  opens = λ w. refl;
  accepts = λ q w. refl;
  reply = λ wait w. said (codes "done");
  replies = λ wait w. refl;
  applies = λ wait w. record { is_ok = refl; removed_something = refl };
  stays = λ w. refl;
}

apply_unless-ok_example : (apply_unless willing lib batch (fresh willing 0)).0 ≡ ok tt
apply_unless-ok_example =
    apply_unless-ok willing lib willing-IsUp batch (fresh willing 0) (omega arith)

abbrev reported : ApplyError
reported = record { applied = 1; replayable = 1; cause = failure (codes "no such cluster") }

unwilling_run : (apply_unless unwilling lib batch (fresh unwilling 0)).0 ≡ err reported
unfolding apply_unless apply_tracked apply_from deliver send_with_retry settle_refusal refusal_of
    is_already_gone is_duplicate_add duplicate_needles is_replace_into_empty_listener
    is_frontend_teardown is_teardown replayable_of ℕ_discrete is_frontend_teardown_kind
    is_teardown_kind
unwilling_run = refl

apply_unless-bounds_example :
    (reported.applied < length batch) × (reported.replayable ≤ reported.applied)
apply_unless-bounds_example =
    apply_unless-bounds unwilling lib batch (fresh unwilling 0) reported unwilling_run

apply_from-Ended_example :
    Ended unwilling lib 3 0 batch start
      (fresh unwilling 0)
      (apply_from unwilling lib 0 3 batch start (fresh unwilling 0))
apply_from-Ended_example = apply_from-Ended unwilling lib 3 0 batch start (fresh unwilling 0)

receive-enough_example :
    receive willing 9 7 (fresh willing 4) ≡ receive willing 5 7 (fresh willing 4)
receive-enough_example =
    receive-enough willing (λ wait w. omega arith) 9 5 7 (fresh willing 4) (omega arith)
      (omega arith)

-- A socket whose world is the count of the replies to come.
abbrev reply_of : ℕ → Result Text Response × ℕ
reply_of zero = (err (codes "nothing to read"), zero)
reply_of (suc w) = (ok (said (codes "done")), w)

abbrev ordered : Io
ordered = record {
  World = ℕ;
  connect = λ w. (ok tt, zero);
  write_message = λ q w. (ok tt, suc w);
  read_message = λ wait w. reply_of w;
  now = λ w. 0;
  sleep = λ time w. w;
  is_abandoned = λ w. false;
}

one_less :
    (w : ℕ) (r : Response)
    → (reply_of w).0 ≡ ok r
    → is_terminal r.response_status ≡ true
    → suc (reply_of w).1 ≡ w
one_less zero r e t = cc
one_less (suc w) r e t = refl

never_progress :
    (w : ℕ) (r : Response)
    → (reply_of w).0 ≡ ok r
    → is_terminal r.response_status ≡ false
    → (reply_of w).1 ≡ w
never_progress zero r e t = cc
never_progress (suc w) r e t =
    let same : said (codes "done") ≡ r = cc in
    let final : is_terminal (said (codes "done")).response_status ≡ false =
      ap (λ (x : Response). is_terminal x.response_status) same ∙ t in
    cc

ordered-IsPaired : IsPaired ordered
ordered-IsPaired = record {
  outstanding = λ w. w;
  opens = λ w e. refl;
  asks = λ q w e. refl;
  answers = λ wait w. one_less w;
  progresses = λ wait w. never_progress w;
}

send_with_retry-IsInStep_example :
    IsInStep ordered ordered-IsPaired
      (send_with_retry ordered (to_request status) (fresh ordered 3)).1
send_with_retry-IsInStep_example =
    send_with_retry-IsInStep ordered ordered-IsPaired (to_request status) (fresh ordered 3)
      (λ c. cc)

abbrev removal : Request
removal = to_request (remove_cluster (codes "a"))

abbrev two_workers : Text
two_workers = codes "0: Ok, 1: did not find it"

already_gone_run : is_already_gone removal two_workers ≡ true
unfolding is_already_gone benign says_gone worker_segments scan at_boundary label_length bodies
    slice is_ascii_digit kind_specific is_teardown is_teardown_kind contains_text to_ascii_lowercase
    trim ℕ_discrete list_discrete is_whitespace
already_gone_run = refl

is_already_gone-segments_example :
    is_already_gone removal two_workers
    ≡ is_teardown removal
      && (all (harmless (kind_needles removal)) (worker_segments two_workers)
          && any (lost (kind_needles removal)) (worker_segments two_workers))
is_already_gone-segments_example = is_already_gone-segments removal two_workers

abbrev mail : Address
mail = wire (address 25)

abbrev route : Text → RequestTcpFrontend
route cluster_id = record { cluster_id = cluster_id; address = mail; sni = none; alpn = [] }

-- Sōzu holds the route for another cluster.
abbrev listed : ListedFrontends
listed = record {
  http_frontends = [];
  https_frontends = [];
  tcp_frontends = route (codes "old") ∷ [];
  udp_frontends = [];
}

verbs-RemovesThat : RemovesThat display verbs
verbs-RemovesThat = record { http = λ f. refl; https = λ f. refl }

stored_removal_run :
    stored_removal verbs display (to_request (add_tcp_frontend (route (codes "new")))) listed
    ≡ some (to_request (remove_tcp_frontend (route (codes "old"))))
unfolding stored_removal stored_kind stored_tcp tcp_claim
stored_removal_run = ground arith

removals-slot_example :
    slot display (to_request (remove_tcp_frontend (route (codes "old"))))
    ≡ slot display (to_request (add_tcp_frontend (route (codes "new"))))
removals-slot_example =
    removals-slot verbs display verbs-RemovesThat
      (to_request (add_tcp_frontend (route (codes "new"))))
      (to_request (remove_tcp_frontend (route (codes "old")))) listed (inr stored_removal_run)
