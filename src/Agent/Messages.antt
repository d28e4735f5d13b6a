-- ===== src/Agent/Messages.antt =====
-- What the agent reads in Sōzu's refusals, crates/sozu-agent/src/lib.rs. Sōzu's messages are
-- texts; the positions that the source counts in bytes are counted in code points, which cuts at
-- the same places. The Unicode lower case of a text is a parameter.

pub mod Gone
use sozu_gateway.Prelude.{
  ℕ, zero, suc, ◌+◌, ◌-◌, Bool, true, false, not, ◌&&◌, ◌||◌, Option, none, some, List, [], ◌∷◌,
  ◌++◌, map,
}
use sozu_gateway.Prelude.Tests.{if◌then◌else◌, leb}
use sozu_gateway.Prelude.Eq.{◌==◌, nat_eq, list_eq}
use sozu_gateway.Prelude.Lists.{all, any, length, is_empty, take}
use sozu_gateway.Prelude.Lists.Cut.{drop, span_length}
use sozu_gateway.Prelude.Texts.{Text, codes, to_ascii_lowercase, starts_with, contains_text, trim}
use sozu_gateway.Wire.{Request, RequestType}
use sozu_gateway.Wire.RequestType.{
  add_tcp_listener, add_udp_listener, deactivate_listener, remove_listener, remove_cluster,
  remove_backend, add_http_frontend, add_https_frontend, add_http_frontend_with_header_predicates,
  add_https_frontend_with_header_predicates, remove_http_frontend, remove_https_frontend,
  remove_http_frontend_with_header_predicates, remove_https_frontend_with_header_predicates,
  add_tcp_frontend, remove_tcp_frontend, add_udp_frontend, remove_udp_frontend, remove_certificate,
  replace_certificate,
}

-- A test of the kind of a request.
abbrev pub matches_kind : (RequestType → Bool) → Request → Bool
matches_kind p r = elim r.request_type [ none ↦ false | some kind ↦ p kind ]

unfoldable pub is_teardown_kind : RequestType → Bool
is_teardown_kind (remove_cluster id) = true
is_teardown_kind (remove_backend b) = true
is_teardown_kind (remove_http_frontend f) = true
is_teardown_kind (remove_https_frontend f) = true
is_teardown_kind (remove_http_frontend_with_header_predicates f) = true
is_teardown_kind (remove_https_frontend_with_header_predicates f) = true
is_teardown_kind (remove_tcp_frontend f) = true
is_teardown_kind (remove_udp_frontend f) = true
is_teardown_kind (remove_listener l) = true
is_teardown_kind (remove_certificate c) = true
is_teardown_kind (deactivate_listener l) = true
is_teardown_kind _ = false

unfoldable pub is_teardown : Request → Bool
is_teardown = matches_kind is_teardown_kind

unfoldable pub is_frontend_teardown_kind : RequestType → Bool
is_frontend_teardown_kind (remove_http_frontend f) = true
is_frontend_teardown_kind (remove_https_frontend f) = true
is_frontend_teardown_kind (remove_http_frontend_with_header_predicates f) = true
is_frontend_teardown_kind (remove_https_frontend_with_header_predicates f) = true
is_frontend_teardown_kind (remove_tcp_frontend f) = true
is_frontend_teardown_kind (remove_udp_frontend f) = true
is_frontend_teardown_kind _ = false

unfoldable pub is_frontend_teardown : Request → Bool
is_frontend_teardown = matches_kind is_frontend_teardown_kind

-- The adds that Sōzu refuses as duplicates, by what the message has to say.
unfoldable pub duplicate_needles : RequestType → List Text
duplicate_needles (add_udp_frontend f) =
    codes "already exist" ∷ codes "is already claimed by another frontend" ∷ []
duplicate_needles (add_http_frontend f) = codes "already exist" ∷ []
duplicate_needles (add_https_frontend f) = codes "already exist" ∷ []
duplicate_needles (add_http_frontend_with_header_predicates f) = codes "already exist" ∷ []
duplicate_needles (add_https_frontend_with_header_predicates f) = codes "already exist" ∷ []
duplicate_needles (add_tcp_frontend f) = codes "already exist" ∷ []
duplicate_needles (add_tcp_listener l) = codes "already exist" ∷ []
duplicate_needles (add_udp_listener l) = codes "already exist" ∷ []
duplicate_needles _ = []

unfoldable pub is_duplicate_add : (Text → Text) → Request → Text → Bool
is_duplicate_add to_lowercase r failure_message =
    let message = to_lowercase failure_message in
    matches_kind (λ kind. any (contains_text message) (duplicate_needles kind)) r

unfoldable pub is_ascii_digit : ℕ → Bool
is_ascii_digit c = leb b'0' c && leb c b'9'

-- The length of a worker's label `{id}: ` at the head of a text.
unfoldable pub label_length : Text → Option ℕ
label_length s =
    let digits = span_length is_ascii_digit s in
    if not (digits == 0) && starts_with (drop digits s) (codes ": ")
    then some (digits + 2)
    else none

-- Position `i` is at the start, or after `, `; `before` is what was read, the last first.
unfoldable pub at_boundary : ℕ → Text → Bool
at_boundary i before = i == 0 || starts_with before (b' ' ∷ b',' ∷ [])

-- Each label's start with the start of its body. The loop jumps behind a label: `skip` characters
-- are read and passed over.
unfoldable pub scan : ℕ → ℕ → Text → Text → List (ℕ × ℕ)
unfolding at_boundary label_length
scan skip i before [] = []
scan (suc skip) i before (c ∷ s) = scan skip (suc i) (c ∷ before) s
scan zero i before (c ∷ s) =
    let behind = suc i in
    let plain = scan zero behind (c ∷ before) s in
    elim (label_length (c ∷ s)) [
      | none ↦ plain
      | some n ↦
          let labelled = scan (n - 1) behind (c ∷ before) s in
          if at_boundary i before then (i, i + n) ∷ labelled else plain
    ]

-- `message[body..end].trim()`
unfoldable pub slice : Text → ℕ → ℕ → Text
slice s a b = take (b - a) (drop a s)

unfoldable pub bodies : Text → List (ℕ × ℕ) → List Text
unfolding slice
bodies message [] = []
bodies message ((start, body) ∷ []) = trim (slice message body (length message)) ∷ []
bodies message ((start, body) ∷ (next, b) ∷ rest) =
    trim (slice message body (next - 2)) ∷ bodies message ((next, b) ∷ rest)

unfoldable pub worker_segments : Text → List Text
worker_segments message =
    let starts = scan 0 0 [] message in
    if is_empty starts then message ∷ [] else bodies message starts

unfoldable pub kind_specific : RequestType → List Text
kind_specific (remove_listener l) =
    codes "the listener is not activated"
    ∷ codes "no tcp listener to remove"
    ∷ codes "no udp listener to remove"
    ∷ []
kind_specific (deactivate_listener l) =
    codes "the listener is not activated"
    ∷ codes "no tcp listener to remove"
    ∷ codes "no udp listener to remove"
    ∷ []
kind_specific (remove_http_frontend f) = codes "could not remove route" ∷ []
kind_specific (remove_https_frontend f) = codes "could not remove route" ∷ []
kind_specific (remove_http_frontend_with_header_predicates f) = codes "could not remove route" ∷ []
kind_specific (remove_https_frontend_with_header_predicates f) = codes "could not remove route" ∷ []
kind_specific _ = []

-- A worker no longer holds the object.
unfoldable pub says_gone : List Text → Text → Bool
says_gone needles m =
    contains_text m (codes "did not find")
    || contains_text m (codes "did not bring any change")
    || contains_text m (codes "found no listener")
    || any (contains_text m) needles

-- The loop over the segments stops at the first that is neither `ok` nor gone; the second result
-- is whether one was gone.
unfoldable pub benign : List Text → Bool → List Text → Bool × Bool
benign needles saw_gone [] = (true, saw_gone)
benign needles saw_gone (segment ∷ rest) =
    let m = to_ascii_lowercase segment in
    let gone = says_gone needles m in
    let after_ok = benign needles saw_gone rest in
    let after_gone = benign needles (saw_gone || gone) rest in
    if m == codes "ok" then after_ok else if gone then after_gone else (false, saw_gone || gone)

unfoldable pub is_already_gone : Request → Text → Bool
unfolding benign is_teardown
is_already_gone r failure_message =
    let needles : List Text = elim r.request_type [ none ↦ [] | some kind ↦ kind_specific kind ] in
    if not (is_teardown r)
    then false
    else let (all_benign, saw_gone) = benign needles false (worker_segments failure_message) in
      all_benign && saw_gone

abbrev pub refusal_prefix : Text
refusal_prefix = codes "could not apply request on the main process state:"

unfoldable pub gone_from_main_process : Text → Bool
gone_from_main_process failure_message =
    starts_with (to_ascii_lowercase failure_message) refusal_prefix
    || any (λ segment. to_ascii_lowercase segment == codes "ok") (worker_segments failure_message)

unfoldable pub is_replace_kind : RequestType → Bool
is_replace_kind (replace_certificate r) = true
is_replace_kind _ = false

unfoldable pub is_replace_into_empty_listener : Request → Text → Bool
unfolding is_replace_kind
is_replace_into_empty_listener r failure_message =
    if not (matches_kind is_replace_kind r)
    then false
    else let message = to_ascii_lowercase failure_message in
      starts_with message refusal_prefix && contains_text message (codes "did not find certificate")
