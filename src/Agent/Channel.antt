-- ===== src/Agent/Channel.antt =====
-- One request over the command socket, crates/sozu-agent/src/lib.rs: `send_one`, `channel_mut` and
-- `send_with_retry`. The socket and the clock are parameters, with the world they act on; their
-- errors are texts.
pub mod Steps
pub mod Deadline
use sozu_gateway.Prelude.{
  ℕ, zero, suc, ◌+◌, ◌-◌, ◌*◌, Bool, true, false, not, Option, none, some, List, [], ◌∷◌, ◌++◌, map,
}
use Prim.Native.Nat.{◌%◌, ◌^◌}
use sozu_gateway.Prelude.Tests.{if◌then◌else◌}
use sozu_gateway.Prelude.Eq.{◌==◌, nat_eq}
use sozu_gateway.Prelude.Lists.{filter}
use sozu_gateway.Prelude.Order.{nat_order}
use sozu_gateway.Prelude.Order.Sets.{to_set}
use sozu_gateway.Prelude.Results.{Result, ok, err}
use sozu_gateway.Prelude.Texts.{Text, codes}
use sozu_gateway.Wire.{Request, to_request}
use sozu_gateway.Wire.RequestType.{status}
use sozu_gateway.Agent.Repair.{ListedFrontends}

pub data SozuError : Type 0 where
  channel : Text → SozuError
  failure : Text → SozuError
  unexpected_response : SozuError
  worker_gone : SozuError
  abandoned : ℕ → ℕ → SozuError

-- The message of a refusal; any other error is none.
unfoldable pub refusal_of : SozuError → Option Text
refusal_of (failure m) = some m
refusal_of _ = none

pub data ResponseStatus : Type 0 where
  status_ok : ResponseStatus
  status_processing : ResponseStatus
  status_failure : ResponseStatus

pub record WorkerInfo : Type 0 where
  pub pid : ℕ
  pub stopped : Bool

pub data Content : Type 0 where
  frontend_list : ListedFrontends → Content
  workers : List WorkerInfo → Content
  metrics : Text → Content
  no_content : Content

pub record Response : Type 0 where
  pub response_status : ResponseStatus
  pub message : Text
  pub content : Content

-- The operating system: the socket, the clock, and the caller that waits.
pub record Io : Type 1 where
  pub World : Type 0
  -- `SozuAgent::connect` up to its stored channel
  pub connect : World → Result Text (Unit {0}) × World
  pub write_message : Request → World → Result Text (Unit {0}) × World
  -- a read that waits so long at most
  pub read_message : ℕ → World → Result Text Response × World
  pub now : World → ℕ
  pub sleep : ℕ → World → World
  pub is_abandoned : World → Bool

abbrev pub default_read_timeout : ℕ
default_read_timeout = 20 * 1000000000

abbrev pub reconnect_backoff : ℕ
reconnect_backoff = 200 * 1000000

module _ (io : Io) where
  open io use {World, connect, write_message, read_message, now, sleep, is_abandoned}

  -- `SozuAgent`: whether the channel is held, and the count of reconnects, an `AtomicU64`.
  pub record Agent : Type 0 where
    pub world : World
    pub connected : Bool
    pub reconnects : ℕ
    pub read_timeout : ℕ

  abbrev pub Action : Type 0 → Type 0
  Action A = Agent → Result SozuError A × Agent

  -- A step of the world, with its error as a channel error.
  abbrev pub channel_step : {A : Type 0} → Text → (World → Result Text A × World) → Action A
  channel_step what step s =
      let (r, w) = step s.world in
      (elim r [ ok a ↦ ok a | err e ↦ err (channel (what ++ e)) ], record s { world = w })

  -- `channel_mut`: connects where no channel is held.
  unfoldable pub channel_mut : Action (Unit {0})
  channel_mut s =
      if s.connected
      then (ok tt, s)
      else let (r, opened) = channel_step [] connect s in
        elim r [ ok u ↦ (ok tt, record opened { connected = true }) | err e ↦ (err e, opened) ]

  abbrev timed_out : SozuError
  timed_out = channel (codes "timed out waiting for a terminal response")

  -- The replies up to the terminal one, before a deadline. Each round waits for what is left, so
  -- that as many rounds as time units are enough where a read takes time.
  unfoldable pub receive : ℕ → ℕ → Action Response
  receive zero deadline s = (err timed_out, s)
  receive (suc rounds) deadline s =
      let remaining : ℕ = deadline - now s.world in
      let (r, heard) = channel_step (codes "read: ") (read_message remaining) s in
      let more = receive rounds deadline heard in
      if remaining == 0 then (err timed_out, s) else elim r [
        | err e ↦ (err e, heard)
        | ok response ↦ elim response.response_status [
          | status_processing ↦ more
          | status_ok ↦ (ok response, heard)
          | status_failure ↦ (err (failure response.message), heard)
        ]
      ]

  unfoldable pub send_one : Request → Action Response
  unfolding receive
  send_one request s =
      let (r, sent) = channel_step (codes "write: ") (write_message request) s in
      elim r [
        | err e ↦ (err e, sent)
        | ok u ↦ receive (suc sent.read_timeout) (now sent.world + sent.read_timeout) sent
      ]

  -- Sōzu's own answer, which leaves the channel in step.
  unfoldable pub is_answer : {A : Type 0} → Result SozuError A → Bool
  is_answer (ok a) = true
  is_answer (err (failure m)) = true
  is_answer (err _) = false

  -- `AtomicU64::fetch_add(1)`
  abbrev pub count_reconnect : ℕ → ℕ
  count_reconnect n = (n + 1) % 2 ^ 64

  -- The channel is dropped, and the request sent once more over a new one.
  unfoldable pub reconnect_and_retry : Request → Action Response
  unfolding channel_mut send_one is_answer
  reconnect_and_retry request s =
      let dropped : Agent = record s {
        connected = false;
        reconnects = count_reconnect s.reconnects;
        world = sleep reconnect_backoff s.world;
      } in
      let (r, opened) = channel_mut dropped in
      elim r [
        | err e ↦ (err e, opened)
        | ok u ↦
            let (retry, after) = send_one request opened in
            (retry, if is_answer retry then after else record after { connected = false })
      ]

  unfoldable pub send_with_retry : Request → Action Response
  unfolding channel_mut send_one is_answer reconnect_and_retry
  send_with_retry request s =
      let (r, opened) = channel_mut s in
      elim r [
        | err e ↦ (err e, opened)
        | ok u ↦
            let (first, after) = send_one request opened in
            if is_answer first then (first, after) else reconnect_and_retry request after
      ]

  unfoldable pub apply_one : Request → Action (Unit {0})
  apply_one request s =
      let (r, after) = send_with_retry request s in
      (elim r [ ok response ↦ ok tt | err e ↦ err e ], after)

  unfoldable pub worker_pids_of : Response → Result SozuError (List ℕ)
  worker_pids_of response = elim response.content [
    | workers infos ↦ ok (
        to_set (map (λ (i : WorkerInfo). i.pid) (filter (λ (i : WorkerInfo). not i.stopped) infos)))
    | frontend_list l ↦ err unexpected_response
    | metrics m ↦ err unexpected_response
    | no_content ↦ err unexpected_response
  ]

  unfoldable pub worker_pids : Action (List ℕ)
  worker_pids s =
      let (r, after) = send_with_retry (to_request status) s in
      (elim r [ ok response ↦ worker_pids_of response | err e ↦ err e ], after)
