-- ===== src/Agent/Apply.antt =====
-- A batch over the command socket, crates/sozu-agent/src/lib.rs: `apply_tracked` with its repairs,
-- and `apply_unless`, which reports how far a failed batch got.
pub mod Counts
pub mod Stops
pub mod Completes
use Prim.Native.Nat.{min}
use sozu_gateway.Prelude.{
  ℕ, zero, suc, ◌+◌, Bool, true, false, not, ◌&&◌, ◌||◌, Option, none, some, List, [], ◌∷◌, ◌++◌,
}
use sozu_gateway.Prelude.Tests.{if◌then◌else◌}
use sozu_gateway.Prelude.Eq.{◌==◌}
use sozu_gateway.Prelude.Lists.{length}
use sozu_gateway.Prelude.Results.{Result, ok, err}
use sozu_gateway.Prelude.Texts.{Text, codes, to_ascii_lowercase, contains_text}
use sozu_gateway.Wire.{
  Request, RequestType, RequestHttpFrontend, ReplaceCertificate, Verbs, to_request, request_eq,
}
use sozu_gateway.Wire.RequestType.{replace_certificate}
use sozu_gateway.Agent.Messages.{
  is_frontend_teardown, is_duplicate_add, is_already_gone, gone_from_main_process,
  is_replace_into_empty_listener,
}
use sozu_gateway.Agent.Repair.{addition_for, removal_for, owner_query, stored_removal}
use sozu_gateway.Agent.Channel.{
  SozuError, channel, failure, unexpected_response, worker_gone, abandoned, Io, Agent, Action,
  Response, frontend_list, workers, metrics, no_content, send_with_retry, apply_one, refusal_of,
}
use sozu_gateway.Agent.Settle.{
  Library, Eviction, is_left, proof_of, evict_stale_holder, settle_refusal,
}

pub record Progress : Type 0 where
  pub acknowledged : ℕ
  pub unproven : Option ℕ

pub record ApplyError : Type 0 where
  pub applied : ℕ
  pub replayable : ℕ
  pub cause : SozuError

abbrev pub start : Progress
start = record { acknowledged = 0; unproven = none }

-- Only the first index is kept.
unfoldable pub mark_unproven : ℕ → Progress → Progress
mark_unproven index p = record p {
  unproven = elim p.unproven [ none ↦ some index | some first ↦ some first ];
}

abbrev pub note : ℕ → Bool → Progress → Progress
note applied proven p = record (if proven then p else mark_unproven applied p) {
  acknowledged = suc applied;
}

unfoldable pub replayable_of : Progress → ℕ
replayable_of p = elim p.unproven [ none ↦ p.acknowledged | some at ↦ min at p.acknowledged ]

module _ (io : Io) (lib : Library) where
  -- One request of the batch: whether its effect on the main process is established.
  unfoldable pub deliver : ℕ → ℕ → Request → Action io Bool
  unfolding is_left
  deliver applied total request s =
      let (r, after) = send_with_retry io request s in
      elim r [
        | ok response ↦
            if is_frontend_teardown request
              && contains_text (to_ascii_lowercase response.message) (codes "nothing to remove")
            then proof_of io lib (λ v. not (is_left v))
                (evict_stale_holder io lib request response.message applied total after)
            else (ok true, after)
        | err e ↦ elim (refusal_of e) [
          | some msg ↦ settle_refusal io lib applied total request msg after
          | none ↦ (err e, after)
        ]
      ]

  -- The loop, from the request at `applied`.
  unfoldable pub apply_from :
      ℕ
      → ℕ
      → List Request
      → Progress
      → Agent io
      → Result SozuError (Unit {0}) × (Progress × Agent io)
  apply_from applied total [] p s = (ok tt, (p, s))
  apply_from applied total (request ∷ requests) p s =
      if io.is_abandoned s.world
      then (err (abandoned applied total), (p, s))
      else let (r, after) = deliver applied total request s in
        elim r [
          | err e ↦ (err e, (p, after))
          | ok proven ↦ apply_from (suc applied) total requests (note applied proven p) after
        ]

  unfoldable pub apply_tracked :
      List Request → Agent io → Result SozuError (Unit {0}) × (Progress × Agent io)
  unfolding apply_from
  apply_tracked requests = apply_from 0 (length requests) requests start

  unfoldable pub apply_unless : List Request → Agent io → Result ApplyError (Unit {0}) × Agent io
  unfolding apply_tracked replayable_of
  apply_unless requests s =
      let (r, reached) = apply_tracked requests s in
      let (p, after) = reached in
      (
        elim r [
          | ok u ↦ ok tt
          | err cause ↦
              err (record { applied = p.acknowledged; replayable = replayable_of p; cause = cause })
        ],
        after,
      )
