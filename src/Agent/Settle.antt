-- ===== src/Agent/Settle.antt =====
-- The refusals that the agent settles, crates/sozu-agent/src/lib.rs: `key_holder`,
-- `evict_stale_holder`, `add_replacement` and the repair of a duplicate add.
use sozu_gateway.Prelude.{ℕ, Bool, true, false, not, ◌&&◌, Option, none, some, ◌++◌}
use sozu_gateway.Prelude.Tests.{if◌then◌else◌}
use sozu_gateway.Prelude.Eq.{◌==◌}
use sozu_gateway.Prelude.Results.{Result, ok, err}
use sozu_gateway.Prelude.Texts.{Text, codes}
use sozu_gateway.Wire.{
  Request, RequestType, RequestHttpFrontend, ReplaceCertificate, Verbs, request_eq,
}
use sozu_gateway.Wire.RequestType.{replace_certificate}
use sozu_gateway.Agent.Messages.{
  is_frontend_teardown, is_duplicate_add, is_already_gone, gone_from_main_process,
  is_replace_into_empty_listener,
}
use sozu_gateway.Agent.Repair.{addition_for, removal_for, owner_query, stored_removal}
use sozu_gateway.Agent.Channel.{
  SozuError, failure, abandoned, Io, Agent, Action, frontend_list, workers, metrics, no_content,
  send_with_retry, apply_one, refusal_of,
}

-- What Sōzu's command library does with a frontend and with a text.
pub record Library : Type 0 where
  pub verbs : Verbs
  pub display : RequestHttpFrontend → Text
  pub to_lowercase : Text → Text

pub data Holder : Type 0 where
  stored : Request → Holder
  nothing_held : Holder
  unknown_holder : Holder

pub data Eviction : Type 0 where
  removed : Eviction
  nothing_there : Eviction
  left : Eviction

unfoldable pub is_left : Eviction → Bool
is_left left = true
is_left removed = false
is_left nothing_there = false

unfoldable pub replacement_of : RequestType → Option ReplaceCertificate
replacement_of (replace_certificate r) = some r
replacement_of _ = none

unfoldable pub replacement : Request → Option ReplaceCertificate
unfolding replacement_of
replacement request = elim request.request_type [ none ↦ none | some kind ↦ replacement_of kind ]

unfoldable pub holder_or : Request → Holder → Request
holder_or own (stored held) = held
holder_or own nothing_held = own
holder_or own unknown_holder = own

abbrev pub both_refused : Text → Text → Text
both_refused refusal add_refusal =
    refusal
    ++ codes " (and adding the replacement certificate instead failed: "
    ++ add_refusal
    ++ codes ")"

abbrev pub unlisted : Text → Text
unlisted answer =
    answer
    ++ codes
        " (and the frontends holding this key could not be listed to tell whether it still routes)"

module _ (io : Io) (lib : Library) where
  -- A listing that could not be read is `unknown_holder`; an error of the channel is returned.
  unfoldable pub key_holder : Request → Action io Holder
  key_holder request s = elim (owner_query request) [
    | none ↦ (ok unknown_holder, s)
    | some query ↦
        let (r, after) = send_with_retry io query s in
        elim r [
          | ok response ↦ elim response.content [
            | frontend_list listed ↦ elim (stored_removal lib.verbs lib.display request listed) [
              | none ↦ (ok nothing_held, after)
              | some held ↦ (ok (stored held), after)
            ]
            | workers infos ↦ (ok unknown_holder, after)
            | metrics m ↦ (ok unknown_holder, after)
            | no_content ↦ (ok unknown_holder, after)
          ]
          | err e ↦ elim (refusal_of e) [
            | some m ↦ (ok unknown_holder, after)
            | none ↦ (err e, after)
          ]
        ]
  ]

  abbrev stop : {A : Type 0} → ℕ → ℕ → Agent io → Result SozuError A × Agent io
  stop applied total s = (err (abandoned applied total), s)

  -- The stored route of another cluster is removed. A removal that is refused as already gone
  -- leaves a route that no worker serves.
  unfoldable pub evict : Request → Action io Eviction
  evict held s =
      let (r, after) = apply_one io held s in
      elim r [
        | ok u ↦ (ok removed, after)
        | err e ↦ elim (refusal_of e) [
          | some refusal ↦ if is_already_gone held refusal then (ok left, after) else (err e, after)
          | none ↦ (err e, after)
        ]
      ]

  unfoldable pub evict_stale_holder : Request → Text → ℕ → ℕ → Action io Eviction
  unfolding key_holder evict
  evict_stale_holder request answer applied total s =
      let (r, after) = key_holder request s in
      elim r [
        | err e ↦ (err e, after)
        | ok holder ↦ elim holder [
          | stored held ↦
              if held == request
              then (ok left, after)
              else if io.is_abandoned after.world
              then stop applied total after
              else evict held after
          | unknown_holder ↦ (err (failure (unlisted answer)), after)
          | nothing_held ↦ (ok nothing_there, after)
        ]
      ]

  unfoldable pub add_replacement : Request → Text → ℕ → ℕ → Action io (Unit {0})
  unfolding replacement
  add_replacement request refusal applied total s = elim (replacement request) [
    | none ↦ (err (failure refusal), s)
    | some replace ↦
        if io.is_abandoned s.world
        then stop applied total s
        else let (r, after) = apply_one io (addition_for replace) s in
          elim r [
            | ok u ↦ (ok tt, after)
            | err e ↦ elim (refusal_of e) [
              | some add_refusal ↦ (err (failure (both_refused refusal add_refusal)), after)
              | none ↦ (err e, after)
            ]
          ]
  ]

  -- The entry that holds the key is removed, whatever Sōzu says of it, and the add sent again.
  unfoldable pub re_add : Request → Request → Action io (Unit {0})
  re_add request remove s =
      let (r, after) = apply_one io remove s in
      elim r [
        | ok u ↦ apply_one io request after
        | err e ↦ elim (refusal_of e) [
          | some refusal ↦ apply_one io request after
          | none ↦ (err e, after)
        ]
      ]

  -- A duplicate frontend add is repaired; a duplicate listener add is settled.
  unfoldable pub repair_duplicate : Request → ℕ → ℕ → Action io (Unit {0})
  unfolding key_holder re_add holder_or
  repair_duplicate request applied total s = elim (removal_for lib.verbs lib.display request) [
    | none ↦ (ok tt, s)
    | some own ↦
        let (r, found) = key_holder request s in
        elim r [
          | err e ↦ (err e, found)
          | ok holder ↦
              if io.is_abandoned found.world
              then stop applied total found
              else re_add request (holder_or own holder) found
        ]
  ]

  -- Whether a settled teardown proves that the main process holds nothing.
  abbrev pub proof_of :
      (Eviction → Bool) → Result SozuError Eviction × Agent io → Result SozuError Bool × Agent io
  proof_of p (ok eviction, s) = (ok (p eviction), s)
  proof_of p (err e, s) = (err e, s)

  abbrev pub settled :
      Bool → Result SozuError (Unit {0}) × Agent io → Result SozuError Bool × Agent io
  settled proven (ok u, s) = (ok proven, s)
  settled proven (err e, s) = (err e, s)

  -- A refusal that the agent settles, or returns.
  unfoldable pub settle_refusal : ℕ → ℕ → Request → Text → Action io Bool
  unfolding is_left
  settle_refusal applied total request msg s =
      if is_already_gone request msg
      then (if is_frontend_teardown request
          then proof_of (λ v. not (is_left v) && gone_from_main_process msg)
              (evict_stale_holder request msg applied total s)
          else (ok (gone_from_main_process msg), s))
      else if is_duplicate_add lib.to_lowercase request msg
      then settled true (repair_duplicate request applied total s)
      else if is_replace_into_empty_listener request msg
      then settled true (add_replacement request msg applied total s)
      else (err (failure msg), s)
