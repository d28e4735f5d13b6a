-- ===== src/Agent/Channel/Steps.antt =====
-- The channel after a request (`send_with_retry`, crates/sozu-agent/src/lib.rs), with the replies
-- that are still to come over it.
use sozu_gateway.Prelude.{ℕ, suc, zero, ◌+◌, ◌-◌, ◌≡◌, inl, inr, Bool, true, false, arith}
use sozu_gateway.Prelude.Tests.{if◌then◌else◌, Bool-cases}
use sozu_gateway.Prelude.Eq.{◌==◌, nat_eq}
use sozu_gateway.Prelude.Results.{Result, ok, Result-cases}
use sozu_gateway.Wire.{Request}
use sozu_gateway.Agent.Channel.{
  SozuError, Io, Agent, Response, ResponseStatus, status_ok, status_processing, status_failure,
  channel_mut, receive, send_one, is_answer, reconnect_and_retry, send_with_retry, count_reconnect,
  reconnect_backoff,
}

-- Every reply but one of progress.
abbrev pub is_terminal : ResponseStatus → Bool
is_terminal status_processing = false
is_terminal status_ok = true
is_terminal status_failure = true

-- How Sōzu answers: over a new connection no reply is to come, each request has one terminal
-- reply, and replies come in the order of the requests. `outstanding` counts the requests over
-- the connection whose terminal reply was not read.
pub record IsPaired (io : Io) : Type 0 where
  pub outstanding : io.World → ℕ
  pub opens : (w : io.World) → (io.connect w).0 ≡ ok tt → outstanding (io.connect w).1 ≡ 0
  pub asks :
      (q : Request) (w : io.World)
      → (io.write_message q w).0 ≡ ok tt
      → outstanding (io.write_message q w).1 ≡ suc (outstanding w)
  pub answers :
      (wait : ℕ) (w : io.World) (r : Response)
      → (io.read_message wait w).0 ≡ ok r
      → is_terminal r.response_status ≡ true
      → suc (outstanding (io.read_message wait w).1) ≡ outstanding w
  pub progresses :
      (wait : ℕ) (w : io.World) (r : Response)
      → (io.read_message wait w).0 ≡ ok r
      → is_terminal r.response_status ≡ false
      → outstanding (io.read_message wait w).1 ≡ outstanding w

module _ (io : Io) (paired : IsPaired io) where
  open paired use {outstanding, opens, asks, answers, progresses}

  -- No reply is to come over a channel that is held.
  abbrev pub IsInStep : Agent io → Type 0
  IsInStep s = s.connected ≡ true → outstanding s.world ≡ 0

  -- Where the one outstanding request is answered, nothing is to come any more.
  receive-outstanding :
      (rounds deadline : ℕ) (s : Agent io)
      → outstanding s.world ≡ 1
      → is_answer io (receive io rounds deadline s).0 ≡ true
      → outstanding (receive io rounds deadline s).1.world ≡ 0
  unfolding receive is_answer
  receive-outstanding zero deadline s o h = cc
  receive-outstanding (suc rounds) deadline s o h =
      let wait : ℕ = deadline - io.now s.world in
      elim (Bool-cases (wait == 0)) [
        | inl t ↦ ground (arith, t, h)
        | inr t ↦ elim (Result-cases (io.read_message wait s.world).0) [
          | inl (e, r) ↦ ground (arith, t, r, h)
          | inr (response, r) ↦ ground (
            arith,
            t,
            r,
            h,
            answers wait s.world response r,
            progresses wait s.world response r,
            receive-outstanding rounds deadline
                (record s { world = (io.read_message wait s.world).1 }),
          )
        ]
      ]

  send_one-outstanding :
      (request : Request) (s : Agent io)
      → outstanding s.world ≡ 0
      → is_answer io (send_one io request s).0 ≡ true
      → outstanding (send_one io request s).1.world ≡ 0
  unfolding send_one is_answer
  send_one-outstanding request s o h = elim (Result-cases (io.write_message request s.world).0) [
    | inl (e, r) ↦ ground (arith, r, h)
    | inr (u, r) ↦
        let sent : Agent io = record s { world = (io.write_message request s.world).1 } in
        ground (
          arith,
          r,
          h,
          asks request s.world r,
          receive-outstanding (suc sent.read_timeout) (io.now sent.world + sent.read_timeout) sent,
        )
  ]

  channel_mut-IsInStep : (s : Agent io) → IsInStep s → IsInStep (channel_mut io s).1
  unfolding channel_mut
  channel_mut-IsInStep s h c = elim (Bool-cases s.connected) [
    | inl t ↦ ground (arith, t, c, h t)
    | inr t ↦ elim (Result-cases (io.connect s.world).0) [
      | inl (e, r) ↦ ground (arith, t, r, c)
      | inr (u, r) ↦ ground (arith, t, r, c, opens s.world r)
    ]
  ]

  channel_mut-connected :
      (s : Agent io) → (channel_mut io s).0 ≡ ok tt → (channel_mut io s).1.connected ≡ true
  unfolding channel_mut
  channel_mut-connected s h = elim (Bool-cases s.connected) [
    | inl t ↦ ground (arith, t)
    | inr t ↦ elim (Result-cases (io.connect s.world).0) [
      | inl (e, r) ↦ ground (arith, t, r, h)
      | inr (u, r) ↦ ground (arith, t, r)
    ]
  ]

  -- One exchange over an open channel, which is dropped unless Sōzu answered.
  abbrev exchanged : Request → Agent io → Result SozuError Response × Agent io
  exchanged request s =
      let (reply, after) = send_one io request s in
      (reply, if is_answer io reply then after else record after { connected = false })

  exchanged-IsInStep :
      (request : Request) (s : Agent io)
      → outstanding s.world ≡ 0
      → IsInStep (exchanged request s).1
  exchanged-IsInStep request s o c = elim (Bool-cases (is_answer io (send_one io request s).0)) [
    | inl t ↦ rw t (send_one-outstanding request s o t)
    | inr t ↦ ground (arith, t, c)
  ]

  -- Opened without a channel, or over one that is in step.
  channel_mut-outstanding :
      (s : Agent io)
      → IsInStep s
      → (channel_mut io s).0 ≡ ok tt
      → outstanding (channel_mut io s).1.world ≡ 0
  channel_mut-outstanding s h e = channel_mut-IsInStep s h (channel_mut-connected s e)

  reconnect-IsInStep :
      (request : Request) (s : Agent io) → IsInStep (reconnect_and_retry io request s).1
  unfolding reconnect_and_retry
  reconnect-IsInStep request s c =
      let dropped : Agent io = record s {
        connected = false;
        reconnects = count_reconnect io s.reconnects;
        world = io.sleep reconnect_backoff s.world;
      } in
      let down : IsInStep dropped = λ (k : false ≡ true). cc k in
      elim (Result-cases (channel_mut io dropped).0) [
        | inl (e, r) ↦ ground (arith, r, c, channel_mut-IsInStep dropped down)
        | inr (u, r) ↦
            let opened = (channel_mut io dropped).1 in
            ground (
              arith,
              r,
              c,
              exchanged-IsInStep request opened (channel_mut-outstanding dropped down r),
            )
      ]

  -- Sōzu gives each request one terminal reply. Where no reply is to come over the channel, if one
  -- is held, none is to come over the channel that is held after a request, however the request
  -- ended: a channel with a late reply on its way is dropped.
  pub send_with_retry-IsInStep :
      (request : Request) (s : Agent io) → IsInStep s → IsInStep (send_with_retry io request s).1
  unfolding send_with_retry
  send_with_retry-IsInStep request s h c = elim (Result-cases (channel_mut io s).0) [
    | inl (e, r) ↦ ground (arith, r, c, channel_mut-IsInStep s h)
    | inr (u, r) ↦
        let opened : Agent io = (channel_mut io s).1 in
        let o = channel_mut-outstanding s h r in
        elim (Bool-cases (is_answer io (send_one io request opened).0)) [
          | inl t ↦ ground (arith, r, t, send_one-outstanding request opened o t)
          | inr t ↦
              ground (arith, r, t, c, reconnect-IsInStep request (send_one io request opened).1)
        ]
  ]
