-- ===== src/Agent/Apply/Completes.antt =====
-- A batch over a data plane that answers (`apply_unless`, crates/sozu-agent/src/lib.rs).
use sozu_gateway.Prelude.{
  ℕ, suc, ◌+◌, ◌-◌, ◌<◌, ◌≡◌, inl, inr, refl, ap, ◌∙◌, Bool, true, false, List, [], ◌∷◌, arith,
}
use sozu_gateway.Prelude.Tests.{if◌then◌else◌, Bool-cases}
use sozu_gateway.Prelude.Eq.{nat_eq}
use sozu_gateway.Prelude.Lists.{length}
use sozu_gateway.Prelude.Results.{Result, ok, err}
use sozu_gateway.Prelude.Texts.{codes, to_ascii_lowercase, contains_text}
use sozu_gateway.Wire.{Request}
use sozu_gateway.Agent.Channel.{
  SozuError, Io, Agent, Response, status_ok, channel_mut, send_one, receive, is_answer,
  reconnect_and_retry, send_with_retry,
}
use sozu_gateway.Agent.Settle.{Library}
use sozu_gateway.Agent.Apply.{
  Progress, ApplyError, replayable_of, start, deliver, note, apply_from, apply_tracked,
  apply_unless,
}
use sozu_gateway.Agent.Apply.Counts.{from_ok}

-- The answer to a request that Sōzu applied.
pub record IsApplied (r : Response) : Type 0 where
  pub is_ok : r.response_status ≡ status_ok
  pub removed_something :
      contains_text (to_ascii_lowercase r.message) (codes "nothing to remove") ≡ false

-- A data plane that accepts connections and requests, and applies what it is sent; nobody gives up.
pub record IsUp (io : Io) : Type 0 where
  pub opens : (w : io.World) → (io.connect w).0 ≡ ok tt
  pub accepts : (q : Request) (w : io.World) → (io.write_message q w).0 ≡ ok tt
  pub reply : ℕ → io.World → Response
  pub replies : (wait : ℕ) (w : io.World) → (io.read_message wait w).0 ≡ ok (reply wait w)
  pub applies : (wait : ℕ) (w : io.World) → IsApplied (reply wait w)
  pub stays : (w : io.World) → io.is_abandoned w ≡ false

module _ (io : Io) (lib : Library) (up : IsUp io) where
  -- The agent after an exchange holds its channel and its timeout.
  abbrev Ready : Agent io → Type 0
  Ready s = 0 < s.read_timeout

  pub record IsAnswered (d : Result SozuError Response × Agent io) : Type 0 where
    pub response : Response
    pub next : Agent io
    pub same : d ≡ (ok response, next)
    pub applied : IsApplied response
    pub ready : Ready next

  receive-IsAnswered :
      (rounds deadline : ℕ) (s : Agent io)
      → io.now s.world < deadline
      → Ready s
      → IsAnswered (receive io (suc rounds) deadline s)
  unfolding receive
  receive-IsAnswered rounds deadline s h k =
      let wait : ℕ = deadline - io.now s.world in
      record {
        response = up.reply wait s.world;
        next = record s { world = (io.read_message wait s.world).1 };
        same = ground (arith, h, up.replies wait s.world, (up.applies wait s.world).is_ok);
        applied = up.applies wait s.world;
        ready = k;
      }

  send_one-IsAnswered : (q : Request) (s : Agent io) → Ready s → IsAnswered (send_one io q s)
  unfolding send_one
  send_one-IsAnswered q s k =
      let sent : Agent io = record s { world = (io.write_message q s.world).1 } in
      let a =
        receive-IsAnswered s.read_timeout (io.now sent.world + s.read_timeout) sent
          (omega (arith, k)) k in
      record {
        response = a.response;
        next = a.next;
        same = rw (up.accepts q s.world) a.same;
        applied = a.applied;
        ready = a.ready;
      }

  record IsOpened (d : Result SozuError (Unit {0}) × Agent io) : Type 0 where
    pub next : Agent io
    pub same : d ≡ (ok tt, next)
    pub ready : Ready next

  channel_mut-IsOpened : (s : Agent io) → Ready s → IsOpened (channel_mut io s)
  unfolding channel_mut
  channel_mut-IsOpened s k = elim (Bool-cases s.connected) [
    | inl c ↦ record { next = s; same = rw c refl; ready = k }
    | inr c ↦ record {
      next = record s { world = (io.connect s.world).1; connected = true };
      same = rw c (rw (up.opens s.world) refl);
      ready = k;
    }
  ]

  -- A first attempt that Sōzu answered is the result.
  abbrev judged :
      Request → Result SozuError Response × Agent io → Result SozuError Response × Agent io
  judged q (first, after) =
      if is_answer io first then (first, after) else reconnect_and_retry io q after

  -- The first attempt, over the channel that was opened.
  abbrev attempt :
      Request → Result SozuError (Unit {0}) × Agent io → Result SozuError Response × Agent io
  attempt q d = elim d.0 [ err e ↦ (err e, d.1) | ok u ↦ judged q (send_one io q d.1) ]

  send_with_retry-IsAnswered :
      (q : Request) (s : Agent io) → Ready s → IsAnswered (send_with_retry io q s)
  unfolding send_with_retry is_answer
  send_with_retry-IsAnswered q s k =
      let o = channel_mut-IsOpened s k in
      let a = send_one-IsAnswered q o.next o.ready in
      record {
        response = a.response;
        next = a.next;
        same = ap (attempt q) o.same ∙ ap (judged q) a.same;
        applied = a.applied;
        ready = a.ready;
      }

  record IsDelivered (d : Result SozuError Bool × Agent io) : Type 0 where
    pub next : Agent io
    pub same : d ≡ (ok true, next)
    pub ready : Ready next

  deliver-IsDelivered :
      (applied total : ℕ) (q : Request) (s : Agent io)
      → Ready s
      → IsDelivered (deliver io lib applied total q s)
  unfolding deliver
  deliver-IsDelivered applied total q s k =
      let a = send_with_retry-IsAnswered q s k in
      record {
        next = a.next;
        same = ground (arith, a.same, a.applied.removed_something);
        ready = a.ready;
      }

  record IsThrough (d : Result SozuError (Unit {0}) × (Progress × Agent io)) : Type 0 where
    pub reached : Progress × Agent io
    pub same : d ≡ (ok tt, reached)

  apply_from-IsThrough :
      (applied total : ℕ) (requests : List Request) (p : Progress) (s : Agent io)
      → Ready s
      → IsThrough (apply_from io lib applied total requests p s)
  unfolding apply_from
  apply_from-IsThrough applied total [] p s k = record { reached = (p, s); same = refl }
  apply_from-IsThrough applied total (q ∷ requests) p s k =
      let d = deliver-IsDelivered applied total q s k in
      let t =
        apply_from-IsThrough (suc applied) total requests (note applied true p) d.next d.ready in
      record {
        reached = t.reached;
        same =
            from_ok io lib total applied q requests p s d.next true (up.stays s.world) d.same
            ∙ t.same;
      }

  -- What the batch reports.
  abbrev verdict :
      Result SozuError (Unit {0}) × (Progress × Agent io) → Result ApplyError (Unit {0})
  verdict d = elim d.0 [
    | ok u ↦ ok tt
    | err cause ↦
        err
          (record { applied = d.1.0.acknowledged; replayable = replayable_of d.1.0; cause = cause })
  ]

  -- Where Sōzu accepts connections and applies what it is sent, and nobody gives up, every batch
  -- ends with a success, whatever state the channel is in, as long as the timeout is not 0.
  pub apply_unless-ok :
      (requests : List Request) (s : Agent io)
      → 0 < s.read_timeout
      → (apply_unless io lib requests s).0 ≡ ok tt
  unfolding apply_unless apply_tracked
  apply_unless-ok requests s k =
      let t = apply_from-IsThrough 0 (length requests) requests start s k in ap verdict t.same
