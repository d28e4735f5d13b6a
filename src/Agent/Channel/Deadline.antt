-- ===== src/Agent/Channel/Deadline.antt =====
-- The rounds of `send_one`, crates/sozu-agent/src/lib.rs.
use sozu_gateway.Prelude.{ℕ, zero, suc, ◌-◌, ◌<◌, ◌≡◌, arith}
use sozu_gateway.Prelude.Eq.{nat_eq}
use sozu_gateway.Agent.Channel.{Io, Agent, receive}

module _ (io : Io)
    (ticks : (wait : ℕ) (w : io.World) → io.now w < io.now (io.read_message wait w).1) where
  -- Where a read takes time, more rounds than the time that is left give the same result,
  -- whatever their number: the loop ends at an answer, at an error, or at the deadline.
  pub receive-enough :
      (rounds others deadline : ℕ) (s : Agent io)
      → deadline - io.now s.world < rounds
      → deadline - io.now s.world < others
      → receive io rounds deadline s ≡ receive io others deadline s
  unfolding receive
  receive-enough zero others deadline s h k = ground arith
  receive-enough (suc rounds) zero deadline s h k = ground arith
  receive-enough (suc rounds) (suc others) deadline s h k = ground (
    arith,
    ticks (deadline - io.now s.world) s.world,
    receive-enough rounds others deadline
        (record s { world = (io.read_message (deadline - io.now s.world) s.world).1 }),
  )
