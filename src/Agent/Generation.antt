-- ===== src/Agent/Generation.antt =====
-- Which data plane answers: `SocketIdentity` and `SozuGeneration`, crates/sozu-agent/src/lib.rs.
use sozu_gateway.Prelude.{ℕ, List, ℕ_discrete}
use sozu_gateway.Prelude.Eq.{Eq}
use sozu_gateway.Prelude.Int.{ℤ}
use sozu_gateway.Wire.{ℤ_discrete}

pub record SocketIdentity : Type 0 where
  pub device : ℕ
  pub inode : ℕ
  pub changed_secs : ℤ
  pub changed_nanos : ℤ

unfoldable pub SocketIdentity_discrete : Discrete SocketIdentity
SocketIdentity_discrete = hlevel (ℤ_discrete, ℕ_discrete)

instance abbrev pub socket_eq : Eq SocketIdentity
socket_eq = record { dec = SocketIdentity_discrete }

pub record SozuGeneration : Type 0 where
  pub socket : SocketIdentity
  pub worker_pids : List ℕ
