-- ===== src/Builder/Ports.antt =====
-- The ports that a gateway exposes, crates/builder/src/lib.rs: `ExposedPort` and the lookups of
-- `BuildConfig`.
use sozu_gateway.Prelude.{
  ℕ, ◌≡◌, refl, not, ◌&&◌, Option, none, some, List, [], ◌∷◌, ◌++◌, map, arith,
}
use sozu_gateway.Prelude.Eq.{Eq, ◌==◌, nat_eq}
use sozu_gateway.Prelude.Lists.{filter, find, is_empty}
use sozu_gateway.Prelude.Lists.Keys.{contains, distinct}
use sozu_gateway.Prelude.Order.{nat_order}
use sozu_gateway.Prelude.Order.Sets.{to_set}
use sozu_gateway.Prelude.Texts.{Text}
use sozu_gateway.Ir.{SocketAddr, v4}

pub data ExposedProtocol : Type 0 where
  http https tcp udp tls : ExposedProtocol

unfoldable pub ExposedProtocol_discrete : Discrete ExposedProtocol
ExposedProtocol_discrete = hlevel

instance abbrev pub exposed_eq : Eq ExposedProtocol
exposed_eq = record { dec = ExposedProtocol_discrete }

pub record ExposedPort : Type 0 where
  pub name : Text
  pub port : ℕ
  pub bind : ℕ
  pub protocol : ExposedProtocol
  pub transport : Option Text
  pub owner : Option Text

-- The unspecified address.
unfoldable pub bind_addr : ℕ → SocketAddr
bind_addr port = record { ip = v4 0; port = port; flowinfo = 0; scope_id = 0 }

unfoldable pub bind_for : List ExposedPort → ExposedProtocol → Option SocketAddr
unfolding bind_addr
bind_for exposure protocol = elim (find (λ (e : ExposedPort). e.protocol == protocol) exposure) [
  | none ↦ none
  | some e ↦ some (bind_addr e.bind)
]

unfoldable pub advertised_for : List ExposedPort → ExposedProtocol → Option ℕ
advertised_for exposure protocol =
    elim (find (λ (e : ExposedPort). e.protocol == protocol) exposure) [
      | none ↦ none
      | some e ↦ some e.port
    ]

unfoldable pub exposed : List ExposedPort → ExposedProtocol → ℕ → Option ExposedPort
exposed exposure protocol port =
    find (λ (e : ExposedPort). e.protocol == protocol && e.port == port) exposure

unfoldable pub advertised_ports : List ExposedPort → ExposedProtocol → List ℕ
advertised_ports exposure protocol =
    map (λ (e : ExposedPort). e.port)
      (filter (λ (e : ExposedPort). e.protocol == protocol) exposure)

unfoldable pub reserved_binds : List ExposedPort → List ℕ
reserved_binds exposure = to_set (map (λ (e : ExposedPort). e.bind) exposure)

-- The pairs of entries on one bind port, in their order.
unfoldable pub colliding_binds : List ExposedPort → List (ExposedPort × ExposedPort)
colliding_binds [] = []
colliding_binds (a ∷ rest) =
    map (λ b. (a, b)) (filter (λ (b : ExposedPort). a.bind == b.bind) rest) ++ colliding_binds rest

no_pair :
    (a : ExposedPort) (rest : List ExposedPort) (more : List (ExposedPort × ExposedPort))
    → is_empty (map (λ b. (a, b)) (filter (λ (b : ExposedPort). a.bind == b.bind) rest) ++ more)
      ≡ (not (contains a.bind (map (λ (e : ExposedPort). e.bind) rest)) && is_empty more)
no_pair a [] more = refl
no_pair a (b ∷ rest) more = ground (arith, no_pair a rest more)

-- No pair collides exactly when the bind ports are distinct.
pub colliding_binds-distinct :
    (exposure : List ExposedPort)
    → is_empty (colliding_binds exposure) ≡ distinct (map (λ (e : ExposedPort). e.bind) exposure)
unfolding colliding_binds
colliding_binds-distinct [] = refl
colliding_binds-distinct (a ∷ rest) =
    ground (arith, no_pair a rest (colliding_binds rest), colliding_binds-distinct rest)
