-- ===== src/Controller/Shadow/Replayed.antt =====
-- The shadow after a batch that failed part-way (`replay_acknowledged`,
-- crates/controller/src/shadow.rs), with the count that the agent reports.
use mathlib.Core.Path.{subst}
use sozu_gateway.Prelude.{
  ℕ, ◌≤◌, ◌≡◌, ◌≢◌, refl, sym, ap, ◌∙◌, inl, inr, Bool, true, false, Option, none, some, List, [],
  ◌∷◌, arith,
}
use sozu_gateway.Prelude.Tests.{if◌then◌else◌, leb, Bool-cases}
use sozu_gateway.Prelude.Eq.{◌==◌, ==-refl, eq_of-==, ne_of-==, pair_eq, list_eq, nat_eq}
use sozu_gateway.Prelude.Lists.{length, take, filter}
use sozu_gateway.Prelude.Results.{ok}
use sozu_gateway.Prelude.Texts.{Text}
use sozu_gateway.Ir.{Ir, ir_eq, address_eq}
use sozu_gateway.Ir.RouteKey.{SozuRouteKey, sozu_route_key, route_key_eq}
use sozu_gateway.Wire.{Request}
use sozu_gateway.Translator.Removals.{BackendKey}
use sozu_gateway.Translator.Reconcile.{Sozu, routing_state}
use sozu_gateway.Translator.Replay.{backend_key}
use sozu_gateway.Translator.Replay.Groups.{wanted}
use sozu_gateway.Translator.Replay.Fold.{settled_all, event_of}
use sozu_gateway.Translator.Replay.Backends.{
  backend_cluster, backend_event, backends-apply_acknowledged,
}
use sozu_gateway.Translator.Replay.Routes.{route_cluster, route_event, frontends-apply_acknowledged}
use sozu_gateway.Translator.Replay.Exact.{ConfigFields, simulate, comparable, replay_if_exact}
use sozu_gateway.Translator.Replay.Exact.Explained.{IsExact, replay_if_exact-IsExact}
use sozu_gateway.Controller.Shadow.{Shadow, Disk, persist, replay_acknowledged}

module _ (disk : Disk) (z : Sozu) (fields : ConfigFields z.State) where
  -- A shadow that moved after `acknowledged` requests of the batch: as many were sent; each backend
  -- and each HTTP(S) route is what these requests leave one after the other; the IR has a routing
  -- state, which the simulation of these requests ends in; and it is for the same data plane.
  pub record IsMoved (shadow next : Shadow) (desired : Ir) (batch : List Request) (acknowledged : ℕ)
      : Type 0 where
    pub sent : acknowledged ≤ length batch
    pub changed : next.ir ≢ shadow.ir
    pub generation : next.generation ≡ shadow.generation
    pub backends :
        (k : BackendKey)
        → filter (λ b. backend_key b == k) next.ir.backends
          ≡ settled_all backend_cluster
              (event_of (backend_event (wanted backend_key desired.backends)))
              k
              (take acknowledged batch)
              (filter (λ b. backend_key b == k) shadow.ir.backends)
    pub frontends :
        (k : SozuRouteKey)
        → filter (λ f. sozu_route_key z.show f == k) next.ir.frontends
          ≡ settled_all route_cluster
              (event_of (
                route_event z.show z.display z.pem
                  (wanted (sozu_route_key z.show) desired.frontends)))
              k
              (take acknowledged batch)
              (filter (λ f. sozu_route_key z.show f == k) shadow.ir.frontends)
    pub described : z.State
    pub has_state : routing_state z next.ir ≡ ok described
    pub simulated :
        simulate z fields shadow.ir (take acknowledged batch) ≡ some (comparable z fields described)

  -- The replay of a head, once it was asked for.
  abbrev adopted : Text → Shadow → disk.World → Option Ir → Bool × (Shadow × disk.World)
  adopted file shadow w answer = elim answer [
    | none ↦ (false, (shadow, w))
    | some replayed ↦ if replayed == shadow.ir then (false, (shadow, w)) else (
      true,
      (record shadow { ir = replayed }, persist disk file (record shadow { ir = replayed }) w),
    )
  ]

  -- An exact replay of the acknowledged requests, if there is one, is the shadow's own IR.
  abbrev pub IsCurrent : Shadow → Ir → List Request → ℕ → Type 0
  IsCurrent shadow desired batch acknowledged =
      (ir : Ir)
      → acknowledged ≤ length batch
      → replay_if_exact z fields shadow.ir desired (take acknowledged batch) ≡ some ir
      → ir ≡ shadow.ir

  -- The shadow and its file as they were, or a shadow that moved and was persisted.
  abbrev pub Moves :
      Text → Shadow → Ir → List Request → ℕ → disk.World → Bool × (Shadow × disk.World) → Type 0
  Moves file shadow desired batch acknowledged w (false, (next, after)) =
      (next ≡ shadow) × (after ≡ w) × IsCurrent shadow desired batch acknowledged
  Moves file shadow desired batch acknowledged w (true, (next, after)) =
      (after ≡ persist disk file next w) × IsMoved shadow next desired batch acknowledged

  is_current :
      (shadow : Shadow) (desired : Ir) (batch head : List Request) (acknowledged : ℕ)
      (answer : Option Ir)
      → take acknowledged batch ≡ head
      → replay_if_exact z fields shadow.ir desired head ≡ answer
      → ((ir : Ir) → answer ≡ some ir → ir ≡ shadow.ir)
      → IsCurrent shadow desired batch acknowledged
  is_current shadow desired batch head acknowledged answer t e same ir h r =
      same ir (sym e ∙ ap (replay_if_exact z fields shadow.ir desired) (sym t) ∙ r)

  exact-IsMoved :
      (shadow : Shadow) (desired replayed : Ir) (batch : List Request) (acknowledged : ℕ)
      → acknowledged ≤ length batch
      → replayed ≢ shadow.ir
      → IsExact z fields shadow.ir desired (take acknowledged batch) replayed
      → IsMoved shadow (record shadow { ir = replayed }) desired batch acknowledged
  exact-IsMoved shadow desired replayed batch acknowledged h other exact = record {
    sent = h;
    changed = other;
    generation = refl;
    backends = λ k.
        ap (λ (ir : Ir). filter (λ b. backend_key b == k) ir.backends) exact.is_replay
        ∙ backends-apply_acknowledged z.show z.display z.pem shadow.ir desired
            (take acknowledged batch) k;
    frontends = λ k.
        ap (λ (ir : Ir). filter (λ f. sozu_route_key z.show f == k) ir.frontends) exact.is_replay
        ∙ frontends-apply_acknowledged z.show z.display z.pem shadow.ir desired
            (take acknowledged batch) k;
    described = exact.described;
    has_state = exact.has_state;
    simulated = exact.simulated;
  }

  unchanged_head :
      (file : Text) (shadow : Shadow) (w : disk.World)
      → adopted file shadow w (some shadow.ir) ≡ (false, (shadow, w))
  unchanged_head file shadow w = rw (==-refl shadow.ir) refl

  adopted-Moves :
      (file : Text) (shadow : Shadow) (desired : Ir) (batch : List Request) (acknowledged : ℕ)
      (w : disk.World) (head : List Request)
      → acknowledged ≤ length batch
      → take acknowledged batch ≡ head
      → Moves file shadow desired batch acknowledged w
          (adopted file shadow w (replay_if_exact z fields shadow.ir desired head))
  unfolding replay_if_exact
  adopted-Moves file shadow desired batch acknowledged w [] h t =
      subst (Moves file shadow desired batch acknowledged w) (sym (unchanged_head file shadow w)) (
        refl,
        refl,
        is_current shadow desired batch [] acknowledged (some shadow.ir) t refl (λ ir e. cc),
      )
  adopted-Moves file shadow desired batch acknowledged w (q ∷ head) h t =
      go (replay_if_exact z fields shadow.ir desired (q ∷ head)) refl
    where
      go :
          (answer : Option Ir)
          → replay_if_exact z fields shadow.ir desired (q ∷ head) ≡ answer
          → Moves file shadow desired batch acknowledged w (adopted file shadow w answer)
      go none e = (
        refl,
        refl,
        is_current shadow desired batch (q ∷ head) acknowledged none t e
            (λ ir (k : none ≡ some ir). cc k),
      )
      go (some replayed) e = elim (Bool-cases (replayed == shadow.ir)) [
        | inl same ↦
            let own : replayed ≡ shadow.ir = eq_of-== replayed shadow.ir same in
            rw same (
              refl,
              refl,
              is_current shadow desired batch (q ∷ head) acknowledged (some replayed) t e
                  (λ ir (k : some replayed ≡ some ir).
                    let given : replayed ≡ ir = cc in sym given ∙ own),
            )
        | inr other ↦ rw other (
          refl,
          exact-IsMoved shadow desired replayed batch acknowledged h
              (ne_of-== replayed shadow.ir other)
              (subst (λ requests. IsExact z fields shadow.ir desired requests replayed) (sym t)
                (replay_if_exact-IsExact z fields shadow.ir desired replayed q head e)),
        )
      ]

  -- After a failed batch the shadow and its file stay as they were, or the shadow moves to another
  -- IR, for the same data plane, and is persisted. It moves only where the count is within the
  -- batch, and then holds under each key the backends and the HTTP(S) routes that the acknowledged
  -- requests leave one after the other, and has the routing state that their simulation ends in. It
  -- stays only where the count is past the batch or no other IR is an exact replay.
  pub replay_acknowledged-Moves :
      (file : Text) (shadow : Shadow) (desired : Ir) (batch : List Request) (acknowledged : ℕ)
      (w : disk.World)
      → Moves file shadow desired batch acknowledged w
          (replay_acknowledged disk z fields file shadow desired batch acknowledged w)
  unfolding replay_acknowledged
  replay_acknowledged-Moves file shadow desired batch acknowledged w =
      elim (Bool-cases (leb acknowledged (length batch))) [
        | inl t ↦ rw t (
            adopted-Moves file shadow desired batch acknowledged w (take acknowledged batch)
              (ground (arith, t)) refl)
        | inr t ↦ rw t (refl, refl, λ ir h r. absurd (ground (arith, t, h)))
      ]
