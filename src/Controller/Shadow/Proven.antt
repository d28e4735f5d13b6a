-- ===== src/Controller/Shadow/Proven.antt =====
-- What a generation check leaves (`check_restart_generation`, crates/controller/src/shadow.rs).
use mathlib.Core.Path.{subst}
use sozu_gateway.Prelude.{
  ◌≡◌, ◌≢◌, refl, ap, sym, ◌∙◌, inl, inr, Bool, false, Option, none, some, arith,
}
use sozu_gateway.Prelude.Tests.{if◌then◌else◌, Bool-cases}
use sozu_gateway.Prelude.Eq.{◌==◌, eq_of-==}
use sozu_gateway.Prelude.Results.{ok}
use sozu_gateway.Ir.{Ir, ir_eq}
use sozu_gateway.Agent.Generation.{SozuGeneration, socket_eq}
use sozu_gateway.Controller.Shadow.{
  Shadow, default_ir, GenerationCheck, unchanged, reset, should_reset, check_restart_generation,
}

-- The data plane that answered is the one that the shadow was applied to: its baseline had the
-- same socket.
pub record IsProven (before after : Shadow) (now : SozuGeneration) : Type 0 where
  pub known : SozuGeneration
  pub baseline : before.generation ≡ some known
  pub same_socket : known.socket ≡ now.socket
  pub kept : after.ir ≡ before.ir
  pub advanced : after.generation ≡ some now

-- The generation check after a decision.
abbrev decided : SozuGeneration → Shadow → Bool → GenerationCheck × Shadow
decided now shadow b =
    if b
    then (reset, record { generation = some now; ir = default_ir })
    else (unchanged, record shadow { generation = some now })

kept_baseline :
    (now : SozuGeneration) (baseline : Option SozuGeneration) (ir : Ir)
    → should_reset (ok now) baseline ir ≡ false
    → ir ≢ default_ir
    → (known : SozuGeneration) × (baseline ≡ some known) × (known.socket ≡ now.socket)
unfolding should_reset
kept_baseline now none ir h n = absurd (n (eq_of-== ir default_ir (ground (arith, h))))
kept_baseline now (some known) ir h n = elim (Bool-cases (ir == default_ir)) [
  | inl e ↦ absurd (n (eq_of-== ir default_ir e))
  | inr e ↦ (known, refl, eq_of-== known.socket now.socket (ground (arith, h, e)))
]

-- After a probe that succeeded, what the shadow still claims was applied to the data plane that
-- answered: either it claims nothing, or its baseline has the same socket, and it is kept.
pub check_restart_generation-IsProven :
    (now : SozuGeneration) (shadow : Shadow)
    → (check_restart_generation (ok now) shadow).1.ir ≢ default_ir
    → IsProven shadow (check_restart_generation (ok now) shadow).1 now
unfolding check_restart_generation
check_restart_generation-IsProven now shadow h =
    elim (Bool-cases (should_reset (ok now) shadow.generation shadow.ir)) [
      | inl t ↦ absurd (h (ap (λ b. (decided now shadow b).1.ir) t))
      | inr t ↦
          let same = ap (decided now shadow) t in
          let (known, baseline, socket) =
            kept_baseline now shadow.generation shadow.ir t
              (λ d. h (ap (λ (r : GenerationCheck × Shadow). r.1.ir) same ∙ d)) in
          subst (λ (r : GenerationCheck × Shadow). IsProven shadow r.1 now) (sym same)
            (record {
              known = known;
              baseline = baseline;
              same_socket = socket;
              kept = refl;
              advanced = refl;
            })
    ]
