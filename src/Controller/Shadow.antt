-- ===== src/Controller/Shadow.antt =====
-- The state that was applied last, and its file: crates/controller/src/shadow.rs. The file system
-- and the JSON encoding are parameters. Log lines are left out.
pub mod Proven
pub mod File
pub mod Redacted
pub mod Replayed
use sozu_gateway.Prelude.{ℕ, Bool, true, false, not, Option, none, some, List, [], ◌∷◌, ◌++◌, map}
use sozu_gateway.Prelude.Tests.{if◌then◌else◌, leb}
use sozu_gateway.Prelude.Eq.{Eq, ◌==◌, nat_eq, list_eq}
use sozu_gateway.Prelude.Lists.{is_empty, length, take}
use sozu_gateway.Prelude.Results.{Result, ok, err}
use sozu_gateway.Prelude.Texts.{Text, codes}
use sozu_gateway.Ir.{Ir, ir_eq}
use sozu_gateway.Wire.{Request}
use sozu_gateway.Agent.Channel.{SozuError}
use sozu_gateway.Agent.Generation.{SozuGeneration, socket_eq}
use sozu_gateway.Translator.Certificates.Keyless.{keyless}
use sozu_gateway.Translator.Reconcile.{Sozu}
use sozu_gateway.Translator.Replay.Exact.{ConfigFields, replay_if_exact}

pub record Shadow : Type 0 where
  pub generation : Option SozuGeneration
  pub ir : Ir

-- `Ir::default()`
abbrev pub default_ir : Ir
default_ir = record {
  clusters = [];
  frontends = [];
  backends = [];
  certificates = [];
  l4_frontends = [];
}

abbrev pub empty_shadow : Option SozuGeneration → Shadow
empty_shadow generation = record { generation = generation; ir = default_ir }

pub data GenerationCheck : Type 0 where
  unchanged : GenerationCheck
  reset : GenerationCheck
  probe_failed : GenerationCheck

unfoldable pub should_reset : Result SozuError SozuGeneration → Option SozuGeneration → Ir → Bool
should_reset (err e) baseline shadow = false
should_reset (ok generation) baseline shadow =
    if shadow == default_ir
    then false
    else elim baseline [ none ↦ true | some known ↦ not (known.socket == generation.socket) ]

-- The probe is the agent's answer.
unfoldable pub check_restart_generation :
    Result SozuError SozuGeneration → Shadow → GenerationCheck × Shadow
check_restart_generation (err e) shadow = (probe_failed, shadow)
check_restart_generation (ok generation) shadow =
    if should_reset (ok generation) shadow.generation shadow.ir
    then (reset, record { generation = some generation; ir = default_ir })
    else (unchanged, record shadow { generation = some generation })

unfoldable pub redact_private_keys : Ir → Ir
redact_private_keys shadow = record shadow { certificates = map keyless shadow.certificates }

-- The file system, and serde_json on shadows. A file is named by its path.
pub record Disk : Type 1 where
  pub World : Type 0
  pub read_to_string : Text → World → Result Text Text
  pub create : Text → World → Result Text (Unit {0}) × World
  pub write_all : Text → Text → World → Result Text (Unit {0}) × World
  pub sync_all : Text → World → Result Text (Unit {0}) × World
  pub rename : Text → Text → World → Result Text (Unit {0}) × World
  pub remove_file : Text → World → Result Text (Unit {0}) × World
  pub from_json : Text → Result Text Shadow
  pub to_vec : Shadow → Result Text Text

abbrev pub temporary : Text → Text
temporary shadow_file = shadow_file ++ codes ".tmp"

-- What is resumed from a persisted shadow.
unfoldable pub resume : Option SozuGeneration → Shadow → Shadow
resume current persisted = elim persisted.generation [
  | none ↦ empty_shadow current
  | some written_against ↦ elim current [
    | none ↦ empty_shadow none
    | some now ↦
        if written_against.socket == now.socket
        then record { generation = some now; ir = persisted.ir }
        else empty_shadow (some now)
  ]
]

module _ (disk : Disk) where
  open disk use {
    World, read_to_string, create, write_all, sync_all, rename, remove_file, from_json, to_vec,
  }

  unfoldable pub load_initial : Text → Option SozuGeneration → World → Shadow
  unfolding resume
  load_initial shadow_file current w =
      if is_empty shadow_file then empty_shadow current else elim (read_to_string shadow_file w) [
        | err e ↦ empty_shadow current
        | ok raw ↦ elim (from_json raw) [
          | err e ↦ empty_shadow current
          | ok persisted ↦ resume current persisted
        ]
      ]

  -- `?` after a step of the file system.
  abbrev pub and_then :
      Result Text (Unit {0}) × World
      → (World → Result Text (Unit {0}) × World)
      → Result Text (Unit {0}) × World
  and_then (ok u, w) next = next w
  and_then (err e, w) next = (err e, w)

  unfoldable pub write_atomically : Text → Text → Text → World → Result Text (Unit {0}) × World
  write_atomically target tmp_file bytes w = and_then (create tmp_file w) (λ created.
      and_then (write_all tmp_file bytes created)
        (λ written. and_then (sync_all tmp_file written) (λ synced. rename tmp_file target synced)))

  -- A failed write leaves no temporary file, where that can be removed.
  abbrev pub clean_up : Text → Result Text (Unit {0}) × World → World
  clean_up tmp_file (ok u, w) = w
  clean_up tmp_file (err e, w) = (remove_file tmp_file w).1

  unfoldable pub persist : Text → Shadow → World → World
  unfolding write_atomically
  persist shadow_file shadow w =
      if is_empty shadow_file
      then w
      else elim (to_vec (record shadow { ir = redact_private_keys shadow.ir })) [
        | err e ↦ w
        | ok bytes ↦
            clean_up (temporary shadow_file)
              (write_atomically shadow_file (temporary shadow_file) bytes w)
      ]

  module _ (z : Sozu) (fields : ConfigFields z.State) where
    unfoldable pub replay_acknowledged :
        Text → Shadow → Ir → List Request → ℕ → World → Bool × (Shadow × World)
    unfolding persist
    replay_acknowledged shadow_file shadow desired batch acknowledged w =
        if not (leb acknowledged (length batch))
        then (false, (shadow, w))
        else elim (replay_if_exact z fields shadow.ir desired (take acknowledged batch)) [
          | none ↦ (false, (shadow, w))
          | some replayed ↦
              if replayed == shadow.ir
              then (false, (shadow, w))
              else let next : Shadow = record shadow { ir = replayed } in
                (true, (next, persist shadow_file next w))
        ]
