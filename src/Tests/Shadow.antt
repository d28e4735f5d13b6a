-- ===== src/Tests/Shadow.antt =====
-- A shadow that is persisted and resumed, over a file system of paths and texts.
use sozu_gateway.Prelude.{
  ◌≡◌, ◌≢◌, refl, ap, sym, ◌∙◌, true, false, some, [], ◌∷◌, ◌++◌, ℕ_discrete,
}
use sozu_gateway.Prelude.Tests.{if◌then◌else◌}
use sozu_gateway.Prelude.Eq.{◌==◌, list_eq, nat_eq, ==-refl, ==_of_ne}
use sozu_gateway.Prelude.Int.{pos}
use sozu_gateway.Prelude.Lists.{is_empty}
use sozu_gateway.Prelude.Results.{Result, ok, err}
use sozu_gateway.Prelude.Texts.{Text, codes}
use sozu_gateway.Ir.{Ir, Ir_discrete}
use sozu_gateway.Agent.Generation.{SozuGeneration, SocketIdentity_discrete}
use sozu_gateway.Wire.{ℤ_discrete}
use sozu_gateway.Translator.Reconcile.{reconcile}
use sozu_gateway.Controller.Shadow.{
  Shadow, Disk, default_ir, redact_private_keys, load_initial, persist, write_atomically,
  check_restart_generation, should_reset,
}
use sozu_gateway.Controller.Shadow.Proven.{IsProven, check_restart_generation-IsProven}
use sozu_gateway.Controller.Shadow.File.{IsSound, IsAtomic, persist-IsAtomic, load_initial-persist}
use sozu_gateway.Controller.Shadow.Redacted.{reconcile-redact_private_keys}
use sozu_gateway.Tests.Samples.{state, bare, sozu}

abbrev Files : Type 0
Files = Text → Result Text Text

-- The files with one changed.
abbrev at : Text → Result Text Text → Files → Files
at p text files q = if p == q then text else files q

abbrev append : Text → Result Text Text → Result Text Text
append bytes (ok text) = ok (text ++ bytes)
append bytes (err e) = err e

abbrev generation : SozuGeneration
generation = record {
  socket = record { device = 1; inode = 2; changed_secs = pos 3; changed_nanos = pos 4 };
  worker_pids = 7 ∷ [];
}

-- Another worker answers at the same socket.
abbrev later : SozuGeneration
later = record generation { worker_pids = 8 ∷ [] }

abbrev pub shadow : Shadow
shadow = record { generation = some generation; ir = state }

abbrev text : Text
text = codes "shadow"

abbrev pub disk : Disk
disk = record {
  World = Files;
  read_to_string = λ p files. files p;
  create = λ p files. (ok tt, at p (ok []) files);
  write_all = λ p bytes files. (ok tt, at p (append bytes (files p)) files);
  sync_all = λ p files. (ok tt, files);
  rename = λ p q files. (ok tt, at q (files p) files);
  remove_file = λ p files. (ok tt, at p (err (codes "no file")) files);
  from_json = λ raw. ok (record shadow { ir = redact_private_keys state });
  to_vec = λ s. ok text;
}

elsewhere : (p q : Text) (t : Result Text Text) (files : Files) → p ≢ q → at p t files q ≡ files q
elsewhere p q t files h = rw (==_of_ne p q h) refl

here : (p : Text) (t : Result Text Text) (files : Files) → at p t files p ≡ t
here p t files = rw (==-refl p) refl

disk-IsSound : IsSound disk
disk-IsSound = record {
  create_other = λ p q w h. elsewhere p q (ok []) w h;
  write_other = λ p q bytes w h. elsewhere p q (append bytes (w p)) w h;
  sync_same = λ p q w. refl;
  remove_other = λ p q w h. elsewhere p q (err (codes "no file")) w h;
  created = λ p w h. here p (ok []) w;
  written = λ p bytes w h k. here p (append bytes (w p)) w ∙ ap (append bytes) h;
  renamed = λ p q w h. here q (w p) w;
  not_renamed = λ p q e w h. cc;
}

abbrev pub file : Text
file = codes "/run/shadow"

abbrev pub no_files : Files
no_files q = err (codes "no file")

persist-IsAtomic_example :
    IsAtomic disk disk-IsSound file text no_files (persist disk file shadow no_files)
persist-IsAtomic_example = persist-IsAtomic disk disk-IsSound file text shadow no_files refl

load_initial-persist_example :
    load_initial disk file (some later) (persist disk file shadow no_files)
    ≡ record { generation = some later; ir = redact_private_keys state }
unfolding write_atomically
load_initial-persist_example =
    load_initial-persist disk disk-IsSound file text shadow later generation no_files refl refl refl
      refl refl refl

reconcile-redact_private_keys_example :
    reconcile sozu (redact_private_keys state) bare ≡ reconcile sozu state bare
reconcile-redact_private_keys_example = reconcile-redact_private_keys sozu state bare

abbrev same_socket : SozuGeneration → Shadow
same_socket now = (check_restart_generation (ok now) shadow).1

routes_held : state ≢ default_ir
routes_held h = let e : false ≡ true = ap (λ (ir : Ir). is_empty ir.clusters) h in cc

kept_state : (same_socket later).ir ≡ state
unfolding check_restart_generation should_reset Ir_discrete SocketIdentity_discrete ℕ_discrete
    ℤ_discrete
kept_state = refl

still_applied : (same_socket later).ir ≢ default_ir
still_applied h = routes_held (sym kept_state ∙ h)

check_restart_generation-IsProven_example : IsProven shadow (same_socket later) later
check_restart_generation-IsProven_example =
    check_restart_generation-IsProven later shadow still_applied
