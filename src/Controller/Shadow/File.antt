-- ===== src/Controller/Shadow/File.antt =====
-- The file of the shadow (`persist` and `load_initial`, crates/controller/src/shadow.rs).
use sozu_gateway.Prelude.{
  ◌+◌, ◌≡◌, ◌≢◌, ◌⊎◌, refl, ap, sym, ◌∙◌, inl, inr, false, Option, some, [], ◌∷◌, ◌++◌, arith,
}
use sozu_gateway.Prelude.Tests.{Bool-cases}
use sozu_gateway.Prelude.Eq.{==-right, ==-refl}
use sozu_gateway.Prelude.Lists.{is_empty, length}
use sozu_gateway.Prelude.Results.{Result, ok, err}
use sozu_gateway.Prelude.Texts.{Text, codes}
use sozu_gateway.Agent.Generation.{SozuGeneration, socket_eq}
use sozu_gateway.Controller.Shadow.{
  Shadow, Disk, temporary, resume, redact_private_keys, load_initial, and_then, write_atomically,
  clean_up, persist,
}

-- What a file system promises: a step changes no other file, a file that was created and written
-- holds what was written, and a rename replaces the file of its new name, or changes nothing.
pub record IsSound (disk : Disk) : Type 0 where
  pub create_other :
      (p q : Text) (w : disk.World)
      → p ≢ q
      → disk.read_to_string q (disk.create p w).1 ≡ disk.read_to_string q w
  pub write_other :
      (p q bytes : Text) (w : disk.World)
      → p ≢ q
      → disk.read_to_string q (disk.write_all p bytes w).1 ≡ disk.read_to_string q w
  pub sync_same :
      (p q : Text) (w : disk.World)
      → disk.read_to_string q (disk.sync_all p w).1 ≡ disk.read_to_string q w
  pub remove_other :
      (p q : Text) (w : disk.World)
      → p ≢ q
      → disk.read_to_string q (disk.remove_file p w).1 ≡ disk.read_to_string q w
  pub created :
      (p : Text) (w : disk.World)
      → (disk.create p w).0 ≡ ok tt
      → disk.read_to_string p (disk.create p w).1 ≡ ok []
  pub written :
      (p bytes : Text) (w : disk.World)
      → disk.read_to_string p w ≡ ok []
      → (disk.write_all p bytes w).0 ≡ ok tt
      → disk.read_to_string p (disk.write_all p bytes w).1 ≡ ok bytes
  pub renamed :
      (p q : Text) (w : disk.World)
      → (disk.rename p q w).0 ≡ ok tt
      → disk.read_to_string q (disk.rename p q w).1 ≡ disk.read_to_string p w
  pub not_renamed :
      (p q e : Text) (w : disk.World)
      → (disk.rename p q w).0 ≡ err e
      → disk.read_to_string q (disk.rename p q w).1 ≡ disk.read_to_string q w

longer : (a b : Text) → length (a ++ b) ≡ length a + length b
longer [] b = omega arith
longer (c ∷ a) b = ground (arith, longer a b)

temporary_ne : (p : Text) → temporary p ≢ p
temporary_ne p h =
    let n : length (temporary p) ≡ length p = ap length h in
    omega (arith, n, longer p (codes ".tmp"))

module _ (disk : Disk) (sound : IsSound disk) where
  -- The file keeps what it held, or holds the new text.
  abbrev pub IsAtomic : Text → Text → disk.World → disk.World → Type 0
  IsAtomic target bytes w after =
      (disk.read_to_string target after ≡ disk.read_to_string target w)
      ⊎ (disk.read_to_string target after ≡ ok bytes)

  -- A write that failed changed nothing; one that succeeded left the new text.
  abbrev Written : Text → Text → disk.World → Result Text (Unit {0}) × disk.World → Type 0
  Written target bytes w d = elim d.0 [
    | ok u ↦ disk.read_to_string target d.1 ≡ ok bytes
    | err e ↦ disk.read_to_string target d.1 ≡ disk.read_to_string target w
  ]

  module _ (target tmp bytes : Text) (other : tmp ≢ target) (start : disk.World) where
    abbrev Kept : disk.World → Type 0
    Kept w = disk.read_to_string target w ≡ disk.read_to_string target start

    -- A file after a step, from the step's result.
    held :
        {r : Result Text Text} {r0 : Result Text (Unit {0})} (q : Text) (x : disk.World)
        {d : Result Text (Unit {0}) × disk.World}
        → d ≡ (r0, x)
        → disk.read_to_string q d.1 ≡ r
        → disk.read_to_string q x ≡ r
    held q x e h =
        sym (ap (λ (d : Result Text (Unit {0}) × disk.World). disk.read_to_string q d.1) e) ∙ h

    after_rename :
        (w : disk.World)
        → Kept w
        → disk.read_to_string tmp w ≡ ok bytes
        → Written target bytes start (disk.rename tmp target w)
    after_rename w k h = go (disk.rename tmp target w) refl
      where
        go :
            (d : Result Text (Unit {0}) × disk.World)
            → disk.rename tmp target w ≡ d
            → Written target bytes start d
        go (ok u, x) e =
            let moved =
              sound.renamed tmp target w
                (ap (λ (d : Result Text (Unit {0}) × disk.World). d.0) e) in
            held target x e moved ∙ h
        go (err m, x) e =
            let stays =
              sound.not_renamed tmp target m w
                (ap (λ (d : Result Text (Unit {0}) × disk.World). d.0) e) in
            held target x e stays ∙ k

    after_sync :
        (w : disk.World)
        → Kept w
        → disk.read_to_string tmp w ≡ ok bytes
        → (d : Result Text (Unit {0}) × disk.World) → disk.sync_all tmp w ≡ d
        → Written target bytes start (and_then disk d (disk.rename tmp target))
    after_sync w k h (ok u, x) e =
        after_rename x (held target x e (sound.sync_same tmp target w) ∙ k)
          (held tmp x e (sound.sync_same tmp tmp w) ∙ h)
    after_sync w k h (err m, x) e = held target x e (sound.sync_same tmp target w) ∙ k

    after_write :
        (w : disk.World)
        → Kept w
        → disk.read_to_string tmp w ≡ ok []
        → (d : Result Text (Unit {0}) × disk.World) → disk.write_all tmp bytes w ≡ d
        → Written target bytes start
            (and_then disk d (λ x. and_then disk (disk.sync_all tmp x) (disk.rename tmp target)))
    after_write w k h (ok u, x) e =
        after_sync x (held target x e (sound.write_other tmp target bytes w other) ∙ k)
          (held tmp x e
            (sound.written tmp bytes w h (ap (λ (d : Result Text (Unit {0}) × disk.World). d.0) e)))
          (disk.sync_all tmp x) refl
    after_write w k h (err m, x) e =
        held target x e (sound.write_other tmp target bytes w other) ∙ k

    after_create :
        (d : Result Text (Unit {0}) × disk.World)
        → disk.create tmp start ≡ d
        → Written target bytes start (
            and_then disk d (λ y.
              and_then disk
                (disk.write_all tmp bytes y)
                (λ x. and_then disk (disk.sync_all tmp x) (disk.rename tmp target))))
    after_create (ok u, x) e =
        after_write x (held target x e (sound.create_other tmp target start other))
          (held tmp x e
            (sound.created tmp start (ap (λ (d : Result Text (Unit {0}) × disk.World). d.0) e)))
          (disk.write_all tmp bytes x) refl
    after_create (err m, x) e = held target x e (sound.create_other tmp target start other)

    write_atomically-Written :
        Written target bytes start (write_atomically disk target tmp bytes start)
    unfolding write_atomically
    write_atomically-Written = after_create (disk.create tmp start) refl

    clean_up-IsAtomic :
        (d : Result Text (Unit {0}) × disk.World)
        → Written target bytes start d
        → IsAtomic target bytes start (clean_up disk tmp d)
    clean_up-IsAtomic (ok u, x) h = inr h
    clean_up-IsAtomic (err m, x) h = inl (sound.remove_other tmp target x other ∙ h)

  -- Persisting a shadow replaces its file as a whole, or leaves it as it was, whatever step fails:
  -- the new text is the encoding of the shadow without private keys.
  pub persist-IsAtomic :
      (shadow_file bytes : Text) (shadow : Shadow) (w : disk.World)
      → disk.to_vec (record shadow { ir = redact_private_keys shadow.ir }) ≡ ok bytes
      → IsAtomic shadow_file bytes w (persist disk shadow_file shadow w)
  unfolding persist
  persist-IsAtomic shadow_file bytes shadow w e = elim (Bool-cases (is_empty shadow_file)) [
    | inl h ↦ rw h (inl refl)
    | inr h ↦
        rw (h, e)
          (clean_up-IsAtomic shadow_file (temporary shadow_file) bytes (temporary_ne shadow_file) w
            (write_atomically disk shadow_file (temporary shadow_file) bytes w)
            (write_atomically-Written shadow_file (temporary shadow_file) bytes
              (temporary_ne shadow_file) w))
  ]

  load_initial-read :
      (shadow_file bytes : Text) (persisted : Shadow) (current : Option SozuGeneration)
      (w : disk.World)
      → is_empty shadow_file ≡ false
      → disk.read_to_string shadow_file w ≡ ok bytes
      → disk.from_json bytes ≡ ok persisted
      → load_initial disk shadow_file current w ≡ resume current persisted
  unfolding load_initial
  load_initial-read shadow_file bytes persisted current w h r d = rw (h, r, d) refl

  resume-same :
      (now known : SozuGeneration) (persisted : Shadow)
      → persisted.generation ≡ some known
      → known.socket ≡ now.socket
      → resume (some now) persisted ≡ record { generation = some now; ir = persisted.ir }
  unfolding resume
  resume-same now known persisted g s =
      rw (g, sym (==-right known.socket known.socket now.socket s) ∙ ==-refl known.socket) refl

  clean_up-Written :
      (target tmp bytes : Text) (start : disk.World) (d : Result Text (Unit {0}) × disk.World)
      → Written target bytes start d
      → d.0 ≡ ok tt
      → disk.read_to_string target (clean_up disk tmp d) ≡ ok bytes
  clean_up-Written target tmp bytes start (ok u, x) h e = h
  clean_up-Written target tmp bytes start (err m, x) h e = cc

  -- A persisted shadow is resumed by a later start that meets the same socket: the state that was
  -- applied, without private keys, with the generation that now answers. The write has succeeded,
  -- and the encoding is read back as what was encoded.
  pub load_initial-persist :
      (shadow_file bytes : Text) (shadow : Shadow) (now known : SozuGeneration) (w : disk.World)
      → is_empty shadow_file ≡ false
      → disk.to_vec (record shadow { ir = redact_private_keys shadow.ir }) ≡ ok bytes
      → disk.from_json bytes ≡ ok (record shadow { ir = redact_private_keys shadow.ir })
      → (write_atomically disk shadow_file (temporary shadow_file) bytes w).0 ≡ ok tt
      → shadow.generation ≡ some known
      → known.socket ≡ now.socket
      → load_initial disk shadow_file (some now) (persist disk shadow_file shadow w)
        ≡ record { generation = some now; ir = redact_private_keys shadow.ir }
  unfolding persist
  load_initial-persist shadow_file bytes shadow now known w h e f done g s =
      let tmp = temporary shadow_file in
      let d = write_atomically disk shadow_file tmp bytes w in
      let there =
        clean_up-Written shadow_file tmp bytes w d
          (write_atomically-Written shadow_file tmp bytes (temporary_ne shadow_file) w) done in
      rw (h, e)
        (load_initial-read shadow_file bytes (record shadow { ir = redact_private_keys shadow.ir })
          (some now) (clean_up disk tmp d) h there f)
      ∙ resume-same now known (record shadow { ir = redact_private_keys shadow.ir }) g s
