-- ===== src/Core/Setup/Again.antt =====
-- `setup_vm_and_adi` (Core/Setup) as a whole, and a second set-up with the same arguments.
use anisette_kit.Prelude.{
  inl, inr, subst, Bool-cases, ℕ, ◌≡◌, refl, ap, ◌∙◌, true, Option, some, List,
}
use anisette_kit.Prelude.Text.{Text, text_eq_refl}
use anisette_kit.Base.Uuid.{get_android_id_string}
use anisette_kit.Emulator.Host.{Host}
use anisette_kit.Emulator.Unicorn.{Unicorn}
use anisette_kit.Emulator.Vm.{ok}
use anisette_kit.Emulator.Imports.{emulator_vm}
use anisette_kit.Emulator.Procedure.{EmuStart}
use anisette_kit.Core.Session.{Session, Globals, idle, running, Result, failed, done, continue}
use anisette_kit.Core.Setup.Facts.{
  IsConsistent, IsSetUp, setup_session-Triple, setup_session-Yields,
}
use anisette_kit.Core.Session.Triples.{Fact, Holds}
use anisette_kit.Emulator.Vm.Runs.{and_then-ok}
use anisette_kit.Core.Setup.{
  new_session, need_libraries, need_prov_path, need_id, uuid_prov_dir, setup_session,
  setup_vm_and_adi, setup_shared, shared_vm, after_session, world_of,
}

-- The sessions that are there satisfy the statement.
abbrev pub AllHold : {u : Unicorn} {h : Host} → Fact → Globals u h → Type 0
AllHold P (idle w) = Unit {0}
AllHold P (running s) = Holds P s

module _ {u : Unicorn} {h : Host} where
  after_session-done :
      (r : Result Text Text × Session u h) (dir : Text) (s : Session u h)
      → after_session r ≡ done (dir, s)
      → r ≡ (done dir, s)
  unfolding after_session
  after_session-done (failed err, s') dir s e = absurd cc
  after_session-done (done dir', s') dir s e = cc

  pub shared_vm-IsConsistent :
      (new_vm : Option u.State) (g : Globals u h) (s : Session u h)
      → AllHold IsConsistent g
      → shared_vm new_vm g ≡ ok s
      → Holds IsConsistent s
  unfolding shared_vm
  shared_vm-IsConsistent new_vm (idle w) s c e =
      let (vm, first, rest) = and_then-ok (emulator_vm new_vm w) _ s e in
      let at : new_session vm ≡ s = cc in subst (λ s. Holds IsConsistent s) at λ no. (refl, refl)
  shared_vm-IsConsistent new_vm (running s') s c e =
      let at : s' ≡ s = cc in subst (λ s. Holds IsConsistent s) at c

  -- A set-up that succeeds, taken apart.
  pub setup_vm_and_adi-done :
      (emu_start : EmuStart u h) (rounds : ℕ) (new_vm : Option u.State)
      (lib_dir provisioning_dir : Text) (identifier : List ℕ) (g : Globals u h) (dir : Text)
      (s : Session u h)
      → setup_vm_and_adi emu_start rounds new_vm (some lib_dir) provisioning_dir identifier g
        ≡ ok (done (dir, s))
      → (s0 : Session u h) × (shared_vm new_vm g ≡ ok s0)
        × (setup_session emu_start rounds lib_dir provisioning_dir identifier s0 ≡ ok (done dir, s))
  unfolding setup_vm_and_adi setup_shared
  setup_vm_and_adi-done emu_start rounds new_vm lib_dir provisioning_dir identifier g dir s e =
      elim (Bool-cases (h.is_directory (world_of g) lib_dir)) [
        | inr missing ↦ absurd (let bad = rw missing at e in cc)
        | inl found ↦
            let e' = rw found at e in
            let (s0, first, rest) = and_then-ok (shared_vm new_vm g) _ (done (dir, s)) e' in
            let (r, second, last) =
              and_then-ok (setup_session emu_start rounds lib_dir provisioning_dir identifier s0) _
                (done (dir, s)) rest in
            let same : after_session r ≡ done (dir, s) = cc in
            (s0, first, second ∙ ap (λ r. ok r) (after_session-done r dir s same))
      ]

  -- From globals that name no directory and no id before the libraries are initialised: after a
  -- set-up that succeeds, the globals say that the libraries are initialised and were told the
  -- directory for the identifier, which is the result, and the identifier's Android id.
  pub setup_vm_and_adi-IsSetUp :
      (emu_start : EmuStart u h) (rounds : ℕ) (new_vm : Option u.State)
      (lib_dir provisioning_dir : Text) (identifier : List ℕ) (g : Globals u h) (dir : Text)
      (s : Session u h)
      → AllHold IsConsistent g
      → setup_vm_and_adi emu_start rounds new_vm (some lib_dir) provisioning_dir identifier g
        ≡ ok (done (dir, s))
      → (dir ≡ uuid_prov_dir provisioning_dir identifier)
        × Holds (IsSetUp dir (get_android_id_string (some identifier))) s
  setup_vm_and_adi-IsSetUp emu_start rounds new_vm lib_dir provisioning_dir identifier g dir s c e =
      let (s0, first, second) =
        setup_vm_and_adi-done emu_start rounds new_vm lib_dir provisioning_dir identifier g dir s
          e in
      let same : dir ≡ uuid_prov_dir provisioning_dir identifier =
        (setup_session-Yields emu_start rounds lib_dir provisioning_dir identifier).yields s0 s dir
          second in
      let told =
        (setup_session-Triple emu_start rounds lib_dir provisioning_dir identifier).ends s0 s
          (done dir) (shared_vm-IsConsistent new_vm g s0 c first) second in
      (same, rw same told)

  -- A set-up of a session that is set for the same directory and identifier.
  setup_session_again :
      (emu_start : EmuStart u h) (rounds : ℕ) (lib_dir provisioning_dir : Text)
      (identifier : List ℕ) (s : Session u h)
      → Holds
          (IsSetUp
            (uuid_prov_dir provisioning_dir identifier)
            (get_android_id_string (some identifier)))
          s
      → setup_session emu_start rounds lib_dir provisioning_dir identifier s
        ≡ ok (
          done (uuid_prov_dir provisioning_dir identifier),
          record s {
            vm = record s.vm {
              world = (h.mkdir s.vm.world (uuid_prov_dir provisioning_dir identifier) 0o755).1;
            };
          },
        )
  unfolding setup_session need_libraries need_prov_path need_id continue
  setup_session_again emu_start rounds lib_dir provisioning_dir identifier s (ready, path, id) =
      rw
        (
          ready,
          path,
          id,
          text_eq_refl (uuid_prov_dir provisioning_dir identifier),
          text_eq_refl (get_android_id_string (some identifier)),
        )
        refl

  -- From globals that name no directory and no id before the libraries are initialised: after a
  -- set-up that succeeds, a second one with the same arguments, while lib_dir is still a
  -- directory, gives the same directory and only makes it once more, whatever the engine would do:
  -- it loads nothing and calls no guest code.
  pub setup_vm_and_adi_again :
      (emu_start emu_start' : EmuStart u h) (rounds rounds' : ℕ) (new_vm new_vm' : Option u.State)
      (lib_dir provisioning_dir : Text) (identifier : List ℕ) (g : Globals u h) (dir : Text)
      (s : Session u h)
      → AllHold IsConsistent g
      → setup_vm_and_adi emu_start rounds new_vm (some lib_dir) provisioning_dir identifier g
        ≡ ok (done (dir, s))
      → h.is_directory s.vm.world lib_dir ≡ true
      → setup_vm_and_adi emu_start' rounds' new_vm'
          (some lib_dir)
          provisioning_dir
          identifier
          (running s)
        ≡ ok
            (done (dir, record s { vm = record s.vm { world = (h.mkdir s.vm.world dir 0o755).1 } }))
  unfolding setup_vm_and_adi setup_shared shared_vm after_session
  setup_vm_and_adi_again emu_start emu_start' rounds rounds' new_vm new_vm' lib_dir provisioning_dir
        identifier g dir s c e found =
      let (same, told) =
        setup_vm_and_adi-IsSetUp emu_start rounds new_vm lib_dir provisioning_dir identifier g dir s
          c e in
      let told' = rw same at told in
      rw
        (
          found,
          same,
          setup_session_again emu_start' rounds' lib_dir provisioning_dir identifier s told',
        )
        refl
