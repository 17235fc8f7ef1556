-- ===== src/Core/Setup.antt =====
-- `setup_vm_and_adi` of Native/anisette_core_uc.cpp, without its printing. `new_vm` is what `uc_open`
-- gives, `emu_start` runs guest code, and `rounds` bounds the loops of the loader.
pub mod Facts
pub mod Again
use anisette_kit.Prelude.{
  ℕ, Bool, true, false, not, ◌&&◌, Option, none, some, List, [], ◌∷◌, ◌++◌, ◌==◌, if◌then◌else◌,
  length,
}
use anisette_kit.Prelude.Int.{ℤ, pos, int_eq}
use anisette_kit.Prelude.Text.{Text, codes, text_eq}
use anisette_kit.Base.Uuid.{format_uuid_string, get_android_id_string}
use anisette_kit.Emulator.Host.{Host}
use anisette_kit.Emulator.Unicorn.{Unicorn}
use anisette_kit.Emulator.Vm.{Vm, Run, ok, and_then}
use anisette_kit.Emulator.Imports.{emulator_vm, get_vm_symbol_address, write_string}
use anisette_kit.Emulator.Loader.{load_library_to_vm}
use anisette_kit.Emulator.Relocation.{relocate_all_vm_libraries}
use anisette_kit.Emulator.Procedure.{EmuStart, run_vm_procedure, run_library_constructors}
use anisette_kit.Core.Adi
use anisette_kit.Core.Json.{to_string}
use anisette_kit.Core.Session.{
  Session, Globals, idle, running, Result, failed, done, Step, finish, ◌>>=◌, ◌>>◌, lift, require,
  host_does,
}

-- The last character; `back()` is not called on an empty text.
unfoldable pub back : Text → ℕ
back [] = 0
back (c ∷ []) = c
back (c ∷ d ∷ s) = back (d ∷ s)

unfoldable pub lib_path : (lib_dir : Text) → Text
lib_path lib_dir =
    if not (length lib_dir == 0) && not (back lib_dir == b'/')
    then lib_dir ++ codes "/"
    else lib_dir

unfoldable pub uuid_prov_dir : (provisioning_dir : Text) → (identifier : List ℕ) → Text
uuid_prov_dir provisioning_dir identifier =
    provisioning_dir ++ codes "/" ++ format_uuid_string (some identifier)

-- A step that fails does so with the text for `out_err`.
module _ {u : Unicorn} {h : Host} where
  unfoldable pub setup_symbol : (name err : Text) → Step u h Text ℕ
  setup_symbol name err = do
    ptr ← lift (get_vm_symbol_address name)
    require (not (ptr == 0)) err
    finish ptr

  unfoldable pub load_libraries : (rounds : ℕ) → (path : Text) → Step u h Text (Unit {0})
  load_libraries rounds path = do
    ssc ← lift (load_library_to_vm rounds (path ++ Adi.lib_ssc) Adi.lib_ssc)
    require ssc (codes "Failed to load libraries into VM")
    core ← lift (load_library_to_vm rounds (path ++ Adi.lib_core_adi) Adi.lib_core_adi)
    require core (codes "Failed to load libraries into VM")

  abbrev pub new_session : Vm u h → Session u h
  new_session vm = record {
    vm = vm;
    current_prov_path = [];
    current_android_id = [];
    libraries_initialized = false;
  }

  abbrev pub world_of : Globals u h → h.World
  world_of (idle w) = w
  world_of (running s) = s.vm.world

  unfoldable pub shared_vm : (new_vm : Option u.State) → Globals u h → Run (Session u h)
  shared_vm new_vm (running s) = ok s
  shared_vm new_vm (idle w) = and_then (emulator_vm new_vm w) λ vm. ok (new_session vm)

  -- A set-up that succeeds leaves a machine; one that fails may not have got as far.
  unfoldable pub after_session :
      Result Text Text × Session u h → Result (Text × Globals u h) (Text × Session u h)
  after_session (failed err, s) = failed (err, running s)
  after_session (done path, s) = done (path, s)

  module _ (emu_start : EmuStart u h) where
    -- A call that has to return 0.
    unfoldable pub setup_call :
        (call : Text) → (ptr : ℕ) → (args : List ℕ) → Step u h Text (Unit {0})
    setup_call call ptr args = do
      res ← lift (run_vm_procedure emu_start ptr args)
      require (int_eq res (pos 0)) (call ++ codes " failed: " ++ to_string res)

    unfoldable pub initialize_libraries : (rounds : ℕ) → (path : Text) → Step u h Text (Unit {0})
    initialize_libraries rounds path = do
      load_libraries rounds path
      lift relocate_all_vm_libraries
      lift (run_library_constructors emu_start)
      load_lib_ptr ← setup_symbol Adi.load_library (codes "Required ADI setup symbol missing in VM")
      lib_path_vm ← lift (write_string (some path))
      setup_call (codes "ADILoadLibraryWithPath") load_lib_ptr (lib_path_vm ∷ 0 ∷ [])
      (λ s. finish tt (record s { libraries_initialized = true }))

    unfoldable pub need_libraries : (rounds : ℕ) → (path : Text) → Step u h Text (Unit {0})
    need_libraries rounds path s =
        if s.libraries_initialized then finish tt s else initialize_libraries rounds path s

    unfoldable pub set_prov_path : (path : Text) → Step u h Text (Unit {0})
    set_prov_path path = do
      set_prov_ptr ←
          setup_symbol Adi.set_provisioning_path
            (codes "Symbol ADISetProvisioningPath missing in VM")
      prov_path_vm ← lift (write_string (some path))
      setup_call (codes "ADISetProvisioningPath") set_prov_ptr (prov_path_vm ∷ [])
      (λ s. finish tt (record s { current_prov_path = path }))

    unfoldable pub need_prov_path : (path : Text) → Step u h Text (Unit {0})
    need_prov_path path s =
        if text_eq path s.current_prov_path then finish tt s else set_prov_path path s

    unfoldable pub set_id : (android_id : Text) → Step u h Text (Unit {0})
    set_id android_id = do
      set_id_ptr ← setup_symbol Adi.set_android_id (codes "Symbol ADISetAndroidID missing in VM")
      android_id_vm ← lift (write_string (some android_id))
      setup_call (codes "ADISetAndroidID") set_id_ptr (android_id_vm ∷ length android_id ∷ [])
      (λ s. finish tt (record s { current_android_id = android_id }))

    unfoldable pub need_id : (android_id : Text) → Step u h Text (Unit {0})
    need_id android_id s =
        if text_eq android_id s.current_android_id then finish tt s else set_id android_id s

    -- What follows once the machine is there; the result is `out_uuid_prov_dir`.
    unfoldable pub setup_session :
        (rounds : ℕ)
        → (lib_dir provisioning_dir : Text) → (identifier : List ℕ) → Step u h Text Text
    setup_session rounds lib_dir provisioning_dir identifier = do
      need_libraries rounds (lib_path lib_dir)
      host_does (λ w. (h.mkdir w (uuid_prov_dir provisioning_dir identifier) 0o755).1)
      need_prov_path (uuid_prov_dir provisioning_dir identifier)
      need_id (get_android_id_string (some identifier))
      finish (uuid_prov_dir provisioning_dir identifier)

    unfoldable pub setup_shared :
        (rounds : ℕ)
        → (new_vm : Option u.State) → (lib_dir provisioning_dir : Text) → (identifier : List ℕ)
        → Globals u h
        → Run (Result (Text × Globals u h) (Text × Session u h))
    setup_shared rounds new_vm lib_dir provisioning_dir identifier g =
        and_then (shared_vm new_vm g) λ s.
          and_then (setup_session rounds lib_dir provisioning_dir identifier s)
            λ r. ok (after_session r)

    unfoldable pub setup_vm_and_adi :
        (rounds : ℕ)
        → (new_vm : Option u.State) → (lib_dir : Option Text) → (provisioning_dir : Text)
        → (identifier : List ℕ) → Globals u h
        → Run (Result (Text × Globals u h) (Text × Session u h))
    setup_vm_and_adi rounds new_vm none provisioning_dir identifier g =
        ok (failed (codes "Library directory path is null.", g))
    setup_vm_and_adi rounds new_vm (some lib_dir) provisioning_dir identifier g =
        if h.is_directory (world_of g) lib_dir
        then setup_shared rounds new_vm lib_dir provisioning_dir identifier g
        else ok (failed (codes "Provided library path is not a valid directory: " ++ lib_dir, g))
