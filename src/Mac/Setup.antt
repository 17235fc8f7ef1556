-- ===== src/Mac/Setup.antt =====
-- `load_adi_and_setup` of Native/anisette_core_mac.cpp, without its printing.
pub mod Stages
pub mod Steady
pub mod Outcomes
use anisette_kit.Prelude.{
  ℕ, Bool, true, false, not, Option, none, some, List, [], ◌∷◌, ◌++◌, ◌==◌, if◌then◌else◌, length,
}
use anisette_kit.Prelude.Int.{ℤ, pos, int_eq}
use anisette_kit.Prelude.Text.{Text, codes}
use anisette_kit.Base.Uuid.{format_uuid_string, get_android_id_string}
use anisette_kit.Core.Adi
use anisette_kit.Core.Json.{failure_text}
use anisette_kit.Core.Session.{Result, failed, done}
use anisette_kit.Core.Setup.{lib_path}
use anisette_kit.Mac.Platform.{Platform, Arg, number, c_string, Reply}
use anisette_kit.Mac.Process.{Process, Action, Step, checked, gets, update, host_checked, host_step}
use anisette_kit.Mac.Registry.{new_loader, delete_loader, add_sibling, get_adi_symbol}
use anisette_kit.Mac.Relocate.{relocate}
use anisette_kit.Mac.Load.{load}
use anisette_kit.Mac.Globals.{delete_ssc, delete_both, global_symbol, connect}
use anisette_kit.Mac.Process
use anisette_kit.Mac.Steps.{◌>>=◌, ◌>>◌, finish, fail, lift, require, require_or}

-- `uuid_prov_dir`
abbrev pub prov_dir_of : (provisioning_dir : Text) → (identifier : Option (List ℕ)) → Text
prov_dir_of provisioning_dir identifier =
    provisioning_dir ++ codes "/" ++ format_uuid_string identifier

module _ {p : Platform} where
  -- A call of a function of the libraries.
  abbrev pub native_call : (function : ℕ) → List Arg → Action p Reply
  native_call function args = host_checked (λ w. p.native w function args)

  -- A call that has to return 0.
  unfoldable pub checked_call :
      (call : Text)
      → (function : ℕ) → List Arg
      → (cleanup : Action p (Unit {0})) → Step p Text (Unit {0})
  checked_call call function args cleanup = do
    reply ← lift (native_call function args)
    require_or (int_eq reply.result (pos 0)) cleanup (failure_text call reply.result)

  unfoldable pub load_ssc : (rounds : ℕ) → (ssc_so : Text) → Step p Text ℕ
  load_ssc rounds ssc_so = do
    ssc ← lift new_loader
    lift (update (λ s. record s { g_ssc = some ssc }))
    loaded ← lift (load rounds ssc ssc_so)
    require_or loaded delete_ssc (codes "Failed to load libstoreservicescore.so at: " ++ ssc_so)
    finish ssc

  unfoldable pub load_adi : (rounds : ℕ) → (coreadi_so : Text) → Step p Text ℕ
  load_adi rounds coreadi_so = do
    adi ← lift new_loader
    lift (update (λ s. record s { g_adi = some adi }))
    loaded ← lift (load rounds adi coreadi_so)
    require_or loaded delete_both (codes "Failed to load libCoreADI.so at: " ++ coreadi_so)
    finish adi

  unfoldable pub load_both : (rounds : ℕ) → (path : Text) → Step p Text (Unit {0})
  load_both rounds path = do
    ssc ← load_ssc rounds (path ++ Adi.lib_ssc)
    adi ← load_adi rounds (path ++ Adi.lib_core_adi)
    lift (connect rounds ssc adi)
    load_lib ← lift (global_symbol Adi.load_library (codes "ADILoadLibraryWithPath"))
    require_or (not (load_lib == 0)) delete_both
        (codes "Symbol ADILoadLibraryWithPath (kq56gsgHG6) missing from libraries")
    checked_call (codes "ADILoadLibraryWithPath (kq56gsgHG6)") load_lib
        (c_string (some path) ∷ number 0 ∷ []) delete_both

  unfoldable pub need_loaders :
      (rounds : ℕ) → (path : Text) → (g_adi : Option ℕ) → Step p Text (Unit {0})
  need_loaders rounds path (some adi) = finish tt
  need_loaders rounds path none = load_both rounds path

  unfoldable pub tell_path : (uuid_prov_dir : Text) → Step p Text (Unit {0})
  tell_path uuid_prov_dir = do
    set_prov ← lift (global_symbol Adi.set_provisioning_path (codes "ADISetProvisioningPath"))
    require (not (set_prov == 0)) (codes "Symbol ADISetProvisioningPath (nf92ngaK92) missing")
    checked_call (codes "ADISetProvisioningPath") set_prov (c_string (some uuid_prov_dir) ∷ [])
        (Process.pure tt)

  unfoldable pub tell_id : (android_id : Text) → Step p Text (Unit {0})
  tell_id android_id = do
    set_id ← lift (global_symbol Adi.set_android_id (codes "ADISetAndroidID"))
    require (not (set_id == 0)) (codes "Symbol ADISetAndroidID (Sph98paBcz) missing")
    checked_call (codes "ADISetAndroidID") set_id
        (c_string (some android_id) ∷ number (length android_id) ∷ []) (Process.pure tt)

  -- The loader that is returned, with `out_prov_path`; a null one is an error without a text.
  unfoldable pub returned : (g_adi : Option ℕ) → (out_prov_path : Text) → Step p Text (ℕ × Text)
  returned none out_prov_path = fail []
  returned (some adi) out_prov_path = finish (adi, out_prov_path)

  unfoldable pub setup_paths :
      (provisioning_dir : Text) → (identifier : Option (List ℕ)) → Step p Text (ℕ × Text)
  setup_paths provisioning_dir identifier = do
    made ← lift (host_step (λ w. p.host.mkdir w (prov_dir_of provisioning_dir identifier) 0o755))
    tell_path (prov_dir_of provisioning_dir identifier)
    tell_id (get_android_id_string identifier)
    adi ← lift (gets (λ s. s.g_adi))
    returned adi (prov_dir_of provisioning_dir identifier)

  -- A null `provisioning_dir` is no string, which C++ leaves undefined.
  unfoldable pub setup_loaders :
      (rounds : ℕ)
      → (path : Text) → (provisioning_dir : Option Text) → (identifier : Option (List ℕ))
      → Step p Text (ℕ × Text)
  setup_loaders rounds path provisioning_dir identifier = do
    adi ← lift (gets (λ s. s.g_adi))
    need_loaders rounds path adi
    dir ← lift (checked provisioning_dir)
    setup_paths dir identifier

  unfoldable pub load_adi_and_setup :
      (rounds : ℕ)
      → (lib_dir provisioning_dir : Option Text) → (identifier : Option (List ℕ))
      → Step p Text (ℕ × Text)
  load_adi_and_setup rounds none provisioning_dir identifier =
      fail (codes "Library directory path is null.")
  load_adi_and_setup rounds (some lib_dir) provisioning_dir identifier = do
    is_dir ← lift (gets (λ s. p.host.is_directory s.world lib_dir))
    require is_dir (codes "Provided library path is not a valid directory: " ++ lib_dir)
    setup_loaders rounds (lib_path lib_dir) provisioning_dir identifier
