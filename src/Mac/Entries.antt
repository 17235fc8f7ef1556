-- ===== src/Mac/Entries.antt =====
-- The functions that Native/anisette_core_mac.cpp exports, without their printing.
pub mod Replies
pub mod Calls
use anisette_kit.Prelude.{ℕ, Bool, true, false, Option, none, some, List, [], ◌∷◌}
use anisette_kit.Prelude.Int.{ℤ}
use anisette_kit.Prelude.Text.{Text}
use anisette_kit.Base.Errors.{value, anisette_err_loader_failed}
use anisette_kit.Core.Session.{Result, failed, done}
use anisette_kit.Core.Bodies.{Response, error}
use anisette_kit.Emulator.Vm.{undefined}
use anisette_kit.Mac.Platform.{Platform}
use anisette_kit.Mac.Process.{Process, ElfLoader, Action, pure, ◌>>=◌, ◌>>◌, loader_at}
use anisette_kit.Mac.Setup.{load_adi_and_setup}
use anisette_kit.Mac.Bodies.{
  Body, first_sibling, no_text, either, setup_error, headers_c, start_c, end_c, cancel_c,
}

module _ {p : Platform} where
  -- What a failed set-up returns, or else what the body does.
  unfoldable pub behind_setup :
      (failure : (err : Text) → Response) → Body p → Result Text (ℕ × Text) → Action p Response
  behind_setup failure body (failed err) = pure (failure err)
  behind_setup failure body (done (adi, prov_dir)) = do
    l ← loader_at adi
    r ← body (first_sibling l.siblings) adi prov_dir
    pure (either r)

  -- A store through a null `out_json` is undefined; every path of its functions has one.
  unfoldable pub through : (out_json : Bool) → Response → Action p Response
  through true response = pure response
  through false response = λ s. undefined

  unfoldable pub with_adi :
      (rounds : ℕ)
      → (lib_dir provisioning_dir : Option Text) → (identifier : Option (List ℕ))
      → (failure : (err : Text) → Response) → Body p
      → Action p Response
  with_adi rounds lib_dir provisioning_dir identifier failure body =
      load_adi_and_setup rounds lib_dir provisioning_dir identifier >>= behind_setup failure body

  unfoldable pub get_anisette_headers_c :
      (rounds : ℕ)
      → (lib_dir provisioning_dir : Option Text) → (identifier adi_pb : Option (List ℕ))
      → (adi_pb_len : ℕ) → (out_json : Bool) → Action p Response
  get_anisette_headers_c rounds lib_dir provisioning_dir identifier adi_pb adi_pb_len out_json =
      with_adi rounds lib_dir provisioning_dir identifier setup_error (headers_c adi_pb adi_pb_len)
      >>= through out_json

  unfoldable pub start_provision_c :
      (rounds : ℕ)
      → (lib_dir provisioning_dir : Option Text) → (identifier spim : Option (List ℕ))
      → (spim_len : ℕ) → (out_json : Bool) → Action p Response
  start_provision_c rounds lib_dir provisioning_dir identifier spim spim_len out_json =
      with_adi rounds lib_dir provisioning_dir identifier setup_error (start_c spim spim_len)
      >>= through out_json

  unfoldable pub end_provision_c :
      (rounds : ℕ)
      → (lib_dir provisioning_dir : Option Text) → (identifier : Option (List ℕ)) → (session : ℕ)
      → (ptm : Option (List ℕ)) → (ptm_len : ℕ) → (tk : Option (List ℕ)) → (tk_len : ℕ)
      → (out_json : Bool) → Action p Response
  end_provision_c rounds lib_dir provisioning_dir identifier session ptm ptm_len tk tk_len
        out_json =
      with_adi rounds lib_dir provisioning_dir identifier setup_error
        (end_c session ptm ptm_len tk tk_len)
      >>= through out_json

  unfoldable pub cancel_provision_c :
      (rounds : ℕ)
      → (lib_dir provisioning_dir : Option Text) → (identifier : Option (List ℕ)) → (session : ℕ)
      → Action p Response
  cancel_provision_c rounds lib_dir provisioning_dir identifier session =
      with_adi rounds lib_dir provisioning_dir identifier
        (λ err. no_text (value anisette_err_loader_failed)) (cancel_c session)
