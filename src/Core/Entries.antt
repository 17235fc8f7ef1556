-- ===== src/Core/Entries.antt =====
-- The functions that Native/anisette_core_uc.cpp exports: the tests of their pointers, their set-up and
-- their bodies.
pub mod Keeps
pub mod Calls
pub mod Answers
use anisette_kit.Core.Bodies.{error, Response, end_body, headers_body, invalid_argument, start_body}
use anisette_kit.Prelude.{
  ℕ, Bool, true, false, not, ◌-◌, ◌^◌, ◌&&◌, ◌||◌, Option, none, some, List, [], ◌∷◌, ◌++◌, ◌==◌,
  if◌then◌else◌, length, replicate, le_value, le_bytes, take,
}
use anisette_kit.Prelude.Int.{ℤ, pos, int_eq}
use anisette_kit.Prelude.Text.{Text, codes}
use anisette_kit.Base.Errors.{
  value, anisette_ok, anisette_err_invalid_argument, anisette_err_loader_failed,
  anisette_err_symbol_missing, anisette_err_read_file_failed,
}
use anisette_kit.Emulator.Host.{Host}
use anisette_kit.Emulator.Unicorn.{Unicorn}
use anisette_kit.Emulator.Vm.{Run, ok, and_then, mem_read, mem_write, heap_alloc}
use anisette_kit.Emulator.Imports.{get_vm_symbol_address, write_bytes}
use anisette_kit.Emulator.Memory.{buffer}
use anisette_kit.Emulator.Procedure.{EmuStart, run_vm_procedure}
use anisette_kit.Core.Adi
use anisette_kit.Core.Json.{failure_text, error_json, headers_json, start_json, end_json}
use anisette_kit.Core.Setup.{setup_vm_and_adi}
use anisette_kit.Core.Session.{
  Session, Globals, idle, running, Result, failed, done, Step, finish, ◌>>=◌, ◌>>◌, lift, require,
  host_does,
}

-- A call of the interface.
module _ (u : Unicorn) (h : Host) where
  abbrev pub Entry : Type 0
  Entry = Globals u h → Run (Response × Globals u h)

module _ {u : Unicorn} {h : Host} where
  -- A null pointer ends the call; the source tests all pointers before anything else.
  unfoldable pub given : {A : Type 0} → Option A → (A → Entry u h) → Entry u h
  given none entry g = ok (invalid_argument, g)
  given (some a) entry g = entry a g

  unfoldable pub given_out : (out_json : Bool) → Entry u h → Entry u h
  given_out true entry g = entry g
  given_out false entry g = ok (invalid_argument, g)

  unfoldable pub after_body : Result Response Response × Session u h → Response × Globals u h
  after_body (failed response, s) = (response, running s)
  after_body (done response, s) = (response, running s)

  unfoldable pub after_setup :
      (body : (dir : Text) → Step u h Response Response)
      → Result (Text × Globals u h) (Text × Session u h)
      → Run (Response × Globals u h)
  after_setup body (failed (err, g)) = ok (error (value anisette_err_loader_failed) err, g)
  after_setup body (done (dir, s)) = and_then (body dir s) λ r. ok (after_body r)

  module _ (emu_start : EmuStart u h) where
    -- The session of the guest, if it has the function for that.
    unfoldable pub destroy : (destroy_session_ptr session : ℕ) → Step u h Response (Unit {0})
    destroy destroy_session_ptr session =
        if destroy_session_ptr == 0
        then finish tt
        else (lift (run_vm_procedure emu_start destroy_session_ptr (session ∷ [])) >>= λ res.
            finish tt)

    unfoldable pub cancel_body : (session : ℕ) → Step u h Response Response
    cancel_body session = do
      destroy_session_ptr ← lift (get_vm_symbol_address Adi.destroy_session)
      destroy destroy_session_ptr session
      finish (record { code = value anisette_ok; json = none })

  module _ (emu_start : EmuStart u h) (rounds : ℕ) (new_vm : Option u.State) where
    unfoldable pub with_setup :
        (lib_dir provisioning_dir : Text)
        → (identifier : List ℕ) → (body : (dir : Text) → Step u h Response Response) → Entry u h
    with_setup lib_dir provisioning_dir identifier body g =
        and_then
          (setup_vm_and_adi emu_start rounds new_vm (some lib_dir) provisioning_dir identifier g)
          λ r. after_setup body r

    unfoldable pub get_anisette_headers_uc :
        (lib_dir provisioning_dir : Option Text)
        → (identifier adi_pb : Option (List ℕ)) → (out_json : Bool) → Entry u h
    get_anisette_headers_uc lib_dir provisioning_dir identifier adi_pb out_json =
        given lib_dir λ dir. given provisioning_dir λ prov_dir. given identifier λ id.
          given adi_pb
            λ pb. given_out out_json (with_setup dir prov_dir id (headers_body emu_start pb))

    unfoldable pub start_provision_uc :
        (lib_dir provisioning_dir : Option Text)
        → (identifier spim : Option (List ℕ)) → (out_json : Bool) → Entry u h
    start_provision_uc lib_dir provisioning_dir identifier spim out_json = given lib_dir λ dir.
        given provisioning_dir λ prov_dir. given identifier λ id.
          given spim
            λ bytes. given_out out_json (with_setup dir prov_dir id (start_body emu_start bytes))

    unfoldable pub end_provision_uc :
        (lib_dir provisioning_dir : Option Text)
        → (identifier : Option (List ℕ)) → (session : ℕ) → (ptm tk : Option (List ℕ))
        → (out_json : Bool) → Entry u h
    end_provision_uc lib_dir provisioning_dir identifier session ptm tk out_json =
        given lib_dir λ dir. given provisioning_dir λ prov_dir. given identifier λ id.
          given ptm λ ptm_bytes. given tk λ tk_bytes.
            given_out out_json
              (with_setup dir prov_dir id (end_body emu_start session ptm_bytes tk_bytes))

    unfoldable pub cancel_shared : (session : ℕ) → Entry u h
    cancel_shared session (idle w) = ok (record { code = value anisette_ok; json = none }, idle w)
    cancel_shared session (running s) =
        and_then (cancel_body emu_start session s) λ r. ok (after_body r)

    unfoldable pub cancel_provision_uc :
        (lib_dir provisioning_dir : Option Text)
        → (identifier : Option (List ℕ)) → (session : ℕ) → Entry u h
    cancel_provision_uc lib_dir provisioning_dir identifier session =
        given lib_dir
          λ dir. given provisioning_dir λ prov_dir. given identifier λ id. cancel_shared session
