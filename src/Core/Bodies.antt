-- ===== src/Core/Bodies.antt =====
-- What the functions of Native/anisette_core_uc.cpp do behind their set-up, without their printing. A
-- pointer to bytes comes with the length of the list it leads to.
pub mod Frames
pub mod Replies
use anisette_kit.Prelude.{
  ℕ, Bool, true, false, not, ◌-◌, ◌^◌, ◌&&◌, ◌||◌, Option, none, some, List, [], ◌∷◌, ◌++◌, ◌==◌,
  if◌then◌else◌, length, replicate, le_value, le_bytes, take,
}
use anisette_kit.Prelude.Int.{ℤ, pos, int_eq}
use anisette_kit.Prelude.Text.{Text, codes}
use anisette_kit.Base.Errors.{
  value, anisette_ok, anisette_err_invalid_argument, anisette_err_loader_failed,
  anisette_err_symbol_missing, anisette_err_read_file_failed,
}
use anisette_kit.Emulator.Host.{Host}
use anisette_kit.Emulator.Unicorn.{Unicorn}
use anisette_kit.Emulator.Vm.{Run, ok, and_then, mem_read, mem_write, heap_alloc}
use anisette_kit.Emulator.Imports.{get_vm_symbol_address, write_bytes}
use anisette_kit.Emulator.Memory.{buffer}
use anisette_kit.Emulator.Procedure.{EmuStart, run_vm_procedure}
use anisette_kit.Core.Adi
use anisette_kit.Core.Json.{failure_text, error_json, headers_json, start_json, end_json}
use anisette_kit.Core.Setup.{setup_vm_and_adi}
use anisette_kit.Core.Session.{
  Session, Globals, idle, running, Result, failed, done, Step, finish, ◌>>=◌, ◌>>◌, lift, require,
  host_does,
}

-- The code that a function returns, and the text that it leaves at `out_json`, if it does.
pub record Response : Type 0 where
  pub code : ℤ
  pub json : Option Text

abbrev pub answer : ℤ → Text → Response
answer code json = record { code = code; json = some json }

unfoldable pub error : ℤ → (err : Text) → Response
error code err = answer code (error_json err)

abbrev pub invalid_argument : Response
invalid_argument = record { code = value anisette_err_invalid_argument; json = none }

-- `(uint64_t)-2`
abbrev pub dsid : ℕ
dsid = 2 ^ 64 - 2

-- What `fread` of `size` bytes leaves in a vector of zeros.
unfoldable pub file_data : (size : ℕ) → (bytes : List ℕ) → List ℕ
file_data size bytes = bytes ++ replicate (size - length bytes) 0

-- The response for the file that the libraries generated.
unfoldable pub end_response : Option (ℕ × List ℕ) → Response
end_response none =
    error (value anisette_err_read_file_failed) (codes "Failed to read generated adi.pb")
end_response (some (size, bytes)) = answer (value anisette_ok) (end_json (file_data size bytes))

module _ {u : Unicorn} {h : Host} where
  -- A step of the body of a function: it fails with what the function returns then.
  unfoldable pub symbol : (name err : Text) → Step u h Response ℕ
  symbol name err = do
    ptr ← lift (get_vm_symbol_address name)
    require (not (ptr == 0)) (error (value anisette_err_symbol_missing) err)
    finish ptr

  -- The number in `size` bytes of the guest, 0 if they cannot be read.
  unfoldable pub guest_number : (address size : ℕ) → Step u h Response ℕ
  guest_number address size = do
    bytes ← lift (mem_read address size)
    finish (le_value (buffer bytes size))

  unfoldable pub guest_data : (address size : ℕ) → Step u h Response (List ℕ)
  guest_data address size =
      if not (size == 0) && not (address == 0)
      then (do bytes ← lift (mem_read address size); finish (buffer bytes size))
      else finish (replicate size 0)

  -- What the function returns for the result of its call of the libraries.
  unfoldable pub check_call : (call : Text) → (res : ℤ) → Step u h Response (Unit {0})
  check_call call res = require (int_eq res (pos 0)) (error res (failure_text call res))

  -- The start of provisioning fails after it removed the directory, if that is empty.
  unfoldable pub check_start : (dir : Text) → (res : ℤ) → Step u h Response (Unit {0})
  check_start dir res =
      if int_eq res (pos 0)
      then finish tt
      else (do host_does (λ w. h.rmdir w dir); check_call (codes "ADIProvisioningStart") res)

  unfoldable pub read_adi_pb : (dir : Text) → Step u h Response Response
  read_adi_pb dir s =
      finish (end_response (h.read_file s.vm.world (dir ++ codes "/" ++ Adi.adi_pb_filename))) s

  module _ (emu_start : EmuStart u h) where
    unfoldable pub adi_call :
        (call : Text) → (ptr : ℕ) → (args : List ℕ) → Step u h Response (Unit {0})
    adi_call call ptr args = do
      res ← lift (run_vm_procedure emu_start ptr args)
      check_call call res

    -- The bodies behind the set-up, which gave the directory `dir`.
    unfoldable pub headers_body : (adi_pb : List ℕ) → (dir : Text) → Step u h Response Response
    headers_body adi_pb dir = do
      host_does (λ w. h.write_file w (dir ++ codes "/" ++ Adi.adi_pb_filename) adi_pb)
      otp_req_ptr ← symbol Adi.otp_request (codes "Symbol ADIOTPRequest missing")
      mid_ptr ← lift (heap_alloc 8)
      mid_len_ptr ← lift (heap_alloc 4)
      otp_ptr ← lift (heap_alloc 8)
      otp_len_ptr ← lift (heap_alloc 4)
      adi_call (codes "ADIOTPRequest") otp_req_ptr
          (dsid ∷ mid_ptr ∷ mid_len_ptr ∷ otp_ptr ∷ otp_len_ptr ∷ [])
      final_mid_addr ← guest_number mid_ptr 8
      final_mid_len ← guest_number mid_len_ptr 4
      final_otp_addr ← guest_number otp_ptr 8
      final_otp_len ← guest_number otp_len_ptr 4
      mid_data ← guest_data final_mid_addr final_mid_len
      otp_data ← guest_data final_otp_addr final_otp_len
      finish (answer (value anisette_ok) (headers_json mid_data otp_data))

    unfoldable pub start_body : (spim : List ℕ) → (dir : Text) → Step u h Response Response
    start_body spim dir = do
      prov_start_ptr ← symbol Adi.provisioning_start (codes "Symbol ADIProvisioningStart missing")
      spim_vm ← lift (write_bytes (some spim))
      cpim_ptr ← lift (heap_alloc 8)
      cpim_len_ptr ← lift (heap_alloc 4)
      session_ptr ← lift (heap_alloc 4)
      lift (mem_write cpim_ptr (le_bytes 8 0))
      lift (mem_write cpim_len_ptr (le_bytes 4 0))
      lift (mem_write session_ptr (le_bytes 4 0))
      res ← lift (
          run_vm_procedure emu_start prov_start_ptr
            (dsid ∷ spim_vm ∷ length spim ∷ cpim_ptr ∷ cpim_len_ptr ∷ session_ptr ∷ []))
      check_start dir res
      final_cpim_addr ← guest_number cpim_ptr 8
      final_cpim_len ← guest_number cpim_len_ptr 4
      session ← guest_number session_ptr 4
      cpim_data ← guest_data final_cpim_addr final_cpim_len
      finish (answer (value anisette_ok) (start_json cpim_data session))

    unfoldable pub end_body :
        (session : ℕ) → (ptm tk : List ℕ) → (dir : Text) → Step u h Response Response
    end_body session ptm tk dir = do
      prov_end_ptr ← symbol Adi.provisioning_end (codes "Symbol ADIProvisioningEnd missing")
      ptm_vm ← lift (write_bytes (some ptm))
      tk_vm ← lift (write_bytes (some tk))
      adi_call (codes "ADIProvisioningEnd") prov_end_ptr
          (session ∷ ptm_vm ∷ length ptm ∷ tk_vm ∷ length tk ∷ [])
      read_adi_pb dir
