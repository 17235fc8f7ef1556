-- ===== src/Mac/Bodies.antt =====
-- What the functions of Native/anisette_core_mac.cpp do behind their set-up, without their printing.
use anisette_kit.Prelude.{
  suc, zero, take, length, leb, suc, ℕ, ◌%◌, ◌^◌, not, Option, none, some, List, [], ◌∷◌, ◌++◌,
  ◌==◌, if◌then◌else◌, get_or,
}
use anisette_kit.Prelude.Int.{ℤ, pos, int_eq}
use anisette_kit.Prelude.Text.{Text, codes}
use anisette_kit.Base.Base64.{base64_encode}
use anisette_kit.Base.Errors.{
  value, anisette_ok, anisette_err_loader_failed, anisette_err_symbol_missing,
}
use anisette_kit.Core.Adi
use anisette_kit.Core.Json.{failure_text, start_json}
use anisette_kit.Core.Session.{Result, failed, done}
use anisette_kit.Core.Bodies.{Response, answer, error, dsid, end_response}
use anisette_kit.Mac.Platform.{Platform, Arg, number, in_bytes, out, Reply}
use anisette_kit.Mac.Process.{
  host_step, Process, ElfLoader, Action, Step, checked, gets, host_does, load_bytes, loader_at,
}
use anisette_kit.Mac.Registry.{get_adi_symbol}
use anisette_kit.Mac.Setup.{native_call}
use anisette_kit.Mac.Process
use anisette_kit.Mac.Steps.{◌>>=◌, ◌>>◌, finish, lift, require, require_or}

-- The object of `get_anisette_headers_c`, with `kAppleRoutingInfoDefault`.
unfoldable pub routing_json : (mid otp : List ℕ) → Text
routing_json mid otp =
    codes "{\"X-Apple-I-MD-M\":\""
    ++ (base64_encode (some mid)
        ++ (codes "\",\"X-Apple-I-MD\":\""
            ++ (base64_encode (some otp) ++ codes "\",\"X-Apple-I-MD-RINFO\":\"17106176\"}")))

-- `!siblings.empty() ? siblings[0] : nullptr`
abbrev pub first_sibling : List ℕ → Option ℕ
first_sibling [] = none
first_sibling (sib ∷ siblings) = some sib

-- A function behind its set-up: of `ssc`, `adi` and the directory.
abbrev pub Body : (p : Platform) → Type 0
Body p = (ssc : Option ℕ) (adi : ℕ) (prov_dir : Text) → Step p Response Response

abbrev pub missing_symbol : (name : Text) → Response
missing_symbol name =
    error (value anisette_err_symbol_missing) (codes "Symbol " ++ name ++ codes " missing")

-- A `uint32_t` that the call left.
abbrev pub out32 : Reply → (i : ℕ) → ℕ
out32 reply i = get_or reply.outs i 0 % 2 ^ 32

abbrev pub adi_pb_path : (prov_dir : Text) → Text
adi_pb_path prov_dir = prov_dir ++ codes "/" ++ Adi.adi_pb_filename

-- The bytes that a read of `len` bytes at a pointer gives, the null pointer being `none`; a read
-- behind them is undefined.
unfoldable pub bytes_at : (pointer : Option (List ℕ)) → (len : ℕ) → Option (List ℕ)
bytes_at none zero = some []
bytes_at none (suc len) = none
bytes_at (some bytes) len = if leb len (length bytes) then some (take len bytes) else none

abbrev pub no_text : ℤ → Response
no_text code = record { code = code; json = none }

abbrev pub either : Result Response Response → Response
either (failed response) = response
either (done response) = response

abbrev pub setup_error : (err : Text) → Response
setup_error err = error (value anisette_err_loader_failed) err

module _ {p : Platform} where
  -- A function for its name, and what the call returns without one.
  unfoldable pub needed_symbol :
      (ssc : Option ℕ)
      → (adi : ℕ) → (obfuscated_key readable_fallback : Text) → (missing : Response)
      → Step p Response ℕ
  needed_symbol ssc adi obfuscated_key readable_fallback missing = do
    sym ← lift (get_adi_symbol ssc (some adi) obfuscated_key readable_fallback)
    require (not (sym == 0)) missing
    finish sym

  -- A call that ends the function with its result unless that is 0, after `cleanup`.
  unfoldable pub call_or_return :
      (call : Text)
      → (function : ℕ) → List Arg
      → (cleanup : Action p (Unit {0})) → Step p Response Reply
  call_or_return call function args cleanup = do
    reply ← lift (native_call function args)
    require_or (int_eq reply.result (pos 0)) cleanup
        (error reply.result (failure_text call reply.result))
    finish reply

  -- The bytes at an address that the libraries left; base64_encode takes a null pointer for none.
  unfoldable pub out_data : (address len : ℕ) → Action p (List ℕ)
  out_data address len = if address == 0 then Process.pure [] else load_bytes address len

  abbrev pub remove_dir : (prov_dir : Text) → Action p (Unit {0})
  remove_dir prov_dir = host_does (λ w. p.host.rmdir w prov_dir)

  -- `if (f) { fwrite(adi_pb, 1, adi_pb_len, f); fclose(f); }`
  unfoldable pub write_adi_pb :
      (f : Option ℕ) → (adi_pb : Option (List ℕ)) → (adi_pb_len : ℕ) → Action p (Unit {0})
  write_adi_pb none adi_pb adi_pb_len = Process.pure tt
  write_adi_pb (some f) adi_pb adi_pb_len =
      Process.◌>>=◌ (checked (bytes_at adi_pb adi_pb_len))
        λ pb. host_does (λ w. p.write_and_close w f pb)

  unfoldable pub headers_c : (adi_pb : Option (List ℕ)) → (adi_pb_len : ℕ) → Body p
  headers_c adi_pb adi_pb_len ssc adi prov_dir = do
    f ← lift (host_step (λ w. p.open_to_write w (adi_pb_path prov_dir)))
    lift (write_adi_pb f adi_pb adi_pb_len)
    otp_req ←
        needed_symbol ssc adi Adi.otp_request (codes "ADIOTPRequest")
          (missing_symbol (codes "ADIOTPRequest"))
    reply ←
        call_or_return (codes "ADIOTPRequest") otp_req (number dsid ∷ out ∷ out ∷ out ∷ out ∷ [])
          (Process.pure tt)
    mid ← lift (out_data (get_or reply.outs 0 0) (out32 reply 1))
    otp ← lift (out_data (get_or reply.outs 2 0) (out32 reply 3))
    finish (answer (value anisette_ok) (routing_json mid otp))

  unfoldable pub start_c : (spim : Option (List ℕ)) → (spim_len : ℕ) → Body p
  start_c spim spim_len ssc adi prov_dir = do
    prov_start ←
        needed_symbol ssc adi Adi.provisioning_start (codes "ADIProvisioningStart")
          (missing_symbol (codes "ADIProvisioningStart"))
    reply ←
        call_or_return (codes "ADIProvisioningStart") prov_start
          (number dsid ∷ in_bytes spim ∷ number spim_len ∷ out ∷ out ∷ out ∷ [])
          (remove_dir prov_dir)
    cpim ← lift (out_data (get_or reply.outs 0 0) (out32 reply 1))
    finish (answer (value anisette_ok) (start_json cpim (out32 reply 2)))

  -- The file that the libraries generated, which is removed once it is read.
  unfoldable pub generated :
      (prov_dir : Text) → (file : Option (ℕ × List ℕ)) → Step p Response Response
  generated prov_dir none = do lift (remove_dir prov_dir); finish (end_response none)
  generated prov_dir (some file) = do
    lift (host_does (λ w. p.unlink w (adi_pb_path prov_dir)))
    lift (remove_dir prov_dir)
    finish (end_response (some file))

  unfoldable pub end_c :
      (session : ℕ)
      → (ptm : Option (List ℕ)) → (ptm_len : ℕ) → (tk : Option (List ℕ)) → (tk_len : ℕ) → Body p
  end_c session ptm ptm_len tk tk_len ssc adi prov_dir = do
    prov_end ←
        needed_symbol ssc adi Adi.provisioning_end (codes "ADIProvisioningEnd")
          (missing_symbol (codes "ADIProvisioningEnd"))
    reply ←
        call_or_return (codes "ADIProvisioningEnd") prov_end
          (number session ∷ in_bytes ptm ∷ number ptm_len ∷ in_bytes tk ∷ number tk_len ∷ [])
          (remove_dir prov_dir)
    file ← lift (gets (λ s. p.host.read_file s.world (adi_pb_path prov_dir)))
    generated prov_dir file

  unfoldable pub cancel_c : (session : ℕ) → Body p
  cancel_c session ssc adi prov_dir = do
    destroy ←
        needed_symbol ssc adi Adi.destroy_session (codes "ADIProvisioningDestroy")
          (no_text (value anisette_err_symbol_missing))
    reply ← lift (native_call destroy (number session ∷ []))
    lift (remove_dir prov_dir)
    finish (no_text reply.result)
