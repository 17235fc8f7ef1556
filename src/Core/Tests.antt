-- ===== src/Core/Tests.antt =====
-- Runs of the core over the guest machine, and its theorems at concrete inputs.
use anisette_kit.Core.Entries.{after_setup, with_setup, given_out, given, get_anisette_headers_uc}
use anisette_kit.Prelude.{
  ℕ, ◌≡◌, refl, true, Option, none, some, List, [], ◌∷◌, ◌++◌, arith, replicate,
}
use anisette_kit.Prelude.Int.{pos, minus, int_eq}
use anisette_kit.Prelude.Text.{Text, codes, text_eq, find}
use anisette_kit.Base.Uuid.{format_uuid_string, get_android_id_string, snprintf, print}
use anisette_kit.Base.Base64.RoundTrip.{base64_decode}
use anisette_kit.Emulator.Allocator.{alloc, aligned_size}
use anisette_kit.Emulator.Unicorn.{x, pc, err_ok}
use anisette_kit.Emulator.Vm.{out_of_fuel, LibraryInfo, Run, ok}
use anisette_kit.Emulator.Imports.{
  map_regions, emulator_vm, find_symbol, get_vm_symbol_address, write_bytes, write_string,
}
use anisette_kit.Emulator.Loader.{load_file, load_library_to_vm, new_library}
use anisette_kit.Emulator.Machine.{machine, host, guest}
use anisette_kit.Emulator.Procedure.{EmuStart, exit_value, run_vm_procedure}
use anisette_kit.Core.Adi
use anisette_kit.Core.Json.{headers_json, start_json}
use anisette_kit.Core.Json.Reader.{read_object, string, number}
use anisette_kit.Core.Json.RoundTrip.{read_object-headers_json, read_object-start_json}
use anisette_kit.Core.Session.{Session, Globals, idle, running, Result, done, continue}
use anisette_kit.Core.Session.Triples.{Holds}
use anisette_kit.Core.Setup.{
  load_libraries, initialize_libraries, uuid_prov_dir, setup_symbol, setup_call, need_libraries,
  set_prov_path, need_prov_path, set_id, need_id, setup_session, shared_vm, after_session,
  setup_shared, setup_vm_and_adi,
}
use anisette_kit.Core.Setup.Facts.{IsConsistent, IsSetUp}
use anisette_kit.Core.Setup.Again.{AllHold, setup_vm_and_adi-IsSetUp, setup_vm_and_adi_again}
use anisette_kit.Core.Bodies.{error, Response}
use anisette_kit.Core.Entries.Calls.{
  Call, get_anisette_headers, serve, start, call, Reachable-IsConsistent, serve-all_given,
}

-- An engine whose calls return 0 at once.
abbrev returns_zero : EmuStart machine host
returns_zero begin until vm =
    ok (err_ok, record vm { uc = machine.reg_write (machine.reg_write vm.uc pc until) (x 0) 0 })

-- A library with the functions that the core calls.
abbrev adi_library : LibraryInfo
adi_library = record (new_library Adi.lib_core_adi 0x1000_0000 0 0x1_0000) {
  symbols =
      (Adi.set_provisioning_path, 0x1000_1000)
      ∷ (Adi.set_android_id, 0x1000_2000)
      ∷ (Adi.otp_request, 0x1000_3000)
      ∷ (Adi.destroy_session, 0x1000_4000)
      ∷ [];
}

abbrev loaded : Session machine host
loaded = record {
  vm = record (guest [] []) { loaded_libraries = adi_library ∷ [] };
  current_prov_path = [];
  current_android_id = [];
  libraries_initialized = true;
}

abbrev id : List ℕ
id = replicate 16 0xAB

abbrev session_of :
    Run (Result (Text × Globals machine host) (Text × Session machine host)) → Session machine host
session_of (ok (done (dir, s))) = s
session_of _ = loaded

abbrev run_setup : Run (Result (Text × Globals machine host) (Text × Session machine host))
run_setup =
    setup_vm_and_adi returns_zero 9 none (some (codes "/lib")) (codes "/prov") id (running loaded)

sets_up : run_setup ≡ ok (done (uuid_prov_dir (codes "/prov") id, session_of run_setup))
unfolding setup_vm_and_adi setup_shared shared_vm after_session setup_session need_libraries
    need_prov_path set_prov_path need_id set_id setup_symbol setup_call continue
    get_vm_symbol_address find_symbol find text_eq write_string write_bytes alloc aligned_size
    run_vm_procedure exit_value int_eq get_android_id_string snprintf print uuid_prov_dir
    format_uuid_string
sets_up = refl

nothing_told : AllHold IsConsistent (running loaded)
nothing_told off = (refl, refl)

abbrev prov_dir : Text
prov_dir = uuid_prov_dir (codes "/prov") id

setup_vm_and_adi-IsSetUp_example :
    (prov_dir ≡ uuid_prov_dir (codes "/prov") id)
    × Holds (IsSetUp prov_dir (get_android_id_string (some id))) (session_of run_setup)
setup_vm_and_adi-IsSetUp_example =
    setup_vm_and_adi-IsSetUp returns_zero 9 none (codes "/lib") (codes "/prov") id (running loaded)
      prov_dir (session_of run_setup) nothing_told sets_up

-- An engine that does not return.
abbrev hangs : EmuStart machine host
hangs begin until vm = out_of_fuel

setup_vm_and_adi_again_example :
    setup_vm_and_adi hangs 0 none
      (some (codes "/lib"))
      (codes "/prov")
      id
      (running (session_of run_setup))
    ≡ ok (
        done (
          prov_dir,
          record (session_of run_setup) {
            vm = record (session_of run_setup).vm {
              world = (host.mkdir (session_of run_setup).vm.world prov_dir 0o755).1;
            };
          },
        ))
setup_vm_and_adi_again_example =
    setup_vm_and_adi_again returns_zero hangs 9 0 none none (codes "/lib") (codes "/prov") id
      (running loaded) prov_dir (session_of run_setup) nothing_told sets_up refl

abbrev no_directory : Call
no_directory = get_anisette_headers (some (codes "/lib")) none (some id) (some []) true

serve-all_given_example :
    serve returns_zero 9 none no_directory (running loaded)
    ≡ ok (record { code = minus 1; json = none }, running loaded)
serve-all_given_example = serve-all_given returns_zero 9 none no_directory (running loaded) refl

-- A call whose libraries cannot be read: the machine is there afterwards, and nothing is initialised.
abbrev headers : Call
headers = get_anisette_headers (some (codes "/lib")) (some (codes "/prov")) (some id) (some []) true

abbrev globals_of : Run (Response × Globals machine host) → Globals machine host
globals_of (ok (r, g)) = g
globals_of _ = idle 0

abbrev response_of : Run (Response × Globals machine host) → Response
response_of (ok (r, g)) = r
response_of _ = record { code = pos 0; json = none }

abbrev machine_start : Option (machine.State)
machine_start = some (guest [] []).uc

abbrev first_call : Run (Response × Globals machine host)
first_call = serve returns_zero 9 machine_start headers (idle 0)

first_call_fails : first_call ≡ ok (response_of first_call, globals_of first_call)
unfolding serve get_anisette_headers_uc given given_out with_setup after_setup setup_vm_and_adi
    setup_shared shared_vm emulator_vm map_regions after_session setup_session need_libraries
    initialize_libraries load_libraries load_library_to_vm load_file continue error
first_call_fails = refl

Reachable-IsConsistent_example : AllHold IsConsistent (globals_of first_call)
Reachable-IsConsistent_example =
    Reachable-IsConsistent returns_zero 9 machine_start (globals_of first_call) (
      call headers (idle 0) (globals_of first_call) (response_of first_call) (start 0)
        first_call_fails)

abbrev second_call : Run (Response × Globals machine host)
second_call = serve returns_zero 9 none headers (running (session_of run_setup))

read_object-headers_json_example :
    (mid : Text) × (otp : Text) × (read_object (headers_json (1 ∷ 2 ∷ []) (255 ∷ []))
      ≡ some (
          (codes "X-Apple-I-MD-M", string mid)
          ∷ (codes "X-Apple-I-MD", string otp)
          ∷ (codes "X-Apple-I-MD-RINFO", string (codes "17106176"))
          ∷ (codes "X-Apple-I-MD-LU", string (replicate 63 b'0' ++ codes "1"))
          ∷ []))
    × (base64_decode mid ≡ some (1 ∷ 2 ∷ []))
    × (base64_decode otp ≡ some (255 ∷ []))
read_object-headers_json_example =
    read_object-headers_json (1 ∷ 2 ∷ []) (255 ∷ []) (omega arith, (omega arith, tt))
      (omega arith, tt)

read_object-start_json_example :
    (cpim : Text) × (read_object (start_json (7 ∷ []) 1234)
      ≡ some ((codes "cpim_base64", string cpim) ∷ (codes "session", number 1234) ∷ []))
    × (base64_decode cpim ≡ some (7 ∷ []))
read_object-start_json_example =
    read_object-start_json (7 ∷ []) 1234 (omega arith, tt) (omega arith)
