-- ===== src/Emulator/Procedure.antt =====
-- `run_vm_procedure` and `run_library_constructors` of Native/Loader/elf_loader_emulator.cpp. The run
-- of the guest's code, which calls the hooks, is a parameter. `int32_t` results are integers.
pub mod Calls
use anisette_kit.Prelude.{
  ℕ, zero, suc, ◌+◌, ◌-◌, ◌*◌, ◌/◌, ◌^◌, not, ◌&&◌, Option, none, some, List, [], ◌∷◌, ltb, ◌==◌,
  if◌then◌else◌, add64, le_value,
}
use anisette_kit.Emulator.Host.{Host}
use anisette_kit.Emulator.Unicorn.{Unicorn, x, v, sp, lr, pc, w0, UcErr}
use anisette_kit.Emulator.Vm.{
  return_address, stack_address, stack_size, LibraryInfo, ok, and_then, when, Command, pure, ◌>>=◌,
  ◌>>◌, mem_read,
}
use anisette_kit.Prelude.Int.{ℤ, pos, minus}

abbrev pub stack_top : ℕ
stack_top = stack_address + stack_size - 16

-- `(int32_t)w0_val`
abbrev pub int32 : ℕ → ℤ
int32 w = if ltb w (2 ^ 31) then pos w else minus (2 ^ 32 - w)

module _ (u : Unicorn) where
  -- The first 32 vector registers, from `i` down, and the 8 argument registers likewise.
  unfoldable pub clear_vectors : (count : ℕ) → u.State → u.State
  clear_vectors zero s = s
  clear_vectors (suc count) s = u.reg_write (clear_vectors count s) (v count) 0

  unfoldable pub clear_args : (count : ℕ) → u.State → u.State
  clear_args zero s = s
  clear_args (suc count) s = u.reg_write (clear_args count s) (x count) 0

  -- The arguments from the `i`-th on, up to eight.
  unfoldable pub pass_args : (i : ℕ) → List ℕ → u.State → u.State
  pass_args i [] s = s
  pass_args i (a ∷ args) s = pass_args (i + 1) args (if ltb i 8 then u.reg_write s (x i) a else s)

  unfoldable pub prepare : (proc_addr : ℕ) → List ℕ → u.State → u.State
  prepare proc_addr args s =
      let zeroed = clear_vectors 32 (clear_args 8 s) in
      let with_args = pass_args 0 args zeroed in
      let with_sp = u.reg_write with_args sp stack_top in
      let with_lr = u.reg_write with_sp lr return_address in u.reg_write with_lr pc proc_addr

-- `uc_emu_start(uc, begin, until, timeout_us, max_count)` without limits, if it returns.
abbrev pub EmuStart : Unicorn → Host → Type 0
EmuStart u h = (begin until : ℕ) → Command u h UcErr

module _ {u : Unicorn} {h : Host} (emu_start : EmuStart u h) where
  -- The result for the engine's status.
  unfoldable pub exit_value : UcErr → Command u h ℤ
  exit_value err vm =
      if (u.code err == 0) && (u.reg_read vm.uc pc == return_address)
      then ok (int32 (u.reg_read vm.uc w0), vm)
      else ok (minus (1000 + u.code err), vm)

  unfoldable pub run_vm_procedure : (proc_addr : ℕ) → (args : List ℕ) → Command u h ℤ
  run_vm_procedure proc_addr args vm =
      if proc_addr == 0
      then ok (minus 1, vm)
      else and_then
          (emu_start proc_addr return_address (record vm { uc = prepare u proc_addr args vm.uc }))
          λ r. exit_value r.0 r.1

  -- The constructor that an entry names, if it can be read and is not null.
  unfoldable pub run_entry : Option (List ℕ) → Command u h (Unit {0})
  run_entry none = pure tt
  run_entry (some bytes) =
      when (not (le_value bytes == 0)) (run_vm_procedure (le_value bytes) [] >>= λ _. pure tt)

  unfoldable pub run_entries : (left init_array i : ℕ) → Command u h (Unit {0})
  run_entries zero init_array i = pure tt
  run_entries (suc left) init_array i = do
    bytes ← mem_read (add64 init_array (i * 8)) 8
    run_entry bytes
    run_entries left init_array (i + 1)

  unfoldable pub run_constructors_of : LibraryInfo → Command u h (Unit {0})
  run_constructors_of lib = do
    when (not (lib.init_func == 0)) (run_vm_procedure lib.init_func [] >>= λ _. pure tt)
    when (not (lib.init_array == 0) && not (lib.init_arraysz == 0))
        (run_entries (lib.init_arraysz / 8) lib.init_array 0)

  unfoldable pub run_constructors : List LibraryInfo → Command u h (Unit {0})
  run_constructors [] = pure tt
  run_constructors (lib ∷ libs) = run_constructors_of lib >> run_constructors libs

  unfoldable pub run_library_constructors : Command u h (Unit {0})
  run_library_constructors vm = run_constructors vm.loaded_libraries vm
