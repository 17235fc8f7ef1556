-- ===== src/Emulator/Vm.antt =====
-- `EmulatorVM` of Native/Loader/elf_loader_emulator.h: its state, its constants, and commands on it.
pub mod Maps
pub mod Runs
use anisette_kit.Prelude.{
  ℕ, Bool, true, false, Option, none, some, List, [], ◌∷◌, ◌==◌, if◌then◌else◌,
}
use anisette_kit.Prelude.Text.{Text}
use anisette_kit.Emulator.Allocator
use anisette_kit.Emulator.Allocator.{PageAllocator}
use anisette_kit.Emulator.Unicorn.{Unicorn, Reg}
use anisette_kit.Emulator.Host.{Host}

abbrev pub return_address : ℕ
return_address = 0xDEAD_0000

abbrev pub heap_address : ℕ
heap_address = 0x4800_0000

abbrev pub heap_size : ℕ
heap_size = 0x2000_0000

abbrev pub stack_address : ℕ
stack_address = 0x7000_0000

abbrev pub stack_size : ℕ
stack_size = 0x100_0000

abbrev pub import_address : ℕ
import_address = 0x8000_0000

abbrev pub import_size : ℕ
import_size = 0x1_0000

pub record LibraryInfo : Type 0 where
  pub name : Text
  pub base_address : ℕ
  pub min_vaddr : ℕ
  pub max_vaddr : ℕ
  pub dynamic_address : ℕ
  pub symtab : ℕ
  pub strtab : ℕ
  pub strsz : ℕ
  pub rel : ℕ
  pub relsz : ℕ
  pub rela : ℕ
  pub relasz : ℕ
  pub jmprel : ℕ
  pub pltrelsz : ℕ
  pub init_func : ℕ
  pub init_array : ℕ
  pub init_arraysz : ℕ
  pub symbols : List (Text × ℕ)
  pub needed_libs : List Text

-- `imported_symbols` and `import_stubs` are maps, `fd_map` is one from guest to host descriptors;
-- `world` is the host that the hooks call.
pub record Vm (u : Unicorn) (h : Host) : Type 0 where
  pub uc : u.State
  pub world : h.World
  pub heap : PageAllocator
  pub library_alloc : PageAllocator
  pub imported_symbols : List (Text × ℕ)
  pub import_stubs : List (ℕ × Text)
  pub next_import_address : ℕ
  pub fd_map : List (ℕ × ℕ)
  pub next_guest_fd : ℕ
  pub errno_addr : ℕ
  pub loaded_libraries : List LibraryInfo

-- How a command ends: with a result, by `abort`, not within the rounds that its loops are given, or
-- by a read outside of a buffer of the host, whose behaviour C++ leaves undefined.
pub data Run {ℓ} (A : Type ℓ) : Type ℓ where
  ok : A → Run A
  aborted : Run A
  out_of_fuel : Run A
  undefined : Run A

abbrev pub and_then {ℓ κ} : {A : Type ℓ} {B : Type κ} → Run A → (A → Run B) → Run B
and_then (ok a) k = k a
and_then aborted k = aborted
and_then out_of_fuel k = out_of_fuel
and_then undefined k = undefined

-- Maps with numbers for keys.
module _ {ℓ} {V : Type ℓ} where
  unfoldable pub find_key : ℕ → List (ℕ × V) → Option V
  find_key k [] = none
  find_key k ((j, v) ∷ m) = if j == k then some v else find_key k m

  unfoldable pub insert_key : ℕ → V → List (ℕ × V) → List (ℕ × V)
  insert_key k v [] = (k, v) ∷ []
  insert_key k v ((j, w) ∷ m) = if j == k then (j, v) ∷ m else (j, w) ∷ insert_key k v m

  unfoldable pub erase_key : ℕ → List (ℕ × V) → List (ℕ × V)
  erase_key k [] = []
  erase_key k ((j, w) ∷ m) = let rest = erase_key k m in if j == k then rest else (j, w) ∷ rest

module _ (u : Unicorn) (h : Host) where
  abbrev pub Command : Type 0 → Type 0
  Command A = Vm u h → Run (A × Vm u h)

module _ {u : Unicorn} {h : Host} where
  abbrev pub pure : {A : Type 0} → A → Command u h A
  pure a vm = ok (a, vm)

  infixl 5 ◌>>=◌ ◌>>◌
  abbrev pub ◌>>=◌ : {A B : Type 0} → Command u h A → (A → Command u h B) → Command u h B
  ◌>>=◌ m f vm = and_then (m vm) λ r. f r.0 r.1

  abbrev pub ◌>>◌ : {B : Type 0} → Command u h (Unit {0}) → Command u h B → Command u h B
  m >> k = m >>= λ _. k

  -- `uc_reg_read`, `uc_reg_write`, `uc_mem_write` on `vm->uc`.
  abbrev pub reg_read : Reg → Command u h ℕ
  reg_read r vm = ok (u.reg_read vm.uc r, vm)

  abbrev pub reg_write : Reg → ℕ → Command u h (Unit {0})
  reg_write r value vm = ok (tt, record vm { uc = u.reg_write vm.uc r value })

  abbrev pub mem_read : (address size : ℕ) → Command u h (Option (List ℕ))
  mem_read address size vm = ok (u.mem_read vm.uc address size, vm)

  abbrev pub mem_write : (address : ℕ) → List ℕ → Command u h (Unit {0})
  mem_write address bytes vm = ok (tt, record vm { uc = u.mem_write vm.uc address bytes })

  -- `if (test) command`
  abbrev pub when : Bool → Command u h (Unit {0}) → Command u h (Unit {0})
  when true command = command
  when false command = pure tt

  abbrev pub take_block : Option (ℕ × PageAllocator) → Command u h ℕ
  take_block none vm = aborted
  take_block (some (ptr, heap)) vm = ok (ptr, record vm { heap = heap })

  -- `vm->heap.alloc(bytes)`
  abbrev pub heap_alloc : ℕ → Command u h ℕ
  heap_alloc bytes vm = take_block (Allocator.alloc vm.heap bytes) vm
