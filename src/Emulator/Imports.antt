-- ===== src/Emulator/Imports.antt =====
-- `EmulatorVM`'s constructor, import stubs and copies into the guest's heap, and the symbols of the
-- loaded libraries (Native/Loader/elf_loader_emulator.cpp).
pub mod Stubs
use anisette_kit.Prelude.{
  ℕ, Option, none, some, List, [], ◌∷◌, ◌++◌, ◌==◌, if◌then◌else◌, length, add64, le_bytes,
}
use anisette_kit.Prelude.Text.{Text, find, insert}
use anisette_kit.Emulator.Host.{Host}
use anisette_kit.Emulator.Allocator.{page_allocator}
use anisette_kit.Emulator.Unicorn.{Unicorn, UcProt, prot_none, prot_read_write, prot_all}
use anisette_kit.Emulator.Vm.{
  heap_address, heap_size, stack_address, stack_size, import_address, import_size, LibraryInfo, Run,
  ok, aborted, Vm, Command, pure, ◌>>=◌, ◌>>◌, mem_write, heap_alloc, insert_key,
}

-- The constructor's calls of `uc_mem_map` and the first `uc_mem_write`, whose results it ignores.
-- The callbacks that it registers are definitions of their own.
abbrev pub map_region : (u : Unicorn) → u.State → (address size : ℕ) → UcProt → u.State
map_region u s address size prot = (u.mem_map s address size prot).1

unfoldable pub map_regions : (u : Unicorn) → u.State → u.State
map_regions u s =
    let with_heap = map_region u s heap_address heap_size prot_read_write in
    let with_stack = map_region u with_heap stack_address stack_size prot_read_write in
    let with_imports = map_region u with_stack import_address import_size prot_all in
    let with_null = map_region u with_imports 0 0x1_0000 prot_none in
    let with_errno = map_region u with_null 0x3FF0_0000 0x1_0000 prot_read_write in
    u.mem_write with_errno 0x3FF0_0000 (le_bytes 4 0)

-- `uc_open`'s result is `none` where it fails.
unfoldable pub emulator_vm : {u : Unicorn} {h : Host} → Option u.State → h.World → Run (Vm u h)
emulator_vm none world = aborted
emulator_vm {u} (some uc) world = ok (record {
  uc = map_regions u uc;
  world = world;
  heap = page_allocator heap_address heap_size 64;
  library_alloc = page_allocator 0x1000_0000 0x3000_0000 0x1_0000;
  imported_symbols = [];
  import_stubs = [];
  next_import_address = import_address;
  fd_map = [];
  next_guest_fd = 10;
  errno_addr = 0x3FF0_0000;
  loaded_libraries = [];
})

-- The first library, in the order of loading, that has the symbol.
unfoldable pub find_symbol : Text → List LibraryInfo → Option ℕ
find_symbol name [] = none
find_symbol name (lib ∷ libs) = elim (find name lib.symbols) [
  | some address ↦ some address
  | none ↦ find_symbol name libs
]

-- `ret`
abbrev pub ret_insn : ℕ
ret_insn = 0xD65F_03C0

module _ {u : Unicorn} {h : Host} where
  unfoldable pub new_import : Text → Command u h ℕ
  new_import name vm =
      let stub_addr : ℕ = vm.next_import_address in
      ok (
        stub_addr,
        record vm {
          next_import_address = add64 stub_addr 8;
          uc = u.mem_write vm.uc stub_addr (le_bytes 4 ret_insn);
          imported_symbols = insert name stub_addr vm.imported_symbols;
          import_stubs = insert_key stub_addr name vm.import_stubs;
        },
      )

  unfoldable pub known_or_new : Option ℕ → Text → Command u h ℕ
  known_or_new (some address) name = pure address
  known_or_new none name = new_import name

  unfoldable pub register_import : Text → Command u h ℕ
  register_import name vm = known_or_new (find name vm.imported_symbols) name vm

  -- `none` is a null pointer.
  unfoldable pub write_bytes : Option (List ℕ) → Command u h ℕ
  write_bytes none = pure 0
  write_bytes (some bytes) =
      if length bytes == 0
      then pure 0
      else (do addr ← heap_alloc (add64 (length bytes) 16); mem_write addr bytes; pure addr)

  unfoldable pub write_string : Option Text → Command u h ℕ
  write_string none = pure 0
  write_string (some str) = write_bytes (some (str ++ 0 ∷ []))

  unfoldable pub get_vm_symbol_address : Text → Command u h ℕ
  get_vm_symbol_address name vm = ok (address_or_zero (find_symbol name vm.loaded_libraries), vm)
    where
      address_or_zero : Option ℕ → ℕ
      address_or_zero none = 0
      address_or_zero (some address) = address
