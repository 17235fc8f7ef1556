-- ===== src/Emulator/Dynamic.antt =====
-- The loops of `load_library_to_vm` over the dynamic section and the symbols, in the guest's memory
-- (Native/Loader/elf_loader_emulator.cpp).
pub mod Tables
pub mod Ends
use anisette_kit.Prelude.{
  ℕ, zero, suc, ◌*◌, sym, ◌&&◌, ◌||◌, Option, none, some, List, ltb, leb, ◌==◌, if◌then◌else◌,
  length, add64,
}
use anisette_kit.Prelude.Text.{Text, insert}
use anisette_kit.Emulator.Unicorn.{Unicorn}
use anisette_kit.Emulator.Vm.{LibraryInfo, Run, ok, out_of_fuel}
use anisette_kit.Emulator.Elf.{Elf64Dyn, sizeof_dyn, elf64_dyn}
use anisette_kit.Emulator.Symbols.{Elf64Sym, elf64_sym, sizeof_sym, mapped_at, c_text}
use anisette_kit.Emulator.Memory.{buffer}

-- The `switch` on the tag of a dynamic entry, for its value as a number and as an address.
unfoldable pub set_dynamic : (tag val ptr : ℕ) → LibraryInfo → LibraryInfo
set_dynamic tag val ptr lib =
    if tag == 6
    then record lib { symtab = ptr }
    else if tag == 5
    then record lib { strtab = ptr }
    else if tag == 10
    then record lib { strsz = val }
    else if tag == 17
    then record lib { rel = ptr }
    else if tag == 18
    then record lib { relsz = val }
    else if tag == 7
    then record lib { rela = ptr }
    else if tag == 8
    then record lib { relasz = val }
    else if tag == 23
    then record lib { jmprel = ptr }
    else if tag == 2
    then record lib { pltrelsz = val }
    else if tag == 12
    then record lib { init_func = ptr }
    else if tag == 25
    then record lib { init_array = ptr }
    else if tag == 27
    then record lib { init_arraysz = val }
    else lib

-- The value of an entry as an address of the guest.
unfoldable pub dynamic_ptr : LibraryInfo → (val : ℕ) → ℕ
dynamic_ptr lib val =
    if leb lib.min_vaddr val then mapped_at lib val else add64 lib.base_address val

unfoldable pub set_entry : Elf64Dyn → LibraryInfo → LibraryInfo
set_entry dyn lib = set_dynamic dyn.d_tag dyn.d_val (dynamic_ptr lib dyn.d_val) lib

-- A round of the loop over the dynamic section: it ends where nothing can be read, and at DT_NULL.
unfoldable pub dynamic_round :
    Option (List ℕ) → LibraryInfo → (next : LibraryInfo → Run LibraryInfo) → Run LibraryInfo
dynamic_round none lib next = ok lib
dynamic_round (some bytes) lib next =
    let dyn : Elf64Dyn = elf64_dyn bytes in
    let rest = next (set_entry dyn lib) in if dyn.d_tag == 0 then ok lib else rest

-- What a symbol that has a name and a value adds.
unfoldable pub add_symbol : Elf64Sym → Text → LibraryInfo → LibraryInfo
add_symbol sym sym_name lib =
    if sym.st_value == 0
    then lib
    else record lib { symbols = insert sym_name (mapped_at lib sym.st_value) lib.symbols }

-- A round of the loop over the symbols, at the offset behind the symbol.
unfoldable pub symbol_round :
    Elf64Sym
    → Text
    → (sym_offset : ℕ) → LibraryInfo
    → (next : LibraryInfo → Run LibraryInfo) → Run LibraryInfo
symbol_round sym sym_name sym_offset lib next =
    let skipped = next lib in
    let added = next (add_symbol sym sym_name lib) in
    if leb lib.strsz sym.st_name
    then skipped
    else if length sym_name == 0
    then if ltb (sizeof_sym * 4) sym_offset && (sym.st_value == 0) then ok lib else skipped
    else added

module _ (u : Unicorn) where
  unfoldable pub dynamic_loop :
      (rounds : ℕ) → u.State → (dyn_offset : ℕ) → LibraryInfo → Run LibraryInfo
  dynamic_loop zero s dyn_offset lib = out_of_fuel
  dynamic_loop (suc rounds) s dyn_offset lib =
      dynamic_round (u.mem_read s (add64 lib.dynamic_address dyn_offset) sizeof_dyn) lib
        λ lib'. dynamic_loop rounds s (add64 dyn_offset sizeof_dyn) lib'

  -- `name_buf.data()`, the 255 bytes of it that are read.
  unfoldable pub name_at : u.State → LibraryInfo → (st_name : ℕ) → Text
  name_at s lib st_name = c_text (buffer (u.mem_read s (add64 lib.strtab st_name) 255) 255)

  unfoldable pub symbol_read :
      u.State
      → Option (List ℕ)
      → (sym_offset : ℕ) → LibraryInfo
      → (next : LibraryInfo → Run LibraryInfo) → Run LibraryInfo
  symbol_read s none sym_offset lib next = ok lib
  symbol_read s (some bytes) sym_offset lib next =
      symbol_round (elf64_sym bytes) (name_at s lib (elf64_sym bytes).st_name) sym_offset lib next

  unfoldable pub symbol_loop :
      (rounds : ℕ) → u.State → (sym_offset : ℕ) → LibraryInfo → Run LibraryInfo
  symbol_loop zero s sym_offset lib = out_of_fuel
  symbol_loop (suc rounds) s sym_offset lib =
      symbol_read s (u.mem_read s (add64 lib.symtab sym_offset) sizeof_sym)
        (add64 sym_offset sizeof_sym) lib
        λ lib'. symbol_loop rounds s (add64 sym_offset sizeof_sym) lib'

  -- Both loops, under their conditions.
  unfoldable pub read_dynamic : (rounds : ℕ) → u.State → LibraryInfo → Run LibraryInfo
  read_dynamic rounds s lib =
      if lib.dynamic_address == 0 then ok lib else dynamic_loop rounds s 0 lib

  unfoldable pub read_symbols : (rounds : ℕ) → u.State → LibraryInfo → Run LibraryInfo
  read_symbols rounds s lib =
      if (lib.symtab == 0) || (lib.strtab == 0) || (lib.strsz == 0)
      then ok lib
      else symbol_loop rounds s 0 lib
