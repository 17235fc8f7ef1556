-- ===== src/Emulator/Relocation.antt =====
-- `apply_vm_relocations` and `relocate_all_vm_libraries` of Native/Loader/elf_loader_emulator.cpp.
-- The counts that they only print are left out.
use anisette_kit.Prelude.{
  ℕ, zero, suc, ◌+◌, ◌-◌, ◌/◌, Bool, not, ◌&&◌, ◌||◌, Option, none, some, List, [], ◌∷◌, ◌==◌,
  if◌then◌else◌, add64, le_bytes,
}
use anisette_kit.Emulator.Host.{Host}
use anisette_kit.Emulator.Unicorn.{Unicorn}
use anisette_kit.Emulator.Vm.{LibraryInfo, when, Command, pure, ◌>>=◌, ◌>>◌, mem_read, mem_write}
use anisette_kit.Emulator.Symbols.{field, mapped_at, vm_resolve_symbol}

-- `Elf64_Rela`, its `r_info` split by `ELF64_R_TYPE` and `ELF64_R_SYM`.
pub record Elf64Rela : Type 0 where
  pub r_offset : ℕ
  pub type : ℕ
  pub sym_idx : ℕ
  pub r_addend : ℕ

abbrev pub sizeof_rela : ℕ
sizeof_rela = 24

unfoldable pub elf64_rela : List ℕ → Elf64Rela
elf64_rela bytes = record {
  r_offset = field 0 8 bytes;
  type = field 8 4 bytes;
  sym_idx = field 12 4 bytes;
  r_addend = field 16 8 bytes;
}

-- `R_AARCH64_RELATIVE`, and the types that need a symbol.
abbrev pub is_relative : ℕ → Bool
is_relative type = type == 1027

abbrev pub is_symbolic : ℕ → Bool
is_symbolic type = (type == 1026) || (type == 1025) || (type == 257)

module _ {u : Unicorn} {h : Host} where
  unfoldable pub relocate_symbol : Elf64Rela → (target_addr sym_addr : ℕ) → Command u h (Unit {0})
  relocate_symbol r target_addr sym_addr =
      when (not (sym_addr == 0)) (mem_write target_addr (le_bytes 8 (add64 sym_addr r.r_addend)))

  unfoldable pub apply_entry : LibraryInfo → Elf64Rela → Command u h (Unit {0})
  apply_entry lib r =
      let target_addr : ℕ = mapped_at lib r.r_offset in
      if is_relative r.type
      then mem_write target_addr (le_bytes 8 (mapped_at lib r.r_addend))
      else when (is_symbolic r.type)
          (do sym_addr ← vm_resolve_symbol lib r.sym_idx; relocate_symbol r target_addr sym_addr)

  -- One round of the loop, and the rounds behind it if the entry can be read.
  unfoldable pub apply_read :
      LibraryInfo → Option (List ℕ) → Command u h (Unit {0}) → Command u h (Unit {0})
  apply_read lib none rest = pure tt
  apply_read lib (some bytes) rest = apply_entry lib (elf64_rela bytes) >> rest

  -- `left` is the number of entries that begin before the table's size.
  unfoldable pub apply_loop :
      (left : ℕ) → LibraryInfo → (rela_ptr offset : ℕ) → Command u h (Unit {0})
  apply_loop zero lib rela_ptr offset = pure tt
  apply_loop (suc left) lib rela_ptr offset = do
    bytes ← mem_read (add64 rela_ptr offset) sizeof_rela
    apply_read lib bytes (apply_loop left lib rela_ptr (add64 offset sizeof_rela))

  unfoldable pub apply_table : LibraryInfo → (rela_ptr sz : ℕ) → Command u h (Unit {0})
  apply_table lib rela_ptr sz =
      when (not (rela_ptr == 0) && not (sz == 0))
        (apply_loop ((sz + (sizeof_rela - 1)) / sizeof_rela) lib rela_ptr 0)

  unfoldable pub apply_vm_relocations : LibraryInfo → Command u h (Unit {0})
  apply_vm_relocations lib = do
    apply_table lib lib.rela lib.relasz
    apply_table lib lib.jmprel lib.pltrelsz

  unfoldable pub relocate_libraries : List LibraryInfo → Command u h (Unit {0})
  relocate_libraries [] = pure tt
  relocate_libraries (lib ∷ libs) = apply_vm_relocations lib >> relocate_libraries libs

  unfoldable pub relocate_all_vm_libraries : Command u h (Unit {0})
  relocate_all_vm_libraries vm = relocate_libraries vm.loaded_libraries vm
