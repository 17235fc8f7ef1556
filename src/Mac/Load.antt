-- ===== src/Mac/Load.antt =====
-- `ElfLoader::load` of Native/Loader/elf_loader_host.cpp, without its printing; `rounds` bounds its
-- loops over memory.
pub mod Names
use anisette_kit.Prelude.{
  ℕ, zero, suc, ◌+◌, ◌-◌, ◌*◌, ◌^◌, Bool, true, false, not, ◌&&◌, ◌||◌, Option, none, some, List,
  [], ◌∷◌, ◌++◌, ◌==◌, if◌then◌else◌, ltb, length, take, replicate, add64, sub64,
}
use anisette_kit.Prelude.Text.{Text, text_eq}
use anisette_kit.Emulator.Vm.{Run, ok, and_then}
use anisette_kit.Emulator.Elf.{
  Elf64Ehdr, elf64_ehdr, sizeof_ehdr, Elf64Phdr, headers_at, pt_load, pt_dynamic, slice,
}
use anisette_kit.Mac.Platform.{Platform}
use anisette_kit.Mac.Process.{
  ElfLoader, SegmentInfo, Process, Action, pure, ◌>>=◌, ◌>>◌, checked, gets, update, host_does,
  host_step, store_bytes, loader_at, change_loader,
}
use anisette_kit.Mac.Registry.{when, insert_ordered}
use anisette_kit.Mac.Resolve.{init_bionic_ctype}
use anisette_kit.Mac.Relocate.{relocate}
use anisette_kit.Mac.Tables.{DynamicTables, no_tables, tables_loop, count_symbols}
use anisette_kit.Mac.Exports.{Exports, collect_exports}

unfoldable pub has_load : List Elf64Phdr → Bool
has_load [] = false
has_load (ph ∷ phs) = (ph.p_type == pt_load) || has_load phs

-- The loop that finds `min_vaddr` and `max_vaddr`.
unfoldable pub range_step : Elf64Phdr → ℕ × ℕ → ℕ × ℕ
range_step ph (min_vaddr, max_vaddr) =
    let seg_end : ℕ = add64 ph.p_vaddr ph.p_memsz in
    if ph.p_type == pt_load
    then (
      if ltb ph.p_vaddr min_vaddr then ph.p_vaddr else min_vaddr,
      if ltb max_vaddr seg_end then seg_end else max_vaddr,
    )
    else (min_vaddr, max_vaddr)

unfoldable pub range_loop : List Elf64Phdr → ℕ × ℕ → ℕ × ℕ
range_loop [] range = range
range_loop (ph ∷ phs) range = range_loop phs (range_step ph range)

unfoldable pub image_size : List Elf64Phdr → ℕ
image_size phs = let range : ℕ × ℕ = range_loop phs (2 ^ 64 - 1, 0) in sub64 range.1 range.0

-- The first PT_DYNAMIC's address.
unfoldable pub dynamic_vaddr : List Elf64Phdr → Option ℕ
dynamic_vaddr [] = none
dynamic_vaddr (ph ∷ phs) =
    let rest = dynamic_vaddr phs in if ph.p_type == pt_dynamic then some ph.p_vaddr else rest

abbrev pub is_arm64_elf : Elf64Ehdr → Bool
is_arm64_elf ehdr =
    text_eq (take 4 ehdr.e_ident) (0x7f ∷ 0x45 ∷ 0x4c ∷ 0x46 ∷ []) && (ehdr.e_machine == 183)

-- A copy of no bytes does not look at the file.
unfoldable pub file_part : List ℕ → Elf64Phdr → Option (List ℕ)
file_part file ph = if ph.p_filesz == 0 then some [] else slice file ph.p_offset ph.p_filesz

abbrev pub segment_info : Elf64Phdr → SegmentInfo
segment_info ph = record { vaddr = ph.p_vaddr; memsz = ph.p_memsz; flags = ph.p_flags }

-- What stands behind the last slash.
unfoldable pub after_slash : Text → Option Text
after_slash [] = none
after_slash (c ∷ s) = elim (after_slash s) [
  | some name ↦ some name
  | none ↦ if c == b'/' then some s else none
]

unfoldable pub file_name : Text → Text
file_name path = elim (after_slash path) [ some name ↦ name | none ↦ path ]

module _ {p : Platform} where
  unfoldable pub copy_segment : (this base : ℕ) → List ℕ → Elf64Phdr → Action p (Unit {0})
  copy_segment this base file ph = do
    change_loader this (λ l. record l { segments = l.segments ++ segment_info ph ∷ [] })
    part ← checked (file_part file ph)
    store_bytes (add64 base ph.p_vaddr) part
    when (ltb ph.p_filesz ph.p_memsz) (
        store_bytes (add64 (add64 base ph.p_vaddr) ph.p_filesz)
          (replicate (ph.p_memsz - ph.p_filesz) 0))

  unfoldable pub copy_segments : (this base : ℕ) → List ℕ → List Elf64Phdr → Action p (Unit {0})
  copy_segments this base file [] = pure tt
  copy_segments this base file (ph ∷ phs) = do
    when (ph.p_type == pt_load) (copy_segment this base file ph)
    copy_segments this base file phs

  -- The entries for the path and for the name of the file.
  unfoldable pub register_loader : (this : ℕ) → (path : Text) → Action p (Unit {0})
  register_loader this path = update (λ s. record s {
    loaded_libraries =
        insert_ordered (file_name path) this (insert_ordered path this s.loaded_libraries);
  })

  unfoldable pub keep_tables :
      (this : ℕ) → DynamicTables → (sym_count : ℕ) → Exports → Action p (Unit {0})
  keep_tables this t sym_count exports = change_loader this (λ l. record l {
    exports = exports;
    rela_ptr = t.rela;
    rela_sz = t.relasz;
    rel_ptr = t.rel;
    rel_sz = t.relsz;
    jmprel_ptr = t.jmprel;
    pltrel_sz = t.pltrelsz;
    pltrel_kind = t.pltrel_type;
    sym_tab = t.symtab;
    str_tab = t.strtab;
    sym_cnt = sym_count;
  })

  unfoldable pub load_symbols :
      (rounds : ℕ) → (this : ℕ) → (path : Text) → DynamicTables → Action p Bool
  load_symbols rounds this path t = do
    sym_count ← count_symbols rounds t
    l ← loader_at this
    exports ← collect_exports rounds t sym_count l.exports
    keep_tables this t sym_count exports
    relocate rounds this
    host_does (λ w. p.jit_write_protect w true)
    register_loader this path
    pure true

  unfoldable pub load_tables :
      (rounds : ℕ) → (this : ℕ) → (path : Text) → DynamicTables → Action p Bool
  load_tables rounds this path t =
      if (t.symtab == 0) || (t.strtab == 0) then pure false else load_symbols rounds this path t

  unfoldable pub load_dynamic :
      (rounds : ℕ) → (this : ℕ) → (path : Text) → (base : ℕ) → Option ℕ → Action p Bool
  load_dynamic rounds this path base none = pure false
  load_dynamic rounds this path base (some vaddr) = do
    t ← tables_loop rounds (add64 base vaddr) (no_tables base)
    load_tables rounds this path t

  unfoldable pub load_mapped :
      (rounds : ℕ)
      → (this : ℕ) → (path : Text) → List ℕ
      → List Elf64Phdr
      → (total_size : ℕ) → (addr : Option ℕ) → Action p Bool
  load_mapped rounds this path file phs total_size none = pure false
  load_mapped rounds this path file phs total_size (some addr) = do
    change_loader this (λ l. record l { base_addr = addr; code_size = total_size; segments = [] })
    copy_segments this addr file phs
    load_dynamic rounds this path addr (dynamic_vaddr phs)

  unfoldable pub load_image :
      (rounds : ℕ) → (this : ℕ) → (path : Text) → List ℕ → List Elf64Phdr → Action p Bool
  load_image rounds this path file phs =
      if has_load phs
      then (do
        change_loader this (λ l. record l { total_size = image_size phs })
        addr ← host_step (λ w. p.mmap w (image_size phs))
        load_mapped rounds this path file phs (image_size phs) addr)
      else pure false

  unfoldable pub load_elf :
      (rounds : ℕ) → (this : ℕ) → (path : Text) → List ℕ → Elf64Ehdr → Action p Bool
  load_elf rounds this path file ehdr =
      if is_arm64_elf ehdr
      then (do
        phs ← checked (headers_at ehdr.e_phnum file ehdr.e_phoff ehdr.e_phentsize)
        load_image rounds this path file phs)
      else pure false

  -- A file that cannot be opened, that is not read to its end, or that is too short for a header.
  unfoldable pub load_path :
      (rounds : ℕ) → (this : ℕ) → (path : Text) → Option (ℕ × List ℕ) → Action p Bool
  load_path rounds this path none = pure false
  load_path rounds this path (some (file_size, file)) =
      if not (length file == file_size) || ltb file_size sizeof_ehdr
      then pure false
      else load_elf rounds this path file (elf64_ehdr file)

  unfoldable pub load : (rounds : ℕ) → (this : ℕ) → (path : Text) → Action p Bool
  load rounds this path = do
    init_bionic_ctype
    host_does (λ w. p.jit_write_protect w false)
    file ← gets (λ s. p.host.read_file s.world path)
    load_path rounds this path file
