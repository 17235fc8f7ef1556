-- ===== src/Emulator/Loader.antt =====
-- `load_library_to_vm` of Native/Loader/elf_loader_emulator.cpp. Its printing is left out. The program
-- headers are taken from the file at once; the source reads them where it looks at them, and one that
-- does not lie in the file is a read outside of its buffer either way.
pub mod Images
pub mod Placed
pub mod Outcomes
use anisette_kit.Prelude.{
  ℕ, ◌-◌, ◌^◌, Bool, true, false, not, Option, none, some, List, [], ◌∷◌, ◌++◌, ltb, leb, ◌==◌,
  if◌then◌else◌, length, take,
}
use anisette_kit.Prelude.Text.{Text, text_eq}
use anisette_kit.Emulator.Host.{Host}
use anisette_kit.Emulator.Allocator.{PageAllocator, alloc}
use anisette_kit.Emulator.Unicorn.{Unicorn, prot_all}
use anisette_kit.Emulator.Vm.{LibraryInfo, ok, aborted, undefined, and_then, Command}
use anisette_kit.Emulator.Elf.{Elf64Ehdr, sizeof_ehdr, elf64_ehdr, Elf64Phdr, phdrs}
use anisette_kit.Emulator.Faults.{is_usable}
use anisette_kit.Emulator.Segments.{span_loop, segment_loop}
use anisette_kit.Emulator.Dynamic.{read_dynamic, read_symbols}

abbrev pub new_library : Text → (base_address min_vaddr max_vaddr : ℕ) → LibraryInfo
new_library so_name base_address min_vaddr max_vaddr = record {
  name = so_name;
  base_address = base_address;
  min_vaddr = min_vaddr;
  max_vaddr = max_vaddr;
  dynamic_address = 0;
  symtab = 0;
  strtab = 0;
  strsz = 0;
  rel = 0;
  relsz = 0;
  rela = 0;
  relasz = 0;
  jmprel = 0;
  pltrelsz = 0;
  init_func = 0;
  init_array = 0;
  init_arraysz = 0;
  symbols = [];
  needed_libs = [];
}

-- The first seven bytes of `e_ident`: ELF, 64 bits, little-endian, version 1.
abbrev pub elf_magic : List ℕ
elf_magic = 0x7f ∷ 0x45 ∷ 0x4c ∷ 0x46 ∷ 2 ∷ 1 ∷ 1 ∷ []

module _ {u : Unicorn} {h : Host} where
  -- What follows once the image is mapped at `lib.base_address`.
  unfoldable pub fill_image :
      (rounds : ℕ) → List ℕ → List Elf64Phdr → LibraryInfo → Command u h Bool
  fill_image rounds file phs lib vm = and_then (segment_loop u file phs lib vm.uc) λ r.
      and_then (read_dynamic u rounds r.1 r.0) λ lib'.
        and_then (read_symbols u rounds r.1 lib') λ lib''.
          ok (true, record vm { uc = r.1; loaded_libraries = vm.loaded_libraries ++ lib'' ∷ [] })

  unfoldable pub map_image :
      (rounds : ℕ)
      → List ℕ
      → List Elf64Phdr
      → Text
      → (min_vaddr max_vaddr : ℕ) → Option (ℕ × PageAllocator)
      → Command u h Bool
  map_image rounds file phs so_name min_vaddr max_vaddr none vm = aborted
  map_image rounds file phs so_name min_vaddr max_vaddr (some (base_address, alloc')) vm =
      let (err, s) = u.mem_map vm.uc base_address (max_vaddr - min_vaddr) prot_all in
      if is_usable err
      then fill_image rounds file phs (new_library so_name base_address min_vaddr max_vaddr)
          (record vm { uc = s; library_alloc = alloc' })
      else ok (false, record vm { uc = s; library_alloc = alloc' })

  unfoldable pub load_headers :
      (rounds : ℕ) → List ℕ → Text → Option (List Elf64Phdr) → Command u h Bool
  load_headers rounds file so_name none vm = undefined
  load_headers rounds file so_name (some phs) vm =
      let (min_vaddr, max_vaddr) = span_loop phs (2 ^ 64 - 1, 0) in
      if leb max_vaddr min_vaddr
      then ok (false, vm)
      else map_image rounds file phs so_name min_vaddr max_vaddr
          (alloc vm.library_alloc (max_vaddr - min_vaddr)) vm

  unfoldable pub load_file : (rounds : ℕ) → Option (ℕ × List ℕ) → Text → Command u h Bool
  load_file rounds none so_name vm = ok (false, vm)
  load_file rounds (some (file_size, file)) so_name vm =
      let ehdr : Elf64Ehdr = elf64_ehdr file in
      if not (length file == file_size)
      then ok (false, vm)
      else if ltb file_size sizeof_ehdr
      then ok (false, vm)
      else if not (text_eq (take 7 ehdr.e_ident) elf_magic)
      then ok (false, vm)
      else load_headers rounds file so_name (phdrs ehdr.e_phnum file ehdr.e_phoff) vm

  unfoldable pub load_library_to_vm : (rounds : ℕ) → (file_path so_name : Text) → Command u h Bool
  load_library_to_vm rounds file_path so_name vm =
      load_file rounds (h.read_file vm.world file_path) so_name vm
