-- ===== src/Emulator/Tests/Loading.antt =====
-- The theorems on the loader at concrete inputs.
use anisette_kit.Emulator.Unicorn.{byte, collect}
use anisette_kit.Emulator.Allocator.{aligned_size, alloc, page_allocator}
use anisette_kit.Emulator.Host.{Host}
use anisette_kit.Prelude.{
  sym, subst, ◌⊎◌, false, ◌<◌, true, some, Bool, ℕ, ◌+◌, ◌-◌, ◌*◌, ◌^◌, ◌≡◌, refl, none, List, [],
  ◌∷◌, ◌++◌, replicate, le_bytes, le_value, arith, All,
}
use anisette_kit.Prelude.Text.{text_eq, codes}
use anisette_kit.Emulator.Vm.{import_address, Run, Vm, LibraryInfo, ok}
use anisette_kit.Emulator.Elf.{slice, phdrs, elf64_phdr, elf64_ehdr, Elf64Phdr, Elf64Dyn, elf64_dyn}
use anisette_kit.Emulator.Symbols.{sizeof_sym}
use anisette_kit.Emulator.Machine.{is_mapped, machine_laws, host, machine, guest}
use anisette_kit.Emulator.Loader.{
  new_library, elf_magic, load_library_to_vm, load_file, load_headers, map_image, fill_image,
}
use anisette_kit.Emulator.Loader.Placed.{ArePlaced}
use anisette_kit.Emulator.Loader.Outcomes.{load_library_to_vm-ArePlaced}
use anisette_kit.Emulator.Segments.{
  write_bss, write_file_part, load_segment, segment_step, segment_loop, span_loop, span_step,
  page_down,
}
use anisette_kit.Emulator.Segments.{load_segment}
use anisette_kit.Emulator.Segments.Content.{ChangesOnly, load_segment_lem}
use anisette_kit.Emulator.Segments.Image.{InImage, span_loop-InImage}
use anisette_kit.Emulator.Dynamic.{read_dynamic, read_symbols}
use anisette_kit.Emulator.Dynamic.Tables.{HoldsTable, set_entries, read_dynamic_lem}
use anisette_kit.Emulator.Dynamic.Ends.{read_symbols_ends}

abbrev text_segment : Elf64Phdr
text_segment = record {
  p_type = 1;
  p_flags = 0;
  p_offset = 0;
  p_vaddr = 0x100;
  p_filesz = 0x200;
  p_memsz = 0x200;
}

abbrev data_segment : Elf64Phdr
data_segment = record {
  p_type = 1;
  p_flags = 0;
  p_offset = 0x200;
  p_vaddr = 0x1_2000;
  p_filesz = 0x10;
  p_memsz = 0x8000;
}

abbrev segments : List Elf64Phdr
segments = text_segment ∷ data_segment ∷ []

abbrev two_pages : LibraryInfo
two_pages = new_library (codes "libCoreADI.so") 0x1000_0000 0 0x2_0000

segments_span : span_loop segments (2 ^ 64 - 1, 0) ≡ (two_pages.min_vaddr, two_pages.max_vaddr)
unfolding span_loop span_step page_down
segments_span = refl

span_loop-InImage_example : All (InImage two_pages) segments
span_loop-InImage_example =
    span_loop-InImage segments two_pages (omega arith, (omega arith, tt)) segments_span
      (omega arith)

abbrev with_dynamic : LibraryInfo
with_dynamic = record two_pages { dynamic_address = 0x1000 }

abbrev symtab_entry : Elf64Dyn
symtab_entry = record { d_tag = 6; d_val = 0x300 }

abbrev table_bytes : List ℕ
table_bytes = le_bytes 8 6 ++ (le_bytes 8 0x300 ++ replicate 16 0)

holds_table : HoldsTable machine (guest [] table_bytes).uc 0x1000 (symtab_entry ∷ [])
unfolding le_bytes elf64_dyn le_value
holds_table = (
  (le_bytes 8 6 ++ le_bytes 8 0x300, refl, refl),
  λ e. omega arith,
  omega arith,
  (replicate 16 0, refl, refl),
)

read_dynamic_lem_example :
    read_dynamic machine 2 (guest [] table_bytes).uc with_dynamic
    ≡ ok (set_entries (symtab_entry ∷ []) with_dynamic)
read_dynamic_lem_example =
    read_dynamic_lem machine 2 (guest [] table_bytes).uc (symtab_entry ∷ []) with_dynamic
      (omega arith) (omega arith) (omega arith) holds_table

abbrev with_symbols : LibraryInfo
with_symbols = record two_pages { symtab = 0x1000; strtab = 0x1010; strsz = 4 }

behind_symbols :
    machine.mem_read (guest [] (replicate 40 1)).uc (0x1000 + sizeof_sym * 1) sizeof_sym ≡ none
behind_symbols = refl

read_symbols_ends_example :
    (lib' : LibraryInfo) × (read_symbols machine 2 (guest [] (replicate 40 1)).uc with_symbols
      ≡ ok lib')
read_symbols_ends_example =
    read_symbols_ends machine 2 (guest [] (replicate 40 1)).uc 1 with_symbols (omega arith)
      behind_symbols (omega arith)

-- A file with a header and one segment without bytes of its own.
abbrev small_elf : List ℕ
small_elf =
    elf_magic
    ++ (replicate 25 0
        ++ (le_bytes 8 64
            ++ (replicate 16 0
                ++ (le_bytes 2 1
                    ++ (replicate 6 0
                        ++ (le_bytes 4 1
                            ++ (replicate 36 0 ++ (le_bytes 8 0x3000 ++ replicate 8 0))))))))

abbrev elf_host : Host
elf_host = record host { read_file = λ w path. some (120, small_elf) }

abbrev empty_vm : Vm machine elf_host
empty_vm = record {
  uc = (guest [] []).uc;
  world = 0;
  heap = (guest [] []).heap;
  library_alloc = page_allocator 0x1000_0000 0x3000_0000 0x1_0000;
  imported_symbols = [];
  import_stubs = [];
  next_import_address = import_address;
  fd_map = [];
  next_guest_fd = 10;
  errno_addr = 0x3FF0_0000;
  loaded_libraries = [];
}

empty_vm-ArePlaced : ArePlaced empty_vm.library_alloc []
empty_vm-ArePlaced = record {
  valid = record {
    small = omega arith;
    aligned = refl;
    units = refl;
    within = omega arith;
    in_word = omega arith;
  };
  whole = refl;
  bounded = omega arith;
  in_order = omega arith;
}

abbrev load_small : Run (Bool × Vm machine elf_host)
load_small = load_library_to_vm 9 (codes "/lib/libCoreADI.so") (codes "libCoreADI.so") empty_vm

abbrev vm_of : Run (Bool × Vm machine elf_host) → Vm machine elf_host
vm_of (ok (b, vm)) = vm
vm_of _ = empty_vm

loads_small : load_small ≡ ok (true, vm_of load_small)
unfolding load_library_to_vm load_file load_headers map_image fill_image elf64_ehdr elf64_phdr phdrs
    slice le_bytes le_value text_eq span_loop span_step page_down alloc aligned_size segment_loop
    segment_step load_segment write_file_part write_bss read_dynamic read_symbols
loads_small = refl

abbrev small_header : Elf64Phdr
small_header = record {
  p_type = 1;
  p_flags = 0;
  p_offset = 0;
  p_vaddr = 0;
  p_filesz = 0;
  p_memsz = 0x3000;
}

small_phdrs :
    phdrs (elf64_ehdr small_elf).e_phnum small_elf (elf64_ehdr small_elf).e_phoff
    ≡ some (small_header ∷ [])
unfolding elf64_ehdr elf64_phdr phdrs slice le_bytes le_value
small_phdrs = refl

small_span : (span_loop (small_header ∷ []) (2 ^ 64 - 1, 0)).1 < 2 ^ 63
unfolding span_loop span_step page_down
small_span = omega arith

low_segments :
    (size : ℕ) (file : List ℕ) (phs : List Elf64Phdr)
    → elf_host.read_file empty_vm.world (codes "/lib/libCoreADI.so") ≡ some (size, file)
    → phdrs (elf64_ehdr file).e_phnum file (elf64_ehdr file).e_phoff ≡ some phs
    → (span_loop phs (2 ^ 64 - 1, 0)).1 < 2 ^ 63
low_segments size file phs read at =
    let same : small_elf ≡ file = cc in
    let at' =
      subst (λ f. phdrs (elf64_ehdr f).e_phnum f (elf64_ehdr f).e_phoff ≡ some phs) (sym same) at in
    let one : small_header ∷ [] ≡ phs = cc (small_phdrs, at') in
    subst (λ phs. (span_loop phs (2 ^ 64 - 1, 0)).1 < 2 ^ 63) one small_span

load_library_to_vm-ArePlaced_example :
    ArePlaced (vm_of load_small).library_alloc (vm_of load_small).loaded_libraries
    × (((true ≡ false) × ((vm_of load_small).loaded_libraries ≡ []))
        ⊎ ((lib : LibraryInfo) × (true ≡ true) × ((vm_of load_small).loaded_libraries ≡ lib ∷ [])))
load_library_to_vm-ArePlaced_example =
    load_library_to_vm-ArePlaced 9 (codes "/lib/libCoreADI.so") (codes "libCoreADI.so") empty_vm
      (vm_of load_small) true empty_vm-ArePlaced low_segments loads_small

abbrev bss_segment : Elf64Phdr
bss_segment = record {
  p_type = 1;
  p_flags = 0;
  p_offset = 1;
  p_vaddr = 8;
  p_filesz = 2;
  p_memsz = 6;
}

abbrev low_library : LibraryInfo
low_library = new_library (codes "libCoreADI.so") 0x1000 0 0x1_0000

in_file : slice (1 ∷ 2 ∷ 3 ∷ []) 1 2 ≡ some (2 ∷ 3 ∷ [])
unfolding slice
in_file = refl

load_segment_lem_example :
    (s' : machine.State) × (load_segment machine
        (1 ∷ 2 ∷ 3 ∷ [])
        low_library
        bss_segment
        (guest [] (replicate 64 7)).uc
      ≡ ok s')
    × (collect (byte machine s') 0x1008 2 ≡ some (2 ∷ 3 ∷ []))
    × (collect (byte machine s') 0x100A 4 ≡ some (replicate 4 0))
    × ChangesOnly machine_laws 0x1008 0x100E (guest [] (replicate 64 7)).uc s'
load_segment_lem_example =
    load_segment_lem machine_laws (1 ∷ 2 ∷ 3 ∷ []) low_library bss_segment
      (guest [] (replicate 64 7)).uc (2 ∷ 3 ∷ []) in_file (omega arith) (omega arith)
      (is_mapped (guest [] (replicate 64 7)).uc 0x1008 6)
