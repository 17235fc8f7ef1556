-- ===== src/Emulator/Loader/Outcomes.antt =====
-- What `load_library_to_vm` (Emulator/Loader) leaves on each of its branches.
use anisette_kit.Prelude.{
  ℕ, ◌-◌, ◌^◌, ◌<◌, ◌≡◌, refl, ◌∙◌, Bool, true, false, not, Option, none, some, List, [], ◌∷◌, ◌++◌,
  ltb, leb, ◌==◌, length, take, arith, ◌⊎◌, inl, inr, subst, Bool-cases,
}
use anisette_kit.Prelude.Text.{Text, text_eq}
use anisette_kit.Emulator.Host.{Host}
use anisette_kit.Emulator.Allocator.{PageAllocator, alloc}
use anisette_kit.Emulator.Unicorn.{Unicorn, prot_all}
use anisette_kit.Emulator.Vm.{LibraryInfo, Run, ok, Vm}
use anisette_kit.Emulator.Vm.Runs.{and_then-ok, ok-eq}
use anisette_kit.Emulator.Elf.{Elf64Phdr, elf64_ehdr, sizeof_ehdr, phdrs}
use anisette_kit.Emulator.Faults.{is_usable}
use anisette_kit.Emulator.Segments.{span_loop, segment_loop}
use anisette_kit.Emulator.Dynamic.{read_dynamic, read_symbols}
use anisette_kit.Emulator.Loader.{
  new_library, elf_magic, fill_image, map_image, load_headers, load_file, load_library_to_vm,
}
use anisette_kit.Emulator.Loader.Images.{
  image, image-read_dynamic, image-read_symbols, image-segment_loop,
}
use anisette_kit.Emulator.Loader.Placed.{ArePlaced, ArePlaced-alloc, ArePlaced-image}

-- What loading leaves: nothing new, or one more library, and the images in order either way.
abbrev Outcome : {u : Unicorn} {h : Host} → Vm u h → Bool → Vm u h → Type 0
Outcome vm loaded vm' =
    ArePlaced vm'.library_alloc vm'.loaded_libraries
    × (((loaded ≡ false) × (vm'.loaded_libraries ≡ vm.loaded_libraries))
        ⊎ ((lib : LibraryInfo) × (loaded ≡ true)
            × (vm'.loaded_libraries ≡ vm.loaded_libraries ++ lib ∷ [])))

module _ {u : Unicorn} {h : Host} where
  Outcome-ok :
      (vm vm' vm'' : Vm u h) (b b' : Bool)
      → Outcome vm b' vm''
      → ◌≡◌ {A = Run (Bool × Vm u h)} (ok (b', vm'')) (ok (b, vm'))
      → Outcome vm b vm'
  Outcome-ok vm vm' vm'' b b' o e =
      let at : ◌≡◌ {A = Bool × Vm u h} (b', vm'') (b, vm') = ok-eq (b', vm'') (b, vm') e in
      subst (λ (q : Bool × Vm u h). Outcome vm q.0 q.1) at o

  fill_image-Outcome :
      (rounds : ℕ) (file : List ℕ) (phs : List Elf64Phdr) (lib : LibraryInfo) (vm vm' : Vm u h)
      (b : Bool)
      → ((lib' : LibraryInfo)
          → image lib' ≡ image lib
          → ArePlaced vm.library_alloc (vm.loaded_libraries ++ lib' ∷ []))
      → fill_image rounds file phs lib vm ≡ ok (b, vm')
      → Outcome vm b vm'
  unfolding fill_image
  fill_image-Outcome rounds file phs lib vm vm' b place e =
      let (r, first, e1) = and_then-ok (segment_loop u file phs lib vm.uc) _ (b, vm') e in
      let (lib1, second, e2) = and_then-ok (read_dynamic u rounds r.1 r.0) _ (b, vm') e1 in
      let (lib2, third, e3) = and_then-ok (read_symbols u rounds r.1 lib1) _ (b, vm') e2 in
      let same : image lib2 ≡ image lib =
        image-read_symbols u rounds r.1 lib1 lib2 third
        ∙ image-read_dynamic u rounds r.1 r.0 lib1 second
        ∙ image-segment_loop u file phs lib vm.uc r first in
      Outcome-ok vm vm'
        (record vm { uc = r.1; loaded_libraries = vm.loaded_libraries ++ lib2 ∷ [] }) b true
        (place lib2 same, inr (lib2, refl, refl)) e3

  map_image-Outcome :
      (rounds : ℕ) (file : List ℕ) (phs : List Elf64Phdr) (so_name : Text) (min_vaddr max_vaddr : ℕ)
      (block : Option (ℕ × PageAllocator)) (vm vm' : Vm u h) (b : Bool)
      → ArePlaced vm.library_alloc vm.loaded_libraries
      → max_vaddr - min_vaddr < 2 ^ 63
      → alloc vm.library_alloc (max_vaddr - min_vaddr) ≡ block
      → map_image rounds file phs so_name min_vaddr max_vaddr block vm ≡ ok (b, vm')
      → Outcome vm b vm'
  unfolding map_image
  map_image-Outcome rounds file phs so_name min_vaddr max_vaddr none vm vm' b p small got e =
      absurd cc
  map_image-Outcome rounds file phs so_name min_vaddr max_vaddr (some (base_address, alloc')) vm vm'
        b p small got e =
      let mapped = u.mem_map vm.uc base_address (max_vaddr - min_vaddr) prot_all in
      let vm1 : Vm u h = record vm { uc = mapped.1; library_alloc = alloc' } in
      elim (Bool-cases (is_usable mapped.0)) [
        | inl usable ↦
            let e' = rw usable at e in
            fill_image-Outcome rounds file phs
              (new_library so_name base_address min_vaddr max_vaddr) vm1 vm' b
              (λ lib' same.
                ArePlaced-image vm.library_alloc alloc' vm.loaded_libraries (max_vaddr - min_vaddr)
                  base_address p small got lib' (same ∙ (unfold image in refl)))
              e'
        | inr refused ↦
            let e' = rw refused at e in
            Outcome-ok vm vm' vm1 b false
              (
                ArePlaced-alloc vm.library_alloc alloc' vm.loaded_libraries (max_vaddr - min_vaddr)
                    base_address p small got,
                inl (refl, refl),
              )
              e'
      ]

  load_headers-Outcome :
      (rounds : ℕ) (file : List ℕ) (so_name : Text) (o : Option (List Elf64Phdr)) (vm vm' : Vm u h)
      (b : Bool)
      → ArePlaced vm.library_alloc vm.loaded_libraries
      → ((phs : List Elf64Phdr) → o ≡ some phs → (span_loop phs (2 ^ 64 - 1, 0)).1 < 2 ^ 63)
      → load_headers rounds file so_name o vm ≡ ok (b, vm')
      → Outcome vm b vm'
  unfolding load_headers
  load_headers-Outcome rounds file so_name none vm vm' b p low e = absurd cc
  load_headers-Outcome rounds file so_name (some phs) vm vm' b p low e =
      let span = span_loop phs (2 ^ 64 - 1, 0) in
      elim (Bool-cases (leb span.1 span.0)) [
        | inl empty ↦
            let e' = rw empty at e in Outcome-ok vm vm' vm b false (p, inl (refl, refl)) e'
        | inr some_span ↦
            let e' = rw some_span at e in
            map_image-Outcome rounds file phs so_name span.0 span.1 _ vm vm' b p
              (omega (arith, low phs refl)) refl e'
      ]

  load_file-Outcome :
      (rounds : ℕ) (o : Option (ℕ × List ℕ)) (so_name : Text) (vm vm' : Vm u h) (b : Bool)
      → ArePlaced vm.library_alloc vm.loaded_libraries
      → ((size : ℕ) (file : List ℕ) (phs : List Elf64Phdr)
          → o ≡ some (size, file)
          → phdrs (elf64_ehdr file).e_phnum file (elf64_ehdr file).e_phoff ≡ some phs
          → (span_loop phs (2 ^ 64 - 1, 0)).1 < 2 ^ 63)
      → load_file rounds o so_name vm ≡ ok (b, vm')
      → Outcome vm b vm'
  unfolding load_file
  load_file-Outcome rounds none so_name vm vm' b p low e =
      Outcome-ok vm vm' vm b false (p, inl (refl, refl)) e
  load_file-Outcome rounds (some (size, file)) so_name vm vm' b p low e =
      let unchanged = λ (q : ◌≡◌ {A = Run (Bool × Vm u h)} (ok (false, vm)) (ok (b, vm'))).
        Outcome-ok vm vm' vm b false (p, inl (refl, refl)) q in
      elim (Bool-cases (not (length file == size))) [
        | inl short ↦ let e' = rw short at e in unchanged e'
        | inr read ↦ elim (Bool-cases (ltb size sizeof_ehdr)) [
          | inl small ↦ let e' = rw (read, small) at e in unchanged e'
          | inr header ↦
              elim (Bool-cases (not (text_eq (take 7 (elf64_ehdr file).e_ident) elf_magic))) [
                | inl other ↦ let e' = rw (read, header, other) at e in unchanged e'
                | inr elf ↦
                    let e' = rw (read, header, elf) at e in
                    load_headers-Outcome rounds file so_name _ vm vm' b p
                      (λ phs at. low size file phs refl at) e'
              ]
        ]
      ]

  -- Loading a library that ends in a result keeps the images of the libraries in order, so that
  -- none overlaps another, and adds one library at the end if the result is true, and none if it
  -- is false. The file's segments are taken to end below 2^63, and the allocator's range to be
  -- below 2^62.
  pub load_library_to_vm-ArePlaced :
      (rounds : ℕ) (file_path so_name : Text) (vm vm' : Vm u h) (loaded : Bool)
      → ArePlaced vm.library_alloc vm.loaded_libraries
      → ((size : ℕ) (file : List ℕ) (phs : List Elf64Phdr)
          → h.read_file vm.world file_path ≡ some (size, file)
          → phdrs (elf64_ehdr file).e_phnum file (elf64_ehdr file).e_phoff ≡ some phs
          → (span_loop phs (2 ^ 64 - 1, 0)).1 < 2 ^ 63)
      → load_library_to_vm rounds file_path so_name vm ≡ ok (loaded, vm')
      → ArePlaced vm'.library_alloc vm'.loaded_libraries
        × (((loaded ≡ false) × (vm'.loaded_libraries ≡ vm.loaded_libraries))
            ⊎ ((lib : LibraryInfo) × (loaded ≡ true)
                × (vm'.loaded_libraries ≡ vm.loaded_libraries ++ lib ∷ [])))
  unfolding load_library_to_vm
  load_library_to_vm-ArePlaced rounds file_path so_name vm vm' loaded p low e =
      load_file-Outcome rounds (h.read_file vm.world file_path) so_name vm vm' loaded p low e
