-- ===== src/Mac/Load/Names.antt =====
-- What a call of `load` does to the loaders and the names.
use anisette_kit.Prelude.{
  ℕ, ◌≡◌, refl, Bool, true, false, ◌==◌, if◌then◌else◌, Option, none, some, List, [], ◌∷◌, ltb, not,
  ◌||◌, length,
}
use anisette_kit.Prelude.Text.{Text}
use anisette_kit.Emulator.Elf.{Elf64Ehdr, Elf64Phdr, elf64_ehdr, pt_load, sizeof_ehdr}
use anisette_kit.Emulator.Vm.{ok}
use anisette_kit.Mac.Platform.{Platform}
use anisette_kit.Mac.Process.{Process, pure}
use anisette_kit.Mac.Process.Quiet.{
  Skeleton, skeleton, Quiet, Quiet-bind, Quiet-pure, Quiet-gets, Quiet-checked, Quiet-loader_at,
  Quiet-store_bytes, Quiet-change_loader, Quiet-host_does, Quiet-host_step,
}
use anisette_kit.Mac.Process.Triples.{
  Fact, Triple, Triple-Quiet, Triple-bind, Triple-pure, Triple-update, Triple-if,
}
use anisette_kit.Mac.Registry.{insert_ordered}
use anisette_kit.Mac.Resolve.Quiet.{Quiet-when, Quiet-init_bionic_ctype}
use anisette_kit.Mac.Relocate.Quiet.{Quiet-relocate}
use anisette_kit.Mac.Exports.Quiet.{Quiet-tables_loop, Quiet-count_symbols, Quiet-collect_exports}
use anisette_kit.Mac.Tables.{DynamicTables}
use anisette_kit.Mac.Load.{
  file_name, has_load, copy_segment, copy_segments, file_part, register_loader, keep_tables,
  load_symbols, load_tables, load_dynamic, load_mapped, load_image, image_size, is_arm64_elf,
  load_elf, load_path, load, dynamic_vaddr,
}

-- The entries for the path and for the name of the file, added.
abbrev pub registered : (this : ℕ) → (path : Text) → Skeleton → Skeleton
registered this path k = record k {
  names = insert_ordered (file_name path) this (insert_ordered path this k.names);
}

-- What holds behind a call of `load` that returned a truth value.
abbrev pub Loaded : (P : Fact) → (this : ℕ) → (path : Text) → Bool → Fact
Loaded P this path true k = (before : Skeleton) × P before × (k ≡ registered this path before)
Loaded P this path false k = P k

by_result :
    (this : ℕ) (path : Text) (b : Bool) (before k : Skeleton)
    → Loaded (λ k. k ≡ before) this path b k
    → k ≡ (if b then registered this path before else before)
by_result this path true before k (b, h, e) = rw h at e
by_result this path false before k h = h

module _ {p : Platform} where
  Quiet-copy_segment :
      (this base : ℕ) (file : List ℕ) (ph : Elf64Phdr)
      → Quiet (copy_segment {p = p} this base file ph)
  unfolding copy_segment
  Quiet-copy_segment this base file ph = Quiet-bind (Quiet-change_loader this _ λ l. refl) λ _.
      Quiet-bind (Quiet-checked (file_part file ph)) λ part.
        Quiet-bind (Quiet-store_bytes _ part)
          λ _. Quiet-when (ltb ph.p_filesz ph.p_memsz) (Quiet-store_bytes _ _)

  Quiet-copy_segments :
      (this base : ℕ) (file : List ℕ) (phs : List Elf64Phdr)
      → Quiet (copy_segments {p = p} this base file phs)
  unfolding copy_segments
  Quiet-copy_segments this base file [] = Quiet-pure tt
  Quiet-copy_segments this base file (ph ∷ phs) =
      Quiet-bind (Quiet-when (ph.p_type == pt_load) (Quiet-copy_segment this base file ph))
        λ _. Quiet-copy_segments this base file phs

  module _ (P : Fact) (rounds this : ℕ) (path : Text) where
    not_loaded : Triple {p = p} P (pure false) (Loaded P this path)
    not_loaded = Triple-pure (Loaded P this path) false λ k h. h

    load_symbols-Loaded :
        (t : DynamicTables)
        → Triple {p = p} P (load_symbols rounds this path t) (Loaded P this path)
    unfolding load_symbols keep_tables register_loader
    load_symbols-Loaded t = Triple-bind (Triple-Quiet (Quiet-count_symbols rounds t)) λ n.
        Triple-bind (Triple-Quiet (Quiet-loader_at this)) λ l.
          Triple-bind (Triple-Quiet (Quiet-collect_exports rounds t n l.exports)) λ m.
            Triple-bind (Triple-Quiet (Quiet-change_loader this _ λ l. refl)) λ _.
              Triple-bind (Triple-Quiet (Quiet-relocate rounds this)) λ _.
                Triple-bind (Triple-Quiet (Quiet-host_does _)) λ _.
                  Triple-bind
                    (Triple-update (λ _. Loaded P this path true) _ λ s h. (skeleton s, h, refl))
                    λ _. Triple-pure (Loaded P this path) true λ k h. h

    load_dynamic-Loaded :
        (base : ℕ) (o : Option ℕ)
        → Triple {p = p} P (load_dynamic rounds this path base o) (Loaded P this path)
    unfolding load_dynamic load_tables
    load_dynamic-Loaded base none = not_loaded
    load_dynamic-Loaded base (some vaddr) =
        Triple-bind (Triple-Quiet (Quiet-tables_loop rounds _ _))
          λ t. Triple-if ((t.symtab == 0) || (t.strtab == 0)) not_loaded (load_symbols-Loaded t)

    load_mapped-Loaded :
        (file : List ℕ) (phs : List Elf64Phdr) (total_size : ℕ) (addr : Option ℕ)
        → Triple {p = p} P
            (load_mapped rounds this path file phs total_size addr)
            (Loaded P this path)
    unfolding load_mapped
    load_mapped-Loaded file phs total_size none = not_loaded
    load_mapped-Loaded file phs total_size (some addr) =
        Triple-bind (Triple-Quiet (Quiet-change_loader this _ λ l. refl)) λ _.
          Triple-bind (Triple-Quiet (Quiet-copy_segments this addr file phs))
            λ _. load_dynamic-Loaded addr (dynamic_vaddr phs)

    load_elf-Loaded :
        (file : List ℕ) (ehdr : Elf64Ehdr)
        → Triple {p = p} P (load_elf rounds this path file ehdr) (Loaded P this path)
    unfolding load_elf load_image
    load_elf-Loaded file ehdr =
        Triple-if (is_arm64_elf ehdr)
          (Triple-bind (Triple-Quiet (Quiet-checked _)) λ phs.
            Triple-if (has_load phs)
              (Triple-bind (Triple-Quiet (Quiet-change_loader this _ λ l. refl)) λ _.
                Triple-bind (Triple-Quiet (Quiet-host_step _))
                  λ addr. load_mapped-Loaded file phs (image_size phs) addr)
              not_loaded)
          not_loaded

    load_path-Loaded :
        (o : Option (ℕ × List ℕ))
        → Triple {p = p} P (load_path rounds this path o) (Loaded P this path)
    unfolding load_path
    load_path-Loaded none = not_loaded
    load_path-Loaded (some (file_size, file)) =
        Triple-if (not (length file == file_size) || ltb file_size sizeof_ehdr) not_loaded
          (load_elf-Loaded file (elf64_ehdr file))

    pub Triple-load : Triple {p = p} P (load rounds this path) (Loaded P this path)
    unfolding load
    Triple-load = Triple-bind (Triple-Quiet Quiet-init_bionic_ctype) λ _.
        Triple-bind (Triple-Quiet (Quiet-host_does _))
          λ _. Triple-bind (Triple-Quiet (Quiet-gets _)) λ file. load_path-Loaded file

  -- A call of load that returns true adds the names of the file for its loader, one that returns
  -- false adds none; neither makes or deletes a loader, connects loaders, or changes the globals.
  pub load-registered :
      (rounds this : ℕ) (path : Text) (s s' : Process p) (b : Bool)
      → load rounds this path s ≡ ok (b, s')
      → skeleton s' ≡ (if b then registered this path (skeleton s) else skeleton s)
  load-registered rounds this path s s' b e =
      by_result this path b (skeleton s) (skeleton s')
        ((Triple-load (λ k. k ≡ skeleton s) rounds this path).ends s s' b refl e)
