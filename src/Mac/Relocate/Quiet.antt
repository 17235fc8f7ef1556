-- ===== src/Mac/Relocate/Quiet.antt =====
-- How relocation leaves the loaders alone.
use anisette_kit.Prelude.{ℕ, zero, suc, not, ◌&&◌, ◌||◌, ◌==◌, List, [], ◌∷◌}
use anisette_kit.Emulator.Relocation.{Elf64Rela, is_relative, elf64_rela}
use anisette_kit.Mac.Platform.{Platform}
use anisette_kit.Mac.Process.{ElfLoader, SegmentInfo}
use anisette_kit.Mac.Process.Quiet.{
  Quiet, Quiet-bind, Quiet-pure, Quiet-if, Quiet-loader_at, Quiet-load_bytes, Quiet-load_number,
  Quiet-store_bytes, Quiet-host_step,
}
use anisette_kit.Mac.Resolve.Quiet.{Quiet-when, Quiet-resolve_symbol}
use anisette_kit.Mac.Relocate.{
  apply_rela_entry, rela_loop, apply_rel_entry, rel_loop, elf64_rel, apply_rela, apply_rel,
  apply_jmprel, protect_pages, protect_segments, is_code, relocate_loader, relocate,
}

module _ {p : Platform} where
  Quiet-apply_rela_entry :
      (rounds : ℕ) (l : ElfLoader) (r : Elf64Rela) → Quiet (apply_rela_entry {p = p} rounds l r)
  unfolding apply_rela_entry
  Quiet-apply_rela_entry rounds l r = Quiet-if (is_relative r.type) (Quiet-store_bytes _ _) (
      Quiet-if (r.type == 257)
        (Quiet-bind (Quiet-resolve_symbol rounds l r.sym_idx) λ addr. Quiet-store_bytes _ _)
        (Quiet-if ((r.type == 1025) || (r.type == 1026))
          (Quiet-bind (Quiet-resolve_symbol rounds l r.sym_idx) λ addr. Quiet-store_bytes _ _)
          (Quiet-pure tt)))

  Quiet-rela_loop :
      (left rounds : ℕ) (l : ElfLoader) (table : ℕ) → Quiet (rela_loop {p = p} left rounds l table)
  unfolding rela_loop
  Quiet-rela_loop zero rounds l table = Quiet-pure tt
  Quiet-rela_loop (suc left) rounds l table = Quiet-bind (Quiet-load_bytes _ _) λ bytes.
      Quiet-bind (Quiet-apply_rela_entry rounds l (elf64_rela bytes))
        λ _. Quiet-rela_loop left rounds l _

  Quiet-rel_loop :
      (left rounds : ℕ) (l : ElfLoader) (table : ℕ) → Quiet (rel_loop {p = p} left rounds l table)
  unfolding rel_loop apply_rel_entry
  Quiet-rel_loop zero rounds l table = Quiet-pure tt
  Quiet-rel_loop (suc left) rounds l table = Quiet-bind (Quiet-load_bytes _ _) λ bytes.
      Quiet-bind
        (Quiet-bind (Quiet-load_number _ _)
          λ addend. Quiet-apply_rela_entry rounds l (elf64_rel bytes addend))
        λ _. Quiet-rel_loop left rounds l _

  Quiet-apply_rela :
      (rounds : ℕ) (l : ElfLoader) (table size : ℕ) → Quiet (apply_rela {p = p} rounds l table size)
  unfolding apply_rela
  Quiet-apply_rela rounds l table size =
      Quiet-when (not (table == 0) && not (size == 0)) (Quiet-rela_loop _ rounds l table)

  Quiet-apply_rel :
      (rounds : ℕ) (l : ElfLoader) (table size : ℕ) → Quiet (apply_rel {p = p} rounds l table size)
  unfolding apply_rel
  Quiet-apply_rel rounds l table size =
      Quiet-when (not (table == 0) && not (size == 0)) (Quiet-rel_loop _ rounds l table)

  Quiet-protect_pages : (page_start seg_sz : ℕ) → Quiet (protect_pages {p = p} page_start seg_sz)
  unfolding protect_pages
  Quiet-protect_pages page_start seg_sz =
      Quiet-bind (Quiet-host_step _)
        λ kr. Quiet-when (not kr) (Quiet-bind (Quiet-host_step _) λ res. Quiet-pure tt)

  Quiet-protect_segments :
      (base : ℕ) (segs : List SegmentInfo) → Quiet (protect_segments {p = p} base segs)
  unfolding protect_segments
  Quiet-protect_segments base [] = Quiet-pure tt
  Quiet-protect_segments base (seg ∷ segs) =
      Quiet-bind (Quiet-when (is_code seg) (Quiet-protect_pages _ _))
        λ _. Quiet-protect_segments base segs

  Quiet-relocate_loader : (rounds : ℕ) (l : ElfLoader) → Quiet (relocate_loader {p = p} rounds l)
  unfolding relocate_loader apply_jmprel
  Quiet-relocate_loader rounds l = Quiet-bind (Quiet-apply_rela rounds l _ _) λ _.
      Quiet-bind (Quiet-apply_rel rounds l _ _) λ _.
        Quiet-bind
          (Quiet-if (l.pltrel_kind == 17) (Quiet-apply_rel rounds l _ _)
            (Quiet-apply_rela rounds l _ _))
          λ _. Quiet-protect_segments _ _

  pub Quiet-relocate : (rounds this : ℕ) → Quiet (relocate {p = p} rounds this)
  unfolding relocate
  Quiet-relocate rounds this = Quiet-bind (Quiet-loader_at this) λ l.
      Quiet-when (not (l.base_addr == 0) && not (l.sym_tab == 0) && not (l.str_tab == 0))
        (Quiet-relocate_loader rounds l)
