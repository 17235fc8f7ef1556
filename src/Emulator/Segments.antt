-- ===== src/Emulator/Segments.antt =====
-- The loops of `load_library_to_vm` over the program headers (Native/Loader/elf_loader_emulator.cpp):
-- the span of the image, and the copies of its segments into the guest.
pub mod Image
pub mod Content
use anisette_kit.Prelude.{
  ℕ, ◌-◌, Option, none, some, List, [], ◌∷◌, ltb, ◌==◌, if◌then◌else◌, replicate, add64, not64,
  bit_and,
}
use anisette_kit.Emulator.Unicorn.{Unicorn}
use anisette_kit.Emulator.Vm.{LibraryInfo, Run, ok, undefined, and_then}
use anisette_kit.Emulator.Elf.{Elf64Phdr, pt_load, pt_dynamic, slice}
use anisette_kit.Emulator.Symbols.{mapped_at}

-- `& ~0xFFFFULL`
unfoldable pub page_down : ℕ → ℕ
page_down a = bit_and a (not64 0xFFFF)

abbrev pub seg_start : Elf64Phdr → ℕ
seg_start ph = page_down ph.p_vaddr

abbrev pub seg_end : Elf64Phdr → ℕ
seg_end ph = page_down (add64 (add64 ph.p_vaddr ph.p_memsz) 0xFFFF)

-- A round of the loop over the segments, on `min_vaddr` and `max_vaddr`.
unfoldable pub span_step : Elf64Phdr → ℕ × ℕ → ℕ × ℕ
span_step ph (min_vaddr, max_vaddr) =
    if ph.p_type == pt_load
    then (
      if ltb (seg_start ph) min_vaddr then seg_start ph else min_vaddr,
      if ltb max_vaddr (seg_end ph) then seg_end ph else max_vaddr,
    )
    else (min_vaddr, max_vaddr)

unfoldable pub span_loop : List Elf64Phdr → ℕ × ℕ → ℕ × ℕ
span_loop [] span = span
span_loop (ph ∷ phs) span = span_loop phs (span_step ph span)

module _ (u : Unicorn) where
  -- The copy of a segment's part of the file, which is `none` where it does not lie in the file.
  unfoldable pub write_file_part : u.State → (dest filesz : ℕ) → Option (List ℕ) → Run u.State
  write_file_part s dest filesz part =
      if filesz == 0
      then ok s
      else elim part [ none ↦ undefined | some bytes ↦ ok (u.mem_write s dest bytes) ]

  unfoldable pub write_bss : u.State → (dest filesz memsz : ℕ) → u.State
  write_bss s dest filesz memsz =
      if ltb filesz memsz
      then u.mem_write s (add64 dest filesz) (replicate (memsz - filesz) 0)
      else s

  unfoldable pub load_segment : List ℕ → LibraryInfo → Elf64Phdr → u.State → Run u.State
  load_segment file lib ph s =
      let dest : ℕ = mapped_at lib ph.p_vaddr in
      and_then (write_file_part s dest ph.p_filesz (slice file ph.p_offset ph.p_filesz))
        λ s'. ok (write_bss s' dest ph.p_filesz ph.p_memsz)

  -- A round of the loop that copies the segments and finds the dynamic section.
  unfoldable pub segment_step :
      List ℕ → Elf64Phdr → LibraryInfo → u.State → Run (LibraryInfo × u.State)
  segment_step file ph lib s =
      if ph.p_type == pt_load
      then and_then (load_segment file lib ph s) (λ s'. ok (lib, s'))
      else if ph.p_type == pt_dynamic
      then ok (record lib { dynamic_address = mapped_at lib ph.p_vaddr }, s)
      else ok (lib, s)

  unfoldable pub segment_loop :
      List ℕ → List Elf64Phdr → LibraryInfo → u.State → Run (LibraryInfo × u.State)
  segment_loop file [] lib s = ok (lib, s)
  segment_loop file (ph ∷ phs) lib s =
      and_then (segment_step file ph lib s) λ r. segment_loop file phs r.0 r.1
