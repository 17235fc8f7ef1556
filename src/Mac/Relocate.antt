-- ===== src/Mac/Relocate.antt =====
-- `ElfLoader::relocate` of Native/Loader/elf_loader_host.cpp. The counts that it only prints are left
-- out.
pub mod Quiet
pub mod Pages
use anisette_kit.Prelude.{
  ℕ, zero, suc, ◌+◌, ◌-◌, ◌/◌, ◌*◌, Bool, true, false, not, ◌&&◌, ◌||◌, Option, none, some, List,
  [], ◌∷◌, ◌==◌, if◌then◌else◌, le_bytes, bit_and, add64, sub64, not64,
}
use anisette_kit.Emulator.Vm.{Run, ok, and_then}
use anisette_kit.Emulator.Symbols.{field}
use anisette_kit.Emulator.Relocation.{Elf64Rela, sizeof_rela, elf64_rela, is_relative}
use anisette_kit.Mac.Platform.{Platform}
use anisette_kit.Mac.Process.{
  ElfLoader, SegmentInfo, Process, Action, pure, ◌>>=◌, ◌>>◌, host_step, load_bytes, load_number,
  store_bytes, loader_at,
}
use anisette_kit.Mac.Registry.{when}
use anisette_kit.Mac.Resolve.{resolve_symbol}

abbrev pub sizeof_rel : ℕ
sizeof_rel = 16

-- An entry without an addend, with the one that its target holds.
unfoldable pub elf64_rel : List ℕ → (implicit_addend : ℕ) → Elf64Rela
elf64_rel bytes implicit_addend = record {
  r_offset = field 0 8 bytes;
  type = field 8 4 bytes;
  sym_idx = field 12 4 bytes;
  r_addend = implicit_addend;
}

abbrev pub page_mask : (page_sz : ℕ) → ℕ
page_mask page_sz = not64 (page_sz - 1)

-- The pages of a segment: their start and their size.
unfoldable pub segment_pages : (page_sz base : ℕ) → SegmentInfo → ℕ × ℕ
segment_pages page_sz base seg =
    let seg_base : ℕ = add64 base seg.vaddr in
    let page_start : ℕ = bit_and seg_base (page_mask page_sz) in
    let offset : ℕ = sub64 seg_base page_start in
    (page_start, bit_and (sub64 (add64 (add64 seg.memsz offset) page_sz) 1) (page_mask page_sz))

-- `has_exec && !has_write`
unfoldable pub is_code : SegmentInfo → Bool
is_code seg = not (bit_and seg.flags 1 == 0) && (bit_and seg.flags 2 == 0)

module _ {p : Platform} where
  unfoldable pub apply_rela_entry : (rounds : ℕ) → ElfLoader → Elf64Rela → Action p (Unit {0})
  apply_rela_entry rounds l r =
      let target : ℕ = add64 l.base_addr r.r_offset in
      if is_relative r.type
      then store_bytes target (le_bytes 8 (add64 l.base_addr r.r_addend))
      else if r.type == 257
      then (do
        addr ← resolve_symbol rounds l r.sym_idx
        store_bytes target (le_bytes 8 (add64 addr r.r_addend)))
      else if (r.type == 1025) || (r.type == 1026)
      then (do addr ← resolve_symbol rounds l r.sym_idx; store_bytes target (le_bytes 8 addr))
      else pure tt

  unfoldable pub rela_loop :
      (left : ℕ) → (rounds : ℕ) → ElfLoader → (table : ℕ) → Action p (Unit {0})
  rela_loop zero rounds l table = pure tt
  rela_loop (suc left) rounds l table = do
    bytes ← load_bytes table sizeof_rela
    apply_rela_entry rounds l (elf64_rela bytes)
    rela_loop left rounds l (add64 table sizeof_rela)

  unfoldable pub apply_rel_entry : (rounds : ℕ) → ElfLoader → List ℕ → Action p (Unit {0})
  apply_rel_entry rounds l bytes = do
    implicit_addend ← load_number (add64 l.base_addr (field 0 8 bytes)) 8
    apply_rela_entry rounds l (elf64_rel bytes implicit_addend)

  unfoldable pub rel_loop :
      (left : ℕ) → (rounds : ℕ) → ElfLoader → (table : ℕ) → Action p (Unit {0})
  rel_loop zero rounds l table = pure tt
  rel_loop (suc left) rounds l table = do
    bytes ← load_bytes table sizeof_rel
    apply_rel_entry rounds l bytes
    rel_loop left rounds l (add64 table sizeof_rel)

  -- The two lambdas with the tests before their calls.
  unfoldable pub apply_rela : (rounds : ℕ) → ElfLoader → (table size : ℕ) → Action p (Unit {0})
  apply_rela rounds l table size =
      when (not (table == 0) && not (size == 0)) (rela_loop (size / sizeof_rela) rounds l table)

  unfoldable pub apply_rel : (rounds : ℕ) → ElfLoader → (table size : ℕ) → Action p (Unit {0})
  apply_rel rounds l table size =
      when (not (table == 0) && not (size == 0)) (rel_loop (size / sizeof_rel) rounds l table)

  unfoldable pub apply_jmprel : (rounds : ℕ) → ElfLoader → Action p (Unit {0})
  apply_jmprel rounds l =
      if l.pltrel_kind == 17
      then apply_rel rounds l l.jmprel_ptr l.pltrel_sz
      else apply_rela rounds l l.jmprel_ptr l.pltrel_sz

  unfoldable pub protect_pages : (page_start seg_sz : ℕ) → Action p (Unit {0})
  protect_pages page_start seg_sz = do
    kr ← host_step (λ w. p.vm_protect w page_start seg_sz)
    when (not kr) (host_step (λ w. p.mprotect w page_start seg_sz) >>= λ res. pure tt)

  unfoldable pub protect_segments : (base : ℕ) → List SegmentInfo → Action p (Unit {0})
  protect_segments base [] = pure tt
  protect_segments base (seg ∷ segs) = do
    let pages : ℕ × ℕ = segment_pages p.page_size base seg
    when (is_code seg) (protect_pages pages.0 pages.1)
    protect_segments base segs

  unfoldable pub relocate_loader : (rounds : ℕ) → ElfLoader → Action p (Unit {0})
  relocate_loader rounds l = do
    apply_rela rounds l l.rela_ptr l.rela_sz
    apply_rel rounds l l.rel_ptr l.rel_sz
    apply_jmprel rounds l
    protect_segments l.base_addr l.segments

  unfoldable pub relocate : (rounds : ℕ) → (this : ℕ) → Action p (Unit {0})
  relocate rounds this = do
    l ← loader_at this
    when (not (l.base_addr == 0) && not (l.sym_tab == 0) && not (l.str_tab == 0))
        (relocate_loader rounds l)
