-- ===== src/Emulator/Allocator.antt =====
-- `PageAllocator` of Native/Loader/elf_loader_emulator.{h,cpp}: a bump allocator.
pub mod Blocks
use anisette_kit.Prelude.{
  ℕ, ◌+◌, ◌-◌, bit_and, ltb, ◌==◌, if◌then◌else◌, add64, sub64, not64, Option, none, some, List, [],
  ◌∷◌,
}

pub record PageAllocator : Type 0 where
  pub base : ℕ
  pub size : ℕ
  pub offset : ℕ
  pub alignment : ℕ

-- The constructor.
abbrev pub page_allocator : (base_addr total_size align_bytes : ℕ) → PageAllocator
page_allocator base_addr total_size align_bytes = record {
  base = base_addr;
  size = total_size;
  offset = 0;
  alignment = align_bytes;
}

-- `(bytes + align_mask) & ~align_mask`, and `alignment` where that is 0.
unfoldable pub aligned_size : (alignment bytes : ℕ) → ℕ
aligned_size alignment bytes =
    let align_mask : ℕ = sub64 alignment 1 in
    let aligned : ℕ = bit_and (add64 bytes align_mask) (not64 align_mask) in
    if aligned == 0 then alignment else aligned

-- `none` is the call of `abort`.
unfoldable pub alloc : PageAllocator → ℕ → Option (ℕ × PageAllocator)
alloc a bytes =
    let aligned : ℕ = aligned_size a.alignment bytes in
    if ltb a.size (add64 a.offset aligned)
    then none
    else some (add64 a.base a.offset, record a { offset = add64 a.offset aligned })
