-- ===== src/Mac/Relocate/Pages.antt =====
-- The pages that `ElfLoader::relocate` makes executable.
use anisette_kit.Prelude.{
  ℕ, ◌+◌, ◌-◌, ◌*◌, ◌/◌, ◌%◌, ◌^◌, ◌≤◌, ◌<◌, ◌≡◌, arith, add64, sub64, bit_and,
}
use anisette_kit.Prelude.Bits.{bit_and_clear, pow_pos}
use native.Mathlib.Nat.{mul-mod_left}
use anisette_kit.Mac.Process.{SegmentInfo}
use anisette_kit.Mac.Relocate.{segment_pages, page_mask}

round_down :
    (n k x : ℕ) → n + k ≡ 64 → x < 2 ^ 64 → bit_and x (page_mask (2 ^ k)) ≡ x / 2 ^ k * 2 ^ k
round_down n k x e h =
    let mask : page_mask (2 ^ k) ≡ 2 ^ (n + k) - 2 ^ k = rw e (omega (arith, pow_pos k)) in
    rw mask (bit_and_clear n k x (rw e h))

-- For a page size of 2^k, of at most 2^63, and a segment that ends a page or more before the end of the address space,
-- the pages start at a multiple of the page size, are a whole number of pages, and hold the segment.
pub segment_pages_lem :
    (k base : ℕ) (seg : SegmentInfo)
    → k < 64
    → base + seg.vaddr + seg.memsz + 2 ^ k < 2 ^ 64
    → (let (page_start, seg_sz) = segment_pages (2 ^ k) base seg in
        (page_start % 2 ^ k ≡ 0)
        × (seg_sz % 2 ^ k ≡ 0)
        × (page_start ≤ base + seg.vaddr)
        × (base + seg.vaddr + seg.memsz ≤ page_start + seg_sz)
        × (page_start + seg_sz < base + seg.vaddr + seg.memsz + 2 ^ k))
unfolding segment_pages
segment_pages_lem k base seg hk fits =
    let x : ℕ = base + seg.vaddr in
    let y : ℕ = seg.memsz + x % 2 ^ k + 2 ^ k - 1 in
    let pos_page : 0 < 2 ^ k = pow_pos k in
    let sum : 64 - k + k ≡ 64 = omega arith in
    let at : add64 base seg.vaddr ≡ x = omega arith in
    let start : bit_and x (page_mask (2 ^ k)) ≡ x / 2 ^ k * 2 ^ k =
      round_down (64 - k) k x sum (omega arith) in
    let rest : sub64 x (x / 2 ^ k * 2 ^ k) ≡ x % 2 ^ k = omega arith in
    let whole : sub64 (add64 (add64 seg.memsz (x % 2 ^ k)) (2 ^ k)) 1 ≡ y = omega arith in
    let size : bit_and y (page_mask (2 ^ k)) ≡ y / 2 ^ k * 2 ^ k =
      round_down (64 - k) k y sum (omega arith) in
    rw (at, start, rest, whole, size)
      (
        mul-mod_left (x / 2 ^ k) (2 ^ k),
        mul-mod_left (y / 2 ^ k) (2 ^ k),
        omega (arith, pos_page),
        omega (arith, pos_page),
        omega (arith, pos_page),
      )
