-- ===== src/Emulator/Segments/Image.antt =====
-- The span of the image (Emulator/Segments), and the places of the segments in it.
use anisette_kit.Prelude.{
  ℕ, zero, suc, ◌+◌, ◌-◌, ◌^◌, ◌≤◌, ◌<◌, ◌≡◌, refl, ap, some, List, [], ◌∷◌, length, take, drop,
  add64, arith, All,
}
use anisette_kit.Emulator.Vm.{LibraryInfo}
use anisette_kit.Prelude.Bits.{bit_and_clear}
use anisette_kit.Emulator.Elf.{Elf64Phdr, pt_load, slice}
use anisette_kit.Emulator.Symbols.{mapped_at}
use anisette_kit.Emulator.Segments.{page_down, seg_start, seg_end, span_step, span_loop}

-- A segment whose end does not wrap around.
abbrev pub IsModestSegment : Elf64Phdr → Type 0
IsModestSegment ph = ph.p_vaddr + ph.p_memsz + 2 ^ 16 < 2 ^ 64

-- A segment that lies between two addresses of the file, if it is loaded.
abbrev pub Within : (lo hi : ℕ) → Elf64Phdr → Type 0
Within lo hi ph = ph.p_type ≡ pt_load → (lo ≤ ph.p_vaddr) × (ph.p_vaddr + ph.p_memsz ≤ hi)

page_down_bounds : (a : ℕ) → a < 2 ^ 64 → (page_down a ≤ a) × (a < page_down a + 2 ^ 16)
unfolding page_down
page_down_bounds a h = omega (arith, bit_and_clear 48 16 a h)

seg_bounds :
    (ph : Elf64Phdr)
    → IsModestSegment ph
    → (seg_start ph ≤ ph.p_vaddr) × (ph.p_vaddr + ph.p_memsz ≤ seg_end ph) × (seg_end ph < 2 ^ 64)
seg_bounds ph m = omega (
  arith,
  page_down_bounds ph.p_vaddr,
  page_down_bounds (ph.p_vaddr + ph.p_memsz + 0xFFFF),
  ap page_down (end_lem ph m),
)
  where
    end_lem :
        (ph : Elf64Phdr)
        → IsModestSegment ph
        → add64 (add64 ph.p_vaddr ph.p_memsz) 0xFFFF ≡ ph.p_vaddr + ph.p_memsz + 0xFFFF
    end_lem ph m = omega arith

-- The span only grows, and holds each segment that the loop has seen.
span_step-grows :
    (ph : Elf64Phdr) (span : ℕ × ℕ)
    → ((span_step ph span).0 ≤ span.0) × (span.1 ≤ (span_step ph span).1)
unfolding span_step
span_step-grows ph (lo, hi) = ground arith

span_loop-grows :
    (phs : List Elf64Phdr) (span : ℕ × ℕ)
    → ((span_loop phs span).0 ≤ span.0) × (span.1 ≤ (span_loop phs span).1)
unfolding span_loop
span_loop-grows [] span = omega arith
span_loop-grows (ph ∷ phs) span =
    omega (arith, span_step-grows ph span, span_loop-grows phs (span_step ph span))

span_step-Within :
    (ph : Elf64Phdr) (span : ℕ × ℕ)
    → IsModestSegment ph
    → Within (span_step ph span).0 (span_step ph span).1 ph
unfolding span_step
span_step-Within ph (lo, hi) m load = ground (arith, seg_bounds ph m)

pub span_loop-Within :
    (phs : List Elf64Phdr) (span : ℕ × ℕ)
    → All IsModestSegment phs
    → All (Within (span_loop phs span).0 (span_loop phs span).1) phs
unfolding span_loop
span_loop-Within [] span m = tt
span_loop-Within (ph ∷ phs) span m = (
  λ load. omega (arith, span_step-Within ph span m.0 load, span_loop-grows phs (span_step ph span)),
  span_loop-Within phs (span_step ph span) m.1,
)

-- A segment's place in the guest lies in the image.
abbrev pub InImage : LibraryInfo → Elf64Phdr → Type 0
InImage lib ph =
    ph.p_type ≡ pt_load
    → (lib.base_address ≤ mapped_at lib ph.p_vaddr)
      × (mapped_at lib ph.p_vaddr + ph.p_memsz ≤ lib.base_address + (lib.max_vaddr - lib.min_vaddr))

Within-InImage :
    (lib : LibraryInfo) (phs : List Elf64Phdr)
    → lib.base_address + (lib.max_vaddr - lib.min_vaddr) < 2 ^ 64
    → lib.max_vaddr < 2 ^ 64
    → All (Within lib.min_vaddr lib.max_vaddr) phs
    → All (InImage lib) phs
Within-InImage lib [] room small w = tt
Within-InImage lib (ph ∷ phs) room small w =
    (λ load. omega (arith, w.0 load), Within-InImage lib phs room small w.1)

span_loop_bound :
    (phs : List Elf64Phdr) (span : ℕ × ℕ)
    → All IsModestSegment phs
    → span.1 < 2 ^ 64
    → (span_loop phs span).1 < 2 ^ 64
unfolding span_loop span_step
span_loop_bound [] span m b = b
span_loop_bound (ph ∷ phs) (lo, hi) m b =
    span_loop_bound phs (span_step ph (lo, hi)) m.1 (ground (arith, seg_bounds ph m.0))

-- The span that the first loop over the segments finds is enough, if no segment's end wraps
-- around: in an image of that span, which does not run past the address space, the place of each
-- segment that is loaded lies in the image.
pub span_loop-InImage :
    (phs : List Elf64Phdr) (lib : LibraryInfo)
    → All IsModestSegment phs
    → span_loop phs (2 ^ 64 - 1, 0) ≡ (lib.min_vaddr, lib.max_vaddr)
    → lib.base_address + (lib.max_vaddr - lib.min_vaddr) < 2 ^ 64
    → All (InImage lib) phs
span_loop-InImage phs lib m span room =
    let bound = span_loop_bound phs (2 ^ 64 - 1, 0) m (omega arith) in
    let within = span_loop-Within phs (2 ^ 64 - 1, 0) m in
    Within-InImage lib phs room (rw span at bound) (rw span at within)

length-take_within : (n : ℕ) (bytes : List ℕ) → n ≤ length bytes → length (take n bytes) ≡ n
length-take_within zero bytes h = refl
length-take_within (suc n) [] h = absurd (omega arith)
length-take_within (suc n) (b ∷ bytes) h = omega (arith, length-take_within n bytes (omega arith))

length-drop : (n : ℕ) (bytes : List ℕ) → length (drop n bytes) ≡ length bytes - n
length-drop zero bytes = omega arith
length-drop (suc n) [] = omega arith
length-drop (suc n) (b ∷ bytes) = omega (arith, length-drop n bytes)

pub length-slice :
    (file : List ℕ) (offset count : ℕ) (part : List ℕ)
    → slice file offset count ≡ some part
    → length part ≡ count
unfolding slice
length-slice file offset count part e =
    ground (arith, length-take_within count (drop offset file), length-drop offset file)
