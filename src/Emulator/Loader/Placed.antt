-- ===== src/Emulator/Loader/Placed.antt =====
-- The places of the images of the libraries, for `load_library_to_vm` (Emulator/Loader).
use anisette_kit.Prelude.{
  ℕ, ◌+◌, ◌%◌, ◌^◌, ◌≤◌, ◌<◌, ◌≡◌, refl, ap, some, List, [], ◌∷◌, ◌++◌, arith, map,
}
use anisette_kit.Emulator.Allocator.{PageAllocator, alloc}
use anisette_kit.Emulator.Vm.{LibraryInfo}
use anisette_kit.Emulator.Allocator.Blocks.{IsValid, InOrder, need, need_bounds, alloc-IsValid}
use anisette_kit.Emulator.Loader.Images.{image}

InOrder-snoc :
    (unit lo mid hi ptr n : ℕ) (blocks : List (ℕ × ℕ))
    → InOrder unit lo mid blocks
    → mid ≤ ptr
    → ptr % unit ≡ 0
    → ptr + n ≤ hi
    → InOrder unit lo hi (blocks ++ (ptr, n) ∷ [])
InOrder-snoc unit lo mid hi ptr n [] o le units fits = (omega (arith, o), units, fits)
InOrder-snoc unit lo mid hi ptr n ((p, k) ∷ blocks) o le units fits =
    (o.0, o.1, InOrder-snoc unit (p + k) mid hi ptr n blocks o.2 le units fits)

InOrder-up :
    (unit lo mid hi : ℕ) (blocks : List (ℕ × ℕ))
    → InOrder unit lo mid blocks
    → mid ≤ hi
    → InOrder unit lo hi blocks
InOrder-up unit lo mid hi [] o le = omega arith
InOrder-up unit lo mid hi ((p, k) ∷ blocks) o le =
    (o.0, o.1, InOrder-up unit (p + k) mid hi blocks o.2 le)

map-snoc :
    (libs : List LibraryInfo) (lib : LibraryInfo)
    → map image (libs ++ lib ∷ []) ≡ map image libs ++ image lib ∷ []
map-snoc [] lib = refl
map-snoc (l ∷ libs) lib = ap (λ t. image l ∷ t) (map-snoc libs lib)

-- The images of the libraries lie one behind the other below the end of what the allocator of images
-- has given out, which is valid and counts in units of 64 KiB.
pub record ArePlaced (a : PageAllocator) (libs : List LibraryInfo) : Type 0 where
  pub valid : IsValid 16 a
  pub whole : a.base % 2 ^ 16 ≡ 0
  pub bounded : a.size < 2 ^ 62
  pub in_order : InOrder (2 ^ 16) a.base (a.base + a.offset) (map image libs)

units_sum : (a b : ℕ) → a % 2 ^ 16 ≡ 0 → b % 2 ^ 16 ≡ 0 → (a + b) % 2 ^ 16 ≡ 0
units_sum a b h k = omega arith

-- A block of the allocator, with and without a library in it.
module _ (a a' : PageAllocator) (libs : List LibraryInfo) (bytes ptr : ℕ) (p : ArePlaced a libs)
    (small : bytes < 2 ^ 63) (got : alloc a bytes ≡ some (ptr, a')) where
  pub ArePlaced-alloc : ArePlaced a' libs
  ArePlaced-alloc =
      let (valid, at, base, size, offset) =
        alloc-IsValid 16 a a' bytes ptr p.valid (omega (arith, p.bounded)) got in
      record {
        valid = valid;
        whole = rw base p.whole;
        bounded = rw size p.bounded;
        in_order =
            rw (base, offset)
              (InOrder-up (2 ^ 16) a.base (a.base + a.offset) (a.base + (a.offset + need 16 bytes))
                (map image libs) p.in_order (omega arith));
      }

  pub ArePlaced-image :
      (lib : LibraryInfo) → image lib ≡ (ptr, bytes) → ArePlaced a' (libs ++ lib ∷ [])
  ArePlaced-image lib i =
      let (valid, at, base, size, offset) =
        alloc-IsValid 16 a a' bytes ptr p.valid (omega (arith, p.bounded)) got in
      let start : ptr % 2 ^ 16 ≡ 0 = rw at (units_sum a.base a.offset p.whole p.valid.units) in
      record {
        valid = valid;
        whole = rw base p.whole;
        bounded = rw size p.bounded;
        in_order =
            rw (base, offset, map-snoc libs lib, i)
              (InOrder-snoc (2 ^ 16) a.base (a.base + a.offset)
                (a.base + (a.offset + need 16 bytes)) ptr bytes (map image libs) p.in_order
                (omega (arith, at)) start (omega (arith, at, need_bounds 16 bytes)));
      }
