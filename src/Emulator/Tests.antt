-- ===== src/Emulator/Tests.antt =====
-- Runs of the emulator's definitions on a small machine, and the theorems at concrete inputs.
mod Hooks
mod Calls
mod Loading
use anisette_kit.Emulator.Memory.Copy.{memcpy_lem, memset_lem}
use anisette_kit.Emulator.Memory.Compare.{memcmp_lem, memchr_lem, Finds}
use anisette_kit.Prelude.Text.{codes}
use anisette_kit.Emulator.Memory.{
  hook_calloc, hook_malloc, hook_memchr, hook_memcmp, hook_memcpy, hook_memset, hook_realloc,
}
use anisette_kit.Emulator.Unicorn.{collect, x, covers, byte}
use anisette_kit.Emulator.Memory.Heap.{
  calloc_lem, calloc_wraps, malloc_lem, realloc_lem, fresh, HasRoom,
}
use anisette_kit.Emulator.Vm.{ok, Vm, heap_size, heap_address}
use anisette_kit.Prelude.{
  ◌*◌, ◌⊎◌, replicate, ◌≤◌, true, ◌<◌, ◌↔◌, [], none, refl, some, ℕ, ◌+◌, ◌-◌, List, arith, ◌^◌,
  ◌∷◌, ◌≡◌,
}
use anisette_kit.Emulator.Machine.{holds, is_mapped, machine, machine_laws, host, guest}
use anisette_kit.Emulator.Allocator.{PageAllocator, page_allocator, aligned_size, alloc}
use anisette_kit.Emulator.Allocator.Blocks.{
  need_bounds, IsValid, need, alloc-IsValid, alloc-none_iff, alloc_all, InOrder, alloc_all-InOrder,
  alloc_wraps,
}

abbrev small_heap : PageAllocator
small_heap = record { base = 0x1000; size = 256; offset = 64; alignment = 64 }

small_heap-IsValid : IsValid 6 small_heap
small_heap-IsValid = record {
  small = omega arith;
  aligned = refl;
  units = refl;
  within = omega arith;
  in_word = omega arith;
}

abbrev small_ptr : ℕ
small_ptr = 0x1040

abbrev small_taken : ℕ
small_taken = 192

alloc_small : alloc small_heap 65 ≡ some (0x1040, record small_heap { offset = 192 })
unfolding alloc aligned_size
alloc_small = refl

alloc_all_small :
    alloc_all small_heap (1 ∷ 65 ∷ [])
    ≡ some ((0x1040, 1) ∷ (0x1080, 65) ∷ [], record small_heap { offset = 256 })
unfolding alloc_all alloc aligned_size
alloc_all_small = refl

alloc_all-InOrder_example :
    InOrder (2 ^ 6) (0x1000 + 64) (0x1000 + 256) ((0x1040, 1) ∷ (0x1080, 65) ∷ [])
alloc_all-InOrder_example =
    alloc_all-InOrder 6 small_heap (record small_heap { offset = 256 }) (1 ∷ 65 ∷ [])
      ((0x1040, 1) ∷ (0x1080, 65) ∷ []) small_heap-IsValid refl (omega arith) alloc_all_small

alloc_wraps_example :
    alloc small_heap (2 ^ 64 - 64) ≡ some (0x1000 + 64, record small_heap { offset = 0 })
alloc_wraps_example = alloc_wraps 6 small_heap small_heap-IsValid (omega arith)

heap-IsValid : IsValid 6 (page_allocator heap_address heap_size 64)
heap-IsValid = record {
  small = omega arith;
  aligned = refl;
  units = refl;
  within = omega arith;
  in_word = omega arith;
}

guest-HasRoom : (args text : List ℕ) (bytes : ℕ) → bytes < 2 ^ 20 → HasRoom (guest args text) bytes
guest-HasRoom args text bytes small = record {
  valid = heap-IsValid;
  modest = omega arith;
  room = omega (arith, need_bounds 6 bytes);
}

heap-mapped : (args text : List ℕ) → covers machine (guest args text).uc heap_address 24 ≡ true
heap-mapped args text = is_mapped (guest args text).uc heap_address 24

abbrev malloc_guest : Vm machine host
malloc_guest = guest (24 ∷ []) []

malloc_lem_example :
    (vm' : Vm machine host) × (hook_malloc malloc_guest ≡ ok (tt, vm'))
    × (machine.reg_read vm'.uc (x 0) ≡ fresh malloc_guest)
    × (fresh malloc_guest + 24 + 16 ≤ fresh vm')
    × (fresh vm' ≤ heap_address + heap_size)
    × ((a n : ℕ) → collect (byte machine vm'.uc) a n ≡ collect (byte machine malloc_guest.uc) a n)
malloc_lem_example =
    malloc_lem machine_laws malloc_guest (omega arith) (guest-HasRoom (24 ∷ []) [] 40 (omega arith))

abbrev calloc_guest : Vm machine host
calloc_guest = guest (4 ∷ 6 ∷ []) []

calloc_lem_example :
    (vm' : Vm machine host) × (hook_calloc calloc_guest ≡ ok (tt, vm'))
    × (machine.reg_read vm'.uc (x 0) ≡ fresh calloc_guest)
    × (fresh calloc_guest + 24 + 16 ≤ fresh vm')
    × (collect (byte machine vm'.uc) (fresh calloc_guest) 24 ≡ some (replicate 24 0))
    × ((a n : ℕ)
        → (a + n ≤ fresh calloc_guest) ⊎ (fresh calloc_guest + 24 ≤ a)
        → collect (byte machine vm'.uc) a n ≡ collect (byte machine calloc_guest.uc) a n)
calloc_lem_example =
    calloc_lem machine_laws calloc_guest 24 refl (omega arith) (omega arith)
      (guest-HasRoom (4 ∷ 6 ∷ []) [] 40 (omega arith)) (heap-mapped (4 ∷ 6 ∷ []) [])

abbrev overflow_guest : Vm machine host
overflow_guest = guest ((2 ^ 62 + 2) ∷ 4 ∷ []) []

calloc_wraps_example :
    (vm' : Vm machine host) × (hook_calloc overflow_guest ≡ ok (tt, vm'))
    × (machine.reg_read vm'.uc (x 0) ≡ fresh overflow_guest)
    × (fresh vm' ≤ fresh overflow_guest + 8 + 16 + 64)
    × (fresh vm' < fresh overflow_guest + (2 ^ 62 + 2) * 4)
calloc_wraps_example =
    calloc_wraps machine_laws overflow_guest 8 (omega arith) refl (omega arith)
      (guest-HasRoom ((2 ^ 62 + 2) ∷ 4 ∷ []) [] 24 (omega arith))

abbrev realloc_guest : Vm machine host
realloc_guest = guest (0x1001 ∷ 3 ∷ []) (codes "abcde")

realloc_lem_example :
    (vm' : Vm machine host) × (hook_realloc realloc_guest ≡ ok (tt, vm'))
    × (machine.reg_read vm'.uc (x 0) ≡ fresh realloc_guest)
    × (fresh realloc_guest + 3 + 16 ≤ fresh vm')
    × (collect (byte machine vm'.uc) (fresh realloc_guest) 3 ≡ some (codes "bcd"))
    × (collect (byte machine vm'.uc) 0x1001 3 ≡ some (codes "bcd"))
realloc_lem_example =
    realloc_lem machine_laws realloc_guest (codes "bcd") (omega arith) (omega arith) (omega arith)
      (holds realloc_guest.uc 0x1001 3) (omega arith)
      (guest-HasRoom (0x1001 ∷ 3 ∷ []) (codes "abcde") 19 (omega arith))
      (is_mapped realloc_guest.uc heap_address 3)

abbrev memcpy_guest : Vm machine host
memcpy_guest = guest (0x1001 ∷ 0x1000 ∷ 3 ∷ []) (codes "abcde")

memcpy_lem_example :
    (vm' : Vm machine host) × (hook_memcpy memcpy_guest ≡ ok (tt, vm'))
    × (machine.reg_read vm'.uc (x 0) ≡ 0x1001)
    × (collect (byte machine vm'.uc) 0x1001 3 ≡ some (codes "abc"))
    × ((a n : ℕ)
        → (a + n ≤ 0x1001) ⊎ (0x1001 + 3 ≤ a)
        → collect (byte machine vm'.uc) a n ≡ collect (byte machine memcpy_guest.uc) a n)
memcpy_lem_example =
    memcpy_lem machine_laws memcpy_guest (codes "abc") (omega arith) (omega arith) (omega arith)
      (omega arith) (holds memcpy_guest.uc 0x1000 3) (is_mapped memcpy_guest.uc 0x1001 3)

abbrev memset_guest : Vm machine host
memset_guest = guest (0x1001 ∷ 0x141 ∷ 3 ∷ []) (codes "abcde")

abbrev memcmp_guest : Vm machine host
memcmp_guest = guest (0x1000 ∷ 0x1003 ∷ 3 ∷ []) (codes "abcabd")

abbrev memchr_guest : Vm machine host
memchr_guest = guest (0x1000 ∷ 0x162 ∷ 3 ∷ []) (codes "abc")
