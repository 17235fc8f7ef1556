-- ===== src/Emulator/Memory/Heap.antt =====
-- What `malloc`, `calloc` and `realloc` of the guest promise.
use anisette_kit.Prelude.{
  ◌==◌, lt→ltb, not, ℕ, ◌+◌, ◌*◌, ◌%◌, ◌^◌, ◌≤◌, ◌<◌, ◌≡◌, ◌∙◌, ◌⊎◌, inl, true, ◌&&◌, some, List,
  ltb, if◌then◌else◌, length, arith, add64, mul64, replicate, length-replicate,
}
use anisette_kit.Emulator.Allocator.Blocks.{IsValid, IsModest, need, alloc-next, need_bounds}
use anisette_kit.Emulator.Unicorn.{Unicorn, x, collect, byte, covers, UnicornLaws}
use anisette_kit.Emulator.Unicorn.Content.{
  length-collect, collect-mem_write_self, collect-mem_write_apart, collect-reg_write,
}
use anisette_kit.Emulator.Host.{Host}
use anisette_kit.Emulator.Vm.{Vm, ok, heap_alloc}
use anisette_kit.Emulator.Memory.{hook_malloc, hook_calloc, hook_realloc}

-- The heap of the machine: blocks of 64 bytes, and room for a request of `bytes` more.
pub record HasRoom {u : Unicorn} {h : Host} (vm : Vm u h) (bytes : ℕ) : Type 0 where
  pub valid : IsValid 6 vm.heap
  pub modest : IsModest 6 vm.heap.size bytes
  pub room : vm.heap.offset + need 6 bytes ≤ vm.heap.size

-- The address of the next block, and the machine once it is given out.
abbrev pub fresh : {u : Unicorn} {h : Host} → Vm u h → ℕ
fresh vm = vm.heap.base + vm.heap.offset

abbrev pub given : {u : Unicorn} {h : Host} → Vm u h → ℕ → Vm u h
given vm bytes = record vm { heap = record (vm.heap) { offset = vm.heap.offset + need 6 bytes } }

pub x0-back :
    {u : Unicorn} (L : UnicornLaws u) (s : u.State) (w : ℕ)
    → w < 2 ^ 64
    → u.reg_read (u.reg_write s (x 0) w) (x 0) ≡ w
x0-back L s w fits = omega (arith, L.reg_read-reg_write s 0 0 w)

module _ {u : Unicorn} {h : Host} (L : UnicornLaws u) where
  heap_alloc-fresh :
      (vm : Vm u h) (bytes : ℕ)
      → HasRoom vm bytes
      → heap_alloc bytes vm ≡ ok (fresh vm, given vm bytes)
  heap_alloc-fresh vm bytes r =
      rw (alloc-next 6 vm.heap bytes r.valid r.modest) (ground (arith, r.room))

  malloc-fresh :
      (vm : Vm u h)
      → let size : ℕ = u.reg_read vm.uc (x 0) in
        size + 16 < 2 ^ 64
        → HasRoom vm (size + 16)
        → hook_malloc vm
          ≡ ok (tt, record (given vm (size + 16)) { uc = u.reg_write vm.uc (x 0) (fresh vm) })
  unfolding hook_malloc
  malloc-fresh vm fits r =
      let e : add64 (u.reg_read vm.uc (x 0)) 16 ≡ u.reg_read vm.uc (x 0) + 16 = omega arith in
      rw (e, heap_alloc-fresh vm (u.reg_read vm.uc (x 0) + 16) r)

  -- The block that a request took ends before the next one, and in the heap.
  block_bounds :
      (vm : Vm u h) (bytes : ℕ)
      → HasRoom vm bytes
      → (fresh vm + bytes ≤ fresh (given vm bytes))
        × (fresh (given vm bytes) ≤ vm.heap.base + vm.heap.size)
        × (fresh vm < 2 ^ 64)
  block_bounds vm bytes r = omega (arith, need_bounds 6 bytes, r.room, r.valid)

  -- While the heap has room, `malloc` leaves in X0 the address of a block that lies in the heap,
  -- holds the size that was asked for and 16 bytes more, and ends before whatever is allocated
  -- next; the content of the memory stays as it was.
  pub malloc_lem :
      (vm : Vm u h)
      → u.reg_read vm.uc (x 0) + 16 < 2 ^ 64
      → HasRoom vm (u.reg_read vm.uc (x 0) + 16)
      → (vm' : Vm u h) × (hook_malloc vm ≡ ok (tt, vm'))
        × (u.reg_read vm'.uc (x 0) ≡ fresh vm)
        × (fresh vm + u.reg_read vm.uc (x 0) + 16 ≤ fresh vm')
        × (fresh vm' ≤ vm.heap.base + vm.heap.size)
        × ((a n : ℕ) → collect (byte u vm'.uc) a n ≡ collect (byte u vm.uc) a n)
  malloc_lem vm fits r =
      let bounds = block_bounds vm (u.reg_read vm.uc (x 0) + 16) r in
      (
        record (given vm (u.reg_read vm.uc (x 0) + 16)) { uc = u.reg_write vm.uc (x 0) (fresh vm) },
        malloc-fresh vm fits r,
        x0-back L vm.uc (fresh vm) bounds.2,
        omega (arith, bounds),
        bounds.1,
        λ a n. collect-reg_write u L vm.uc (x 0) (fresh vm) a n,
      )

  -- The whole heap is mapped.
  abbrev pub IsMapped : Vm u h → ℕ → Type 0
  IsMapped vm bytes = covers u vm.uc (fresh vm) bytes ≡ true

  -- While the heap has room and is mapped, `calloc` of `num * size` bytes, if that product is not 0 and
  -- fits a word with 16 bytes more, leaves in X0 the address of a new block whose first `num * size`
  -- bytes are zero, and changes no memory outside of it.
  pub calloc_lem :
      (vm : Vm u h) (total : ℕ)
      → u.reg_read vm.uc (x 0) * u.reg_read vm.uc (x 1) ≡ total
      → 0 < total
      → total + 16 < 2 ^ 64
      → HasRoom vm (total + 16)
      → IsMapped vm total
      → (vm' : Vm u h) × (hook_calloc vm ≡ ok (tt, vm'))
        × (u.reg_read vm'.uc (x 0) ≡ fresh vm)
        × (fresh vm + total + 16 ≤ fresh vm')
        × (collect (byte u vm'.uc) (fresh vm) total ≡ some (replicate total 0))
        × ((a n : ℕ)
            → (a + n ≤ fresh vm) ⊎ (fresh vm + total ≤ a)
            → collect (byte u vm'.uc) a n ≡ collect (byte u vm.uc) a n)
  unfolding hook_calloc
  calloc_lem vm total product pos fits r m =
      let bounds = block_bounds vm (total + 16) r in
      let e : mul64 (u.reg_read vm.uc (x 0)) (u.reg_read vm.uc (x 1)) ≡ total =
        rw product (omega arith) in
      let f : add64 total 16 ≡ total + 16 = omega arith in
      let zeros = u.mem_write vm.uc (fresh vm) (replicate total 0) in
      (
        record (given vm (total + 16)) { uc = u.reg_write zeros (x 0) (fresh vm) },
        rw (e, f, heap_alloc-fresh vm (total + 16) r, lt→ltb 0 total pos),
        x0-back L zeros (fresh vm) bounds.2,
        omega (arith, bounds),
        collect-reg_write u L zeros (x 0) (fresh vm) (fresh vm) total
            ∙ collect-mem_write_self u L vm.uc (fresh vm) (replicate total 0) total
                (length-replicate total _) m,
        λ a n apart.
            collect-reg_write u L zeros (x 0) (fresh vm) a n
            ∙ collect-mem_write_apart u L vm.uc (fresh vm) (replicate total 0) a n
                (rw (length-replicate {A = ℕ} total 0) apart),
      )

  -- While the heap has room and is mapped, `realloc` of a block whose first `new_size` bytes can be
  -- read and lie below the new one, for a size other than 0, leaves in X0 the address of a new block
  -- that begins with these bytes, and the old block as it was.
  pub realloc_lem :
      (vm : Vm u h) (old : List ℕ)
      → let ptr : ℕ = u.reg_read vm.uc (x 0) in
        let new_size : ℕ = u.reg_read vm.uc (x 1) in
        0 < ptr
        → 0 < new_size
        → new_size + 16 < 2 ^ 64
        → collect (byte u vm.uc) ptr new_size ≡ some old
        → ptr + new_size ≤ fresh vm
        → HasRoom vm (new_size + 16)
        → IsMapped vm new_size
        → (vm' : Vm u h) × (hook_realloc vm ≡ ok (tt, vm'))
          × (u.reg_read vm'.uc (x 0) ≡ fresh vm)
          × (fresh vm + new_size + 16 ≤ fresh vm')
          × (collect (byte u vm'.uc) (fresh vm) new_size ≡ some old)
          × (collect (byte u vm'.uc) ptr new_size ≡ some old)
  unfolding hook_realloc
  realloc_lem vm old ptr_pos pos fits content behind r m =
      let ptr : ℕ = u.reg_read vm.uc (x 0) in
      let new_size : ℕ = u.reg_read vm.uc (x 1) in
      let bounds = block_bounds vm (new_size + 16) r in
      let test : (not (ptr == 0) && ltb 0 new_size) ≡ true = ground arith in
      let f : add64 new_size 16 ≡ new_size + 16 = omega arith in
      let e : u.mem_read vm.uc ptr new_size ≡ some old =
        L.mem_read-collect vm.uc ptr new_size ∙ content in
      let size : length old ≡ new_size = length-collect (byte u vm.uc) ptr new_size old content in
      let copied = u.mem_write vm.uc (fresh vm) old in
      let there = λ (a : ℕ). collect-reg_write u L copied (x 0) (fresh vm) a new_size in
      (
        record (given vm (new_size + 16)) { uc = u.reg_write copied (x 0) (fresh vm) },
        rw (f, heap_alloc-fresh vm (new_size + 16) r, test, e),
        x0-back L copied (fresh vm) bounds.2,
        omega (arith, bounds),
        there (fresh vm) ∙ collect-mem_write_self u L vm.uc (fresh vm) old new_size size m,
        there ptr
            ∙ collect-mem_write_apart u L vm.uc (fresh vm) old ptr new_size (inl behind)
            ∙ content,
      )

  -- Where the product of its arguments exceeds a word, and the heap has room for the product's low
  -- 64 bits and 16 bytes more, a sum that fits a word, calloc gives out a block for these low bits,
  -- which is smaller than the product, and returns its address.
  pub calloc_wraps :
      (vm : Vm u h) (total : ℕ)
      → 2 ^ 64 ≤ u.reg_read vm.uc (x 0) * u.reg_read vm.uc (x 1)
      → (u.reg_read vm.uc (x 0) * u.reg_read vm.uc (x 1)) % 2 ^ 64 ≡ total
      → total + 16 < 2 ^ 64
      → HasRoom vm (total + 16)
      → (vm' : Vm u h) × (hook_calloc vm ≡ ok (tt, vm'))
        × (u.reg_read vm'.uc (x 0) ≡ fresh vm)
        × (fresh vm' ≤ fresh vm + total + 16 + 64)
        × (fresh vm' < fresh vm + u.reg_read vm.uc (x 0) * u.reg_read vm.uc (x 1))
  unfolding hook_calloc
  calloc_wraps vm total over product fits r =
      let bounds = block_bounds vm (total + 16) r in
      let e : mul64 (u.reg_read vm.uc (x 0)) (u.reg_read vm.uc (x 1)) ≡ total = product in
      let f : add64 total 16 ≡ total + 16 = omega arith in
      let cleared : u.State =
        if ltb 0 total then u.mem_write vm.uc (fresh vm) (replicate total 0) else vm.uc in
      (
        record (given vm (total + 16)) { uc = u.reg_write cleared (x 0) (fresh vm) },
        rw (e, f, heap_alloc-fresh vm (total + 16) r) (ground arith),
        x0-back L cleared (fresh vm) bounds.2,
        omega (arith, need_bounds 6 (total + 16)),
        omega (arith, need_bounds 6 (total + 16)),
      )
