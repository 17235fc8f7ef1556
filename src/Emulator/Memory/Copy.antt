-- ===== src/Emulator/Memory/Copy.antt =====
-- `memcpy` and `memset` of the guest.
use anisette_kit.Prelude.{
  length-replicate, length, ◌∙◌, arith, ◌==◌, not, ◌&&◌, ltb, ◌⊎◌, ◌%◌, ◌≤◌, replicate, ◌+◌, some,
  true, ◌≡◌, ◌^◌, ◌<◌, List, ℕ,
}
use anisette_kit.Emulator.Unicorn.{Unicorn, x, collect, byte, covers, UnicornLaws}
use anisette_kit.Emulator.Unicorn.Content.{
  length-collect, collect-mem_write_self, collect-mem_write_apart, collect-reg_write,
}
use anisette_kit.Emulator.Host.{Host}
use anisette_kit.Emulator.Vm.{Vm, ok}
use anisette_kit.Emulator.Memory.{hook_memcpy, hook_memset}
use anisette_kit.Emulator.Memory.Heap.{x0-back}

module _ {u : Unicorn} {h : Host} (L : UnicornLaws u) where
  -- `memcpy` of readable bytes to mapped ones leaves them at `dst`, also where the two ranges
  -- overlap, changes nothing outside of `dst`, and returns `dst`.
  pub memcpy_lem :
      (vm : Vm u h) (bytes : List ℕ)
      → let dst : ℕ = u.reg_read vm.uc (x 0) in
        let src : ℕ = u.reg_read vm.uc (x 1) in
        let size : ℕ = u.reg_read vm.uc (x 2) in
        0 < size
        → 0 < dst
        → dst < 2 ^ 64
        → 0 < src
        → collect (byte u vm.uc) src size ≡ some bytes
        → covers u vm.uc dst size ≡ true
        → (vm' : Vm u h) × (hook_memcpy vm ≡ ok (tt, vm'))
          × (u.reg_read vm'.uc (x 0) ≡ dst)
          × (collect (byte u vm'.uc) dst size ≡ some bytes)
          × ((a n : ℕ)
              → (a + n ≤ dst) ⊎ (dst + size ≤ a)
              → collect (byte u vm'.uc) a n ≡ collect (byte u vm.uc) a n)
  unfolding hook_memcpy
  memcpy_lem vm bytes pos to_pos fits from_pos content m =
      let dst : ℕ = u.reg_read vm.uc (x 0) in
      let src : ℕ = u.reg_read vm.uc (x 1) in
      let size : ℕ = u.reg_read vm.uc (x 2) in
      let test : (ltb 0 size && (not (dst == 0) && not (src == 0))) ≡ true = ground arith in
      let e : u.mem_read vm.uc src size ≡ some bytes =
        L.mem_read-collect vm.uc src size ∙ content in
      let long : length bytes ≡ size = length-collect (byte u vm.uc) src size bytes content in
      let copied = u.mem_write vm.uc dst bytes in
      (
        record vm { uc = u.reg_write copied (x 0) dst },
        rw (test, e),
        x0-back L copied dst fits,
        collect-reg_write u L copied (x 0) dst dst size
            ∙ collect-mem_write_self u L vm.uc dst bytes size long m,
        λ a n apart.
            collect-reg_write u L copied (x 0) dst a n
            ∙ collect-mem_write_apart u L vm.uc dst bytes a n (rw long apart),
      )

  -- `memset` leaves `size` copies of the value's low byte at `dst`, and nothing else.
  pub memset_lem :
      (vm : Vm u h)
      → let dst : ℕ = u.reg_read vm.uc (x 0) in
        let val : ℕ = u.reg_read vm.uc (x 1) in
        let size : ℕ = u.reg_read vm.uc (x 2) in
        0 < size
        → 0 < dst
        → dst < 2 ^ 64
        → covers u vm.uc dst size ≡ true
        → (vm' : Vm u h) × (hook_memset vm ≡ ok (tt, vm'))
          × (u.reg_read vm'.uc (x 0) ≡ dst)
          × (collect (byte u vm'.uc) dst size ≡ some (replicate size (val % 256)))
          × ((a n : ℕ)
              → (a + n ≤ dst) ⊎ (dst + size ≤ a)
              → collect (byte u vm'.uc) a n ≡ collect (byte u vm.uc) a n)
  unfolding hook_memset
  memset_lem vm pos to_pos fits m =
      let dst : ℕ = u.reg_read vm.uc (x 0) in
      let size : ℕ = u.reg_read vm.uc (x 2) in
      let bytes : List ℕ = replicate size (u.reg_read vm.uc (x 1) % 256) in
      let test : (ltb 0 size && not (dst == 0)) ≡ true = ground arith in
      let long : length bytes ≡ size = length-replicate size (u.reg_read vm.uc (x 1) % 256) in
      let filled = u.mem_write vm.uc dst bytes in
      (
        record vm { uc = u.reg_write filled (x 0) dst },
        rw test,
        x0-back L filled dst fits,
        collect-reg_write u L filled (x 0) dst dst size
            ∙ collect-mem_write_self u L vm.uc dst bytes size long m,
        λ a n apart.
            collect-reg_write u L filled (x 0) dst a n
            ∙ collect-mem_write_apart u L vm.uc dst bytes a n (rw long apart),
      )
