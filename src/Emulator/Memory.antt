-- ===== src/Emulator/Memory.antt =====
-- The heap and memory hooks of Native/Loader/elf_loader_emulator.cpp, as commands that read their
-- arguments from registers.
pub mod Heap
pub mod Copy
pub mod Compare
use anisette_kit.Prelude.{
  ◌-◌, get_or, ℕ, zero, suc, ◌+◌, ◌%◌, ◌^◌, Bool, true, false, not, ◌&&◌, Option, none, some, List,
  [], ◌∷◌, ltb, ◌==◌, if◌then◌else◌, add64, mul64, replicate,
}
use Prim.Native.Nat.{compare, Ordering}
use anisette_kit.Emulator.Unicorn.{Unicorn, Reg, x}
use anisette_kit.Emulator.Host.{Host}
use anisette_kit.Emulator.Vm.{
  ok, when, Vm, Command, pure, ◌>>=◌, ◌>>◌, reg_read, reg_write, mem_read, mem_write, heap_alloc,
}

-- The bytes that a buffer of `size` zeros holds after a read into it.
abbrev pub buffer : Option (List ℕ) → ℕ → List ℕ
buffer none size = replicate size 0
buffer (some bytes) size = bytes

-- The order of `memcmp` and `std::string::compare`: by the first difference, and a text before
-- its extensions. Only the sign of their result is fixed by their standards; it is taken as -1 or 1.
unfoldable pub compare_bytes : List ℕ → List ℕ → Ordering
compare_bytes [] [] = Ordering.eq
compare_bytes [] (b ∷ bs) = Ordering.lt
compare_bytes (a ∷ xs) [] = Ordering.gt
compare_bytes (a ∷ xs) (b ∷ bs) =
    let rest = compare_bytes xs bs in
    elim (compare a b) [
      | Ordering.lt ↦ Ordering.lt
      | Ordering.eq ↦ rest
      | Ordering.gt ↦ Ordering.gt
    ]

-- As an `int64_t` in a register.
abbrev pub sign_word : Ordering → ℕ
sign_word Ordering.lt = 2 ^ 64 - 1
sign_word Ordering.eq = 0
sign_word Ordering.gt = 1

module _ {u : Unicorn} {h : Host} where
  pub hook_malloc : Command u h (Unit {0})
  hook_malloc = do size ← reg_read (x 0); ptr ← heap_alloc (add64 size 16); reg_write (x 0) ptr

  pub hook_calloc : Command u h (Unit {0})
  hook_calloc = do
    num ← reg_read (x 0)
    size ← reg_read (x 1)
    let total = mul64 num size
    ptr ← heap_alloc (add64 total 16)
    when (ltb 0 total) (mem_write ptr (replicate total 0))
    reg_write (x 0) ptr

  pub hook_realloc : Command u h (Unit {0})
  hook_realloc = do
    ptr ← reg_read (x 0)
    new_size ← reg_read (x 1)
    new_ptr ← heap_alloc (add64 new_size 16)
    when (not (ptr == 0) && ltb 0 new_size)
        (do bytes ← mem_read ptr new_size; mem_write new_ptr (buffer bytes new_size))
    reg_write (x 0) new_ptr

  pub hook_free : Command u h (Unit {0})
  hook_free = reg_write (x 0) 0

  pub hook_memcpy : Command u h (Unit {0})
  hook_memcpy = do
    dst ← reg_read (x 0)
    src ← reg_read (x 1)
    size ← reg_read (x 2)
    when (ltb 0 size && (not (dst == 0) && not (src == 0)))
        (do bytes ← mem_read src size; mem_write dst (buffer bytes size))
    reg_write (x 0) dst

  pub hook_memset : Command u h (Unit {0})
  hook_memset = do
    dst ← reg_read (x 0)
    val ← reg_read (x 1)
    size ← reg_read (x 2)
    when (ltb 0 size && not (dst == 0)) (mem_write dst (replicate size (val % 256)))
    reg_write (x 0) dst

  pub hook_memcmp : Command u h (Unit {0})
  hook_memcmp = do
    s1 ← reg_read (x 0)
    s2 ← reg_read (x 1)
    n ← reg_read (x 2)
    res ←
        if ltb 0 n && (not (s1 == 0) && not (s2 == 0))
        then (do
          b1 ← mem_read s1 n
          b2 ← mem_read s2 n
          pure (sign_word (compare_bytes (buffer b1 n) (buffer b2 n))))
        else pure 0
    reg_write (x 0) res

  -- The loop of `hook_memchr`, at index `i` of the bytes that are left to look at.
  pub memchr_loop : ℕ → (s target i : ℕ) → Command u h ℕ
  memchr_loop zero s target i vm = ok (0, vm)
  memchr_loop (suc left) s target i vm = elim (u.mem_read vm.uc (add64 s i) 1) [
    | none ↦ ok (0, vm)
    | some bytes ↦
        let rest = memchr_loop left s target (i + 1) vm in
        if get_or bytes 0 0 == target then ok (add64 s i, vm) else rest
  ]

  pub hook_memchr : Command u h (Unit {0})
  hook_memchr = do
    s ← reg_read (x 0)
    c ← reg_read (x 1)
    n ← reg_read (x 2)
    res ← memchr_loop n s (c % 256) 0
    reg_write (x 0) res
