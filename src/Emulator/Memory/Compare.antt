-- ===== src/Emulator/Memory/Compare.antt =====
-- `memcmp` and `memchr` of the guest.
use anisette_kit.Emulator.Unicorn.Content.{length-collect, collect-reg_write}
use anisette_kit.Prelude.{
  sym, length, subst, ◌%◌, suc, zero, ==_iff, ap, Bool-cases, add64, inr, refl, ◌∙◌, true, ◌==◌,
  not, inl, take, ◌&&◌, [], get_elem?, ltb, ◌≤◌, some, ◌^◌, ◌∷◌, ◌⊎◌, All, arith, ◌+◌, ◌<◌, ◌≢◌,
  ◌↔◌, ◌≡◌, List, ℕ,
}
use Prim.Native.Nat.{suc, Ordering}
use anisette_kit.Emulator.Unicorn.{Unicorn, x, collect, byte, UnicornLaws}
use anisette_kit.Emulator.Host.{Host}
use anisette_kit.Emulator.Vm.{Vm, ok}
use anisette_kit.Emulator.Memory.{hook_memcmp, hook_memchr, memchr_loop, compare_bytes, sign_word}
use anisette_kit.Emulator.Memory.Heap.{x0-back}

compare_bytes-eq : (xs ys : List ℕ) → compare_bytes xs ys ≡ Ordering.eq → xs ≡ ys
unfolding compare_bytes
compare_bytes-eq [] [] h = refl
compare_bytes-eq [] (b ∷ bs) h = cc
compare_bytes-eq (a ∷ xs) [] h = cc
compare_bytes-eq (a ∷ xs) (b ∷ ys) h = ground (arith, compare_bytes-eq xs ys)

compare_bytes_self : (xs : List ℕ) → compare_bytes xs xs ≡ Ordering.eq
unfolding compare_bytes
compare_bytes_self [] = refl
compare_bytes_self (a ∷ xs) = ground (arith, compare_bytes_self xs)

-- The number for an order is 0 for "equal" alone.
pub sign_word-zero_iff : (xs ys : List ℕ) → (sign_word (compare_bytes xs ys) ≡ 0) ↔ (xs ≡ ys)
sign_word-zero_iff xs ys = (λ e. ground (arith, compare_bytes-eq xs ys), λ e. same e)
  where
    same : xs ≡ ys → sign_word (compare_bytes xs ys) ≡ 0
    same e = rw (e, compare_bytes_self ys)

pub sign_word-lt : (o : Ordering) → sign_word o < 2 ^ 64
sign_word-lt Ordering.lt = omega arith
sign_word-lt _ = omega arith

read-cons :
    {u : Unicorn} (L : UnicornLaws u) (s : u.State) (a n b : ℕ) (bytes : List ℕ)
    → collect (byte u s) a (suc n) ≡ some (b ∷ bytes)
    → (u.mem_read s a 1 ≡ some (b ∷ [])) × (collect (byte u s) (a + 1) n ≡ some bytes)
read-cons {u} L s a n b bytes e = ground (arith, L.mem_read-collect s a 1)

-- Where `target` is met first.
abbrev pub Finds : (s target : ℕ) → List ℕ → ℕ → Type 0
Finds s target bytes res =
    ((res ≡ 0) × All (λ b. b ≢ target) bytes)
    ⊎ ((i : ℕ) × (res ≡ s + i)
        × (get_elem? bytes i ≡ some target)
        × All (λ b. b ≢ target) (take i bytes))

Finds-cons :
    (s target b : ℕ) (bytes : List ℕ) (res : ℕ)
    → b ≢ target
    → Finds (s + 1) target bytes res
    → Finds s target (b ∷ bytes) res
Finds-cons s target b bytes res miss (inl (e, none_there)) = inl (e, (miss, none_there))
Finds-cons s target b bytes res miss (inr (i, e, there, before)) =
    inr (suc i, omega arith, there, (miss, before))

get_elem?-lt : (bs : List ℕ) (i b : ℕ) → get_elem? bs i ≡ some b → i < length bs
get_elem?-lt [] i b e = cc
get_elem?-lt (c ∷ bs) zero b e = omega arith
get_elem?-lt (c ∷ bs) (suc i) b e = omega (arith, get_elem?-lt bs i b e)

Finds-lt :
    (s target : ℕ) (bytes : List ℕ) (res : ℕ)
    → Finds s target bytes res
    → s + length bytes < 2 ^ 64
    → res < 2 ^ 64
Finds-lt s target bytes res (inl (e, away)) fits = omega arith
Finds-lt s target bytes res (inr (i, e, there, before)) fits =
    omega (arith, get_elem?-lt bytes i target there)

module _ {u : Unicorn} {h : Host} (L : UnicornLaws u) where
  -- `memcmp` of readable bytes returns 0 exactly where they are the same.
  pub memcmp_lem :
      (vm : Vm u h) (b1 b2 : List ℕ)
      → let s1 : ℕ = u.reg_read vm.uc (x 0) in
        let s2 : ℕ = u.reg_read vm.uc (x 1) in
        let n : ℕ = u.reg_read vm.uc (x 2) in
        0 < n
        → 0 < s1
        → 0 < s2
        → collect (byte u vm.uc) s1 n ≡ some b1
        → collect (byte u vm.uc) s2 n ≡ some b2
        → (vm' : Vm u h) × (hook_memcmp vm ≡ ok (tt, vm'))
          × ((u.reg_read vm'.uc (x 0) ≡ 0) ↔ (b1 ≡ b2))
          × ((a k : ℕ) → collect (byte u vm'.uc) a k ≡ collect (byte u vm.uc) a k)
  unfolding hook_memcmp
  memcmp_lem vm b1 b2 pos pos1 pos2 c1 c2 =
      let s1 : ℕ = u.reg_read vm.uc (x 0) in
      let s2 : ℕ = u.reg_read vm.uc (x 1) in
      let n : ℕ = u.reg_read vm.uc (x 2) in
      let res : ℕ = sign_word (compare_bytes b1 b2) in
      let test : (ltb 0 n && (not (s1 == 0) && not (s2 == 0))) ≡ true = ground arith in
      let e1 : u.mem_read vm.uc s1 n ≡ some b1 = L.mem_read-collect vm.uc s1 n ∙ c1 in
      let e2 : u.mem_read vm.uc s2 n ≡ some b2 = L.mem_read-collect vm.uc s2 n ∙ c2 in
      (
        record vm { uc = u.reg_write vm.uc (x 0) res },
        rw (test, e1, e2),
        rw (x0-back L vm.uc res (sign_word-lt _)) (sign_word-zero_iff b1 b2),
        λ a k. collect-reg_write u L vm.uc (x 0) res a k,
      )

  memchr_loop-Finds :
      (n s target i : ℕ) (bytes : List ℕ) (vm : Vm u h)
      → collect (byte u vm.uc) (s + i) n ≡ some bytes
      → s + i + n ≤ 2 ^ 64
      → (res : ℕ) × (memchr_loop n s target i vm ≡ ok (res, vm)) × Finds (s + i) target bytes res
  unfolding memchr_loop
  memchr_loop-Finds zero s target i bytes vm c fits =
      let e : bytes ≡ [] = ground arith in (0, refl, inl (refl, rw e tt))
  memchr_loop-Finds (suc n) s target i [] vm c fits =
      absurd (omega (arith, length-collect (byte u vm.uc) (s + i) (suc n) [] c))
  memchr_loop-Finds (suc n) s target i (b ∷ bytes) vm c fits =
      let (here, behind) = read-cons L vm.uc (s + i) n b bytes c in
      let at : add64 s i ≡ s + i = omega arith in
      let first : u.mem_read vm.uc (add64 s i) 1 ≡ some (b ∷ []) = rw at here in
      let next : s + i + 1 ≡ s + (i + 1) = omega arith in
      let (res, e, f) =
        memchr_loop-Finds n s target (i + 1) bytes vm (rw next at behind) (omega arith) in
      elim (Bool-cases (b == target)) [
        | inl hit ↦ (
          s + i,
          rw (first, memchr_loop, hit, at),
          inr (0, omega arith, ap some ((==_iff b target).0 hit), tt),
        )
        | inr miss ↦ (
          res,
          rw (first, memchr_loop, miss) e,
          Finds-cons (s + i) target b bytes res (λ e. cc (miss, (==_iff b target).1 e))
              (subst (λ t. Finds t target bytes res) (sym next) f),
        )
      ]

  -- `memchr` over readable bytes that do not run past the address space returns the address of the
  -- first one that equals the low byte of its argument, or 0 if none does.
  pub memchr_lem :
      (vm : Vm u h) (bytes : List ℕ)
      → let s : ℕ = u.reg_read vm.uc (x 0) in
        let n : ℕ = u.reg_read vm.uc (x 2) in
        collect (byte u vm.uc) s n ≡ some bytes
        → s + n < 2 ^ 64
        → (vm' : Vm u h) × (hook_memchr vm ≡ ok (tt, vm'))
          × Finds s (u.reg_read vm.uc (x 1) % 256) bytes (u.reg_read vm'.uc (x 0))
  unfolding hook_memchr
  memchr_lem vm bytes c fits =
      let s : ℕ = u.reg_read vm.uc (x 0) in
      let n : ℕ = u.reg_read vm.uc (x 2) in
      let target : ℕ = u.reg_read vm.uc (x 1) % 256 in
      let z : s ≡ s + 0 = omega arith in
      let (res, e, f) = memchr_loop-Finds n s target 0 bytes vm (rw z at c) (omega arith) in
      (
        record vm { uc = u.reg_write vm.uc (x 0) res },
        rw e,
        rw
            (x0-back L vm.uc res (
              Finds-lt (s + 0) target bytes res f
                (omega (arith, length-collect (byte u vm.uc) s n bytes c))))
            (subst (λ t. Finds t target bytes res) (sym z) f),
      )
