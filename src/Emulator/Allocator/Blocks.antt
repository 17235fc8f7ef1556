-- ===== src/Emulator/Allocator/Blocks.antt =====
-- What the bump allocator promises while sizes do not wrap: aligned, disjoint blocks in its range.
use anisette_kit.Prelude.Options.{◌>>=◌, >>=-eq-some}
use anisette_kit.Prelude.{
  ℕ, ◌+◌, ◌*◌, ◌-◌, ◌/◌, ◌%◌, ◌^◌, ◌≤◌, ◌<◌, ◌≡◌, sym, subst, ◌∙◌, ap, bit_and, ltb, ◌==◌,
  if◌then◌else◌, add64, sub64, not64, Option, none, some, List, [], ◌∷◌, arith, All, ◌↔◌,
}
use anisette_kit.Prelude.Bits.{bit_and_clear, pow_add, pow_pos, pow_lt}
use native.Mathlib.Nat.{
  dvd-sub, mod-eq-zero_of_dvd, dvd_of_mod-eq-zero, mod-eq_of_lt, mod_self, add-mod, zero-mod,
  mul-mod_left, div-add-mod', mod-lt,
}
use anisette_kit.Emulator.Allocator.{PageAllocator, aligned_size, alloc}

-- An allocator in use: its alignment is a power of two that divides what it has given out.
pub record IsValid (k : ℕ) (a : PageAllocator) : Type 0 where
  pub small : k < 64
  pub aligned : a.alignment ≡ 2 ^ k
  pub units : a.offset % 2 ^ k ≡ 0
  pub within : a.offset ≤ a.size
  pub in_word : a.base + a.size < 2 ^ 64

round_up : (k x : ℕ) → k < 64 → x < 2 ^ 64 → bit_and x (2 ^ 64 - 2 ^ k) ≡ x / 2 ^ k * 2 ^ k
round_up k x h lt =
    let e : 64 - k + k ≡ 64 = omega arith in
    let p : 2 ^ (64 - k + k) ≡ 2 ^ 64 = ap (λ (n : ℕ). 2 ^ n) e in
    let raw = bit_and_clear (64 - k) k x (rw p lt) in rw p at raw

-- What a request takes of the range.
unfoldable pub need : ℕ → ℕ → ℕ
need k bytes = let up : ℕ = (bytes + (2 ^ k - 1)) / 2 ^ k * 2 ^ k in if up == 0 then 2 ^ k else up

-- The size in whole units, if rounding up does not wrap.
aligned_size_lem :
    (k bytes : ℕ) → k < 64 → bytes + 2 ^ k ≤ 2 ^ 64 → aligned_size (2 ^ k) bytes ≡ need k bytes
unfolding aligned_size need
aligned_size_lem k bytes h fits =
    let below : 2 ^ k < 2 ^ 64 = pow_lt k 64 h in
    let pos : 1 ≤ 2 ^ k = pow_pos k in
    let mask : sub64 (2 ^ k) 1 ≡ 2 ^ k - 1 = omega arith in
    let sum : add64 bytes (2 ^ k - 1) ≡ bytes + (2 ^ k - 1) = omega arith in
    let flip : not64 (2 ^ k - 1) ≡ 2 ^ 64 - 2 ^ k = omega arith in
    rw (mask, sum, flip, round_up k (bytes + (2 ^ k - 1)) h (omega arith))

rounds : (p x : ℕ) → 1 ≤ p → x ≤ (x + (p - 1)) / p * p
rounds p x h = grind (arith, div-add-mod' (x + (p - 1)) p, mod-lt (x + (p - 1)) {m = p})

rounds_units : (p y : ℕ) → 1 ≤ p → (y / p * p) % p ≡ 0
rounds_units p y h = mul-mod_left (y / p) p

-- It is enough, in whole units, at least one, and less than a unit too much.
pub need_bounds :
    (k bytes : ℕ)
    → (bytes ≤ need k bytes)
      × (1 ≤ need k bytes)
      × (need k bytes ≤ bytes + 2 ^ k)
      × (need k bytes % 2 ^ k ≡ 0)
unfolding need
need_bounds k bytes = ground (
  arith,
  pow_pos k,
  mod_self (2 ^ k),
  rounds (2 ^ k) bytes,
  rounds_units (2 ^ k) (bytes + (2 ^ k - 1)),
)

units_add : (p a b : ℕ) → a % p ≡ 0 → b % p ≡ 0 → (a + b) % p ≡ 0
units_add p a b h k = rw (add-mod a b p, h, k) (zero-mod p)

units_sub : (p a b : ℕ) → a % p ≡ 0 → b % p ≡ 0 → (a - b) % p ≡ 0
units_sub p a b h k =
    mod-eq-zero_of_dvd p (dvd-sub p (dvd_of_mod-eq-zero p h) (dvd_of_mod-eq-zero p k))

less-unit : (p a : ℕ) → a % p ≡ 0 → a < p → a ≡ 0
less-unit p a h lt = sym (mod-eq_of_lt lt) ∙ h

-- A request of whole units takes just what it asks for.
need_exact : (k x : ℕ) → x % 2 ^ k ≡ 0 → 0 < x → need k x ≡ x
unfolding need
need_exact k x units pos = ground (
  arith,
  pow_pos k,
  rounds (2 ^ k) x,
  less-unit (2 ^ k) ((x + (2 ^ k - 1)) / 2 ^ k * 2 ^ k - x) (
      units_sub (2 ^ k) ((x + (2 ^ k - 1)) / 2 ^ k * 2 ^ k) x
        (rounds_units (2 ^ k) (x + (2 ^ k - 1)) (pow_pos k)) units),
)

-- The result of a request that is not so large that an addition wraps.
module _ (k : ℕ) (a : PageAllocator) (bytes : ℕ) (v : IsValid k a)
    (fits : a.size + bytes + 2 ^ k < 2 ^ 64) where
  pub alloc-next : alloc a bytes ≡ (
      if ltb a.size (a.offset + need k bytes)
      then none
      else some (a.base + a.offset, record a { offset = a.offset + need k bytes }))
  unfolding alloc
  alloc-next =
      let e : aligned_size a.alignment bytes ≡ need k bytes =
        rw v.aligned (aligned_size_lem k bytes v.small (omega arith)) in
      let s : add64 a.offset (need k bytes) ≡ a.offset + need k bytes =
        omega (arith, need_bounds k bytes, v.within) in
      let p : add64 a.base a.offset ≡ a.base + a.offset = omega (arith, v.within, v.in_word) in
      rw (e, s, p)

-- A request that succeeds keeps the allocator valid, returns the end of what was given out, and takes
-- the size rounded up to whole units, if the size is far from wrapping around.
pub alloc-IsValid :
    (k : ℕ) (a a' : PageAllocator) (bytes ptr : ℕ)
    → IsValid k a
    → a.size + bytes + 2 ^ k < 2 ^ 64
    → alloc a bytes ≡ some (ptr, a')
    → IsValid k a'
      × (ptr ≡ a.base + a.offset)
      × (a'.base ≡ a.base)
      × (a'.size ≡ a.size)
      × (a'.offset ≡ a.offset + need k bytes)
alloc-IsValid k a a' bytes ptr v fits e =
    let out = rw (alloc-next k a bytes v fits) at e in
    ground (arith, units_add (2 ^ k) a.offset (need k bytes), need_bounds k bytes, out)

-- A request to a valid allocator fails exactly when the rounded size no longer fits the range, if the
-- size is far from wrapping around.
pub alloc-none_iff :
    (k : ℕ) (a : PageAllocator) (bytes : ℕ)
    → IsValid k a
    → a.size + bytes + 2 ^ k < 2 ^ 64
    → (alloc a bytes ≡ none) ↔ (a.size < a.offset + need k bytes)
alloc-none_iff k a bytes v fits = rw (alloc-next k a bytes v fits) (ground arith)

-- The requests of a run in turn, with the addresses that they got.
unfoldable pub alloc_all : PageAllocator → List ℕ → Option (List (ℕ × ℕ) × PageAllocator)
alloc_all a [] = some ([], a)
alloc_all a (n ∷ ns) = do
  (ptr, a') ← alloc a n
  (blocks, a'') ← alloc_all a' ns
  some ((ptr, n) ∷ blocks, a'')

-- Each block begins on a multiple of `unit` where the one before has ended, or later, within the bounds.
abbrev pub InOrder : (unit lo hi : ℕ) → List (ℕ × ℕ) → Type 0
InOrder unit lo hi [] = lo ≤ hi
InOrder unit lo hi ((ptr, n) ∷ blocks) =
    (lo ≤ ptr) × (ptr % unit ≡ 0) × InOrder unit (ptr + n) hi blocks

InOrder-mono :
    (unit lo lo' hi : ℕ) (blocks : List (ℕ × ℕ))
    → lo ≤ lo'
    → InOrder unit lo' hi blocks
    → InOrder unit lo hi blocks
InOrder-mono unit lo lo' hi [] h o = omega arith
InOrder-mono unit lo lo' hi ((ptr, n) ∷ blocks) h o = (omega (arith, o.0), o.1, o.2)

-- A request that is far from wrapping around.
abbrev pub IsModest : (k size bytes : ℕ) → Type 0
IsModest k size bytes = size + bytes + 2 ^ k < 2 ^ 64

-- The facts of one request, and the order of the blocks behind it.
alloc_all-InOrder_step :
    (k : ℕ) (a a1 : PageAllocator) (n ptr : ℕ) (rest blocks : List (ℕ × ℕ))
    → IsValid k a
    → a.base % 2 ^ k ≡ 0
    → IsValid k a1
      × (ptr ≡ a.base + a.offset)
      × (a1.base ≡ a.base)
      × (a1.size ≡ a.size)
      × (a1.offset ≡ a.offset + need k n)
    → InOrder (2 ^ k) (a1.base + a1.offset) (a1.base + a1.size) rest
    → (ptr, n) ∷ rest ≡ blocks
    → InOrder (2 ^ k) (a.base + a.offset) (a.base + a.size) blocks
alloc_all-InOrder_step k a a1 n ptr rest blocks v b one o e =
    let lo : ptr + n ≤ a1.base + a1.offset = omega (arith, one, need_bounds k n) in
    let hi : a1.base + a1.size ≡ a.base + a.size = omega (arith, one) in
    rw (← e) (
      omega (arith, one),
      rw one.1 (units_add (2 ^ k) a.base a.offset b v.units),
      InOrder-mono (2 ^ k) (ptr + n) (a1.base + a1.offset) (a.base + a.size) rest lo (rw hi at o),
    )

word_units : (k : ℕ) → k < 64 → 2 ^ 64 % 2 ^ k ≡ 0
word_units k h =
    let e : 64 - k + k ≡ 64 = omega arith in
    let p : 2 ^ 64 ≡ 2 ^ (64 - k) * 2 ^ k = ap (λ (n : ℕ). 2 ^ n) (sym e) ∙ pow_add (64 - k) k in
    ap (λ (t : ℕ). t % 2 ^ k) p ∙ mul-mod_left (2 ^ (64 - k)) (2 ^ k)

-- The blocks of any run of requests that the range can hold are aligned, lie in the range that was
-- free before, and none overlaps another.
pub alloc_all-InOrder :
    (k : ℕ) (a a' : PageAllocator) (ns : List ℕ) (blocks : List (ℕ × ℕ))
    → IsValid k a
    → a.base % 2 ^ k ≡ 0
    → All (IsModest k a.size) ns
    → alloc_all a ns ≡ some (blocks, a')
    → InOrder (2 ^ k) (a.base + a.offset) (a.base + a.size) blocks
unfolding alloc_all
alloc_all-InOrder k a a' [] blocks v b m e =
    let q : blocks ≡ [] = ground arith in rw q (omega (arith, v.within))
alloc_all-InOrder k a a' (n ∷ ns) blocks v b m e =
    let ((ptr, a1), p, e1) = >>=-eq-some (alloc a n) _ e in
    let ((rest, a2), q, e2) = >>=-eq-some (alloc_all a1 ns) _ e1 in
    let one = alloc-IsValid k a a1 n ptr v m.0 p in
    alloc_all-InOrder_step k a a1 n ptr rest blocks v b one
      (alloc_all-InOrder k a1 a2 ns rest one.0 (rw (one.2) b)
        (subst (λ s. All (IsModest k s) ns) (sym one.3) m.1) q)
      (ground (arith, e2))

-- A request of 2^64 less what has been given out does not fail, whatever the range: it is granted
-- with an address in the range, and after it the allocator starts again from its base.
pub alloc_wraps :
    (k : ℕ) (a : PageAllocator)
    → IsValid k a
    → 0 < a.offset
    → alloc a (2 ^ 64 - a.offset) ≡ some (a.base + a.offset, record a { offset = 0 })
unfolding alloc
alloc_wraps k a v used =
    let unit : 2 ^ k ≤ a.offset = grind (arith, less-unit (2 ^ k) a.offset v.units) in
    let whole : 2 ^ 64 % 2 ^ k ≡ 0 = word_units k v.small in
    let e : aligned_size a.alignment (2 ^ 64 - a.offset) ≡ 2 ^ 64 - a.offset = rw v.aligned (
      aligned_size_lem k (2 ^ 64 - a.offset) v.small (omega arith)
      ∙ need_exact k _ (units_sub (2 ^ k) (2 ^ 64) a.offset whole v.units)
          (omega (arith, v.within, v.in_word))) in
    let s : add64 a.offset (2 ^ 64 - a.offset) ≡ 0 = omega (arith, v.within, v.in_word) in
    let p : add64 a.base a.offset ≡ a.base + a.offset = omega (arith, v.within, v.in_word) in
    rw (e, s, p) (ground arith)
