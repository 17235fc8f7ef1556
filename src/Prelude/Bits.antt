-- ===== src/Prelude/Bits.antt =====
-- Bit masks and joins at variables: a mask of ones is a remainder, a cleared low part is a
-- multiple, and the bits of numbers that do not overlap add up.
mod Halves
pub use Halves.{pow_pos}
use Halves.{bitwise_low, bitwise_halves}
use Prim.Native.Nat.{
  ℕ, zero, suc, ◌+◌, ◌-◌, ◌*◌, ◌/◌, ◌%◌, ◌^◌, ◌≤◌, ◌<◌, min, max, bit_and, bit_or, bit_and-bitwise,
  bit_or-bitwise,
}
use native.Mathlib.Nat.{suc-mul, pow-suc, add-zero, add-suc}
use mathlib.Core.Path.{◌≡◌, refl, ap, ◌∙◌}
use mathlib.Core.Bool.{Bool, true, ◌&&◌}
use native.Mathlib.Decide.{dec_lt}
use native.Mathlib.Omega.{arith}

-- Whether a test holds from `i` on for `count` numbers, by evaluation at each of them.
unfoldable pub scan_range : (test : ℕ → Bool) → (i count : ℕ) → Bool
scan_range test i zero = true
scan_range test i (suc count) = test i && scan_range test (i + 1) count

scan_range-at :
    (test : ℕ → Bool) (count i x : ℕ)
    → scan_range test i count ≡ true
    → i ≤ x
    → x < i + count
    → test x ≡ true
unfolding scan_range
scan_range-at test zero i x all lo hi = absurd (omega arith)
scan_range-at test (suc count) i x all lo hi = ground (arith, scan_range-at test count (i + 1) x)

pub scan_range_lem :
    (test : ℕ → Bool) (count x : ℕ) → scan_range test 0 count ≡ true → x < count → test x ≡ true
scan_range_lem test count x all hi = scan_range-at test count 0 x all (omega arith) (omega arith)

and_halves :
    (k q r m s : ℕ)
    → r < 2 ^ k
    → s < 2 ^ k
    → bit_and (q * 2 ^ k + r) (m * 2 ^ k + s) ≡ bit_and q m * 2 ^ k + bit_and r s
and_halves k q r m s hr hs =
    simp bit_and-bitwise (bitwise_halves (λ _. 0) min (λ b. omega arith) k q r m s refl hr hs)

or_halves :
    (k q r m s : ℕ)
    → r < 2 ^ k
    → s < 2 ^ k
    → bit_or (q * 2 ^ k + r) (m * 2 ^ k + s) ≡ bit_or q m * 2 ^ k + bit_or r s
or_halves k q r m s hr hs =
    simp bit_or-bitwise (bitwise_halves (λ b. b) max (λ b. omega arith) k q r m s refl hr hs)

pub zero-bit_or : (b : ℕ) → bit_or 0 b ≡ b
zero-bit_or b = bit_or-bitwise 0 b

bit_and_low : (a b : ℕ) → bit_and a b ≡ bit_and (a / 2) (b / 2) * 2 + min (a % 2) (b % 2)
bit_and_low a b = simp bit_and-bitwise (bitwise_low (λ _. 0) min (λ b. omega arith) a b)

bit_or_low : (a b : ℕ) → bit_or a b ≡ bit_or (a / 2) (b / 2) * 2 + max (a % 2) (b % 2)
bit_or_low a b = simp bit_or-bitwise (bitwise_low (λ b. b) max (λ b. omega arith) a b)

below_pow : (a : ℕ) → a < 2 ^ a
below_pow zero = omega arith
below_pow (suc a) = omega (arith, pow-suc 2 a, below_pow a)

-- Every number is below some power, so a zero on the right is taken apart digit by digit.
bit_or_right : (k a : ℕ) → a < 2 ^ k → bit_or a 0 ≡ a
bit_or_right zero a h = ground arith
bit_or_right (suc k) a h =
    omega (arith, bit_or_low a 0, bit_or_right k (a / 2) (omega (arith, pow-suc 2 k)))

bit_and_right : (k a : ℕ) → a < 2 ^ k → bit_and a 0 ≡ 0
bit_and_right zero a h = ground arith
bit_and_right (suc k) a h =
    omega (arith, bit_and_low a 0, bit_and_right k (a / 2) (omega (arith, pow-suc 2 k)))

bit_or-zero : (a : ℕ) → bit_or a 0 ≡ a
bit_or-zero a = bit_or_right a a (below_pow a)

bit_and-zero : (a : ℕ) → bit_and a 0 ≡ 0
bit_and-zero a = bit_and_right a a (below_pow a)

-- Ones keep the numbers that they cover.
bit_and_ones : (k r : ℕ) → r < 2 ^ k → bit_and r (2 ^ k - 1) ≡ r
bit_and_ones zero r h = rw (bit_and-zero r) (omega arith)
bit_and_ones (suc k) r h =
    let ones : (2 ^ suc k - 1) / 2 ≡ 2 ^ k - 1 = omega (arith, pow-suc 2 k) in
    let one : (2 ^ suc k - 1) % 2 ≡ 1 = omega (arith, pow-suc 2 k, pow_pos k) in
    bit_and_low r (2 ^ suc k - 1)
    ∙ rw (ones, one, bit_and_ones k (r / 2) (omega (arith, pow-suc 2 k))) (omega arith)

-- A number above `k` zero bits, joined to one that fits in them, is their sum.
pub bit_or_disjoint : (k q r : ℕ) → r < 2 ^ k → bit_or (q * 2 ^ k) r ≡ q * 2 ^ k + r
bit_or_disjoint k q r h =
    ap (λ (t : ℕ). bit_or t r) {y = q * 2 ^ k + 0} (omega arith)
    ∙ ap (λ (t : ℕ). bit_or (q * 2 ^ k + 0) t) {y = 0 * 2 ^ k + r} (omega arith)
    ∙ or_halves k q 0 0 r (pow_pos k) h
    ∙ rw (bit_or-zero q, zero-bit_or r) refl

pub bit_or_above : (k q r : ℕ) → r < 2 ^ k → bit_or r (q * 2 ^ k) ≡ q * 2 ^ k + r
bit_or_above k q r h =
    ap (λ (t : ℕ). bit_or t (q * 2 ^ k)) {y = 0 * 2 ^ k + r} (omega arith)
    ∙ ap (λ (t : ℕ). bit_or (0 * 2 ^ k + r) t) {y = q * 2 ^ k + 0} (omega arith)
    ∙ or_halves k 0 r q 0 h (pow_pos k)
    ∙ rw (bit_or-zero r, zero-bit_or q) refl

-- A mask of `k` ones is the remainder by `2 ^ k`.
pub bit_and_mask : (k a : ℕ) → bit_and a (2 ^ k - 1) ≡ a % 2 ^ k
bit_and_mask k a =
    ap (λ (t : ℕ). bit_and t (2 ^ k - 1)) {y = a / 2 ^ k * 2 ^ k + a % 2 ^ k} (omega arith)
    ∙ ap (λ (t : ℕ). bit_and (a / 2 ^ k * 2 ^ k + a % 2 ^ k) t) {y = 0 * 2 ^ k + (2 ^ k - 1)}
        (omega arith)
    ∙ and_halves k (a / 2 ^ k) (a % 2 ^ k) 0 (2 ^ k - 1) (omega (arith, pow_pos k))
        (omega (arith, pow_pos k))
    ∙ rw (bit_and-zero (a / 2 ^ k), bit_and_ones k (a % 2 ^ k) (omega (arith, pow_pos k)))
        (omega arith)

pub pow_add : (a b : ℕ) → 2 ^ (a + b) ≡ 2 ^ a * 2 ^ b
pow_add a zero = rw add-zero (omega arith)
pow_add a (suc b) = rw add-suc (
    omega
      (arith, pow-suc 2 (a + b), pow-suc 2 b, pow_add a b, ap (λ (t : ℕ). 2 ^ a * t) (pow-suc 2 b)))

quotient-lt : (n k x : ℕ) → x < 2 ^ n * 2 ^ k → x / 2 ^ k < 2 ^ n
quotient-lt n k x h = grind (arith, pow_pos k)

pred-times : (a p : ℕ) → 1 ≤ a → a * p - p ≡ (a - 1) * p
pred-times zero p h = absurd (omega arith)
pred-times (suc a) p h = let e : suc a - 1 ≡ a = omega arith in rw e (omega (arith, suc-mul a p))

-- The mask's high ones, as a product.
high_ones : (n k : ℕ) → 2 ^ (n + k) - 2 ^ k ≡ (2 ^ n - 1) * 2 ^ k
high_ones n k = rw pow_add (pred-times (2 ^ n) (2 ^ k) (pow_pos n))

-- A mask of `n` ones above `k` zeros rounds a number of `n + k` bits down to a multiple of `2 ^ k`.
pub bit_and_clear :
    (n k x : ℕ) → x < 2 ^ (n + k) → bit_and x (2 ^ (n + k) - 2 ^ k) ≡ x / 2 ^ k * 2 ^ k
bit_and_clear n k x h =
    let parts : x ≡ x / 2 ^ k * 2 ^ k + x % 2 ^ k = omega arith in
    let high : 2 ^ (n + k) - 2 ^ k ≡ (2 ^ n - 1) * 2 ^ k + 0 = omega (arith, high_ones n k) in
    ap (λ (t : ℕ). bit_and t (2 ^ (n + k) - 2 ^ k)) parts
    ∙ ap (λ (t : ℕ). bit_and (x / 2 ^ k * 2 ^ k + x % 2 ^ k) t) high
    ∙ and_halves k (x / 2 ^ k) (x % 2 ^ k) (2 ^ n - 1) 0 (omega (arith, pow_pos k)) (pow_pos k)
    ∙ rw
        (bit_and_ones n (x / 2 ^ k) (quotient-lt n k x (rw pow_add at h)), bit_and-zero (x % 2 ^ k))
        (omega arith)

pub pow_lt : (j k : ℕ) → j < k → 2 ^ j < 2 ^ k
pow_lt j zero h = absurd (omega arith)
pow_lt j (suc k) h = elim (dec_lt j k) [
  | yes p ↦ omega (arith, pow-suc 2 k, pow_lt j k p)
  | no p ↦ ground (arith, pow-suc 2 k, pow_pos k)
]
