-- ===== src/Prelude/Bits/Halves.antt =====
-- An operation on binary digits works on the high and the low part of its numbers apart. It is
-- shown once for all operations that fill up with `z` where the first number has no more digits.
use Prim.Native.Nat.{ℕ, zero, suc, ◌+◌, ◌-◌, ◌*◌, ◌/◌, ◌%◌, ◌^◌, ◌≤◌, ◌<◌, digits, bitwise}
use native.Mathlib.Nat.{pow-suc}
use mathlib.Core.Path.{◌≡◌, refl, ap, ◌∙◌}
use native.Mathlib.Omega.{arith}

-- `2 ^ suc k` as a factor, which omega reads.
pub double : (q k : ℕ) → q * 2 ^ suc k ≡ q * 2 ^ k + q * 2 ^ k
double q k = ap (λ (t : ℕ). q * t) (pow-suc 2 k) ∙ omega arith

pub pow_pos : (k : ℕ) → 1 ≤ 2 ^ k
pow_pos zero = omega arith
pow_pos (suc k) = omega (arith, pow-suc 2 k, pow_pos k)

module _ (z : ℕ → ℕ) (f : ℕ → ℕ → ℕ) (fill : (b : ℕ) → z b ≡ z (b / 2) * 2 + f 0 (b % 2)) where
  -- One round more than the first number needs is one that fills up.
  idle : (b a rounds : ℕ) → a ≤ rounds → digits z f (suc rounds) a b ≡ digits z f rounds a b
  idle b zero zero enough = refl
  idle b zero (suc rounds) enough = refl
  idle b (suc a) zero enough = absurd (omega arith)
  idle b (suc a) (suc rounds) enough =
      ap (λ (t : ℕ). t * 2 + f (suc a % 2) (b % 2)) (idle (b / 2) (suc a / 2) rounds (omega arith))

  surplus : (more a b : ℕ) → digits z f (more + a) a b ≡ digits z f a a b
  surplus zero a b = ap (λ (t : ℕ). digits z f t a b) (omega arith)
  surplus (suc more) a b =
      ap (λ (t : ℕ). digits z f t a b) {y = suc (more + a)} (omega arith)
      ∙ idle b a (more + a) (omega arith)
      ∙ surplus more a b

  -- The lowest digit, apart from the others.
  pub bitwise_low :
      (a b : ℕ) → bitwise z f a b ≡ bitwise z f (a / 2) (b / 2) * 2 + f (a % 2) (b % 2)
  bitwise_low zero b = fill b
  bitwise_low (suc a) b =
      let half : ℕ = suc a / 2 in
      ap (λ (t : ℕ). t * 2 + f (suc a % 2) (b % 2))
        (ap (λ (t : ℕ). digits z f t half (b / 2)) (omega arith) ∙ surplus (a - half) half (b / 2))

  -- The low `k` digits, apart from the others.
  pub bitwise_halves :
      (k q r m s : ℕ)
      → z 0 ≡ 0
      → r < 2 ^ k
      → s < 2 ^ k
      → bitwise z f (q * 2 ^ k + r) (m * 2 ^ k + s) ≡ bitwise z f q m * 2 ^ k + bitwise z f r s
  bitwise_halves zero q r m s e hr hs =
      let hi_q : q * 2 ^ 0 + r ≡ q = omega arith in
      let hi_m : m * 2 ^ 0 + s ≡ m = omega arith in
      let lo_r : r ≡ 0 = omega arith in
      let lo_s : s ≡ 0 = omega arith in rw (hi_q, hi_m, lo_r, lo_s, e) (omega arith)
  bitwise_halves (suc k) q r m s e hr hs =
      let a : ℕ = q * 2 ^ suc k + r in
      let b : ℕ = m * 2 ^ suc k + s in
      let half_a : a / 2 ≡ q * 2 ^ k + r / 2 = omega (arith, double q k) in
      let half_b : b / 2 ≡ m * 2 ^ k + s / 2 = omega (arith, double m k) in
      let odd_a : a % 2 ≡ r % 2 = omega (arith, double q k) in
      let odd_b : b % 2 ≡ s % 2 = omega (arith, double m k) in
      let rest =
        bitwise_halves k q (r / 2) m (s / 2) e (omega (arith, pow-suc 2 k))
          (omega (arith, pow-suc 2 k)) in
      bitwise_low a b
      ∙ rw (half_a, half_b, odd_a, odd_b, rest, bitwise_low r s)
          (omega (arith, double (bitwise z f q m) k))
