-- ===== src/Mac/Resolve/Characters.antt =====
-- The table of character classes that the loaded code reads through `__ctype_`.
use anisette_kit.Prelude.{
  subst, ℕ, zero, suc, ◌+◌, ◌*◌, ◌/◌, ◌%◌, ◌^◌, ◌<◌, ◌≤◌, ◌≡◌, ◌≢◌, refl, ap, ◌∙◌, Bool, true,
  false, some, List, [], ◌∷◌, arith, get_elem?, length, replicate, bit_or,
}
use anisette_kit.Prelude.Bits.{bit_or_above}
use anisette_kit.Emulator.Vm.{ok}
use anisette_kit.Mac.Platform.{Platform}
use anisette_kit.Mac.Process.{Process, fresh_process}
use anisette_kit.Mac.Resolve.{store_at, or_bit, ctype_mask, ctype_loop, init_bionic_ctype}

length-store_at : (i v : ℕ) (xs : List ℕ) → length (store_at i v xs) ≡ length xs
unfolding store_at
length-store_at i v [] = refl
length-store_at zero v (x ∷ xs) = refl
length-store_at (suc i) v (x ∷ xs) = ap suc (length-store_at i v xs)

store_at-same : (i v : ℕ) (xs : List ℕ) → i < length xs → get_elem? (store_at i v xs) i ≡ some v
unfolding store_at
store_at-same i v [] h = absurd (omega arith)
store_at-same zero v (x ∷ xs) h = refl
store_at-same (suc i) v (x ∷ xs) h = store_at-same i v xs (omega arith)

store_at-other : (i j v : ℕ) (xs : List ℕ) → i ≢ j → get_elem? (store_at i v xs) j ≡ get_elem? xs j
unfolding store_at
store_at-other i j v [] h = refl
store_at-other zero zero v (x ∷ xs) h = absurd (h refl)
store_at-other zero (suc j) v (x ∷ xs) h = refl
store_at-other (suc i) zero v (x ∷ xs) h = refl
store_at-other (suc i) (suc j) v (x ∷ xs) h = store_at-other i j v xs (λ e. h (ap suc e))

module _ (p : Platform) where
  -- The loop leaves the entries before its first one.
  loop-before :
      (left c j : ℕ) (xs : List ℕ)
      → j < 128 + c
      → get_elem? (ctype_loop p left c xs) j ≡ get_elem? xs j
  unfolding ctype_loop
  loop-before zero c j xs h = refl
  loop-before (suc left) c j xs h =
      loop-before left (c + 1) j (store_at (128 + c) (ctype_mask p c) xs) (omega arith)
      ∙ store_at-other (128 + c) j (ctype_mask p c) xs (λ e. omega arith)

  loop-at :
      (left c d : ℕ) (xs : List ℕ)
      → d < left
      → 128 + c + left ≤ length xs
      → get_elem? (ctype_loop p left c xs) (128 + c + d) ≡ some (ctype_mask p (c + d))
  unfolding ctype_loop
  loop-at zero c d xs h long = absurd (omega arith)
  loop-at (suc left) c zero xs h long =
      let e : c + 0 ≡ c = omega arith in
      let f : 128 + c + 0 ≡ 128 + c = omega arith in
      rw (e, f)
        (loop-before left (c + 1) (128 + c) (store_at (128 + c) (ctype_mask p c) xs) (omega arith)
          ∙ store_at-same (128 + c) (ctype_mask p c) xs (omega arith))
  loop-at (suc left) c (suc d) xs h long =
      let e : c + suc d ≡ c + 1 + d = omega arith in
      let f : 128 + c + suc d ≡ 128 + (c + 1) + d = omega arith in
      let n : length (store_at (128 + c) (ctype_mask p c) xs) ≡ length xs =
        length-store_at (128 + c) (ctype_mask p c) xs in
      rw (e, f)
        (loop-at left (c + 1) d (store_at (128 + c) (ctype_mask p c) xs) (omega arith)
          (omega arith))

zeros-at : (n i : ℕ) → i < n → get_elem? {A = ℕ} (replicate n 0) i ≡ some 0
zeros-at zero i h = absurd (omega arith)
zeros-at (suc n) zero h = refl
zeros-at (suc n) (suc i) h = zeros-at n i (omega arith)

abbrev pub flag : Bool → ℕ
flag true = 1
flag false = 0

-- The eight lowest binary digits of a mask tell to which classes a character belongs.
pub record HasClasses (p : Platform) (c mask : ℕ) : Type 0 where
  pub upper : mask / 0x1 % 2 ≡ flag (p.isupper c)
  pub lower : mask / 0x2 % 2 ≡ flag (p.islower c)
  pub digit : mask / 0x4 % 2 ≡ flag (p.isdigit c)
  pub space : mask / 0x8 % 2 ≡ flag (p.isspace c)
  pub punct : mask / 0x10 % 2 ≡ flag (p.ispunct c)
  pub cntrl : mask / 0x20 % 2 ≡ flag (p.iscntrl c)
  pub blank : mask / 0x40 % 2 ≡ flag (p.isblank c)
  pub xdigit : mask / 0x80 % 2 ≡ flag (p.isxdigit c)

flag-le : (test : Bool) → flag test ≤ 1
flag-le true = omega arith
flag-le false = omega arith

or_bit-flag :
    (test : Bool) (k mask : ℕ) → mask < 2 ^ k → or_bit test (2 ^ k) mask ≡ flag test * 2 ^ k + mask
or_bit-flag true k mask h =
    ap (λ (t : ℕ). bit_or mask t) {y = 1 * 2 ^ k} (omega arith) ∙ bit_or_above k 1 mask h
or_bit-flag false k mask h = omega arith

-- One more flag, above what the flags so far sum up to.
or_bit-above :
    (test : Bool) (k mask sum : ℕ)
    → mask ≡ sum
    → sum < 2 ^ k
    → (or_bit test (2 ^ k) mask ≡ flag test * 2 ^ k + sum)
      × (flag test * 2 ^ k + sum < 2 ^ k + 2 ^ k)
or_bit-above true k mask sum e h = (rw e (or_bit-flag true k sum h), omega arith)
or_bit-above false k mask sum e h = (rw e (or_bit-flag false k sum h), omega arith)

digits-HasClasses :
    (p : Platform) (c : ℕ)
    → HasClasses p c (
        flag (p.isxdigit c) * 2 ^ 7
        + (flag (p.isblank c) * 2 ^ 6
            + (flag (p.iscntrl c) * 2 ^ 5
                + (flag (p.ispunct c) * 2 ^ 4
                    + (flag (p.isspace c) * 2 ^ 3
                        + (flag (p.isdigit c) * 2 ^ 2
                            + (flag (p.islower c) * 2 ^ 1 + (flag (p.isupper c) * 2 ^ 0 + 0))))))))
digits-HasClasses p c =
    let a = flag-le (p.isupper c) in
    let b = flag-le (p.islower c) in
    let d = flag-le (p.isdigit c) in
    let e = flag-le (p.isspace c) in
    let f = flag-le (p.ispunct c) in
    let g = flag-le (p.iscntrl c) in
    let h = flag-le (p.isblank c) in
    let m = flag-le (p.isxdigit c) in
    record {
      upper = omega (arith, a, b, d, e, f, g, h, m);
      lower = omega (arith, a, b, d, e, f, g, h, m);
      digit = omega (arith, a, b, d, e, f, g, h, m);
      space = omega (arith, a, b, d, e, f, g, h, m);
      punct = omega (arith, a, b, d, e, f, g, h, m);
      cntrl = omega (arith, a, b, d, e, f, g, h, m);
      blank = omega (arith, a, b, d, e, f, g, h, m);
      xdigit = omega (arith, a, b, d, e, f, g, h, m);
    }

-- A mask is the sum of its bits.
ctype_mask-HasClasses : (p : Platform) (c : ℕ) → HasClasses p c (ctype_mask p c)
unfolding ctype_mask
ctype_mask-HasClasses p c =
    let (a, a_fits) = or_bit-above (p.isupper c) 0 0 0 refl (omega arith) in
    let (b, b_fits) = or_bit-above (p.islower c) 1 _ _ a (omega (arith, a_fits)) in
    let (d, d_fits) = or_bit-above (p.isdigit c) 2 _ _ b (omega (arith, b_fits)) in
    let (e, e_fits) = or_bit-above (p.isspace c) 3 _ _ d (omega (arith, d_fits)) in
    let (f, f_fits) = or_bit-above (p.ispunct c) 4 _ _ e (omega (arith, e_fits)) in
    let (g, g_fits) = or_bit-above (p.iscntrl c) 5 _ _ f (omega (arith, f_fits)) in
    let (h, h_fits) = or_bit-above (p.isblank c) 6 _ _ g (omega (arith, g_fits)) in
    let (m, m_fits) = or_bit-above (p.isxdigit c) 7 _ _ h (omega (arith, h_fits)) in
    rw m (digits-HasClasses p c)

-- At the start of the process the first initialisation leaves, behind 128 zeros, an entry for each
-- character from 0 to 255 whose binary digits are the answers of the eight tests, from isupper in
-- the lowest to isxdigit in the eighth, and a later one changes nothing.
pub init_bionic_ctype_lem :
    {p : Platform} (w : p.host.World) (c i : ℕ)
    → c < 256
    → i < 128
    → (s' : Process p) × (mask : ℕ) × (init_bionic_ctype (fresh_process p w) ≡ ok (tt, s'))
      × (get_elem? s'.ctype_array (128 + c) ≡ some mask)
      × HasClasses p c mask
      × (get_elem? s'.ctype_array i ≡ some 0)
      × (init_bionic_ctype s' ≡ ok (tt, s'))
unfolding init_bionic_ctype
init_bionic_ctype_lem {p} w c i h low =
    let zeros : List ℕ = replicate 384 0 in
    (
      record (fresh_process p w) {
        ctype_initialized = true;
        ctype_array = ctype_loop p 256 0 zeros;
      },
      ctype_mask p c,
      refl,
      subst (λ (n : ℕ). get_elem? (ctype_loop p 256 0 zeros) (128 + c) ≡ some (ctype_mask p n))
          {x = 0 + c} (omega arith) (loop-at p 256 0 c zeros h (omega arith)),
      ctype_mask-HasClasses p c,
      loop-before p 256 0 i zeros (omega arith) ∙ zeros-at 384 i (omega arith),
      refl,
    )
