-- ===== src/Base/Base64/Chunk.antt =====
-- One round of `base64_encode` as arithmetic on the bytes of its chunk.
use anisette_kit.Prelude.{ℕ, ◌+◌, ◌*◌, ◌^◌, ◌/◌, ◌%◌, ◌≡◌, [], ◌∷◌, arith, get_or, IsByte}
use anisette_kit.Prelude.Bits.{zero-bit_or, bit_and_mask, bit_or_disjoint}
use anisette_kit.Base.Base64.{table, table_char, join_chunk, encode_chunk}

-- The character of a number below 64.
unfoldable pub digit : ℕ → ℕ
digit k = get_or table k 0

pub table_char_lem : (k : ℕ) → table_char k ≡ digit (k % 64)
unfolding table_char digit
table_char_lem k = rw (bit_and_mask 6 k)

join_one : (x : ℕ) → IsByte x → join_chunk (x ∷ []) 0 0 ≡ x * 2 ^ 16
unfolding join_chunk
join_one x h = rw zero-bit_or (omega arith)

join_two : (x y : ℕ) → IsByte x → IsByte y → join_chunk (x ∷ y ∷ []) 0 0 ≡ x * 2 ^ 16 + y * 2 ^ 8
unfolding join_chunk
join_two x y hx hy =
    let e : x * 2 ^ 16 % 2 ^ 32 ≡ x * 2 ^ 16 = omega arith in
    let f : y * 2 ^ 8 % 2 ^ 32 ≡ y * 2 ^ 8 = omega arith in
    rw (zero-bit_or, e, f) (bit_or_disjoint 16 x (y * 2 ^ 8) (omega arith))

join_three :
    (x y z : ℕ)
    → IsByte x
    → IsByte y
    → IsByte z
    → join_chunk (x ∷ y ∷ z ∷ []) 0 0 ≡ x * 2 ^ 16 + y * 2 ^ 8 + z
unfolding join_chunk
join_three x y z hx hy hz =
    let above : x * 2 ^ 16 + y * 2 ^ 8 ≡ (x * 2 ^ 8 + y) * 2 ^ 8 = omega arith in
    let f : z * 2 ^ 0 % 2 ^ 32 ≡ z = omega arith in
    rw (join_two x y hx hy, f, above) (bit_or_disjoint 8 (x * 2 ^ 8 + y) z hz)

pub encode_chunk_one :
    (x : ℕ)
    → IsByte x
    → encode_chunk (x ∷ []) ≡ digit (x / 4) ∷ digit (x % 4 * 16) ∷ b'=' ∷ b'=' ∷ []
unfolding encode_chunk
encode_chunk_one x h =
    let e : x * 2 ^ 16 / 2 ^ 18 % 64 ≡ x / 4 = omega arith in
    let f : x * 2 ^ 16 / 2 ^ 12 % 64 ≡ x % 4 * 16 = omega arith in
    rw (
      join_one x h,
      table_char_lem (x * 2 ^ 16 / 2 ^ 18),
      table_char_lem (x * 2 ^ 16 / 2 ^ 12),
      e,
      f,
    )

pub encode_chunk_two :
    (x y : ℕ)
    → IsByte x
    → IsByte y
    → encode_chunk (x ∷ y ∷ [])
      ≡ digit (x / 4) ∷ digit (x % 4 * 16 + y / 16) ∷ digit (y % 16 * 4) ∷ b'=' ∷ []
unfolding encode_chunk
encode_chunk_two x y hx hy =
    let b : ℕ = x * 2 ^ 16 + y * 2 ^ 8 in
    let e : b / 2 ^ 18 % 64 ≡ x / 4 = omega arith in
    let f : b / 2 ^ 12 % 64 ≡ x % 4 * 16 + y / 16 = omega arith in
    let g : b / 2 ^ 6 % 64 ≡ y % 16 * 4 = omega arith in
    rw (
      join_two x y hx hy,
      table_char_lem (b / 2 ^ 18),
      table_char_lem (b / 2 ^ 12),
      table_char_lem (b / 2 ^ 6),
      e,
      f,
      g,
    )

pub encode_chunk_three :
    (x y z : ℕ)
    → IsByte x
    → IsByte y
    → IsByte z
    → encode_chunk (x ∷ y ∷ z ∷ [])
      ≡ digit (x / 4)
        ∷ digit (x % 4 * 16 + y / 16)
        ∷ digit (y % 16 * 4 + z / 64)
        ∷ digit (z % 64)
        ∷ []
unfolding encode_chunk
encode_chunk_three x y z hx hy hz =
    let b : ℕ = x * 2 ^ 16 + y * 2 ^ 8 + z in
    let e : b / 2 ^ 18 % 64 ≡ x / 4 = omega arith in
    let f : b / 2 ^ 12 % 64 ≡ x % 4 * 16 + y / 16 = omega arith in
    let g : b / 2 ^ 6 % 64 ≡ y % 16 * 4 + z / 64 = omega arith in
    let h : b % 64 ≡ z % 64 = omega arith in
    rw (
      join_three x y z hx hy hz,
      table_char_lem (b / 2 ^ 18),
      table_char_lem (b / 2 ^ 12),
      table_char_lem (b / 2 ^ 6),
      table_char_lem b,
      e,
      f,
      g,
      h,
    )
