-- ===== src/Base/Base64.antt =====
-- `base64_encode` of Native/anisette_base.cpp.
pub mod Chunk
pub mod RoundTrip
use anisette_kit.Prelude.{
  ℕ, zero, suc, ◌+◌, ◌-◌, ◌*◌, ◌^◌, ◌/◌, ◌%◌, bit_and, bit_or, Bool, List, [], ◌∷◌, ◌++◌, Option,
  none, some, ltb, leb, ◌==◌, if◌then◌else◌, get_or, length, drop, take,
}
use anisette_kit.Prelude.Text.{Text, codes}

-- `table`
abbrev pub table : Text
table = codes "ABCDEFGHIJKLMNOPQRSTUVWXYZabcdefghijklmnopqrstuvwxyz0123456789+/"

-- `table[k & 63]`
unfoldable pub table_char : ℕ → ℕ
table_char k = get_or table (bit_and k 63) 0

-- The inner loop: `b |= (uint32_t)input[i + j] << (16 - j * 8)` for the bytes left of the chunk.
unfoldable pub join_chunk : List ℕ → ℕ → ℕ → ℕ
join_chunk [] j b = b
join_chunk (x ∷ xs) j b = join_chunk xs (j + 1) (bit_or b (x * 2 ^ (16 - j * 8) % 2 ^ 32))

-- The four characters that one round of the outer loop appends, for the bytes of its chunk.
unfoldable pub encode_chunk : List ℕ → Text
encode_chunk chunk =
    let b : ℕ = join_chunk chunk 0 0 in
    let chunk_len : ℕ = length chunk in
    table_char (b / 2 ^ 18)
    ∷ table_char (b / 2 ^ 12)
    ∷ (if ltb 1 chunk_len then table_char (b / 2 ^ 6) else b'=')
    ∷ (if ltb 2 chunk_len then table_char b else b'=')
    ∷ []

-- The outer loop over the bytes from index `i` on: a chunk of three, or of what is left.
unfoldable pub encode_loop : List ℕ → Text
encode_loop [] = []
encode_loop (x ∷ []) = encode_chunk (x ∷ [])
encode_loop (x ∷ y ∷ []) = encode_chunk (x ∷ y ∷ [])
encode_loop (x ∷ y ∷ z ∷ rest) = encode_chunk (x ∷ y ∷ z ∷ []) ++ encode_loop rest

-- `none` is a null `input`; a caller's `length` is that of the list.
unfoldable pub base64_encode : Option (List ℕ) → Text
base64_encode none = []
base64_encode (some input) = if length input == 0 then [] else encode_loop input
