-- ===== src/Base/Base64/RoundTrip.antt =====
-- The text of `base64_encode` has the standard's length and alphabet, and decodes to its input.
use anisette_kit.Prelude.Options.{◌>>=◌}
use anisette_kit.Prelude.{
  ℕ, ◌+◌, ◌-◌, ◌*◌, ◌/◌, ◌%◌, ◌<◌, ◌≡◌, refl, ap, ◌∙◌, List, [], ◌∷◌, ◌++◌, arith, length,
  length-append, All-append, All-append, IsByte, All, Bool, true, false, ◌==◌, ◌&&◌, ◌||◌, not,
  Option, none, some, if◌then◌else◌, leb, ltb, ◌^◌, ==_iff,
}
use anisette_kit.Prelude.Bits.{scan_range, scan_range_lem}
use anisette_kit.Prelude.Text.{Text}
use anisette_kit.Base.Base64.{table_char, join_chunk, encode_chunk, encode_loop, base64_encode}
use anisette_kit.Base.Base64.Chunk.{
  digit, table_char_lem, encode_chunk_one, encode_chunk_two, encode_chunk_three,
}

-- A decoder after RFC 4648, written without a look at the encoder: the value of a character,
unfoldable pub digit_value : ℕ → Option ℕ
digit_value c =
    if leb b'A' c && leb c b'Z'
    then some (c - b'A')
    else if leb b'a' c && leb c b'z'
    then some (c - b'a' + 26)
    else if leb b'0' c && leb c b'9'
    then some (c - b'0' + 52)
    else if c == b'+'
    then some 62
    else if c == b'/'
    then some 63
    else none

-- The 64 characters that the standard's text is made of.
abbrev pub is_alphabet : ℕ → Bool
is_alphabet c =
    (leb b'A' c && leb c b'Z')
    || (leb b'a' c && leb c b'z')
    || (leb b'0' c && leb c b'9')
    || (c == b'+')
    || (c == b'/')

abbrev is_value : ℕ → Option ℕ → Bool
is_value k none = false
is_value k (some v) = v == k

is_value-some : (k : ℕ) (o : Option ℕ) → is_value k o ≡ true → o ≡ some k
is_value-some k none h = cc
is_value-some k (some v) h = ap some ((==_iff v k).0 h)

not-true : {b : Bool} → not b ≡ true → b ≡ false
not-true h = ground arith

-- the two or three digits of a last, padded group, whose unused bits must be zero,
pub last_two : ℕ → ℕ → Option (List ℕ)
last_two p q = if q % 16 == 0 then some ((p * 4 + q / 16) ∷ []) else none

pub last_three : ℕ → ℕ → ℕ → Option (List ℕ)
last_three p q r = if r % 4 == 0 then some ((p * 4 + q / 16) ∷ (q % 16 * 16 + r / 4) ∷ []) else none

-- a last group with one `=` or none,
pub padded_once : ℕ → ℕ → ℕ → ℕ → Option (List ℕ)
padded_once p q c d = do
  r ← digit_value c
  if d == b'=' then last_three p q r else (do
    s ← digit_value d
    some ((p * 4 + q / 16) ∷ (q % 16 * 16 + r / 4) ∷ (r % 4 * 64 + s) ∷ []))

-- and a text in groups of four, of which only the last may be padded.
unfoldable pub base64_decode : Text → Option (List ℕ)
base64_decode [] = some []
base64_decode (a ∷ []) = none
base64_decode (a ∷ b ∷ []) = none
base64_decode (a ∷ b ∷ c ∷ []) = none
base64_decode (a ∷ b ∷ c ∷ d ∷ []) = do
  p ← digit_value a
  q ← digit_value b
  if c == b'=' && d == b'=' then last_two p q else padded_once p q c d
base64_decode (a ∷ b ∷ c ∷ d ∷ e ∷ rest) = do
  p ← digit_value a
  q ← digit_value b
  r ← digit_value c
  s ← digit_value d
  tail ← base64_decode (e ∷ rest)
  some ((p * 4 + q / 16) ∷ (q % 16 * 16 + r / 4) ∷ (r % 4 * 64 + s) ∷ tail)

digit_table :
    scan_range
      (λ k. is_value k (digit_value (digit k)) && not (digit k == b'=') && is_alphabet (digit k))
      0
      64
    ≡ true
unfolding scan_range digit digit_value
digit_table = refl

digit_value-digit : (k : ℕ) → k < 64 → digit_value (digit k) ≡ some k
digit_value-digit k h =
    is_value-some k (digit_value (digit k)) (ground (arith, scan_range_lem _ 64 k digit_table h))

digit-ne-pad : (k : ℕ) → k < 64 → (digit k == b'=') ≡ false
digit-ne-pad k h = not-true (ground (arith, scan_range_lem _ 64 k digit_table h))

-- Four characters that stand for digits, before a text that decodes.
decode-full :
    (a b c d p q r s : ℕ) (t : Text) (bs : List ℕ)
    → digit_value a ≡ some p
    → digit_value b ≡ some q
    → digit_value c ≡ some r
    → digit_value d ≡ some s
    → (c == b'=') ≡ false
    → (d == b'=') ≡ false
    → base64_decode t ≡ some bs
    → base64_decode (a ∷ b ∷ c ∷ d ∷ t)
      ≡ some ((p * 4 + q / 16) ∷ (q % 16 * 16 + r / 4) ∷ (r % 4 * 64 + s) ∷ bs)
unfolding base64_decode padded_once
decode-full a b c d p q r s [] bs va vb vc vd nc nd e = rw (va, vb, nc, vc, nd, vd) (ground arith)
decode-full a b c d p q r s (x ∷ t) bs va vb vc vd nc nd e = rw (va, vb, vc, vd, e)

decode_one : (x : ℕ) → IsByte x → base64_decode (encode_chunk (x ∷ [])) ≡ some (x ∷ [])
unfolding base64_decode last_two
decode_one x h =
    rw
      (
        encode_chunk_one x h,
        digit_value-digit (x / 4) (omega arith),
        digit_value-digit (x % 4 * 16) (omega arith),
      )
      (ground arith)

decode_two :
    (x y : ℕ) → IsByte x → IsByte y → base64_decode (encode_chunk (x ∷ y ∷ [])) ≡ some (x ∷ y ∷ [])
unfolding base64_decode padded_once last_three
decode_two x y hx hy =
    rw
      (
        encode_chunk_two x y hx hy,
        digit_value-digit (x / 4) (omega arith),
        digit_value-digit (x % 4 * 16 + y / 16) (omega arith),
        digit-ne-pad (y % 16 * 4) (omega arith),
        digit_value-digit (y % 16 * 4) (omega arith),
      )
      (ground arith)

decode_three :
    (x y z : ℕ) (t : Text) (bs : List ℕ)
    → IsByte x
    → IsByte y
    → IsByte z
    → base64_decode t ≡ some bs
    → base64_decode (encode_chunk (x ∷ y ∷ z ∷ []) ++ t) ≡ some (x ∷ y ∷ z ∷ bs)
decode_three x y z t bs hx hy hz e = rw (encode_chunk_three x y z hx hy hz) (
    decode-full _ _ _ _ _ _ _ _ t bs (digit_value-digit (x / 4) (omega arith))
      (digit_value-digit (x % 4 * 16 + y / 16) (omega arith))
      (digit_value-digit (y % 16 * 4 + z / 64) (omega arith))
      (digit_value-digit (z % 64) (omega arith)) (digit-ne-pad _ (omega arith))
      (digit-ne-pad _ (omega arith)) e
    ∙ ground arith)

decode-encode_loop : (bs : List ℕ) → All IsByte bs → base64_decode (encode_loop bs) ≡ some bs
unfolding encode_loop
decode-encode_loop [] h = unfold base64_decode in refl
decode-encode_loop (x ∷ []) h = decode_one x h.0
decode-encode_loop (x ∷ y ∷ []) h = decode_two x y h.0 h.1.0
decode-encode_loop (x ∷ y ∷ z ∷ bs) h =
    decode_three x y z (encode_loop bs) bs h.0 h.1.0 h.1.1.0 (decode-encode_loop bs h.1.1.1)

base64_encode-some : (bs : List ℕ) → base64_encode (some bs) ≡ encode_loop bs
unfolding base64_encode encode_loop
base64_encode-some [] = refl
base64_encode-some (x ∷ bs) = ground arith

-- The text that `base64_encode` makes of a list of bytes decodes, by a decoder written after the
-- standard, to exactly those bytes.
pub decode-encode :
    (bs : List ℕ) → All IsByte bs → base64_decode (base64_encode (some bs)) ≡ some bs
decode-encode bs h = rw base64_encode-some (decode-encode_loop bs h)

chunk_shape : (c : List ℕ) → (length (encode_chunk c) ≡ 4)
unfolding encode_chunk
chunk_shape c = refl

length-encode_loop : (bs : List ℕ) → length (encode_loop bs) ≡ (length bs + 2) / 3 * 4
unfolding encode_loop
length-encode_loop [] = refl
length-encode_loop (x ∷ []) = chunk_shape _
length-encode_loop (x ∷ y ∷ []) = chunk_shape _
length-encode_loop (x ∷ y ∷ z ∷ bs) = omega (
  arith,
  chunk_shape (x ∷ y ∷ z ∷ []),
  length-append (encode_chunk (x ∷ y ∷ z ∷ [])) (encode_loop bs),
  length-encode_loop bs,
)

-- The text that `base64_encode` makes of any bytes fills exactly the `(length + 2) / 3 * 4`
-- characters that it reserves.
pub length-base64_encode :
    (bs : List ℕ) → length (base64_encode (some bs)) ≡ (length bs + 2) / 3 * 4
length-base64_encode bs = rw base64_encode-some (length-encode_loop bs)

-- A character that may stand between the quotes of a JSON string as it is: a digit or the pad.
abbrev pub IsPlain : ℕ → Type 0
IsPlain c = (is_alphabet c || (c == b'=')) ≡ true

table_char-IsPlain : (k : ℕ) → IsPlain (table_char k)
table_char-IsPlain k = rw table_char_lem (ground (arith, scan_range_lem _ 64 (k % 64) digit_table))

pad_or : (b : Bool) (k : ℕ) → IsPlain (if b then table_char k else b'=')
pad_or true k = table_char-IsPlain k
pad_or false k = refl

encode_chunk-IsPlain : (c : List ℕ) → All IsPlain (encode_chunk c)
unfolding encode_chunk
encode_chunk-IsPlain c =
    let b : ℕ = join_chunk c 0 0 in
    (
      table_char-IsPlain (b / 2 ^ 18),
      (
        table_char-IsPlain (b / 2 ^ 12),
        (pad_or (ltb 1 (length c)) (b / 2 ^ 6), (pad_or (ltb 2 (length c)) b, tt)),
      ),
    )

encode_loop-IsPlain : (bs : List ℕ) → All IsPlain (encode_loop bs)
unfolding encode_loop
encode_loop-IsPlain [] = tt
encode_loop-IsPlain (x ∷ []) = encode_chunk-IsPlain _
encode_loop-IsPlain (x ∷ y ∷ []) = encode_chunk-IsPlain _
encode_loop-IsPlain (x ∷ y ∷ z ∷ bs) =
    All-append IsPlain (encode_chunk (x ∷ y ∷ z ∷ [])) (encode_loop bs) (encode_chunk-IsPlain _)
      (encode_loop-IsPlain bs)

-- Whatever the input, null included, `base64_encode` makes a text of the 64 digits and `=` alone,
-- so it can stand between the quotes of a JSON string as it is.
pub base64_encode-IsPlain : (input : Option (List ℕ)) → All IsPlain (base64_encode input)
base64_encode-IsPlain none = unfold base64_encode in tt
base64_encode-IsPlain (some bs) = rw base64_encode-some (encode_loop-IsPlain bs)
