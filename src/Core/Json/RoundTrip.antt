-- ===== src/Core/Json/RoundTrip.antt =====
-- The JSON objects of Native/anisette_core_uc.cpp (Core/Json) against the reader of Core/Json/Reader.
use anisette_kit.Prelude.{
  ℕ, zero, suc, ◌+◌, ◌-◌, ◌*◌, ◌/◌, ◌%◌, ◌^◌, ◌<◌, ◌&&◌, Bool, true, false, some, List, [], ◌∷◌,
  ◌++◌, ltb, leb, ◌==◌, ◌≡◌, refl, sym, ap, ◌∙◌, All, arith, Bool-cases, inl, inr, IsByte,
  replicate,
}
use native.Mathlib.Nat.{pow-suc}
use anisette_kit.Prelude.Text.{Text, codes}
use anisette_kit.Base.Base64.{base64_encode}
use anisette_kit.Base.Base64.RoundTrip.{
  base64_decode, decode-encode, base64_encode-IsPlain, IsPlain,
}
use anisette_kit.Core.Json.{digits, decimal, headers_json, start_json}
use anisette_kit.Core.Json.Reader.{
  string, number, is_unescaped, read_string, read_number, as_string, read_value, expect,
  read_member, read_more, read_members, read_object,
}

-- Whether a text may stand between quotes as it is.
abbrev is_string : Text → Bool
is_string [] = true
is_string (c ∷ t) = is_unescaped c && is_string t

IsPlain-is_string : (t : Text) → All IsPlain t → is_string t ≡ true
IsPlain-is_string [] p = refl
IsPlain-is_string (c ∷ t) p = ground (arith, p.0, IsPlain-is_string t p.1)

encoded : (bytes : List ℕ) → is_string (base64_encode (some bytes)) ≡ true
encoded bytes = IsPlain-is_string _ (base64_encode-IsPlain (some bytes))

read_string_lem :
    (t rest : Text) → is_string t ≡ true → read_string (t ++ b'"' ∷ rest) ≡ some (t, rest)
unfolding read_string
read_string_lem [] rest p = refl
read_string_lem (c ∷ t) rest p =
    let quote : (c == b'"') ≡ false = ground arith in
    let slash : (c == 0x5C) ≡ false = ground arith in
    let low : leb 0x20 c ≡ true = ground arith in
    rw (quote, slash, low, read_string_lem t rest (ground arith)) refl

-- A member whose value is a string.
string_member :
    (key t rest : Text)
    → is_string key ≡ true
    → is_string t ≡ true
    → read_member (b'"' ∷ (key ++ (b'"' ∷ b':' ∷ b'"' ∷ (t ++ (b'"' ∷ rest)))))
      ≡ some ((key, string t), rest)
unfolding read_member expect read_value as_string
string_member key t rest k p =
    rw (read_string_lem key (b':' ∷ b'"' ∷ (t ++ (b'"' ∷ rest))) k, read_string_lem t rest p) refl

-- For data that are bytes, a reader of JSON finds in headers_json an object of four strings, of
-- which the first two decode to the data.
pub read_object-headers_json :
    (mid_data otp_data : List ℕ)
    → All IsByte mid_data
    → All IsByte otp_data
    → (mid otp : Text) × (read_object (headers_json mid_data otp_data)
        ≡ some (
            (codes "X-Apple-I-MD-M", string mid)
            ∷ (codes "X-Apple-I-MD", string otp)
            ∷ (codes "X-Apple-I-MD-RINFO", string (codes "17106176"))
            ∷ (codes "X-Apple-I-MD-LU", string (replicate 63 b'0' ++ codes "1"))
            ∷ []))
      × (base64_decode mid ≡ some mid_data)
      × (base64_decode otp ≡ some otp_data)
unfolding read_object read_members read_more expect headers_json
read_object-headers_json mid_data otp_data mb ob = (
  base64_encode (some mid_data),
  base64_encode (some otp_data),
  rw
      (
        string_member (codes "X-Apple-I-MD-M") (base64_encode (some mid_data)) _ refl
            (encoded mid_data),
        string_member (codes "X-Apple-I-MD") (base64_encode (some otp_data)) _ refl
            (encoded otp_data),
        string_member (codes "X-Apple-I-MD-RINFO") (codes "17106176") _ refl refl,
        string_member (codes "X-Apple-I-MD-LU") (replicate 63 b'0' ++ codes "1") _ refl refl,
      )
      refl,
  decode-encode mid_data mb,
  decode-encode otp_data ob,
)

digits_head :
    (places n : ℕ) (rest : Text)
    → (k : ℕ) × (tl : Text) × (k < 10) × (digits (suc places) n rest ≡ (b'0' + k) ∷ tl)
unfolding digits
digits_head zero n rest = (n % 10, rest, omega arith, ground arith)
digits_head (suc places) n rest =
    let (k, tl, small, e) = digits_head places (n / 10) ((b'0' + n % 10) ∷ rest) in
    elim (Bool-cases (ltb n 10)) [
      | inl one ↦ (n % 10, rest, omega arith, rw one refl)
      | inr more ↦ (k, tl, small, rw more e)
    ]

read_digit :
    (before k : ℕ) (rest : Text)
    → k < 10
    → read_number before ((b'0' + k) ∷ rest) ≡ read_number (before * 10 + k) rest
unfolding read_number
read_digit before k rest small =
    let low : leb b'0' (b'0' + k) ≡ true = ground arith in
    let high : leb (b'0' + k) b'9' ≡ true = ground arith in
    let digit : b'0' + k - b'0' ≡ k = omega arith in rw (low, high, digit) refl

-- The last digit of a number in front.
read_last :
    (n : ℕ) (rest : Text) → read_number (n / 10) ((b'0' + n % 10) ∷ rest) ≡ read_number n rest
read_last n rest =
    let whole : n / 10 * 10 + n % 10 ≡ n = omega arith in
    read_digit (n / 10) (n % 10) rest (omega arith) ∙ ap (λ v. read_number v rest) whole

read_one :
    (n : ℕ) (rest : Text) → n < 10 → read_number 0 ((b'0' + n % 10) ∷ rest) ≡ read_number n rest
read_one n rest small =
    let none_before : n / 10 ≡ 0 = omega arith in
    ap (λ v. read_number v ((b'0' + n % 10) ∷ rest)) (sym none_before) ∙ read_last n rest

read_number-digits :
    (places n : ℕ) (rest : Text)
    → n < 10 ^ suc places
    → read_number 0 (digits (suc places) n rest) ≡ read_number n rest
unfolding digits
read_number-digits zero n rest small =
    let one : ltb n 10 ≡ true = ground arith in rw one (read_one n rest (omega arith))
read_number-digits (suc places) n rest small =
    let power : 10 ^ suc (suc places) ≡ 10 * 10 ^ suc places =
      omega (arith, pow-suc 10 (suc places)) in
    let whole : n / 10 < 10 ^ suc places = omega (arith, power) in
    let ih = read_number-digits places (n / 10) ((b'0' + n % 10) ∷ rest) whole in
    elim (Bool-cases (ltb n 10)) [
      | inl one ↦ rw one (read_one n rest (ground arith))
      | inr more ↦ rw more (ih ∙ read_last n rest)
    ]

digits-append :
    (places n : ℕ) (rest behind : Text)
    → digits places n rest ++ behind ≡ digits places n (rest ++ behind)
unfolding digits
digits-append zero n rest behind = refl
digits-append (suc places) n rest behind =
    ground (arith, digits-append places (n / 10) ((b'0' + n % 10) ∷ rest) behind)

read_number-end : (n : ℕ) → read_number n (b'}' ∷ []) ≡ (n, b'}' ∷ [])
unfolding read_number
read_number-end n = refl

read_value-digit :
    (k n : ℕ) (tl rest : Text)
    → k < 10
    → read_number 0 ((b'0' + k) ∷ tl) ≡ (n, rest)
    → read_value ((b'0' + k) ∷ tl) ≡ some (number n, rest)
unfolding read_value
read_value-digit k n tl rest digit e =
    let quote : (b'0' + k == b'"') ≡ false = ground arith in
    let low : leb b'0' (b'0' + k) ≡ true = ground arith in
    let high : leb (b'0' + k) b'9' ≡ true = ground arith in rw (quote, low, high, e) refl

-- A number that stands before the end of an object.
read_value-decimal :
    (n : ℕ) → n < 10 ^ 20 → read_value (decimal n ++ (b'}' ∷ [])) ≡ some (number n, b'}' ∷ [])
unfolding decimal
read_value-decimal n small =
    let (k, tl, digit, e) = digits_head 19 n (b'}' ∷ []) in
    let back : read_number 0 ((b'0' + k) ∷ tl) ≡ (n, b'}' ∷ []) =
      ap (λ t. read_number 0 t) (sym e)
      ∙ read_number-digits 19 n (b'}' ∷ []) small
      ∙ read_number-end n in
    ap read_value (digits-append 20 n [] (b'}' ∷ []) ∙ e)
    ∙ read_value-digit k n tl (b'}' ∷ []) digit back

-- A member whose value is a number, at the end of an object.
number_member :
    (key : Text) (n : ℕ)
    → is_string key ≡ true
    → n < 10 ^ 20
    → read_member (b'"' ∷ (key ++ (b'"' ∷ b':' ∷ (decimal n ++ (b'}' ∷ [])))))
      ≡ some ((key, number n), b'}' ∷ [])
unfolding read_member expect
number_member key n k small =
    rw (read_string_lem key (b':' ∷ (decimal n ++ (b'}' ∷ []))) k, read_value-decimal n small) refl

-- For data that are bytes and a session number of at most 20 digits, a reader of JSON finds in
-- start_json that number and a string that decodes to the data.
pub read_object-start_json :
    (cpim_data : List ℕ) (session : ℕ)
    → All IsByte cpim_data
    → session < 10 ^ 20
    → (cpim : Text) × (read_object (start_json cpim_data session)
        ≡ some ((codes "cpim_base64", string cpim) ∷ (codes "session", number session) ∷ []))
      × (base64_decode cpim ≡ some cpim_data)
unfolding read_object read_members read_more expect start_json
read_object-start_json cpim_data session cb small = (
  base64_encode (some cpim_data),
  rw
      (
        string_member (codes "cpim_base64") (base64_encode (some cpim_data)) _ refl
            (encoded cpim_data),
        number_member (codes "session") session refl small,
      )
      refl,
  decode-encode cpim_data cb,
)
