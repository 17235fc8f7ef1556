-- ===== src/Base/Uuid/Laws.antt =====
-- What the two texts say of the identifier: which bytes they keep, their length and their characters.
use anisette_kit.Prelude.Options.{◌>>=◌}
use anisette_kit.Prelude.{
  ℕ, suc, ◌+◌, ◌*◌, ◌-◌, ◌/◌, ◌%◌, ◌≤◌, ◌<◌, ◌≡◌, refl, List, [], ◌∷◌, Option, none, some, arith,
  leb, ◌==◌, ◌&&◌, if◌then◌else◌, take, take-length_le, length, All, IsByte,
}
use anisette_kit.Prelude.Text.{Text}
use anisette_kit.Base.Uuid.{
  Directive, byte, dash, lower, upper, print, snprintf, uuid_format, android_id_format,
  format_uuid_string, get_android_id_string,
}

-- The value of a hexadecimal digit of either case.
abbrev unhex : ℕ → Option ℕ
unhex c =
    if leb b'0' c && leb c b'9'
    then some (c - b'0')
    else if leb b'a' c && leb c b'f'
    then some (c - b'a' + 10)
    else if leb b'A' c && leb c b'F'
    then some (c - b'A' + 10)
    else none

-- Reads a text by the same directives, up to its end.
unfoldable pub scan : List Directive → Text → Option (List ℕ)
scan [] [] = some []
scan [] (c ∷ t) = none
scan (dash ∷ fs) [] = none
scan (dash ∷ fs) (c ∷ t) = let rest = scan fs t in if c == b'-' then rest else none
scan (byte ∷ fs) [] = none
scan (byte ∷ fs) (c ∷ []) = none
scan (byte ∷ fs) (c ∷ d ∷ t) = do
  hi ← unhex c
  lo ← unhex d
  rest ← scan fs t
  some ((hi * 16 + lo) ∷ rest)

-- The bytes that the directives print, and the characters that they print them in.
abbrev bytes : List Directive → ℕ
bytes [] = 0
bytes (byte ∷ fs) = suc (bytes fs)
bytes (dash ∷ fs) = bytes fs

abbrev width : List Directive → ℕ
width [] = 0
width (byte ∷ fs) = 2 + width fs
width (dash ∷ fs) = 1 + width fs

abbrev Unhexes : (ℕ → ℕ) → Type 0
Unhexes digit = (k : ℕ) → k < 16 → unhex (digit k) ≡ some k

lower-Unhexes : Unhexes lower
lower-Unhexes k h = ground arith

upper-Unhexes : Unhexes upper
upper-Unhexes k h = ground arith

module _ (digit : ℕ → ℕ) where
  length-print :
      (fs : List Directive) (args : List ℕ)
      → bytes fs ≤ length args
      → length (print digit fs args) ≡ width fs
  unfolding print
  length-print [] args h = refl
  length-print (dash ∷ fs) args h = omega (arith, length-print fs args h)
  length-print (byte ∷ fs) [] h = elim h [ ]
  length-print (byte ∷ fs) (x ∷ args) h = omega (arith, length-print fs args (omega arith))

  scan-print :
      Unhexes digit
      → (fs : List Directive) (args : List ℕ) → bytes fs ≤ length args
      → All IsByte args
      → scan fs (print digit fs args) ≡ some (take (bytes fs) args)
  unfolding print scan
  scan-print u [] args h b = refl
  scan-print u (dash ∷ fs) args h b = scan-print u fs args h b
  scan-print u (byte ∷ fs) [] h b = elim h [ ]
  scan-print u (byte ∷ fs) (x ∷ args) h b =
      rw
        (u (x / 16) (omega arith), u (x % 16) (omega arith), scan-print u fs args (omega arith) b.1)
        (ground arith)

-- A buffer that is large enough cuts nothing off.
snprintf-print :
    (room : ℕ) (digit : ℕ → ℕ) (fs : List Directive) (args : List ℕ)
    → bytes fs ≤ length args
    → width fs ≤ room
    → snprintf (suc room) digit fs args ≡ print digit fs args
unfolding snprintf
snprintf-print room digit fs args h fits =
    take-length_le room _ (omega (arith, length-print digit fs args h))

module _ (identifier : List ℕ) (long : 16 ≤ length identifier) where
  -- The directory name has 36 characters, so the 37 of the buffer hold it uncut.
  pub length-format_uuid_string : length (format_uuid_string (some identifier)) ≡ 36
  unfolding format_uuid_string
  length-format_uuid_string =
      rw (snprintf-print 36 lower uuid_format identifier long (omega arith))
        (length-print lower uuid_format identifier long)

  pub length-get_android_id_string : length (get_android_id_string (some identifier)) ≡ 16
  unfolding get_android_id_string
  length-get_android_id_string =
      rw (snprintf-print 16 upper android_id_format identifier (omega arith) (omega arith))
        (length-print upper android_id_format identifier (omega arith))

  -- The first 16 bytes can be read back from the name of the provisioning directory, if there are as
  -- many.
  pub scan-format_uuid_string :
      All IsByte identifier
      → scan uuid_format (format_uuid_string (some identifier)) ≡ some (take 16 identifier)
  unfolding format_uuid_string
  scan-format_uuid_string b =
      rw (snprintf-print 36 lower uuid_format identifier long (omega arith))
        (scan-print lower lower-Unhexes uuid_format identifier long b)

  -- The first 8 bytes can be read back from the Android id, if there are 16 of them.
  pub scan-get_android_id_string :
      All IsByte identifier
      → scan android_id_format (get_android_id_string (some identifier)) ≡ some (take 8 identifier)
  unfolding get_android_id_string
  scan-get_android_id_string b =
      rw (snprintf-print 16 upper android_id_format identifier (omega arith) (omega arith))
        (scan-print upper upper-Unhexes android_id_format identifier (omega arith) b)
