-- ===== src/Base/Uuid.antt =====
-- `format_uuid_string` and `get_android_id_string` of Native/anisette_base.cpp.
pub mod Laws
use anisette_kit.Prelude.{
  ℕ, zero, suc, ◌+◌, ◌/◌, ◌%◌, List, [], ◌∷◌, ◌++◌, Option, none, some, ltb, if◌then◌else◌, take,
  replicate,
}
use anisette_kit.Prelude.Text.{Text}

-- A directive of the format strings: `%02x` (or `%02X`) and the dash.
pub data Directive : Type 0 where
  byte dash : Directive

-- The digits of `%x` and of `%X`.
abbrev pub lower : ℕ → ℕ
lower k = if ltb k 10 then b'0' + k else 87 + k

abbrev pub upper : ℕ → ℕ
upper k = if ltb k 10 then b'0' + k else 55 + k

-- What the directives print of their arguments.
unfoldable pub print : (ℕ → ℕ) → List Directive → List ℕ → Text
print digit [] args = []
print digit (dash ∷ fs) args = b'-' ∷ print digit fs args
print digit (byte ∷ fs) [] = []
print digit (byte ∷ fs) (x ∷ args) = digit (x / 16) ∷ digit (x % 16) ∷ print digit fs args

-- `snprintf` into a buffer of `size` characters, one of them for the final zero.
unfoldable pub snprintf : ℕ → (ℕ → ℕ) → List Directive → List ℕ → Text
snprintf zero digit fs args = []
snprintf (suc room) digit fs args = take room (print digit fs args)

abbrev pub uuid_format : List Directive
uuid_format =
    replicate 4 byte
    ++ dash ∷ replicate 2 byte
    ++ dash ∷ replicate 2 byte
    ++ dash ∷ replicate 2 byte
    ++ dash ∷ replicate 6 byte

abbrev pub android_id_format : List Directive
android_id_format = replicate 8 byte

-- `none` is a null pointer; the list holds the bytes that the pointer leads to, at least 16.
unfoldable pub format_uuid_string : Option (List ℕ) → Text
format_uuid_string none = []
format_uuid_string (some identifier) = snprintf 37 lower uuid_format identifier

unfoldable pub get_android_id_string : Option (List ℕ) → Text
get_android_id_string none = []
get_android_id_string (some uuid_bytes) = snprintf 17 upper android_id_format uuid_bytes
