-- ===== src/Base/Tests.antt =====
-- Runs of the definitions of Native/anisette_base.cpp, and the theorems at concrete inputs.
use anisette_kit.Prelude.{ℕ, List, [], ◌∷◌, some, ◌≡◌, refl, arith}
use anisette_kit.Prelude.Text.{codes}
use anisette_kit.Base.Base64.{table_char, join_chunk, encode_chunk, encode_loop, base64_encode}
use anisette_kit.Base.Base64.RoundTrip.{base64_decode, decode-encode}
use anisette_kit.Base.Uuid.{print, snprintf, uuid_format, format_uuid_string, get_android_id_string}
use anisette_kit.Base.Uuid.Laws.{scan, scan-format_uuid_string}

encodes_hello : base64_encode (some (codes "hello")) ≡ codes "aGVsbG8="
unfolding table_char join_chunk encode_chunk encode_loop base64_encode
encodes_hello = refl

decode-encode_example :
    base64_decode (base64_encode (some (104 ∷ 255 ∷ 0 ∷ 7 ∷ []))) ≡ some (104 ∷ 255 ∷ 0 ∷ 7 ∷ [])
decode-encode_example = decode-encode (104 ∷ 255 ∷ 0 ∷ 7 ∷ []) (omega arith)

abbrev identifier : List ℕ
identifier = 0xde ∷ 0xad ∷ 0xbe ∷ 0xef ∷ 0 ∷ 1 ∷ 2 ∷ 3 ∷ 4 ∷ 5 ∷ 6 ∷ 7 ∷ 8 ∷ 9 ∷ 10 ∷ 255 ∷ []

uuid_text : format_uuid_string (some identifier) ≡ codes "deadbeef-0001-0203-0405-060708090aff"
unfolding print snprintf format_uuid_string
uuid_text = refl

android_id_text : get_android_id_string (some identifier) ≡ codes "DEADBEEF00010203"
unfolding print snprintf get_android_id_string
android_id_text = refl

scan-format_uuid_string_example :
    scan uuid_format (format_uuid_string (some identifier)) ≡ some identifier
scan-format_uuid_string_example = scan-format_uuid_string identifier (omega arith) (omega arith)
