-- ===== src/Core/Json.antt =====
-- The texts that Native/anisette_core_uc.cpp puts together: numbers in decimal and JSON objects.
pub mod Reader
pub mod RoundTrip
use anisette_kit.Prelude.{
  ℕ, zero, suc, ◌+◌, ◌/◌, ◌%◌, List, [], ◌∷◌, ◌++◌, Option, some, ltb, if◌then◌else◌, replicate,
}
use anisette_kit.Prelude.Int.{ℤ, pos, negsuc}
use anisette_kit.Prelude.Text.{Text, codes}
use anisette_kit.Base.Base64.{base64_encode}
use anisette_kit.Base.Errors.{get_anisette_error_description}

-- The last `places` decimal digits of a number, before `rest`, without leading zeros.
unfoldable pub digits : (places n : ℕ) → (rest : Text) → Text
digits zero n rest = rest
digits (suc places) n rest =
    let behind : Text = (b'0' + n % 10) ∷ rest in
    let more = digits places (n / 10) behind in if ltb n 10 then behind else more

-- `std::to_string` and `operator<<` for integers of at most 64 bits, which have at most 20 digits.
unfoldable pub decimal : ℕ → Text
decimal n = digits 20 n []

unfoldable pub to_string : ℤ → Text
to_string (pos n) = decimal n
to_string (negsuc n) = b'-' ∷ decimal (n + 1)

unfoldable pub error_json : Text → Text
error_json err = codes "{\"error\":\"" ++ (err ++ codes "\"}")

-- The text for a call of the libraries that returned `res`.
unfoldable pub failure_text : (call : Text) → (res : ℤ) → Text
failure_text call res =
    call ++ codes " failed (" ++ get_anisette_error_description res ++ codes "): " ++ to_string res

unfoldable pub headers_json : (mid_data otp_data : List ℕ) → Text
headers_json mid_data otp_data =
    codes "{\"X-Apple-I-MD-M\":\""
    ++ (base64_encode (some mid_data)
        ++ (codes "\",\"X-Apple-I-MD\":\""
            ++ (base64_encode (some otp_data)
                ++ (codes "\",\"X-Apple-I-MD-RINFO\":\"17106176\",\"X-Apple-I-MD-LU\":\""
                    ++ (replicate 63 b'0' ++ codes "1\"}")))))

unfoldable pub start_json : (cpim_data : List ℕ) → (session : ℕ) → Text
start_json cpim_data session =
    codes "{\"cpim_base64\":\""
    ++ (base64_encode (some cpim_data)
        ++ (codes "\",\"session\":" ++ (decimal session ++ codes "}")))

unfoldable pub end_json : (pb_data : List ℕ) → Text
end_json pb_data = codes "{\"adi_pb_base64\":\"" ++ (base64_encode (some pb_data) ++ codes "\"}")
