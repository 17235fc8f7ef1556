-- ===== src/Base/Errors.antt =====
-- `AnisetteErrorCode` of Native/include/anisette_core.h and `get_anisette_error_description` of
-- Native/anisette_base.cpp.
pub mod Laws
use anisette_kit.Prelude.{List, [], ◌∷◌, Option, none, some, if◌then◌else◌}
use anisette_kit.Prelude.Int.{ℤ, pos, minus, int_eq}
use anisette_kit.Prelude.Text.{Text, codes}

pub data AnisetteErrorCode : Type 0 where
  anisette_ok : AnisetteErrorCode
  anisette_err_invalid_argument : AnisetteErrorCode
  anisette_err_loader_failed : AnisetteErrorCode
  anisette_err_symbol_missing : AnisetteErrorCode
  anisette_err_read_file_failed : AnisetteErrorCode
  anisette_err_invalid_json_response : AnisetteErrorCode
  adi_err_invalid_params : AnisetteErrorCode
  adi_err_invalid_params_decipher : AnisetteErrorCode
  adi_err_invalid_trust_key : AnisetteErrorCode
  adi_err_ptm_tk_mismatch : AnisetteErrorCode
  adi_err_invalid_input_header : AnisetteErrorCode
  adi_err_unknown_adi_function : AnisetteErrorCode
  adi_err_invalid_input_body : AnisetteErrorCode
  adi_err_unknown_session : AnisetteErrorCode
  adi_err_empty_session : AnisetteErrorCode
  adi_err_invalid_data_header : AnisetteErrorCode
  adi_err_data_too_short : AnisetteErrorCode
  adi_err_invalid_data_body : AnisetteErrorCode
  adi_err_unknown_call_flags : AnisetteErrorCode
  adi_err_time_error : AnisetteErrorCode
  adi_err_empty_hardware_ids : AnisetteErrorCode
  adi_err_filesystem_error : AnisetteErrorCode
  adi_err_not_provisioned : AnisetteErrorCode
  adi_err_cannot_erase_not_provisioned : AnisetteErrorCode
  adi_err_pending_session : AnisetteErrorCode
  adi_err_session_already_done : AnisetteErrorCode
  adi_err_library_loading_failed : AnisetteErrorCode

unfoldable pub value : AnisetteErrorCode → ℤ
value anisette_ok = pos 0
value anisette_err_invalid_argument = minus 1
value anisette_err_loader_failed = minus 2
value anisette_err_symbol_missing = minus 3
value anisette_err_read_file_failed = minus 4
value anisette_err_invalid_json_response = minus 5
value adi_err_invalid_params = minus 45001
value adi_err_invalid_params_decipher = minus 45002
value adi_err_invalid_trust_key = minus 45003
value adi_err_ptm_tk_mismatch = minus 45006
value adi_err_invalid_input_header = minus 45018
value adi_err_unknown_adi_function = minus 45019
value adi_err_invalid_input_body = minus 45020
value adi_err_unknown_session = minus 45025
value adi_err_empty_session = minus 45026
value adi_err_invalid_data_header = minus 45031
value adi_err_data_too_short = minus 45032
value adi_err_invalid_data_body = minus 45033
value adi_err_unknown_call_flags = minus 45034
value adi_err_time_error = minus 45036
value adi_err_empty_hardware_ids = minus 45046
value adi_err_filesystem_error = minus 45054
value adi_err_not_provisioned = minus 45061
value adi_err_cannot_erase_not_provisioned = minus 45062
value adi_err_pending_session = minus 45063
value adi_err_session_already_done = minus 45066
value adi_err_library_loading_failed = minus 45075

-- The text behind each `case` label.
unfoldable pub case_text : AnisetteErrorCode → Text
case_text anisette_ok = codes "Success"
case_text anisette_err_invalid_argument = codes "Invalid argument passed"
case_text anisette_err_loader_failed = codes "ELF Loader failed to map dependencies"
case_text anisette_err_symbol_missing = codes "Required ADI symbol missing"
case_text anisette_err_read_file_failed = codes "Failed to read generated file"
case_text anisette_err_invalid_json_response = codes "Failed to parse response JSON"
case_text adi_err_invalid_params = codes "Invalid ADI parameters (-45001)"
case_text adi_err_invalid_params_decipher = codes "Invalid ADI decipher params (-45002)"
case_text adi_err_invalid_trust_key = codes "Invalid ADI trust key (-45003)"
case_text adi_err_ptm_tk_mismatch = codes "PTM and TK mismatch (-45006)"
case_text adi_err_invalid_input_header = codes "Invalid input header (-45018)"
case_text adi_err_unknown_adi_function = codes "Unknown ADI function (-45019)"
case_text adi_err_invalid_input_body = codes "Invalid input body (-45020)"
case_text adi_err_unknown_session = codes "Unknown ADI session (-45025)"
case_text adi_err_empty_session = codes "Empty ADI session (-45026)"
case_text adi_err_invalid_data_header = codes "Invalid data header (-45031)"
case_text adi_err_data_too_short = codes "Data too short (-45032)"
case_text adi_err_invalid_data_body = codes "Invalid data body (-45033)"
case_text adi_err_unknown_call_flags = codes "Unknown call flags (-45034)"
case_text adi_err_time_error = codes "ADI time error (-45036)"
case_text adi_err_empty_hardware_ids = codes "Empty hardware IDs (-45046)"
case_text adi_err_filesystem_error = codes "ADI filesystem error (-45054)"
case_text adi_err_not_provisioned = codes "Device not provisioned (-45061)"
case_text adi_err_cannot_erase_not_provisioned = codes "Cannot erase unprovisioned device (-45062)"
case_text adi_err_pending_session = codes "Pending ADI session (-45063)"
case_text adi_err_session_already_done = codes "ADI session already done (-45066)"
case_text adi_err_library_loading_failed = codes "Library loading failed (-45075)"

-- The labels, in the order of the `switch`.
abbrev pub labels : List AnisetteErrorCode
labels =
    anisette_ok ∷ anisette_err_invalid_argument ∷ anisette_err_loader_failed
    ∷ anisette_err_symbol_missing ∷ anisette_err_read_file_failed
    ∷ anisette_err_invalid_json_response ∷ adi_err_invalid_params ∷ adi_err_invalid_params_decipher
    ∷ adi_err_invalid_trust_key ∷ adi_err_ptm_tk_mismatch ∷ adi_err_invalid_input_header
    ∷ adi_err_unknown_adi_function ∷ adi_err_invalid_input_body ∷ adi_err_unknown_session
    ∷ adi_err_empty_session ∷ adi_err_invalid_data_header ∷ adi_err_data_too_short
    ∷ adi_err_invalid_data_body ∷ adi_err_unknown_call_flags ∷ adi_err_time_error
    ∷ adi_err_empty_hardware_ids ∷ adi_err_filesystem_error ∷ adi_err_not_provisioned
    ∷ adi_err_cannot_erase_not_provisioned ∷ adi_err_pending_session ∷ adi_err_session_already_done
    ∷ adi_err_library_loading_failed ∷ []

abbrev pub unknown_text : Text
unknown_text = codes "Unknown ADI error"

unfoldable pub switch : List AnisetteErrorCode → ℤ → Text
switch [] code = unknown_text
switch (c ∷ cs) code = if int_eq code (value c) then case_text c else switch cs code

unfoldable pub get_anisette_error_description : ℤ → Text
get_anisette_error_description code = switch labels code
