-- ===== src/Core/Adi.antt =====
-- `kADISymbols` of Native/anisette_base.h: the names under which the libraries export their
-- functions, and the files that the core uses.
use anisette_kit.Prelude.Text.{Text, codes}

-- The members of `ADISymbols` that the core over the guest machine reads.
abbrev pub set_android_id : Text
set_android_id = codes "Sph98paBcz"

abbrev pub set_provisioning_path : Text
set_provisioning_path = codes "nf92ngaK92"

abbrev pub load_library : Text
load_library = codes "kq56gsgHG6"

abbrev pub otp_request : Text
otp_request = codes "qi864985u0"

abbrev pub provisioning_start : Text
provisioning_start = codes "rsegvyrt87"

abbrev pub provisioning_end : Text
provisioning_end = codes "uv5t6nhkui"

abbrev pub destroy_session : Text
destroy_session = codes "n388H58b"

abbrev pub lib_ssc : Text
lib_ssc = codes "libstoreservicescore.so"

abbrev pub lib_core_adi : Text
lib_core_adi = codes "libCoreADI.so"

abbrev pub adi_pb_filename : Text
adi_pb_filename = codes "adi.pb"
