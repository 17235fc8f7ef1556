-- ===== src/Emulator/System.antt =====
-- The remaining hooks of Native/Loader/elf_loader_emulator.cpp: properties, time, random numbers,
-- dynamic symbols, the C++ runtime and number parsing.
use anisette_kit.Prelude.{
  ℕ, ◌-◌, ◌%◌, ◌^◌, not, Option, none, some, List, [], ◌∷◌, ◌++◌, ◌==◌, if◌then◌else◌, get_or,
  length, take, replicate, add64, sub64, le_bytes, min,
}
use anisette_kit.Prelude.Text.{Text, codes, find}
use anisette_kit.Emulator.Host.{Host}
use anisette_kit.Emulator.Unicorn.{Unicorn, x, v}
use anisette_kit.Emulator.Vm.{
  ok, when, Command, pure, ◌>>=◌, ◌>>◌, reg_read, reg_write, mem_write, heap_alloc,
}
use anisette_kit.Emulator.Strings.{load_text}
use anisette_kit.Emulator.Files.{host_call}
use anisette_kit.Emulator.Imports.{register_import, get_vm_symbol_address}

-- `AndroidSystemProperties`, by the names that `hook_system_property_get` compares with.
abbrev pub android_properties : List (Text × Text)
android_properties =
    (codes "ro.build.version.sdk", codes "30")
    ∷ (codes "ro.build.version.release", codes "11")
    ∷ (codes "ro.product.model", codes "Pixel 5")
    ∷ (codes "ro.product.brand", codes "google")
    ∷ (codes "ro.product.name", codes "redfin")
    ∷ (codes "ro.product.device", codes "redfin")
    ∷ (codes "ro.product.manufacturer", codes "Google")
    ∷ (
      codes "ro.build.fingerprint",
      codes "google/redfin/redfin:11/RQ3A.211001.001/7641976:user/release-keys",
    )
    ∷ []

abbrev pub text_or_empty : Option Text → Text
text_or_empty none = []
text_or_empty (some t) = t

-- `std::vector<uint8_t> buf(92, 0)` with up to 91 characters copied in.
unfoldable pub property_buffer : Text → List ℕ
property_buffer prop_val = take 91 prop_val ++ replicate (92 - min 91 (length prop_val)) 0

-- The values that `getauxval` knows.
unfoldable pub auxval : ℕ → ℕ
auxval type = if type == 6 then 4096 else if type == 16 then 0xff else 0

-- `first_byte` stays 0 where nothing can be read.
abbrev pub byte_or_zero : Option (List ℕ) → ℕ
byte_or_zero none = 0
byte_or_zero (some bytes) = get_or bytes 0 0

-- `nptr` after the loop that has read the text: past its end, unless it was null.
abbrev pub past_text : (nptr : ℕ) → Text → ℕ
past_text nptr str = if nptr == 0 then 0 else add64 (add64 nptr (length str)) 1

abbrev pub end_address : (nptr : ℕ) → Text → (consumed : ℕ) → ℕ
end_address nptr str consumed = add64 (sub64 (sub64 (past_text nptr str) (length str)) 1) consumed

module _ {u : Unicorn} {h : Host} where
  unfoldable pub hook_errno_location : Command u h (Unit {0})
  hook_errno_location vm = reg_write (x 0) vm.errno_addr vm

  unfoldable pub hook_system_property_get : (rounds : ℕ) → Command u h (Unit {0})
  hook_system_property_get rounds = do
    name_ptr ← reg_read (x 0)
    val_ptr ← reg_read (x 1)
    name ← load_text rounds name_ptr
    let prop_val = text_or_empty (find name android_properties)
    when (not (val_ptr == 0)) (mem_write val_ptr (property_buffer prop_val))
    reg_write (x 0) (length prop_val)

  unfoldable pub hook_arc4random : Command u h (Unit {0})
  hook_arc4random = do rnd ← host_call h.arc4random; reg_write (x 0) rnd

  abbrev pub time_now : Command u h (ℕ × ℕ)
  time_now vm = ok (h.gettimeofday vm.world, vm)

  unfoldable pub hook_gettimeofday : Command u h (Unit {0})
  hook_gettimeofday = do
    tv_ptr ← reg_read (x 0)
    tv ← time_now
    when (not (tv_ptr == 0))
        (do mem_write tv_ptr (le_bytes 8 (tv.0)); mem_write (add64 tv_ptr 8) (le_bytes 8 (tv.1)))
    reg_write (x 0) 0

  unfoldable pub hook_getauxval : Command u h (Unit {0})
  hook_getauxval = do type ← reg_read (x 0); reg_write (x 0) (auxval type)

  unfoldable pub hook_dlopen : Command u h (Unit {0})
  hook_dlopen = reg_write (x 0) 0x5000_0000

  unfoldable pub hook_dlsym : (rounds : ℕ) → Command u h (Unit {0})
  hook_dlsym rounds = do
    sym_name_ptr ← reg_read (x 1)
    sym_name ← load_text rounds sym_name_ptr
    known ← get_vm_symbol_address sym_name
    addr ← if known == 0 then register_import sym_name else pure known
    reg_write (x 0) addr

  unfoldable pub guard_byte : (guard_ptr : ℕ) → Command u h ℕ
  guard_byte guard_ptr vm =
      ok (if guard_ptr == 0 then 0 else byte_or_zero (u.mem_read vm.uc guard_ptr 1), vm)

  unfoldable pub hook_cxa_guard_acquire : Command u h (Unit {0})
  hook_cxa_guard_acquire = do
    guard_ptr ← reg_read (x 0)
    first_byte ← guard_byte guard_ptr
    reg_write (x 0) (if first_byte == 0 then 1 else 0)

  unfoldable pub hook_cxa_guard_release : Command u h (Unit {0})
  hook_cxa_guard_release = do
    guard_ptr ← reg_read (x 0)
    when (not (guard_ptr == 0)) (mem_write guard_ptr (1 ∷ []))
    reg_write (x 0) 0

  unfoldable pub hook_cxa_allocate_exception : Command u h (Unit {0})
  hook_cxa_allocate_exception = do
    size ← reg_read (x 0)
    ptr ← heap_alloc (add64 size 128)
    reg_write (x 0) ptr

  unfoldable pub hook_dynamic_cast : Command u h (Unit {0})
  hook_dynamic_cast = do sub ← reg_read (x 0); reg_write (x 0) sub

  -- The store to `endptr` once the host has parsed it.
  unfoldable pub store_end : (nptr endptr : ℕ) → Text → (consumed : ℕ) → Command u h (Unit {0})
  store_end nptr endptr str consumed =
      when (not (endptr == 0)) (mem_write endptr (le_bytes 8 (end_address nptr str consumed)))

  unfoldable pub hook_strtoll : (rounds : ℕ) → Command u h (Unit {0})
  hook_strtoll rounds = do
    nptr ← reg_read (x 0)
    endptr ← reg_read (x 1)
    base ← reg_read (x 2)
    str ← load_text rounds nptr
    let parsed = h.strtoll str (base % 2 ^ 32)
    store_end nptr endptr str (parsed.1)
    reg_write (x 0) (parsed.0)

  unfoldable pub hook_strtod : (rounds : ℕ) → Command u h (Unit {0})
  hook_strtod rounds = do
    nptr ← reg_read (x 0)
    endptr ← reg_read (x 1)
    str ← load_text rounds nptr
    let parsed = h.strtod str
    store_end nptr endptr str (parsed.1)
    reg_write (v 0) (parsed.0)

  -- What is printed is left out.
  unfoldable pub hook_android_log_print : (rounds : ℕ) → Command u h (Unit {0})
  hook_android_log_print rounds = do
    tag_ptr ← reg_read (x 1)
    fmt_ptr ← reg_read (x 2)
    tag ← load_text rounds tag_ptr
    fmt ← load_text rounds fmt_ptr
    reg_write (x 0) 0

  -- The branch for `pthread_rwlock_init` and `pthread_mutex_init`.
  unfoldable pub hook_lock_init : Command u h (Unit {0})
  hook_lock_init = do
    lock_ptr ← reg_read (x 0)
    when (not (lock_ptr == 0)) (mem_write lock_ptr (replicate 64 0))
    reg_write (x 0) 0
