-- ===== src/Mac/Resolve.antt =====
-- How the host loader finds the address for a name: `lookup_hook`, `init_bionic_ctype` and the lambda
-- `resolve_symbol` of `ElfLoader::relocate` (Native/Loader/elf_loader_host.cpp).
pub mod Quiet
pub mod Characters
use anisette_kit.Prelude.{
  ℕ, zero, suc, ◌+◌, ◌*◌, Bool, true, false, ◌||◌, Option, none, some, List, [], ◌∷◌, ◌++◌, ◌==◌,
  if◌then◌else◌, leb, length, take, bit_or, add64,
}
use anisette_kit.Prelude.Text.{Text, codes, text_eq, find}
use anisette_kit.Emulator.Vm.{Run, ok, and_then}
use anisette_kit.Emulator.Symbols.{Elf64Sym, elf64_sym, sizeof_sym, convert, replace_first}
use anisette_kit.Mac.Platform.{Platform}
use anisette_kit.Mac.Process.{
  ElfLoader, Process, Action, pure, ◌>>=◌, ◌>>◌, gets, update, load_bytes, text_at, loader_at,
}
use anisette_kit.Mac.Registry.{when, or_else}

-- The names with a replacement, and the function or variable of the loader that replaces them.
abbrev pub hooks : List (Text × Text)
hooks =
    (codes "open", codes "hook_open")
    ∷ (codes "mkdir", codes "hook_mkdir")
    ∷ (codes "chmod", codes "hook_chmod")
    ∷ (codes "fstat", codes "hook_fstat")
    ∷ (codes "lstat", codes "hook_lstat")
    ∷ (codes "__errno", codes "hook_errno")
    ∷ (codes "__errno_location", codes "hook_errno")
    ∷ (codes "__system_property_get", codes "hook_system_property_get")
    ∷ (codes "__android_log_print", codes "hook_android_log_print")
    ∷ (codes "__stack_chk_guard", codes "g_stack_chk_guard")
    ∷ (codes "__stack_chk_fail", codes "hook_stack_chk_fail")
    ∷ (codes "__ctype_", codes "g_ctype_ptr")
    ∷ (codes "_ctype_", codes "g_ctype_ptr")
    ∷ (codes "environ", codes "g_environ_ptr")
    ∷ (codes "__environment", codes "g_environ_ptr")
    ∷ (codes "dlopen", codes "hook_dlopen")
    ∷ (codes "dlsym", codes "hook_dlsym")
    ∷ (codes "dlclose", codes "hook_dlclose")
    ∷ (codes "dlerror", codes "hook_dlerror")
    ∷ (codes "dl_iterate_phdr", codes "hook_dl_iterate_phdr")
    ∷ (codes "getauxval", codes "hook_getauxval")
    ∷ (codes "pthread_create", codes "hook_pthread_create")
    ∷ (codes "pthread_rwlock_init", codes "hook_pthread_rwlock_init")
    ∷ (codes "pthread_rwlock_destroy", codes "hook_pthread_rwlock_destroy")
    ∷ (codes "pthread_rwlock_rdlock", codes "hook_pthread_rwlock_rdlock")
    ∷ (codes "pthread_rwlock_wrlock", codes "hook_pthread_rwlock_wrlock")
    ∷ (codes "pthread_rwlock_unlock", codes "hook_pthread_rwlock_unlock")
    ∷ []

-- `array[i] = value;`, where an index behind the array, which C++ leaves undefined, stores nothing.
unfoldable pub store_at : (i value : ℕ) → List ℕ → List ℕ
store_at i value [] = []
store_at zero value (a ∷ array) = value ∷ array
store_at (suc i) value (a ∷ array) = a ∷ store_at i value array

-- `if (test) mask |= bit;`
abbrev pub or_bit : (test : Bool) → (bit mask : ℕ) → ℕ
or_bit true bit mask = bit_or mask bit
or_bit false bit mask = mask

module _ (p : Platform) where
  unfoldable pub ctype_mask : (c : ℕ) → ℕ
  ctype_mask c =
      let upper : ℕ = or_bit (p.isupper c) 0x1 0 in
      let lower : ℕ = or_bit (p.islower c) 0x2 upper in
      let digit : ℕ = or_bit (p.isdigit c) 0x4 lower in
      let space : ℕ = or_bit (p.isspace c) 0x8 digit in
      let punct : ℕ = or_bit (p.ispunct c) 0x10 space in
      let cntrl : ℕ = or_bit (p.iscntrl c) 0x20 punct in
      let blank : ℕ = or_bit (p.isblank c) 0x40 cntrl in or_bit (p.isxdigit c) 0x80 blank

  -- The loop from `c` on, with `left` characters to go.
  unfoldable pub ctype_loop : (left c : ℕ) → List ℕ → List ℕ
  ctype_loop zero c array = array
  ctype_loop (suc left) c array = ctype_loop left (c + 1) (store_at (128 + c) (ctype_mask c) array)

module _ {p : Platform} where
  unfoldable pub init_bionic_ctype : Action p (Unit {0})
  init_bionic_ctype s =
      if s.ctype_initialized
      then ok (tt, s)
      else ok (
        tt,
        record s { ctype_initialized = true; ctype_array = ctype_loop p 256 0 s.ctype_array },
      )

  -- `dlsym(RTLD_DEFAULT, name)`
  unfoldable pub system_symbol : (name : Text) → Action p ℕ
  system_symbol name = gets (λ s. p.dlsym s.world p.rtld_default name)

  -- The same for a name with `old` replaced, if it is in it.
  unfoldable pub replaced_symbol : Option Text → Action p ℕ
  replaced_symbol none = pure 0
  replaced_symbol (some converted) = system_symbol converted

  abbrev pub dummy_stub : Action p ℕ
  dummy_stub = pure (p.address_of (codes "dummy_stub_function"))

  unfoldable pub lookup_system : (name : Text) → Action p ℕ
  lookup_system name = do
    sym ← system_symbol name
    or_else sym (do
      sym ← replaced_symbol (replace_first (codes "6__ndk1") (codes "3__1") name)
      or_else sym (do
        sym ← replaced_symbol (replace_first (codes "__ndk1") (codes "__1") name)
        or_else sym dummy_stub))

  unfoldable pub replacement : Option Text → (name : Text) → Action p ℕ
  replacement none name = lookup_system name
  replacement (some hook) name = do
    when (text_eq hook (codes "g_ctype_ptr")) init_bionic_ctype
    pure (p.address_of hook)

  unfoldable pub lookup_hook : (name : Text) → Action p ℕ
  lookup_hook name = replacement (find name hooks) name

  -- The first entry, or what the next step finds.
  unfoldable pub found_or : Option ℕ → Action p (Option ℕ) → Action p (Option ℕ)
  found_or none next = next
  found_or (some address) next = pure (some address)

  unfoldable pub sibling_export : (siblings : List ℕ) → (name : Text) → Action p (Option ℕ)
  sibling_export [] name = pure none
  sibling_export (sib ∷ siblings) name = do
    l ← loader_at sib
    found_or (find name l.exports) (sibling_export siblings name)

  unfoldable pub exported : ElfLoader → (name : Text) → Action p (Option ℕ)
  exported l name = found_or (find name l.exports) (sibling_export l.siblings name)

  unfoldable pub exported_as : ElfLoader → (name converted : Text) → Action p (Option ℕ)
  exported_as l name converted = do
    o ← exported l name
    found_or o (if text_eq converted name then pure none else exported l converted)

  -- The address from the libraries, or else that of a replacement or of the system.
  unfoldable pub or_hook : Option ℕ → (raw_name : Text) → Action p ℕ
  or_hook (some address) raw_name = pure address
  or_hook none raw_name = do hooked ← lookup_hook raw_name; or_else hooked dummy_stub

  unfoldable pub resolve_name : ElfLoader → (raw_name : Text) → Action p ℕ
  resolve_name l raw_name = do
    o ← if length raw_name == 0 then pure none else exported_as l raw_name (convert raw_name)
    or_hook o raw_name

  unfoldable pub resolve_undefined : (rounds : ℕ) → ElfLoader → Elf64Sym → Action p ℕ
  resolve_undefined rounds l sym = do
    raw_name ← text_at rounds (add64 l.str_tab sym.st_name)
    resolve_name l raw_name

  unfoldable pub resolve_sym : (rounds : ℕ) → ElfLoader → Elf64Sym → Action p ℕ
  resolve_sym rounds l sym =
      if sym.st_value == 0
      then resolve_undefined rounds l sym
      else pure (add64 l.base_addr sym.st_value)

  -- `l` is the loader as it is when `relocate` begins, which the resolution does not change.
  unfoldable pub resolve_symbol : (rounds : ℕ) → ElfLoader → (sym_idx : ℕ) → Action p ℕ
  resolve_symbol rounds l sym_idx = if leb l.sym_cnt sym_idx then pure 0 else (do
    bytes ← load_bytes (add64 l.sym_tab (sym_idx * sizeof_sym)) sizeof_sym
    resolve_sym rounds l (elf64_sym bytes))
