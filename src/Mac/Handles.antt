-- ===== src/Mac/Handles.antt =====
-- The hooks of Native/Loader/elf_loader_host.cpp for dynamic linking, threads and the system: what the
-- loaded code calls in place of `dlopen`, `dlsym`, `dl_iterate_phdr` and others.
pub mod Total
use anisette_kit.Prelude.{
  ℕ, ◌+◌, Bool, true, false, not, ◌&&◌, ◌||◌, Option, none, some, List, [], ◌∷◌, ◌==◌,
  if◌then◌else◌, add64,
}
use anisette_kit.Prelude.Int.{ℤ, pos, int_eq}
use anisette_kit.Prelude.Text.{Text, text_eq}
use anisette_kit.Mac.Platform.{Platform, Arg, number, c_string, Reply}
use anisette_kit.Mac.Process.{
  Process, ElfLoader, Action, pure, ◌>>=◌, ◌>>◌, gets, host_does, host_step, host_checked,
  store_bytes, loader_at,
}
use anisette_kit.Mac.Registry.{contains, get_symbol, or_else, when}
use anisette_kit.Mac.Resolve.{lookup_hook, dummy_stub}

-- `(void*)0xDEADBEEF`
abbrev pub dummy_handle : ℕ
dummy_handle = 0xDEAD_BEEF

abbrev pub names_match : (path key : Text) → Bool
names_match path key = text_eq path key || (contains key path || contains path key)

-- The loop of `hook_dlopen` over the map.
unfoldable pub match_library : (path : Text) → List (Text × ℕ) → Option ℕ
match_library path [] = none
match_library path ((k, l) ∷ names) =
    let rest = match_library path names in if names_match path k then some l else rest

-- `info` is passed as its fields and its size.
abbrev pub phdr_info : (base_addr : ℕ) → (name : Text) → (user_data : ℕ) → List Arg
phdr_info base_addr name user_data =
    number base_addr
    ∷ c_string (some name)
    ∷ number (add64 base_addr 0x40)
    ∷ number 8
    ∷ number 32
    ∷ number user_data
    ∷ []

module _ {p : Platform} where
  unfoldable pub library_or_system : Option ℕ → (filename : Text) → (flags : ℕ) → Action p ℕ
  library_or_system (some l) filename flags = pure l
  library_or_system none filename flags = do
    host_handle ← host_step (λ w. p.dlopen w filename flags)
    or_else host_handle (pure dummy_handle)

  unfoldable pub host_dlopen : (filename : Option Text) → (flags : ℕ) → Action p ℕ
  host_dlopen none flags = pure dummy_handle
  host_dlopen (some filename) flags = do
    found ← gets (λ s. match_library filename s.loaded_libraries)
    library_or_system found filename flags

  -- The first loop of `hook_dlsym`, over the entries that lead to the handle, and the second, over all.
  unfoldable pub handle_symbol : (handle : ℕ) → (symbol : Text) → List (Text × ℕ) → Action p ℕ
  handle_symbol handle symbol [] = pure 0
  handle_symbol handle symbol ((k, l) ∷ names) = do
    sym ← if l == handle then get_symbol l symbol else pure 0
    or_else sym (handle_symbol handle symbol names)

  unfoldable pub any_symbol : (symbol : Text) → List (Text × ℕ) → Action p ℕ
  any_symbol symbol [] = pure 0
  any_symbol symbol ((k, l) ∷ names) = do
    sym ← get_symbol l symbol
    or_else sym (any_symbol symbol names)

  unfoldable pub symbol_among :
      (handle : ℕ) → (symbol : Text) → (names : List (Text × ℕ)) → Action p ℕ
  symbol_among handle symbol names = do
    sym ← handle_symbol handle symbol names
    or_else sym (do
      sym ← any_symbol symbol names
      or_else sym (do
        sym ← gets (λ s.
            p.dlsym s.world (if handle == dummy_handle then p.rtld_default else handle) symbol)
        or_else sym (do
          sym ← gets (λ s. p.dlsym s.world p.rtld_default symbol)
          or_else sym (do sym ← lookup_hook symbol; or_else sym dummy_stub))))

  unfoldable pub host_dlsym : (handle : ℕ) → (symbol : Option Text) → Action p ℕ
  host_dlsym handle none = pure 0
  host_dlsym handle (some symbol) = do
    names ← gets (λ s. s.loaded_libraries)
    symbol_among handle symbol names

  unfoldable pub call_back : (callback user_data : ℕ) → (name : Text) → ElfLoader → Action p ℤ
  call_back callback user_data name l =
      if l.base_addr == 0
      then pure (pos 0)
      else (host_checked (λ w. p.native w callback (phdr_info l.base_addr name user_data))
          >>= λ reply. pure reply.result)

  unfoldable pub or_next : (res : ℤ) → Action p ℤ → Action p ℤ
  or_next res next = if int_eq res (pos 0) then next else pure res

  unfoldable pub iterate_loop : (callback user_data : ℕ) → List (Text × ℕ) → Action p ℤ
  iterate_loop callback user_data [] = pure (pos 0)
  iterate_loop callback user_data ((k, l) ∷ names) = do
    loader ← loader_at l
    res ← call_back callback user_data k loader
    or_next res (iterate_loop callback user_data names)

  unfoldable pub dl_iterate_phdr : (callback user_data : ℕ) → Action p ℤ
  dl_iterate_phdr callback user_data = do
    names ← gets (λ s. s.loaded_libraries)
    iterate_loop callback user_data names

  -- The property is empty; a null `value` gets nothing.
  unfoldable pub host_property_get : (name value : ℕ) → Action p ℤ
  host_property_get name value = do
    when (not (value == 0)) (store_bytes value (0 ∷ []))
    pure (pos 0)

  unfoldable pub pthread_wrapper : (start_routine arg : ℕ) → Action p Reply
  pthread_wrapper start_routine arg = do
    host_does (λ w. p.jit_write_protect w true)
    host_checked (λ w. p.native w start_routine (number arg ∷ []))

  -- 22 is EINVAL.
  unfoldable pub host_pthread_create : (thread attr start_routine arg : ℕ) → Action p ℕ
  host_pthread_create thread attr start_routine arg =
      if start_routine == 0
      then pure 22
      else host_step (λ w. p.pthread_create w thread attr start_routine arg)
