-- ===== src/Emulator/Router.antt =====
-- `import_callback_router` of Native/Loader/elf_loader_emulator.cpp: which hook runs for a stub.
pub mod Dispatch
use anisette_kit.Prelude.{◌-◌, ◌+◌, ◌&&◌, leb, if◌then◌else◌, ℕ, Option, none, some, List, [], ◌∷◌}
use anisette_kit.Prelude.Text.{Text, codes, find}
use anisette_kit.Emulator.Host.{Host}
use anisette_kit.Emulator.Unicorn.{Unicorn, x}
use anisette_kit.Emulator.Vm.{import_size, import_address, Command, pure, reg_write, find_key}
use anisette_kit.Emulator.Memory.{
  hook_calloc, hook_free, hook_malloc, hook_memchr, hook_memcmp, hook_memcpy, hook_memset,
  hook_realloc,
}
use anisette_kit.Emulator.Strings.{
  hook_strcmp, hook_strcpy, hook_strlen, hook_strncmp, hook_strncpy,
}
use anisette_kit.Emulator.Files.{
  hook_chmod, hook_close, hook_fstat, hook_ftruncate, hook_lstat, hook_mkdir, hook_open, hook_read,
  hook_umask, hook_write,
}
use anisette_kit.Emulator.System.{
  hook_android_log_print, hook_arc4random, hook_cxa_allocate_exception, hook_cxa_guard_acquire,
  hook_cxa_guard_release, hook_dlopen, hook_dlsym, hook_dynamic_cast, hook_errno_location,
  hook_getauxval, hook_gettimeofday, hook_lock_init, hook_strtod, hook_strtoll,
  hook_system_property_get,
}

module _ {u : Unicorn} {h : Host} where
  -- The chain of comparisons with `name`, in its order; `rounds` bounds the loops over texts.
  unfoldable pub handlers : (rounds : ℕ) → List (Text × Command u h (Unit {0}))
  handlers rounds =
      (codes "malloc", hook_malloc)
      ∷ (codes "calloc", hook_calloc)
      ∷ (codes "realloc", hook_realloc)
      ∷ (codes "free", hook_free)
      ∷ (codes "strlen", hook_strlen rounds)
      ∷ (codes "strcmp", hook_strcmp rounds)
      ∷ (codes "strncmp", hook_strncmp)
      ∷ (codes "strcpy", hook_strcpy rounds)
      ∷ (codes "strncpy", hook_strncpy)
      ∷ (codes "memcpy", hook_memcpy)
      ∷ (codes "memset", hook_memset)
      ∷ (codes "memcmp", hook_memcmp)
      ∷ (codes "memchr", hook_memchr)
      ∷ (codes "open", hook_open rounds)
      ∷ (codes "close", hook_close)
      ∷ (codes "read", hook_read)
      ∷ (codes "write", hook_write)
      ∷ (codes "ftruncate", hook_ftruncate)
      ∷ (codes "mkdir", hook_mkdir rounds)
      ∷ (codes "umask", hook_umask)
      ∷ (codes "chmod", hook_chmod rounds)
      ∷ (codes "lstat", hook_lstat rounds)
      ∷ (codes "fstat", hook_fstat)
      ∷ (codes "__errno", hook_errno_location)
      ∷ (codes "__errno_location", hook_errno_location)
      ∷ (codes "__system_property_get", hook_system_property_get rounds)
      ∷ (codes "arc4random", hook_arc4random)
      ∷ (codes "gettimeofday", hook_gettimeofday)
      ∷ (codes "getauxval", hook_getauxval)
      ∷ (codes "dlopen", hook_dlopen)
      ∷ (codes "dlsym", hook_dlsym rounds)
      ∷ (codes "__cxa_guard_acquire", hook_cxa_guard_acquire)
      ∷ (codes "__cxa_guard_release", hook_cxa_guard_release)
      ∷ (codes "__cxa_allocate_exception", hook_cxa_allocate_exception)
      ∷ (codes "__cxa_begin_catch", hook_dynamic_cast)
      ∷ (codes "__dynamic_cast", hook_dynamic_cast)
      ∷ (codes "strtoll", hook_strtoll rounds)
      ∷ (codes "strtol", hook_strtoll rounds)
      ∷ (codes "strtoull", hook_strtoll rounds)
      ∷ (codes "strtod", hook_strtod rounds)
      ∷ (codes "atof", hook_strtod rounds)
      ∷ (codes "pthread_rwlock_init", hook_lock_init)
      ∷ (codes "pthread_mutex_init", hook_lock_init)
      ∷ (codes "__android_log_print", hook_android_log_print rounds)
      ∷ []

  -- Any other import returns 0.
  unfoldable pub handler_or_zero : Option (Command u h (Unit {0})) → Command u h (Unit {0})
  handler_or_zero none = reg_write (x 0) 0
  handler_or_zero (some hook) = hook

  unfoldable pub run_handler : (rounds : ℕ) → Option Text → Command u h (Unit {0})
  run_handler rounds none = pure tt
  run_handler rounds (some name) = handler_or_zero (find name (handlers rounds))

  unfoldable pub import_callback_router : (rounds address : ℕ) → Command u h (Unit {0})
  import_callback_router rounds address vm =
      run_handler rounds (find_key address vm.import_stubs) vm

  -- The hook as the constructor adds it: the engine runs the router for instructions among the
  -- stubs' bytes only.
  unfoldable pub import_hook : (rounds address : ℕ) → Command u h (Unit {0})
  import_hook rounds address =
      if leb import_address address && leb address (import_address + import_size - 1)
      then import_callback_router rounds address
      else pure tt
