-- ===== src/Mac/Platform.antt =====
-- What the host loader and the core over it use of macOS and of the code that they load: a parameter.
-- A fault, which C++ leaves undefined, is `none`.
use anisette_kit.Prelude.{ℕ, Bool, Option, List}
use anisette_kit.Prelude.Int.{ℤ}
use anisette_kit.Prelude.Text.{Text}
use anisette_kit.Emulator.Host.{Host}

-- What a native call is passed: a number, a C string, a pointer to bytes, or the address of a
-- variable of the caller that is 0.
pub data Arg : Type 0 where
  number : ℕ → Arg
  c_string : Option Text → Arg
  in_bytes : Option (List ℕ) → Arg
  out : Arg

-- What a native call leaves: its result, and the numbers in the `out` variables, in their order.
pub record Reply : Type 0 where
  pub result : ℤ
  pub outs : List ℕ

-- The state that the platform keeps is the host's `World`; it holds the memory of the process and
-- what the loaded code keeps there.
pub record Platform : Type 1 where
  pub host : Host
  pub set_errno : host.World → (value : ℕ) → host.World
  pub unlink : host.World → Text → host.World
  -- `fopen` for writing: the file, if it could be opened.
  pub open_to_write : host.World → Text → Option ℕ × host.World
  -- `fwrite` of bytes and `fclose`.
  pub write_and_close : host.World → (file : ℕ) → List ℕ → host.World
  pub read_mem : host.World → (address size : ℕ) → Option (List ℕ)
  pub write_mem : host.World → (address : ℕ) → List ℕ → Option host.World
  -- Anonymous pages for reading and writing.
  pub mmap : host.World → (size : ℕ) → Option ℕ × host.World
  pub munmap : host.World → (address size : ℕ) → host.World
  -- Both ask for reading and executing only.
  pub vm_protect : host.World → (address size : ℕ) → Bool × host.World
  pub mprotect : host.World → (address size : ℕ) → Bool × host.World
  -- `pthread_jit_write_protect_np`, if the system supports it.
  pub jit_write_protect : host.World → (enabled : Bool) → host.World
  pub page_size : ℕ
  pub rtld_default : ℕ
  pub dlopen : host.World → Text → (mode : ℕ) → ℕ × host.World
  -- 0 if there is no such symbol.
  pub dlsym : host.World → (handle : ℕ) → Text → ℕ
  -- Where the linker put a function or a variable of the loader's source.
  pub address_of : Text → ℕ
  pub isupper : ℕ → Bool
  pub islower : ℕ → Bool
  pub isdigit : ℕ → Bool
  pub isspace : ℕ → Bool
  pub ispunct : ℕ → Bool
  pub iscntrl : ℕ → Bool
  pub isblank : ℕ → Bool
  pub isxdigit : ℕ → Bool
  -- A thread that runs `pthread_wrapper` with the two numbers.
  pub pthread_create : host.World → (thread attr start_routine arg : ℕ) → ℕ × host.World
  pub native : host.World → (function : ℕ) → List Arg → Option (Reply × host.World)
