-- ===== src/Mac/Files.antt =====
-- The hooks on files of Native/Loader/elf_loader_host.cpp, which the loaded code calls in place of
-- `open`, `mkdir`, `chmod`, `fstat` and `lstat`. A result of -1 is `minus 1`.
pub mod Results
use anisette_kit.Prelude.{
  ℕ, Bool, true, false, not, ◌&&◌, Option, none, some, List, ◌==◌, if◌then◌else◌, bit_and, bit_or,
}
use anisette_kit.Prelude.Int.{ℤ, pos, minus}
use anisette_kit.Prelude.Text.{Text}
use anisette_kit.Emulator.Host.{Stat, OpenFlags}
use anisette_kit.Emulator.FileFormats.{or_flag, stat_bytes}
use anisette_kit.Mac.Platform.{Platform}
use anisette_kit.Mac.Process.{Action, pure, ◌>>=◌, ◌>>◌, gets, host_does, host_step, store_bytes}

-- The translation of Linux's flags in `hook_open`.
unfoldable pub mac_open_flags : OpenFlags → (flags : ℕ) → ℕ
mac_open_flags o flags =
    let access : ℕ = bit_or 0 (bit_and flags 3) in
    let creat : ℕ = or_flag flags 0x40 o.o_creat access in
    let excl : ℕ = or_flag flags 0x80 o.o_excl creat in
    let trunc : ℕ = or_flag flags 0x200 o.o_trunc excl in
    let append : ℕ = or_flag flags 0x400 o.o_append trunc in
    or_flag flags 0x8_0000 o.o_cloexec append

abbrev pub fd_result : Option ℕ → ℤ
fd_result none = minus 1
fd_result (some fd) = pos fd

abbrev pub call_result : Bool → ℤ
call_result true = pos 0
call_result false = minus 1

abbrev pub opened : Option ℕ → Bool
opened none = false
opened (some fd) = true

module _ {p : Platform} where
  abbrev pub set_errno : ℕ → Action p (Unit {0})
  set_errno value = host_does (λ w. p.set_errno w value)

  -- `errno` if the call failed, or else 0.
  unfoldable pub saved_errno : (okay : Bool) → Action p ℕ
  saved_errno true = pure 0
  saved_errno false = gets (λ s. p.host.errno s.world)

  unfoldable pub host_open : (path : Text) → (flags mode : ℕ) → Action p ℤ
  host_open path flags mode = do
    fd ← host_step (λ w. p.host.open_file w path (mac_open_flags p.host.flags flags) mode)
    saved ← saved_errno (opened fd)
    set_errno saved
    pure (fd_result fd)

  -- A directory that is there already counts as made.
  unfoldable pub made_or_exists : (res : Bool) → (saved : ℕ) → Action p ℤ
  made_or_exists res saved =
      if not res && (saved == p.host.eexist)
      then (do set_errno 0; set_errno 0; pure (pos 0))
      else (do set_errno saved; pure (call_result res))

  unfoldable pub host_mkdir : (path : Text) → (mode : ℕ) → Action p ℤ
  host_mkdir path mode = do
    res ← host_step (λ w. p.host.mkdir w path mode)
    saved ← saved_errno res
    made_or_exists res saved

  unfoldable pub host_chmod : (path : Text) → (mode : ℕ) → Action p ℤ
  host_chmod path mode = do
    res ← host_step (λ w. p.host.chmod w path mode)
    saved ← saved_errno res
    set_errno saved
    pure (call_result res)

  -- What both do with the result of the system's call.
  unfoldable pub give_stat : Option Stat → (buf : ℕ) → Action p ℤ
  give_stat none buf = do saved ← saved_errno false; set_errno saved; pure (minus 1)
  give_stat (some st) buf = do set_errno 0; store_bytes buf (stat_bytes st); pure (pos 0)

  unfoldable pub host_fstat : (fd buf : ℕ) → Action p ℤ
  host_fstat fd buf = do st ← host_step (λ w. p.host.fstat w fd); give_stat st buf

  unfoldable pub host_lstat : (path : Text) → (buf : ℕ) → Action p ℤ
  host_lstat path buf = do st ← host_step (λ w. p.host.lstat w path); give_stat st buf
