-- ===== src/Emulator/Host.antt =====
-- What the emulator uses of the host's C library and kernel: a parameter, with a state of its own.
use anisette_kit.Prelude.{ℕ, Bool, Option, List}
use anisette_kit.Prelude.Text.{Text}

-- The fields of `struct stat` that the source copies, as bit patterns.
pub record Stat : Type 0 where
  pub st_dev : ℕ
  pub st_ino : ℕ
  pub st_mode : ℕ
  pub st_nlink : ℕ
  pub st_uid : ℕ
  pub st_gid : ℕ
  pub st_rdev : ℕ
  pub st_size : ℕ
  pub st_blksize : ℕ
  pub st_blocks : ℕ
  pub atime_sec : ℕ
  pub atime_nsec : ℕ
  pub mtime_sec : ℕ
  pub mtime_nsec : ℕ
  pub ctime_sec : ℕ
  pub ctime_nsec : ℕ

-- The flags of <fcntl.h> that the source names; their numbers are the platform's.
pub record OpenFlags : Type 0 where
  pub o_rdonly : ℕ
  pub o_wronly : ℕ
  pub o_rdwr : ℕ
  pub o_creat : ℕ
  pub o_excl : ℕ
  pub o_noctty : ℕ
  pub o_trunc : ℕ
  pub o_append : ℕ
  pub o_nonblock : ℕ
  pub o_sync : ℕ
  pub o_cloexec : ℕ

-- `none` is a failed call, whose reason `errno` holds afterwards.
pub record Host : Type 1 where
  pub World : Type 0
  pub flags : OpenFlags
  pub eexist : ℕ
  pub errno : World → ℕ
  pub open_file : World → Text → (flags mode : ℕ) → Option ℕ × World
  pub close : World → ℕ → World
  pub read : World → (fd count : ℕ) → Option (List ℕ) × World
  pub write : World → (fd : ℕ) → List ℕ → Option ℕ × World
  pub ftruncate : World → (fd length : ℕ) → Bool × World
  pub mkdir : World → Text → (mode : ℕ) → Bool × World
  pub chmod : World → Text → (mode : ℕ) → Bool × World
  pub umask : World → (mask : ℕ) → ℕ × World
  pub lstat : World → Text → Option Stat × World
  pub fstat : World → (fd : ℕ) → Option Stat × World
  pub arc4random : World → ℕ × World
  -- Seconds and microseconds.
  pub gettimeofday : World → ℕ × ℕ
  -- The value's bits, and how many characters the number took.
  pub strtoll : Text → (base : ℕ) → ℕ × ℕ
  pub strtod : Text → ℕ × ℕ
  -- The size of a file, if it can be opened, and the bytes that a read of that many delivers.
  pub read_file : World → Text → Option (ℕ × List ℕ)
  -- Leaves a file of these bytes, if it can be opened.
  pub write_file : World → Text → List ℕ → World
  pub is_directory : World → Text → Bool
  pub rmdir : World → Text → World
