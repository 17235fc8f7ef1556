-- ===== src/Emulator/FileFormats.antt =====
-- The open-flag translation and the stat structure of the file hooks in
-- Native/Loader/elf_loader_emulator.cpp, and the results that they put in X0.
pub mod Layout
use anisette_kit.Prelude.{
  ℕ, ◌-◌, ◌%◌, ◌^◌, Bool, true, false, Option, none, some, List, ◌++◌, ◌==◌, if◌then◌else◌,
  le_bytes, bit_and, bit_or,
}
use anisette_kit.Emulator.Host.{Stat, OpenFlags}

-- `if (linux_flags & bit) darwin_flags |= flag;`
abbrev pub or_flag : (linux_flags bit flag darwin_flags : ℕ) → ℕ
or_flag linux_flags bit flag darwin_flags =
    if bit_and linux_flags bit == 0 then darwin_flags else bit_or darwin_flags flag

-- The chain on `acc_mode`, onto flags that are 0.
abbrev pub access_flags : (o : OpenFlags) → (acc_mode : ℕ) → ℕ
access_flags o acc_mode =
    if acc_mode == 0
    then bit_or 0 o.o_rdonly
    else if acc_mode == 1
    then bit_or 0 o.o_wronly
    else if acc_mode == 2
    then bit_or 0 o.o_rdwr
    else 0

unfoldable pub linux_to_darwin_open_flags : OpenFlags → (linux_flags : ℕ) → ℕ
linux_to_darwin_open_flags o linux_flags =
    let access : ℕ = access_flags o (bit_and linux_flags 3) in
    let creat : ℕ = or_flag linux_flags 0x40 o.o_creat access in
    let excl : ℕ = or_flag linux_flags 0x80 o.o_excl creat in
    let noctty : ℕ = or_flag linux_flags 0x100 o.o_noctty excl in
    let trunc : ℕ = or_flag linux_flags 0x200 o.o_trunc noctty in
    let append : ℕ = or_flag linux_flags 0x400 o.o_append trunc in
    let nonblock : ℕ = or_flag linux_flags 0x800 o.o_nonblock append in
    let sync : ℕ = or_flag linux_flags 0x1000 o.o_sync nonblock in
    or_flag linux_flags 0x8_0000 o.o_cloexec sync

-- -1 as an `int64_t`.
abbrev pub minus_one : ℕ
minus_one = 2 ^ 64 - 1

-- The result of a call that only tells success from failure.
abbrev pub status : Bool → ℕ
status true = 0
status false = minus_one

-- `(int)guest_fd`, as its 32 bits.
abbrev pub fd_key : ℕ → ℕ
fd_key guest_fd = guest_fd % 2 ^ 32

-- `StatLinux`, in the order of its fields in memory.
unfoldable pub stat_bytes : Stat → List ℕ
stat_bytes st =
    le_bytes 8 st.st_dev
    ++ le_bytes 8 st.st_ino
    ++ le_bytes 4 st.st_mode
    ++ le_bytes 4 st.st_nlink
    ++ le_bytes 4 st.st_uid
    ++ le_bytes 4 st.st_gid
    ++ le_bytes 8 st.st_rdev
    ++ le_bytes 8 0
    ++ le_bytes 8 st.st_size
    ++ le_bytes 4 st.st_blksize
    ++ le_bytes 4 0
    ++ le_bytes 8 st.st_blocks
    ++ le_bytes 8 st.atime_sec
    ++ le_bytes 8 st.atime_nsec
    ++ le_bytes 8 st.mtime_sec
    ++ le_bytes 8 st.mtime_nsec
    ++ le_bytes 8 st.ctime_sec
    ++ le_bytes 8 st.ctime_nsec
    ++ le_bytes 4 0
    ++ le_bytes 4 0

-- A count, or -1.
abbrev pub count_or_error : Option ℕ → ℕ
count_or_error none = minus_one
count_or_error (some count) = count
