-- ===== src/Emulator/FileFormats/Layout.antt =====
-- The bytes of the stat structure are those that the guest's C library reads.
use anisette_kit.Prelude.{
  le_value-le_bytes, ℕ, ◌^◌, ◌<◌, ◌≡◌, refl, List, length, take, drop, le_bytes, le_value,
}
use anisette_kit.Emulator.Host.{Stat}
use anisette_kit.Emulator.FileFormats.{stat_bytes}

-- A little-endian number of `count` bytes at `offset`, as a load by the guest reads it.
abbrev pub guest_load : (offset count : ℕ) → List ℕ → ℕ
guest_load offset count bytes = le_value (take count (drop offset bytes))

-- The host's numbers fit the fields that the guest has for them.
pub record FitsGuest (st : Stat) : Type 0 where
  pub ino : st.st_ino < 256 ^ 8
  pub mode : st.st_mode < 256 ^ 4
  pub nlink : st.st_nlink < 256 ^ 4
  pub size : st.st_size < 256 ^ 8
  pub blksize : st.st_blksize < 256 ^ 4
  pub blocks : st.st_blocks < 256 ^ 8
  pub mtime : st.mtime_sec < 256 ^ 8

-- The structure fills 128 bytes, and where the host's numbers fit it, loads at the offsets of Linux's
-- 64-bit `struct stat` find them: the file's number, mode, links, size, blocks and time of change.
pub stat_bytes_lem :
    (st : Stat)
    → FitsGuest st
    → (length (stat_bytes st) ≡ 128)
      × (guest_load 8 8 (stat_bytes st) ≡ st.st_ino)
      × (guest_load 16 4 (stat_bytes st) ≡ st.st_mode)
      × (guest_load 20 4 (stat_bytes st) ≡ st.st_nlink)
      × (guest_load 48 8 (stat_bytes st) ≡ st.st_size)
      × (guest_load 56 4 (stat_bytes st) ≡ st.st_blksize)
      × (guest_load 64 8 (stat_bytes st) ≡ st.st_blocks)
      × (guest_load 88 8 (stat_bytes st) ≡ st.mtime_sec)
unfolding stat_bytes le_bytes le_value
stat_bytes_lem st f = (
  refl,
  le_value-le_bytes 8 st.st_ino f.ino,
  le_value-le_bytes 4 st.st_mode f.mode,
  le_value-le_bytes 4 st.st_nlink f.nlink,
  le_value-le_bytes 8 st.st_size f.size,
  le_value-le_bytes 4 st.st_blksize f.blksize,
  le_value-le_bytes 8 st.st_blocks f.blocks,
  le_value-le_bytes 8 st.mtime_sec f.mtime,
)
