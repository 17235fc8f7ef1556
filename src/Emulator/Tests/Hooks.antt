-- ===== src/Emulator/Tests/Hooks.antt =====
-- The theorems on the string and file hooks and on faults at concrete inputs.
use anisette_kit.Prelude.{
  inl, ◌⊎◌, ◌+◌, ℕ, ◌^◌, ◌≤◌, ◌≡◌, refl, true, none, some, List, [], ◌∷◌, ◌==◌, if◌then◌else◌,
  length, arith, ◌↔◌, ◌≢◌,
}
use anisette_kit.Prelude.Text.{codes}
use anisette_kit.Emulator.Host.{Stat}
use anisette_kit.Emulator.Unicorn.{x, fetch_unmapped, write_unmapped, prot_all, collect, byte}
use anisette_kit.Emulator.Vm.{ok, Vm, find_key}
use anisette_kit.Emulator.Machine.{machine, machine_laws, host, guest, is_mapped}
use anisette_kit.Emulator.Strings.{hook_strcmp}
use anisette_kit.Emulator.Strings.Reading.{IsText, load_text_lem, strcmp_lem}
use anisette_kit.Emulator.Strings.{hook_strcpy}
use anisette_kit.Emulator.Strings.Copying.{strcpy_lem}
use anisette_kit.Emulator.FileFormats.{stat_bytes}
use anisette_kit.Emulator.FileFormats.Layout.{guest_load, stat_bytes_lem}
use anisette_kit.Emulator.Files.{hook_open, hook_close}
use anisette_kit.Emulator.Files.Descriptors.{IsTable, hook_open_lem, hook_close_lem}
use anisette_kit.Emulator.Faults.{hook_mem_invalid, is_usable}
use anisette_kit.Emulator.Faults.Pages.{hook_mem_invalid_lem}

abbrev strlen_guest : Vm machine host
strlen_guest = guest (0x1000 ∷ []) (104 ∷ 105 ∷ 0 ∷ [])

hi-IsText : IsText machine strlen_guest.uc 0x1000 (104 ∷ 105 ∷ [])
unfolding byte
hi-IsText = (refl, (λ e. omega arith), omega arith, (refl, (λ e. omega arith), omega arith, refl))

abbrev strcmp_guest : Vm machine host
strcmp_guest = guest (0x1000 ∷ 0x1003 ∷ []) (104 ∷ 105 ∷ 0 ∷ 104 ∷ 0 ∷ [])

left-IsText : IsText machine strcmp_guest.uc 0x1000 (104 ∷ 105 ∷ [])
unfolding byte
left-IsText = (refl, (λ e. omega arith), omega arith, (refl, (λ e. omega arith), omega arith, refl))

right-IsText : IsText machine strcmp_guest.uc 0x1003 (104 ∷ [])
unfolding byte
right-IsText = (refl, (λ e. omega arith), omega arith, refl)

strcmp_lem_example :
    (vm' : Vm machine host) × (hook_strcmp 3 strcmp_guest ≡ ok (tt, vm'))
    × ((machine.reg_read vm'.uc (x 0) ≡ 0) ↔ (codes "hi" ≡ codes "h"))
strcmp_lem_example =
    strcmp_lem machine_laws 3 strcmp_guest (104 ∷ 105 ∷ []) (104 ∷ []) (omega arith) (omega arith)
      (omega arith) (omega arith) left-IsText right-IsText

abbrev strcpy_guest : Vm machine host
strcpy_guest = guest (0x1003 ∷ 0x1000 ∷ []) (104 ∷ 105 ∷ 0 ∷ 1 ∷ 2 ∷ 3 ∷ 4 ∷ [])

source-IsText : IsText machine strcpy_guest.uc 0x1000 (104 ∷ 105 ∷ [])
unfolding byte
source-IsText =
    (refl, (λ e. omega arith), omega arith, (refl, (λ e. omega arith), omega arith, refl))

strcpy_lem_example :
    (vm' : Vm machine host) × (hook_strcpy 3 strcpy_guest ≡ ok (tt, vm'))
    × (machine.reg_read vm'.uc (x 0) ≡ 0x1003)
    × (collect (byte machine vm'.uc) 0x1003 3 ≡ some (104 ∷ 105 ∷ 0 ∷ []))
    × ((a n : ℕ)
        → (a + n ≤ 0x1003) ⊎ (0x1003 + 2 + 1 ≤ a)
        → collect (byte machine vm'.uc) a n ≡ collect (byte machine strcpy_guest.uc) a n)
strcpy_lem_example =
    strcpy_lem machine_laws 3 strcpy_guest (104 ∷ 105 ∷ []) (omega arith) (omega arith)
      (omega arith) source-IsText (omega arith) (omega arith) (is_mapped strcpy_guest.uc 0x1003 3)
      (inl (omega arith))

abbrev regular_file : Stat
regular_file = record {
  st_dev = 1;
  st_ino = 77;
  st_mode = 0x81A4;
  st_nlink = 1;
  st_uid = 501;
  st_gid = 20;
  st_rdev = 0;
  st_size = 1000;
  st_blksize = 4096;
  st_blocks = 8;
  atime_sec = 3;
  atime_nsec = 4;
  mtime_sec = 5;
  mtime_nsec = 6;
  ctime_sec = 7;
  ctime_nsec = 8;
}

abbrev file_bytes : List ℕ
file_bytes = stat_bytes regular_file

stat_bytes_lem_example :
    (length (stat_bytes regular_file) ≡ 128)
    × (guest_load 8 8 (stat_bytes regular_file) ≡ 77)
    × (guest_load 16 4 (stat_bytes regular_file) ≡ 0x81A4)
    × (guest_load 20 4 (stat_bytes regular_file) ≡ 1)
    × (guest_load 48 8 (stat_bytes regular_file) ≡ 1000)
    × (guest_load 56 4 (stat_bytes regular_file) ≡ 4096)
    × (guest_load 64 8 (stat_bytes regular_file) ≡ 8)
    × (guest_load 88 8 (stat_bytes regular_file) ≡ 5)
stat_bytes_lem_example = stat_bytes_lem regular_file (record {
  ino = omega arith;
  mode = omega arith;
  nlink = omega arith;
  size = omega arith;
  blksize = omega arith;
  blocks = omega arith;
  mtime = omega arith;
})

abbrev open_guest : Vm machine host
open_guest = guest (0x1000 ∷ 0x42 ∷ 0x1B6 ∷ []) (104 ∷ 105 ∷ 0 ∷ [])

path-IsText : IsText machine open_guest.uc 0x1000 (104 ∷ 105 ∷ [])
unfolding byte
path-IsText = (refl, (λ e. omega arith), omega arith, (refl, (λ e. omega arith), omega arith, refl))

hook_open_lem_example :
    (vm' : Vm machine host) × (hook_open 3 open_guest ≡ ok (tt, vm'))
    × (find_key (machine.reg_read vm'.uc (x 0)) open_guest.fd_map ≡ none)
    × ((j : ℕ)
        → find_key j vm'.fd_map
          ≡ (if machine.reg_read vm'.uc (x 0) == j then some 3 else find_key j open_guest.fd_map))
    × IsTable vm'
hook_open_lem_example =
    hook_open_lem machine_laws 3 open_guest (104 ∷ 105 ∷ []) 3 1
      (record { keys = tt; start = omega arith; fits = omega arith }) (omega arith)
      (load_text_lem machine_laws 3 0x1000 open_guest (104 ∷ 105 ∷ []) (omega arith) (omega arith)
        path-IsText)
      refl

-- Descriptors 10 and 11 are in use, and 10 is to be closed.
abbrev close_guest : Vm machine host
close_guest = record (guest (10 ∷ []) []) { fd_map = (10, 3) ∷ (11, 4) ∷ []; next_guest_fd = 12 }

ten_in_use : find_key 10 close_guest.fd_map ≡ some 3
unfolding find_key
ten_in_use = refl

hook_close_lem_example :
    (vm' : Vm machine host) × (hook_close close_guest ≡ ok (tt, vm'))
    × (machine.reg_read vm'.uc (x 0) ≡ 0)
    × (vm'.world ≡ 1)
    × ((j : ℕ) → find_key j vm'.fd_map ≡ (if 10 == j then none else find_key j close_guest.fd_map))
    × IsTable vm'
hook_close_lem_example =
    hook_close_lem machine_laws close_guest 3
      (record { keys = omega arith; start = omega arith; fits = omega arith }) ten_in_use

abbrev fault_guest : Vm machine host
fault_guest = guest [] []

hook_mem_invalid_lem_example :
    ((hook_mem_invalid machine fault_guest.uc write_unmapped 0x2_1234).0 ≡ true) ↔ (
      (write_unmapped ≢ fetch_unmapped)
      × ((write_unmapped ≡ write_unmapped) → 2 ^ 16 ≤ 0x2_1234)
      × (is_usable ((machine.mem_map fault_guest.uc 0x2_0000 0x1_0000 prot_all).0) ≡ true))
hook_mem_invalid_lem_example =
    hook_mem_invalid_lem machine fault_guest.uc write_unmapped 0x2_1234 (omega arith)
