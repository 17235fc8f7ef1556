-- ===== src/Emulator/Faults.antt =====
-- `hook_mem_invalid` of Native/Loader/elf_loader_emulator.cpp: what becomes of an access to memory
-- that is not mapped. Its printing is left out.
pub mod Pages
use anisette_kit.Prelude.{ℕ, Bool, true, false, ◌==◌, if◌then◌else◌, not64, bit_and}
use anisette_kit.Emulator.Unicorn.{
  Unicorn, UcErr, err_ok, err_map, err_other, UcMemType, fetch_unmapped, write_unmapped,
  read_unmapped, prot_all,
}

-- Whether the engine may try again, after a call of `uc_mem_map`.
abbrev pub is_usable : UcErr → Bool
is_usable err_ok = true
is_usable err_map = true
is_usable (err_other n) = false

unfoldable pub page_addr : ℕ → ℕ
page_addr address = bit_and address (not64 0xFFFF)

module _ (u : Unicorn) where
  unfoldable pub after_map : UcErr × u.State → Bool × u.State
  after_map (err, s) = if is_usable err then (true, s) else (false, u.emu_stop s)

  abbrev pub map_page : u.State → (address : ℕ) → Bool × u.State
  map_page s address = after_map (u.mem_map s (page_addr address) 0x1_0000 prot_all)

  unfoldable pub hook_mem_invalid : u.State → UcMemType → (address : ℕ) → Bool × u.State
  hook_mem_invalid s fetch_unmapped address = (false, u.emu_stop s)
  hook_mem_invalid s write_unmapped address =
      if page_addr address == 0 then (false, u.emu_stop s) else map_page s address
  hook_mem_invalid s read_unmapped address = map_page s address
