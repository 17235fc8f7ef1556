-- ===== src/Emulator/Faults/Pages.antt =====
-- When an access to unmapped memory may go on.
use anisette_kit.Prelude.{
  Bool-cases, ℕ, ◌*◌, ◌/◌, ◌^◌, ◌≤◌, ◌<◌, ◌≡◌, refl, true, ◌==◌, arith, inl, inr, ◌↔◌, ◌≢◌,
}
use anisette_kit.Emulator.Unicorn.{
  Unicorn, UcErr, err_ok, err_map, err_other, UcMemType, fetch_unmapped, write_unmapped,
  read_unmapped, prot_all,
}
use anisette_kit.Prelude.Bits.{bit_and_clear}
use anisette_kit.Emulator.Faults.{map_page, page_addr, after_map, is_usable, hook_mem_invalid}

-- The page of an address is the 64 KiB around it.
pub page_addr_lem : (address : ℕ) → address < 2 ^ 64 → page_addr address ≡ address / 2 ^ 16 * 2 ^ 16
unfolding page_addr
page_addr_lem address h = bit_and_clear 48 16 address h

module _ (u : Unicorn) where
  map_page-usable :
      (s : u.State) (address : ℕ)
      → address < 2 ^ 64
      → (map_page u s address).0
        ≡ is_usable ((u.mem_map s (address / 2 ^ 16 * 2 ^ 16) 0x1_0000 prot_all).0)
  unfolding after_map
  map_page-usable s address h =
      rw (page_addr_lem address h)
        (usable (u.mem_map s (address / 2 ^ 16 * 2 ^ 16) 0x1_0000 prot_all))
    where
      usable : (r : UcErr × u.State) → (after_map u r).0 ≡ is_usable (r.0)
      usable (err_ok, s') = refl
      usable (err_map, s') = refl
      usable (err_other n, s') = refl

  -- The engine tries again exactly after a read, or a write outside the first 64 KiB, for which
  -- `uc_mem_map` mapped the 64 KiB around the address, or reported them as mapped; a fetch never.
  pub hook_mem_invalid_lem :
      (s : u.State) (type : UcMemType) (address : ℕ)
      → address < 2 ^ 64
      → let page : ℕ = address / 2 ^ 16 * 2 ^ 16 in
        ((hook_mem_invalid u s type address).0 ≡ true) ↔ (
          (type ≢ fetch_unmapped)
          × ((type ≡ write_unmapped) → 2 ^ 16 ≤ address)
          × (is_usable ((u.mem_map s page 0x1_0000 prot_all).0) ≡ true))
  unfolding hook_mem_invalid after_map
  hook_mem_invalid_lem s fetch_unmapped address h = (λ e. absurd cc, λ e. absurd (e.0 refl))
  hook_mem_invalid_lem s write_unmapped address h =
      let page : page_addr address ≡ address / 2 ^ 16 * 2 ^ 16 = page_addr_lem address h in
      elim (Bool-cases (page_addr address == 0)) [
        | inl z ↦ rw z (ground (arith, page))
        | inr n ↦ rw (n, map_page-usable s address h) (ground (arith, page))
      ]
  hook_mem_invalid_lem s read_unmapped address h = rw (map_page-usable s address h) (ground arith)
