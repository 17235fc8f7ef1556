-- ===== src/Emulator/Dynamic/Tables.antt =====
-- The loop over the dynamic section against a fold over the table that the memory holds.
use anisette_kit.Prelude.{
  ℕ, zero, suc, ◌+◌, ◌^◌, ◌<◌, ◌≡◌, refl, false, some, List, [], ◌∷◌, ◌==◌, length, add64, arith,
  ◌≢◌, subst,
}
use anisette_kit.Emulator.Unicorn.{Unicorn}
use anisette_kit.Emulator.Vm.{LibraryInfo, ok}
use anisette_kit.Emulator.Elf.{Elf64Dyn, elf64_dyn, sizeof_dyn}
use anisette_kit.Emulator.Dynamic.{
  set_dynamic, set_entry, dynamic_round, dynamic_loop, read_dynamic,
}

-- The entries of a table before its DT_NULL, as the memory shows them from an address on.
abbrev pub HoldsTable : (u : Unicorn) → u.State → ℕ → List Elf64Dyn → Type 0
HoldsTable u s a [] =
    (bytes : List ℕ) × (u.mem_read s a sizeof_dyn ≡ some bytes) × ((elf64_dyn bytes).d_tag ≡ 0)
HoldsTable u s a (dyn ∷ dyns) =
    ((bytes : List ℕ) × (u.mem_read s a sizeof_dyn ≡ some bytes) × (elf64_dyn bytes ≡ dyn))
    × (dyn.d_tag ≢ 0)
    × (a + sizeof_dyn < 2 ^ 64)
    × HoldsTable u s (a + sizeof_dyn) dyns

-- The entries in turn, without a loop over memory.
unfoldable pub set_entries : List Elf64Dyn → LibraryInfo → LibraryInfo
set_entries [] lib = lib
set_entries (dyn ∷ dyns) lib = set_entries dyns (set_entry dyn lib)

-- An entry leaves the image where it is.
pub set_entry-image :
    (dyn : Elf64Dyn) (lib : LibraryInfo)
    → ((set_entry dyn lib).base_address ≡ lib.base_address)
      × ((set_entry dyn lib).min_vaddr ≡ lib.min_vaddr)
      × ((set_entry dyn lib).max_vaddr ≡ lib.max_vaddr)
      × ((set_entry dyn lib).dynamic_address ≡ lib.dynamic_address)
unfolding set_entry set_dynamic
set_entry-image dyn lib = ground arith

module _ (u : Unicorn) where
  dynamic_loop_lem :
      (rounds : ℕ) (s : u.State) (dyn_offset : ℕ) (dyns : List Elf64Dyn) (lib : LibraryInfo)
      → length dyns < rounds
      → lib.dynamic_address + dyn_offset < 2 ^ 64
      → HoldsTable u s (lib.dynamic_address + dyn_offset) dyns
      → dynamic_loop u rounds s dyn_offset lib ≡ ok (set_entries dyns lib)
  unfolding dynamic_loop dynamic_round set_entries
  dynamic_loop_lem zero s dyn_offset dyns lib enough fits t = absurd (omega arith)
  dynamic_loop_lem (suc rounds) s dyn_offset [] lib enough fits (bytes, read, null) =
      let here : add64 lib.dynamic_address dyn_offset ≡ lib.dynamic_address + dyn_offset =
        omega arith in
      rw (here, read, null) refl
  dynamic_loop_lem (suc rounds) s dyn_offset (dyn ∷ dyns) lib enough fits t =
      let (bytes, read, same) = t.0 in
      let lib' : LibraryInfo = set_entry dyn lib in
      let here : add64 lib.dynamic_address dyn_offset ≡ lib.dynamic_address + dyn_offset =
        omega arith in
      let next : add64 dyn_offset sizeof_dyn ≡ dyn_offset + sizeof_dyn = omega (arith, t.2) in
      let keep : lib'.dynamic_address ≡ lib.dynamic_address = (set_entry-image dyn lib).3 in
      let there : lib.dynamic_address + dyn_offset + sizeof_dyn
          ≡ lib'.dynamic_address + (dyn_offset + sizeof_dyn) =
        omega (arith, keep) in
      let test : (dyn.d_tag == 0) ≡ false = ground (arith, t.1) in
      let rest =
        dynamic_loop_lem rounds s (dyn_offset + sizeof_dyn) dyns lib' (omega arith)
          (omega (arith, t.2, keep)) (subst (λ a. HoldsTable u s a dyns) there t.3) in
      rw (here, read, same, test, next) rest

  -- Where the memory holds a dynamic table at the library's address, which is not 0 and in the
  -- address space, and the loop gets more rounds than the table has entries before its DT_NULL,
  -- the loop sets just these entries, in their order.
  pub read_dynamic_lem :
      (rounds : ℕ) (s : u.State) (dyns : List Elf64Dyn) (lib : LibraryInfo)
      → 0 < lib.dynamic_address
      → lib.dynamic_address < 2 ^ 64
      → length dyns < rounds
      → HoldsTable u s lib.dynamic_address dyns
      → read_dynamic u rounds s lib ≡ ok (set_entries dyns lib)
  unfolding read_dynamic
  read_dynamic_lem rounds s dyns lib pos fits enough t =
      let test : (lib.dynamic_address == 0) ≡ false = ground arith in
      let start : lib.dynamic_address ≡ lib.dynamic_address + 0 = omega arith in
      rw test (
        dynamic_loop_lem rounds s 0 dyns lib enough (omega arith)
          (subst (λ a. HoldsTable u s a dyns) start t))
