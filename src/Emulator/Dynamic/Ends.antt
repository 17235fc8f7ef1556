-- ===== src/Emulator/Dynamic/Ends.antt =====
-- The end of the loop over the symbols (Emulator/Dynamic), which nothing in the file names.
use anisette_kit.Prelude.{
  ℕ, zero, suc, ◌+◌, ◌*◌, ◌^◌, ◌<◌, ◌≡◌, refl, sym, ◌∙◌, ◌&&◌, ◌||◌, Option, none, some, List, ltb,
  leb, ◌==◌, length, add64, arith, inl, inr, Bool-cases,
}
use anisette_kit.Prelude.Text.{Text}
use anisette_kit.Emulator.Unicorn.{Unicorn}
use anisette_kit.Emulator.Vm.{LibraryInfo, Run, ok}
use anisette_kit.Emulator.Symbols.{Elf64Sym, sizeof_sym, elf64_sym}
use anisette_kit.Emulator.Dynamic.{
  add_symbol, symbol_round, symbol_read, symbol_loop, name_at, read_symbols,
}

module _ (u : Unicorn) where
  symbol_step :
      (s : u.State) (o : Option (List ℕ)) (sym_offset : ℕ) (lib : LibraryInfo)
      (next : LibraryInfo → Run LibraryInfo)
      → ((lib' : LibraryInfo) → lib'.symtab ≡ lib.symtab → (r : LibraryInfo) × (next lib' ≡ ok r))
      → (r : LibraryInfo) × (symbol_read u s o sym_offset lib next ≡ ok r)
  unfolding symbol_read symbol_round add_symbol
  symbol_step s none sym_offset lib next go = (lib, refl)
  symbol_step s (some bytes) sym_offset lib next go =
      let sym : Elf64Sym = elf64_sym bytes in
      let sym_name : Text = name_at u s lib sym.st_name in
      elim (Bool-cases (leb lib.strsz sym.st_name)) [
        | inl skip ↦ rw skip (go lib refl)
        | inr here ↦ elim (Bool-cases (length sym_name == 0)) [
          | inr named ↦ rw (here, named) (go (add_symbol sym sym_name lib) (added sym sym_name lib))
          | inl empty ↦ elim (Bool-cases (ltb (sizeof_sym * 4) sym_offset && (sym.st_value == 0))) [
            | inl last ↦ (lib, rw (here, empty, last) refl)
            | inr more ↦ rw (here, empty, more) (go lib refl)
          ]
        ]
      ]
    where
      added :
          (sym : Elf64Sym) (sym_name : Text) (lib : LibraryInfo)
          → (add_symbol sym sym_name lib).symtab ≡ lib.symtab
      added sym sym_name lib = ground arith

  -- A read that fails ends the loop.
  symbol_read_unmapped :
      (s : u.State) (o : Option (List ℕ)) (sym_offset : ℕ) (lib : LibraryInfo)
      (next : LibraryInfo → Run LibraryInfo)
      → o ≡ none
      → (r : LibraryInfo) × (symbol_read u s o sym_offset lib next ≡ ok r)
  unfolding symbol_read
  symbol_read_unmapped s o sym_offset lib next e = (lib, rw e refl)

  symbol_loop_ends :
      (rounds : ℕ) (s : u.State) (symtab sym_offset count : ℕ) (lib : LibraryInfo)
      → lib.symtab ≡ symtab
      → symtab + sym_offset + sizeof_sym * count < 2 ^ 64
      → u.mem_read s (symtab + sym_offset + sizeof_sym * count) sizeof_sym ≡ none
      → count < rounds
      → (lib' : LibraryInfo) × (symbol_loop u rounds s sym_offset lib ≡ ok lib')
  unfolding symbol_loop
  symbol_loop_ends zero s symtab sym_offset count lib at fits stop enough = absurd (omega arith)
  symbol_loop_ends (suc rounds) s symtab sym_offset zero lib at fits stop enough =
      let here : symtab + sym_offset + sizeof_sym * 0 ≡ add64 lib.symtab sym_offset =
        omega (arith, at) in
      let stop' : u.mem_read s (add64 lib.symtab sym_offset) sizeof_sym ≡ none = rw here at stop in
      symbol_read_unmapped s (u.mem_read s (add64 lib.symtab sym_offset) sizeof_sym)
        (add64 sym_offset sizeof_sym) lib
        (λ lib'. symbol_loop u rounds s (add64 sym_offset sizeof_sym) lib') stop'
  symbol_loop_ends (suc rounds) s symtab sym_offset (suc count) lib at fits stop enough =
      let next : add64 sym_offset sizeof_sym ≡ sym_offset + sizeof_sym = omega arith in
      let there : symtab + sym_offset + sizeof_sym * suc count
          ≡ symtab + (sym_offset + sizeof_sym) + sizeof_sym * count =
        omega arith in
      rw next (
        symbol_step s (u.mem_read s (add64 lib.symtab sym_offset) sizeof_sym)
          (sym_offset + sizeof_sym) lib
          (λ lib'. symbol_loop u rounds s (sym_offset + sizeof_sym) lib')
          λ lib' same.
            symbol_loop_ends rounds s symtab (sym_offset + sizeof_sym) count lib' (same ∙ at)
              (omega (arith, there)) (rw there at stop) (omega arith))

  -- The loop over the symbols ends where the memory behind the table cannot be read, if the table
  -- does not run past the address space: with one round for each entry before that place, and one
  -- more, it returns a library.
  pub read_symbols_ends :
      (rounds : ℕ) (s : u.State) (count : ℕ) (lib : LibraryInfo)
      → lib.symtab + sizeof_sym * count < 2 ^ 64
      → u.mem_read s (lib.symtab + sizeof_sym * count) sizeof_sym ≡ none
      → count < rounds
      → (lib' : LibraryInfo) × (read_symbols u rounds s lib ≡ ok lib')
  unfolding read_symbols
  read_symbols_ends rounds s count lib fits stop enough =
      let start : lib.symtab + sizeof_sym * count ≡ lib.symtab + 0 + sizeof_sym * count =
        omega arith in
      elim (Bool-cases ((lib.symtab == 0) || (lib.strtab == 0) || (lib.strsz == 0))) [
        | inl off ↦ (lib, rw off refl)
        | inr on ↦ rw on (
            symbol_loop_ends rounds s lib.symtab 0 count lib refl (omega (arith, start))
              (rw start at stop) enough)
      ]
