-- ===== src/Emulator/Loader/Images.antt =====
-- What the loops of the loader leave of a library: its place in the guest.
use anisette_kit.Prelude.{
  ℕ, zero, suc, ◌-◌, ◌*◌, ◌≡◌, refl, sym, ap, ◌∙◌, ◌&&◌, ◌||◌, Option, none, some, List, [], ◌∷◌,
  ltb, leb, ◌==◌, length, add64, inl, inr, Bool-cases,
}
use anisette_kit.Prelude.Text.{Text}
use anisette_kit.Emulator.Unicorn.{Unicorn}
use anisette_kit.Emulator.Vm.{LibraryInfo, Run, ok}
use anisette_kit.Emulator.Vm.Runs.{and_then-ok, ok-eq}
use anisette_kit.Emulator.Elf.{Elf64Phdr, pt_load, pt_dynamic, Elf64Dyn, elf64_dyn, sizeof_dyn}
use anisette_kit.Emulator.Symbols.{Elf64Sym, sizeof_sym}
use anisette_kit.Emulator.Segments.{load_segment, segment_step, segment_loop}
use anisette_kit.Emulator.Dynamic.{
  set_entry, dynamic_round, dynamic_loop, read_dynamic, add_symbol, symbol_round, symbol_read,
  symbol_loop, read_symbols,
}
use anisette_kit.Emulator.Dynamic.Tables.{set_entry-image}

-- Where a library lies in the guest, and how much of it.
unfoldable pub image : LibraryInfo → ℕ × ℕ
image lib = (lib.base_address, lib.max_vaddr - lib.min_vaddr)

image-set_entry : (dyn : Elf64Dyn) (lib : LibraryInfo) → image (set_entry dyn lib) ≡ image lib
unfolding image
image-set_entry dyn lib =
    let (base, low, high, rest) = set_entry-image dyn lib in rw (base, low, high) refl

image-add_symbol :
    (sym : Elf64Sym) (name : Text) (lib : LibraryInfo) → image (add_symbol sym name lib) ≡ image lib
unfolding image add_symbol
image-add_symbol sym name lib = elim (Bool-cases (sym.st_value == 0)) [
  | inl zero_value ↦ rw zero_value refl
  | inr value ↦ rw value refl
]

-- What a loop does to a library that it returns.
abbrev KeepsImage : (LibraryInfo → Run LibraryInfo) → Type 0
KeepsImage next = (lib r : LibraryInfo) → next lib ≡ ok r → image r ≡ image lib

image-dynamic_round :
    (o : Option (List ℕ)) (lib r : LibraryInfo) (next : LibraryInfo → Run LibraryInfo)
    → KeepsImage next
    → dynamic_round o lib next ≡ ok r
    → image r ≡ image lib
unfolding dynamic_round
image-dynamic_round none lib r next keep e = ap image (sym (ok-eq lib r e))
image-dynamic_round (some bytes) lib r next keep e =
    elim (Bool-cases ((elf64_dyn bytes).d_tag == 0)) [
      | inl null ↦ let e' = rw null at e in ap image (sym (ok-eq lib r e'))
      | inr entry ↦
          let e' = rw entry at e in
          keep (set_entry (elf64_dyn bytes) lib) r e' ∙ image-set_entry (elf64_dyn bytes) lib
    ]

image-symbol_round :
    (sym : Elf64Sym) (name : Text) (sym_offset : ℕ) (lib r : LibraryInfo)
    (next : LibraryInfo → Run LibraryInfo)
    → KeepsImage next
    → symbol_round sym name sym_offset lib next ≡ ok r
    → image r ≡ image lib
unfolding symbol_round
image-symbol_round sym' name sym_offset lib r next keep e =
    elim (Bool-cases (leb lib.strsz sym'.st_name)) [
      | inl skip ↦ let e' = rw skip at e in keep lib r e'
      | inr here ↦ elim (Bool-cases (length name == 0)) [
        | inr named ↦
            let e' = rw (here, named) at e in
            keep (add_symbol sym' name lib) r e' ∙ image-add_symbol sym' name lib
        | inl empty ↦ elim (Bool-cases (ltb (sizeof_sym * 4) sym_offset && (sym'.st_value == 0))) [
          | inl last ↦ let e' = rw (here, empty, last) at e in ap image (sym (ok-eq lib r e'))
          | inr more ↦ let e' = rw (here, empty, more) at e in keep lib r e'
        ]
      ]
    ]

module _ (u : Unicorn) where
  image-dynamic_loop :
      (rounds : ℕ) (s : u.State) (dyn_offset : ℕ) → KeepsImage (dynamic_loop u rounds s dyn_offset)
  unfolding dynamic_loop
  image-dynamic_loop zero s dyn_offset lib r e = absurd cc
  image-dynamic_loop (suc rounds) s dyn_offset lib r e =
      image-dynamic_round _ lib r _ (image-dynamic_loop rounds s (add64 dyn_offset sizeof_dyn)) e

  image-symbol_read :
      (s : u.State) (o : Option (List ℕ)) (sym_offset : ℕ) (lib r : LibraryInfo)
      (next : LibraryInfo → Run LibraryInfo)
      → KeepsImage next
      → symbol_read u s o sym_offset lib next ≡ ok r
      → image r ≡ image lib
  unfolding symbol_read
  image-symbol_read s none sym_offset lib r next keep e = ap image (sym (ok-eq lib r e))
  image-symbol_read s (some bytes) sym_offset lib r next keep e =
      image-symbol_round _ _ sym_offset lib r next keep e

  image-symbol_loop :
      (rounds : ℕ) (s : u.State) (sym_offset : ℕ) → KeepsImage (symbol_loop u rounds s sym_offset)
  unfolding symbol_loop
  image-symbol_loop zero s sym_offset lib r e = absurd cc
  image-symbol_loop (suc rounds) s sym_offset lib r e =
      image-symbol_read s _ _ lib r _ (image-symbol_loop rounds s (add64 sym_offset sizeof_sym)) e

  pub image-read_dynamic : (rounds : ℕ) (s : u.State) → KeepsImage (read_dynamic u rounds s)
  unfolding read_dynamic
  image-read_dynamic rounds s lib r e = elim (Bool-cases (lib.dynamic_address == 0)) [
    | inl off ↦ let e' = rw off at e in ap image (sym (ok-eq lib r e'))
    | inr on ↦ let e' = rw on at e in image-dynamic_loop rounds s 0 lib r e'
  ]

  pub image-read_symbols : (rounds : ℕ) (s : u.State) → KeepsImage (read_symbols u rounds s)
  unfolding read_symbols
  image-read_symbols rounds s lib r e =
      elim (Bool-cases ((lib.symtab == 0) || (lib.strtab == 0) || (lib.strsz == 0))) [
        | inl off ↦ let e' = rw off at e in ap image (sym (ok-eq lib r e'))
        | inr on ↦ let e' = rw on at e in image-symbol_loop rounds s 0 lib r e'
      ]

  image-segment_step :
      (file : List ℕ) (ph : Elf64Phdr) (lib : LibraryInfo) (s : u.State) (r : LibraryInfo × u.State)
      → segment_step u file ph lib s ≡ ok r
      → image r.0 ≡ image lib
  unfolding segment_step
  image-segment_step file ph lib s r e = elim (Bool-cases (ph.p_type == pt_load)) [
    | inl load ↦
        let e' = rw load at e in
        let (s', first, rest) = and_then-ok (load_segment u file lib ph s) _ r e' in
        let at : ◌≡◌ {A = LibraryInfo × u.State} (lib, s') r = ok-eq (lib, s') r rest in
        ap (λ (q : LibraryInfo × u.State). image q.0) (sym at)
    | inr other ↦ elim (Bool-cases (ph.p_type == pt_dynamic)) [
      | inl dynamic ↦
          let e' = rw (other, dynamic) at e in
          ap (λ (q : LibraryInfo × u.State). image q.0) (sym (ok-eq _ r e'))
          ∙ (unfold image in refl)
      | inr neither ↦
          let e' = rw (other, neither) at e in
          ap (λ (q : LibraryInfo × u.State). image q.0) (sym (ok-eq (lib, s) r e'))
    ]
  ]

  pub image-segment_loop :
      (file : List ℕ) (phs : List Elf64Phdr) (lib : LibraryInfo) (s : u.State)
      (r : LibraryInfo × u.State)
      → segment_loop u file phs lib s ≡ ok r
      → image r.0 ≡ image lib
  unfolding segment_loop
  image-segment_loop file [] lib s r e =
      ap (λ (q : LibraryInfo × u.State). image q.0) (sym (ok-eq (lib, s) r e))
  image-segment_loop file (ph ∷ phs) lib s r e =
      let (q, first, rest) = and_then-ok (segment_step u file ph lib s) _ r e in
      image-segment_loop file phs q.0 q.1 r rest ∙ image-segment_step file ph lib s q first
