-- ===== src/Mac/Resolve/Quiet.antt =====
-- How the resolution of names leaves the loaders alone.
use anisette_kit.Prelude.{
  ℕ, ◌≡◌, refl, Bool, true, false, ◌==◌, if◌then◌else◌, Option, none, some, List, [], ◌∷◌, leb,
  length,
}
use anisette_kit.Prelude.Text.{Text, text_eq, find, codes}
use anisette_kit.Emulator.Vm.{Run, ok}
use anisette_kit.Emulator.Symbols.{Elf64Sym, convert, elf64_sym}
use anisette_kit.Mac.Platform.{Platform}
use anisette_kit.Mac.Process.{ElfLoader, Process, Action}
use anisette_kit.Mac.Process.Quiet.{
  Quiet, skeleton, Quiet-bind, Quiet-pure, Quiet-gets, Quiet-if, Quiet-loader_at, Quiet-load_bytes,
  Quiet-text_at,
}
use anisette_kit.Mac.Registry.{when, or_else, symbol_in, get_symbol, get_adi_symbol}
use anisette_kit.Mac.Resolve.{
  init_bionic_ctype, ctype_loop, system_symbol, replaced_symbol, lookup_system, replacement,
  lookup_hook, hooks, found_or, sibling_export, exported, exported_as, or_hook, resolve_name,
  resolve_undefined, resolve_sym, resolve_symbol,
}

module _ {p : Platform} where
  pub Quiet-when : (test : Bool) {m : Action p (Unit {0})} → Quiet m → Quiet (when test m)
  Quiet-when true q = q
  Quiet-when false q = Quiet-pure tt

  pub Quiet-or_else : (sym : ℕ) {next : Action p ℕ} → Quiet next → Quiet (or_else sym next)
  unfolding or_else
  Quiet-or_else sym q = Quiet-if (sym == 0) q (Quiet-pure sym)

  pub Quiet-get_symbol : (this : ℕ) (name : Text) → Quiet (get_symbol {p = p} this name)
  unfolding get_symbol
  Quiet-get_symbol this name = Quiet-bind (Quiet-loader_at this) λ l. Quiet-pure _

  Quiet-symbol_in : (l : Option ℕ) (name : Text) → Quiet (symbol_in {p = p} l name)
  unfolding symbol_in
  Quiet-symbol_in none name = Quiet-pure 0
  Quiet-symbol_in (some l) name = Quiet-get_symbol l name

  pub Quiet-get_adi_symbol :
      (primary secondary : Option ℕ) (key fallback : Text)
      → Quiet (get_adi_symbol {p = p} primary secondary key fallback)
  unfolding get_adi_symbol
  Quiet-get_adi_symbol none secondary key fallback = Quiet-pure 0
  Quiet-get_adi_symbol (some primary) secondary key fallback =
      Quiet-bind (Quiet-get_symbol primary key) λ a. Quiet-or_else a (
        Quiet-bind (Quiet-symbol_in secondary key) λ b. Quiet-or_else b (
          Quiet-bind (Quiet-get_symbol primary fallback)
            λ c. Quiet-or_else c (Quiet-symbol_in secondary fallback)))

  initialized :
      (test : Bool) (s s' : Process p) (a : Unit {0})
      → ◌≡◌ {A = Run (Unit {0} × Process p)}
          (if test
            then ok (tt, s)
            else ok (
              tt,
              record s { ctype_initialized = true; ctype_array = ctype_loop p 256 0 s.ctype_array },
            ))
          (ok (a, s'))
      → skeleton s ≡ skeleton s'
  initialized true s s' a e = let q : s ≡ s' = cc in rw q refl
  initialized false s s' a e =
      let q : record s { ctype_initialized = true; ctype_array = ctype_loop p 256 0 s.ctype_array }
          ≡ s' =
        cc in
      rw (← q) refl

  pub Quiet-init_bionic_ctype : Quiet (init_bionic_ctype {p = p})
  unfolding init_bionic_ctype
  Quiet-init_bionic_ctype = record { same = λ s s' a e. initialized s.ctype_initialized s s' a e }

  Quiet-replaced : (o : Option Text) → Quiet (replaced_symbol {p = p} o)
  unfolding replaced_symbol system_symbol
  Quiet-replaced none = Quiet-pure 0
  Quiet-replaced (some converted) = Quiet-gets _

  Quiet-lookup_system : (name : Text) → Quiet (lookup_system {p = p} name)
  unfolding lookup_system system_symbol
  Quiet-lookup_system name = Quiet-bind (Quiet-gets _) λ a. Quiet-or_else a (
      Quiet-bind (Quiet-replaced _)
        λ b. Quiet-or_else b (Quiet-bind (Quiet-replaced _) λ c. Quiet-or_else c (Quiet-pure _)))

  Quiet-replacement : (o : Option Text) (name : Text) → Quiet (replacement {p = p} o name)
  unfolding replacement
  Quiet-replacement none name = Quiet-lookup_system name
  Quiet-replacement (some hook) name =
      Quiet-bind (Quiet-when (text_eq hook (codes "g_ctype_ptr")) Quiet-init_bionic_ctype)
        λ a. Quiet-pure _

  pub Quiet-lookup_hook : (name : Text) → Quiet (lookup_hook {p = p} name)
  unfolding lookup_hook
  Quiet-lookup_hook name = Quiet-replacement (find name hooks) name

  Quiet-found_or :
      (o : Option ℕ) {next : Action p (Option ℕ)} → Quiet next → Quiet (found_or o next)
  unfolding found_or
  Quiet-found_or none q = q
  Quiet-found_or (some a) q = Quiet-pure _

  Quiet-sibling_export :
      (siblings : List ℕ) (name : Text) → Quiet (sibling_export {p = p} siblings name)
  unfolding sibling_export
  Quiet-sibling_export [] name = Quiet-pure _
  Quiet-sibling_export (sib ∷ siblings) name =
      Quiet-bind (Quiet-loader_at sib)
        λ l. Quiet-found_or (find name l.exports) (Quiet-sibling_export siblings name)

  Quiet-exported : (l : ElfLoader) (name : Text) → Quiet (exported {p = p} l name)
  unfolding exported
  Quiet-exported l name =
      Quiet-found_or (find name l.exports) (Quiet-sibling_export l.siblings name)

  Quiet-exported_as :
      (l : ElfLoader) (name converted : Text) → Quiet (exported_as {p = p} l name converted)
  unfolding exported_as
  Quiet-exported_as l name converted = Quiet-bind (Quiet-exported l name) λ o.
      Quiet-found_or o
        (Quiet-if (text_eq converted name) (Quiet-pure none) (Quiet-exported l converted))

  Quiet-or_hook : (o : Option ℕ) (name : Text) → Quiet (or_hook {p = p} o name)
  unfolding or_hook
  Quiet-or_hook (some a) name = Quiet-pure a
  Quiet-or_hook none name = Quiet-bind (Quiet-lookup_hook name) λ a. Quiet-or_else a (Quiet-pure _)

  Quiet-resolve_name : (l : ElfLoader) (name : Text) → Quiet (resolve_name {p = p} l name)
  unfolding resolve_name
  Quiet-resolve_name l name =
      Quiet-bind
        (Quiet-if (length name == 0) (Quiet-pure none) (Quiet-exported_as l name (convert name)))
        λ o. Quiet-or_hook o name

  Quiet-resolve_undefined :
      (rounds : ℕ) (l : ElfLoader) (sym : Elf64Sym) → Quiet (resolve_undefined {p = p} rounds l sym)
  unfolding resolve_undefined
  Quiet-resolve_undefined rounds l sym =
      Quiet-bind (Quiet-text_at rounds _) λ name. Quiet-resolve_name l name

  Quiet-resolve_sym :
      (rounds : ℕ) (l : ElfLoader) (sym : Elf64Sym) → Quiet (resolve_sym {p = p} rounds l sym)
  unfolding resolve_sym
  Quiet-resolve_sym rounds l sym =
      Quiet-if (sym.st_value == 0) (Quiet-resolve_undefined rounds l sym) (Quiet-pure _)

  pub Quiet-resolve_symbol :
      (rounds : ℕ) (l : ElfLoader) (sym_idx : ℕ) → Quiet (resolve_symbol {p = p} rounds l sym_idx)
  unfolding resolve_symbol
  Quiet-resolve_symbol rounds l sym_idx =
      Quiet-if (leb l.sym_cnt sym_idx) (Quiet-pure 0)
        (Quiet-bind (Quiet-load_bytes _ _) λ bytes. Quiet-resolve_sym rounds l (elf64_sym bytes))
