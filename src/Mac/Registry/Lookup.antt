-- ===== src/Mac/Registry/Lookup.antt =====
-- The order in which `get_adi_symbol` looks for a function.
use anisette_kit.Prelude.{
  arith, ℕ, ◌≡◌, refl, some, List, [], ◌∷◌, ◌==◌, if◌then◌else◌, Bool-cases, inl, inr,
}
use anisette_kit.Prelude.Text.{Text, find}
use anisette_kit.Emulator.Vm.{ok, find_key}
use anisette_kit.Mac.Platform.{Platform}
use anisette_kit.Mac.Process.{Process, ElfLoader, Action, ◌>>=◌}
use anisette_kit.Mac.Registry.{or_null, or_else, get_symbol, symbol_in, get_adi_symbol}

-- The first address that is not null.
abbrev pub first_address : List ℕ → ℕ
first_address [] = 0
first_address (a ∷ rest) = if a == 0 then first_address rest else a

-- The export of a name, null if there is none.
abbrev pub export_address : ElfLoader → Text → ℕ
export_address l name = or_null (find name l.exports)

module _ {p : Platform} where
  or_else_first :
      (a : ℕ) (next : Action p ℕ) (v : ℕ) (s : Process p)
      → next s ≡ ok (v, s)
      → or_else a next s ≡ ok (if a == 0 then v else a, s)
  unfolding or_else
  or_else_first a next v s e = elim (Bool-cases (a == 0)) [
    | inl zero_sym ↦ rw zero_sym e
    | inr other ↦ rw other refl
  ]

  get_symbol-export :
      (l : ℕ) (name : Text) (s : Process p) (loader : ElfLoader)
      → find_key l s.loaders ≡ some loader
      → get_symbol l name s ≡ ok (export_address loader name, s)
  unfolding get_symbol ◌>>=◌
  get_symbol-export l name s loader e = rw e refl

  then_first :
      (m next : Action p ℕ) (a v : ℕ) (s : Process p)
      → m s ≡ ok (a, s)
      → next s ≡ ok (v, s)
      → (m >>= λ sym. or_else sym next) s ≡ ok (if a == 0 then v else a, s)
  unfolding ◌>>=◌
  then_first m next a v s e f = rw e (or_else_first a next v s f)

  last_first :
      (a : ℕ) (m : Action p ℕ) (s : Process p)
      → m s ≡ ok (a, s)
      → m s ≡ ok (first_address (a ∷ []), s)
  last_first a m s e = let same : first_address (a ∷ []) ≡ a = ground arith in rw same e

  -- For two loaders, the look-up of a function changes nothing and gives the first address that is
  -- not null among the exports of the key in both and then of the readable name in both, the first
  -- loader before the second each time, or null.
  pub get_adi_symbol_lem :
      (i j : ℕ) (primary secondary : ElfLoader) (key fallback : Text) (s : Process p)
      → find_key i s.loaders ≡ some primary
      → find_key j s.loaders ≡ some secondary
      → get_adi_symbol (some i) (some j) key fallback s
        ≡ ok (
          first_address (
              export_address primary key
              ∷ export_address secondary key
              ∷ export_address primary fallback
              ∷ export_address secondary fallback
              ∷ []),
          s,
        )
  unfolding get_adi_symbol symbol_in
  get_adi_symbol_lem i j primary secondary key fallback s e f =
      then_first _ _ _ _ s (get_symbol-export i key s primary e) (
        then_first _ _ _ _ s (get_symbol-export j key s secondary f) (
          then_first _ _ _ _ s (get_symbol-export i fallback s primary e)
            (last_first _ (get_symbol j fallback) s (get_symbol-export j fallback s secondary f))))
