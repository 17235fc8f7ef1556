-- ===== src/Mac/Tables/Scan.antt =====
-- How many symbols `ElfLoader::load` counts without a hash table.
use anisette_kit.Prelude.{ℕ, ◌*◌, ◌≤◌, ◌<◌, ◌≡◌, Bool, true, false, ◌&&◌, some, List, ◌==◌, add64}
use anisette_kit.Emulator.Symbols.{elf64_sym, sizeof_sym}
use anisette_kit.Mac.Platform.{Platform}
use anisette_kit.Mac.Process.{Process}

-- Whether a symbol has neither a name nor a value.
abbrev pub is_empty : List ℕ → Bool
is_empty bytes = ((elf64_sym bytes).st_name == 0) && ((elf64_sym bytes).st_value == 0)

-- The bytes of the symbols at `symtab`, by their indices.
abbrev pub Readable :
    {p : Platform} → Process p → (symtab : ℕ) → (symbols : ℕ → List ℕ) → (count : ℕ) → Type 0
Readable {p} s symtab symbols count =
    (i : ℕ)
    → i < count
    → p.read_mem s.world (add64 symtab (i * sizeof_sym)) sizeof_sym ≡ some (symbols i)

-- The number of symbols before the first empty one that is not the first, or the limit.
pub record IsCount (symbols : ℕ → List ℕ) (from limit count : ℕ) : Type 0 where
  pub at_least : from ≤ count
  pub at_most : count ≤ limit
  pub before : (i : ℕ) → from ≤ i → i < count → 0 < i → is_empty (symbols i) ≡ false
  pub stop : count < limit → is_empty (symbols count) ≡ true
