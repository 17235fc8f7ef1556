-- ===== src/Mac/Exports.antt =====
-- The exports that `ElfLoader::load` of Native/Loader/elf_loader_host.cpp collects.
pub mod Quiet
use anisette_kit.Prelude.{
  ℕ, zero, suc, ◌+◌, ◌*◌, ◌%◌, ◌^◌, Bool, List, [], ◌∷◌, ◌==◌, if◌then◌else◌, bit_and, add64, sub64,
}
use anisette_kit.Prelude.Text.{Text, insert}
use anisette_kit.Emulator.Vm.{Run, ok, out_of_fuel, and_then}
use anisette_kit.Emulator.Symbols.{Elf64Sym, elf64_sym, sizeof_sym}
use anisette_kit.Mac.Platform.{Platform}
use anisette_kit.Mac.Process.{Process, Action, pure, ◌>>=◌, ◌>>◌, load_bytes, load_number, text_at}
use anisette_kit.Mac.Tables.{DynamicTables, element, inc32, buckets_at, chains_at}

-- The type of `exports`.
abbrev pub Exports : Type 0
Exports = List (Text × ℕ)

-- `idx - symoffset` wraps around in 32 bits.
abbrev pub chain_index : (idx symoffset : ℕ) → ℕ
chain_index idx symoffset = sub64 idx symoffset % 2 ^ 32

module _ {p : Platform} where
  unfoldable pub export_sym : (rounds : ℕ) → DynamicTables → Elf64Sym → Exports → Action p Exports
  export_sym rounds t sym exports = if sym.st_value == 0 then pure exports else (do
    name ← text_at rounds (add64 t.strtab sym.st_name)
    pure (insert name (add64 t.base sym.st_value) exports))

  unfoldable pub export_at : (rounds : ℕ) → DynamicTables → (idx : ℕ) → Exports → Action p Exports
  export_at rounds t idx exports = do
    bytes ← load_bytes (add64 t.symtab (idx * sizeof_sym)) sizeof_sym
    export_sym rounds t (elf64_sym bytes) exports

  -- The loop without a GNU hash table, over `left` symbols from `i` on.
  unfoldable pub export_all :
      (left : ℕ) → (rounds : ℕ) → DynamicTables → (i : ℕ) → Exports → Action p Exports
  export_all zero rounds t i exports = pure exports
  export_all (suc left) rounds t i exports = do
    exports ← export_at rounds t i exports
    export_all left rounds t (i + 1) exports

  unfoldable pub after_chain : (chain : ℕ) → (next : Action p Exports) → Exports → Action p Exports
  after_chain chain next exports = if bit_and chain 1 == 0 then next else pure exports

  -- The symbols of a bucket.
  unfoldable pub export_chain :
      (rounds : ℕ) → DynamicTables → (chains idx chain_idx : ℕ) → Exports → Action p Exports
  export_chain zero t chains idx chain_idx exports = λ s. out_of_fuel
  export_chain (suc rounds) t chains idx chain_idx exports = do
    exports ← export_at (suc rounds) t idx exports
    chain ← element chains chain_idx
    after_chain chain (export_chain rounds t chains (inc32 idx) (inc32 chain_idx) exports) exports

  unfoldable pub export_bucket :
      (rounds : ℕ) → DynamicTables → (symoffset chains idx : ℕ) → Exports → Action p Exports
  export_bucket rounds t symoffset chains idx exports =
      if idx == 0
      then pure exports
      else export_chain rounds t chains idx (chain_index idx symoffset) exports

  unfoldable pub export_buckets :
      (left : ℕ)
      → (rounds : ℕ) → DynamicTables
      → (symoffset buckets chains b : ℕ) → Exports
      → Action p Exports
  export_buckets zero rounds t symoffset buckets chains b exports = pure exports
  export_buckets (suc left) rounds t symoffset buckets chains b exports = do
    idx ← element buckets b
    exports ← export_bucket rounds t symoffset chains idx exports
    export_buckets left rounds t symoffset buckets chains (b + 1) exports

  unfoldable pub export_gnu : (rounds : ℕ) → DynamicTables → Exports → Action p Exports
  export_gnu rounds t exports = do
    nbuckets ← element t.gnu_hash 0
    symoffset ← element t.gnu_hash 1
    bloom_size ← element t.gnu_hash 2
    let buckets : ℕ = buckets_at t.gnu_hash bloom_size
    export_buckets nbuckets rounds t symoffset buckets (chains_at buckets nbuckets) 0 exports

  unfoldable pub collect_exports :
      (rounds : ℕ) → DynamicTables → (sym_count : ℕ) → Exports → Action p Exports
  collect_exports rounds t sym_count exports =
      if t.gnu_hash == 0
      then export_all sym_count rounds t 0 exports
      else export_gnu rounds t exports
