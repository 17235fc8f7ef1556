-- ===== src/Mac/Tables.antt =====
-- The dynamic table in `ElfLoader::load` of Native/Loader/elf_loader_host.cpp, the number of symbols,
-- and the exports.
pub mod Scan
use anisette_kit.Prelude.{
  ℕ, zero, suc, ◌+◌, ◌-◌, ◌*◌, ◌%◌, ◌^◌, Bool, true, false, ◌&&◌, List, [], ◌∷◌, ◌==◌,
  if◌then◌else◌, ltb, leb, bit_and, add64,
}
use anisette_kit.Prelude.Text.{Text, insert}
use anisette_kit.Emulator.Vm.{Run, ok, out_of_fuel, and_then}
use anisette_kit.Emulator.Elf.{Elf64Dyn, elf64_dyn, sizeof_dyn}
use anisette_kit.Emulator.Symbols.{Elf64Sym, elf64_sym, sizeof_sym}
use anisette_kit.Mac.Platform.{Platform}
use anisette_kit.Mac.Process.{Process, Action, pure, ◌>>=◌, ◌>>◌, load_bytes, load_number, text_at}

-- The locals that the loop over the table sets; `base` is the loader's.
pub record DynamicTables : Type 0 where
  pub base : ℕ
  pub symtab : ℕ
  pub strtab : ℕ
  pub rela : ℕ
  pub relasz : ℕ
  pub rel : ℕ
  pub relsz : ℕ
  pub jmprel : ℕ
  pub pltrelsz : ℕ
  pub pltrel_type : ℕ
  pub hash : ℕ
  pub gnu_hash : ℕ

abbrev pub no_tables : (base : ℕ) → DynamicTables
no_tables base = record {
  base = base;
  symtab = 0;
  strtab = 0;
  rela = 0;
  relasz = 0;
  rel = 0;
  relsz = 0;
  jmprel = 0;
  pltrelsz = 0;
  pltrel_type = 0;
  hash = 0;
  gnu_hash = 0;
}

-- The `switch`; the tags without an effect are only printed or counted for printing.
unfoldable pub set_table : (tag val ptr : ℕ) → DynamicTables → DynamicTables
set_table tag val ptr t =
    if tag == 6
    then record t { symtab = ptr }
    else if tag == 5
    then record t { strtab = ptr }
    else if tag == 7
    then record t { rela = ptr }
    else if tag == 8
    then record t { relasz = val }
    else if tag == 17
    then record t { rel = ptr }
    else if tag == 18
    then record t { relsz = val }
    else if tag == 23
    then record t { jmprel = ptr }
    else if tag == 2
    then record t { pltrelsz = val }
    else if tag == 20
    then record t { pltrel_type = val }
    else if tag == 4
    then record t { hash = ptr }
    else if tag == 0x6fff_fef5
    then record t { gnu_hash = ptr }
    else t

abbrev pub inc32 : ℕ → ℕ
inc32 n = (n + 1) % 2 ^ 32

-- The start of the buckets, behind the four numbers and the bloom filter.
abbrev pub buckets_at : (gnu_hash bloom_size : ℕ) → ℕ
buckets_at gnu_hash bloom_size = add64 gnu_hash ((4 + bloom_size * 2 % 2 ^ 32) * 4)

abbrev pub chains_at : (buckets nbuckets : ℕ) → ℕ
chains_at buckets nbuckets = add64 buckets (nbuckets * 4)

module _ {p : Platform} where
  -- A round of the loop, and the rounds behind it unless the entry is DT_NULL.
  unfoldable pub table_round :
      Elf64Dyn
      → DynamicTables
      → (next : DynamicTables → Action p DynamicTables) → Action p DynamicTables
  table_round d t next =
      let rest = next (set_table d.d_tag d.d_val (add64 t.base d.d_val) t) in
      if d.d_tag == 0 then pure t else rest

  unfoldable pub tables_loop : (rounds : ℕ) → (d : ℕ) → DynamicTables → Action p DynamicTables
  tables_loop zero d t = λ s. out_of_fuel
  tables_loop (suc rounds) d t = do
    bytes ← load_bytes d sizeof_dyn
    table_round (elf64_dyn bytes) t λ t'. tables_loop rounds (add64 d sizeof_dyn) t'

  -- An element of an array of `uint32_t`.
  abbrev pub element : (array index : ℕ) → Action p ℕ
  element array index = load_number (add64 array (index * 4)) 4

  -- The loop over `left` buckets from `b` on.
  unfoldable pub max_bucket : (left : ℕ) → (buckets b max_idx : ℕ) → Action p ℕ
  max_bucket zero buckets b max_idx = pure max_idx
  max_bucket (suc left) buckets b max_idx = do
    bucket ← element buckets b
    max_bucket left buckets (b + 1) (if ltb max_idx bucket then bucket else max_idx)

  unfoldable pub chain_round :
      (chain chain_idx max_idx : ℕ) → (next : (chain_idx max_idx : ℕ) → Action p ℕ) → Action p ℕ
  chain_round chain chain_idx max_idx next =
      let rest = next (inc32 chain_idx) (inc32 max_idx) in
      if bit_and chain 1 == 0 then rest else pure max_idx

  -- The end of the last chain.
  unfoldable pub chain_end : (rounds : ℕ) → (chains chain_idx max_idx : ℕ) → Action p ℕ
  chain_end zero chains chain_idx max_idx = λ s. out_of_fuel
  chain_end (suc rounds) chains chain_idx max_idx = do
    chain ← element chains chain_idx
    chain_round chain chain_idx max_idx (chain_end rounds chains)

  unfoldable pub gnu_count : (rounds : ℕ) → (gnu_hash : ℕ) → Action p ℕ
  gnu_count rounds gnu_hash = do
    nbuckets ← element gnu_hash 0
    symoffset ← element gnu_hash 1
    bloom_size ← element gnu_hash 2
    let buckets : ℕ = buckets_at gnu_hash bloom_size
    max_idx ← max_bucket nbuckets buckets 0 symoffset
    max_idx ←
        if leb symoffset max_idx
        then chain_end rounds (chains_at buckets nbuckets) (max_idx - symoffset) max_idx
        else pure max_idx
    pure (inc32 max_idx)

  -- The scan without a hash table, with `left` symbols before it stops at more than 10000.
  unfoldable pub scan_round : Elf64Sym → (sym_count : ℕ) → (next : Action p ℕ) → Action p ℕ
  scan_round sym sym_count next =
      if (sym.st_name == 0) && ((sym.st_value == 0) && ltb 0 sym_count)
      then pure sym_count
      else next

  unfoldable pub scan_symbols : (left : ℕ) → (symtab sym_count : ℕ) → Action p ℕ
  scan_symbols zero symtab sym_count = pure sym_count
  scan_symbols (suc left) symtab sym_count = do
    bytes ← load_bytes (add64 symtab (sym_count * sizeof_sym)) sizeof_sym
    scan_round (elf64_sym bytes) sym_count (scan_symbols left symtab (sym_count + 1))

  unfoldable pub count_symbols : (rounds : ℕ) → DynamicTables → Action p ℕ
  count_symbols rounds t =
      if t.hash == 0
      then if t.gnu_hash == 0 then scan_symbols 10001 t.symtab 0 else gnu_count rounds t.gnu_hash
      else element t.hash 1
