-- ===== src/Mac/Exports/Quiet.antt =====
-- How reading the dynamic table and the symbols leaves the loaders alone.
use anisette_kit.Prelude.{ℕ, zero, suc, ◌&&◌, ◌==◌, ltb, leb, bit_and}
use anisette_kit.Emulator.Elf.{elf64_dyn}
use anisette_kit.Emulator.Symbols.{elf64_sym}
use anisette_kit.Mac.Platform.{Platform}
use anisette_kit.Mac.Process.Quiet.{
  Quiet, Quiet-bind, Quiet-pure, Quiet-if, Quiet-fuel, Quiet-load_bytes, Quiet-load_number,
  Quiet-text_at,
}
use anisette_kit.Mac.Tables.{
  DynamicTables, tables_loop, table_round, max_bucket, chain_round, chain_end, gnu_count,
  scan_round, scan_symbols, count_symbols,
}
use anisette_kit.Mac.Exports.{
  Exports, export_sym, export_at, export_all, after_chain, export_chain, export_bucket,
  export_buckets, export_gnu, collect_exports,
}

module _ {p : Platform} where
  pub Quiet-tables_loop :
      (rounds d : ℕ) (t : DynamicTables) → Quiet (tables_loop {p = p} rounds d t)
  unfolding tables_loop table_round
  Quiet-tables_loop zero d t = Quiet-fuel
  Quiet-tables_loop (suc rounds) d t =
      Quiet-bind (Quiet-load_bytes _ _) λ bytes.
        Quiet-if ((elf64_dyn bytes).d_tag == 0) (Quiet-pure t) (Quiet-tables_loop rounds _ _)

  Quiet-max_bucket : (left buckets b m : ℕ) → Quiet (max_bucket {p = p} left buckets b m)
  unfolding max_bucket
  Quiet-max_bucket zero buckets b m = Quiet-pure m
  Quiet-max_bucket (suc left) buckets b m =
      Quiet-bind (Quiet-load_number _ _) λ bucket. Quiet-max_bucket left buckets _ _

  Quiet-chain_end : (rounds chains i m : ℕ) → Quiet (chain_end {p = p} rounds chains i m)
  unfolding chain_end chain_round
  Quiet-chain_end zero chains i m = Quiet-fuel
  Quiet-chain_end (suc rounds) chains i m =
      Quiet-bind (Quiet-load_number _ _)
        λ chain. Quiet-if (bit_and chain 1 == 0) (Quiet-chain_end rounds chains _ _) (Quiet-pure m)

  Quiet-gnu_count : (rounds gnu_hash : ℕ) → Quiet (gnu_count {p = p} rounds gnu_hash)
  unfolding gnu_count
  Quiet-gnu_count rounds gnu_hash = Quiet-bind (Quiet-load_number _ _) λ nbuckets.
      Quiet-bind (Quiet-load_number _ _) λ symoffset.
        Quiet-bind (Quiet-load_number _ _) λ bloom_size.
          Quiet-bind (Quiet-max_bucket nbuckets _ 0 symoffset) λ m.
            Quiet-bind (Quiet-if (leb symoffset m) (Quiet-chain_end rounds _ _ m) (Quiet-pure m))
              λ m'. Quiet-pure _

  Quiet-scan_symbols : (left symtab n : ℕ) → Quiet (scan_symbols {p = p} left symtab n)
  unfolding scan_symbols scan_round
  Quiet-scan_symbols zero symtab n = Quiet-pure n
  Quiet-scan_symbols (suc left) symtab n = Quiet-bind (Quiet-load_bytes _ _) λ bytes.
      Quiet-if (((elf64_sym bytes).st_name == 0) && (((elf64_sym bytes).st_value == 0) && ltb 0 n))
        (Quiet-pure n) (Quiet-scan_symbols left symtab _)

  pub Quiet-count_symbols :
      (rounds : ℕ) (t : DynamicTables) → Quiet (count_symbols {p = p} rounds t)
  unfolding count_symbols
  Quiet-count_symbols rounds t =
      Quiet-if (t.hash == 0)
        (Quiet-if (t.gnu_hash == 0) (Quiet-scan_symbols 10001 t.symtab 0)
          (Quiet-gnu_count rounds t.gnu_hash))
        (Quiet-load_number _ _)

  Quiet-export_at :
      (rounds : ℕ) (t : DynamicTables) (idx : ℕ) (m : Exports)
      → Quiet (export_at {p = p} rounds t idx m)
  unfolding export_at export_sym
  Quiet-export_at rounds t idx m = Quiet-bind (Quiet-load_bytes _ _) λ bytes.
      Quiet-if ((elf64_sym bytes).st_value == 0) (Quiet-pure m)
        (Quiet-bind (Quiet-text_at rounds _) λ name. Quiet-pure _)

  Quiet-export_all :
      (left rounds : ℕ) (t : DynamicTables) (i : ℕ) (m : Exports)
      → Quiet (export_all {p = p} left rounds t i m)
  unfolding export_all
  Quiet-export_all zero rounds t i m = Quiet-pure m
  Quiet-export_all (suc left) rounds t i m =
      Quiet-bind (Quiet-export_at rounds t i m) λ m'. Quiet-export_all left rounds t _ m'

  Quiet-export_chain :
      (rounds : ℕ) (t : DynamicTables) (chains idx i : ℕ) (m : Exports)
      → Quiet (export_chain {p = p} rounds t chains idx i m)
  unfolding export_chain after_chain
  Quiet-export_chain zero t chains idx i m = Quiet-fuel
  Quiet-export_chain (suc rounds) t chains idx i m =
      Quiet-bind (Quiet-export_at (suc rounds) t idx m) λ m'.
        Quiet-bind (Quiet-load_number _ _) λ chain.
          Quiet-if (bit_and chain 1 == 0) (Quiet-export_chain rounds t chains _ _ m')
            (Quiet-pure m')

  Quiet-export_buckets :
      (left rounds : ℕ) (t : DynamicTables) (symoffset buckets chains b : ℕ) (m : Exports)
      → Quiet (export_buckets {p = p} left rounds t symoffset buckets chains b m)
  unfolding export_buckets export_bucket
  Quiet-export_buckets zero rounds t symoffset buckets chains b m = Quiet-pure m
  Quiet-export_buckets (suc left) rounds t symoffset buckets chains b m =
      Quiet-bind (Quiet-load_number _ _) λ idx.
        Quiet-bind (Quiet-if (idx == 0) (Quiet-pure m) (Quiet-export_chain rounds t chains idx _ m))
          λ m'. Quiet-export_buckets left rounds t symoffset buckets chains _ m'

  pub Quiet-collect_exports :
      (rounds : ℕ) (t : DynamicTables) (sym_count : ℕ) (m : Exports)
      → Quiet (collect_exports {p = p} rounds t sym_count m)
  unfolding collect_exports export_gnu
  Quiet-collect_exports rounds t sym_count m =
      Quiet-if (t.gnu_hash == 0) (Quiet-export_all sym_count rounds t 0 m) (
        Quiet-bind (Quiet-load_number _ _) λ nbuckets.
          Quiet-bind (Quiet-load_number _ _) λ symoffset.
            Quiet-bind (Quiet-load_number _ _)
              λ bloom_size. Quiet-export_buckets nbuckets rounds t symoffset _ _ 0 m)
