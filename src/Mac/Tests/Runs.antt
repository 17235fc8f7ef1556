-- ===== src/Mac/Tests/Runs.antt =====
-- Calls on the small system.
use anisette_kit.Mac.Process.{◌>>=◌, store_bytes, load_number, text_from, text_at, change_loader}
use anisette_kit.Mac.Load.{
  has_load, range_step, range_loop, image_size, dynamic_vaddr, file_part, after_slash, file_name,
  copy_segment, copy_segments, register_loader, keep_tables, load_symbols, load_tables,
  load_dynamic, load_mapped, load_image, load_elf, load_path, load,
}
use anisette_kit.Mac.Resolve.{
  ctype_mask, ctype_loop, store_at, init_bionic_ctype, system_symbol, replaced_symbol,
  lookup_system, replacement, lookup_hook, found_or, sibling_export, exported, exported_as, or_hook,
  resolve_name, resolve_undefined, resolve_sym, resolve_symbol,
}
use anisette_kit.Mac.Setup.{
  checked_call, load_ssc, load_adi, load_both, need_loaders, tell_path, tell_id, returned,
  setup_paths, setup_loaders, load_adi_and_setup,
}
use anisette_kit.Mac.Tables.{
  set_table, table_round, tables_loop, max_bucket, chain_round, chain_end, gnu_count, scan_round,
  scan_symbols, count_symbols,
}
use anisette_kit.Mac.Entries.{
  behind_setup, through, with_adi, get_anisette_headers_c, start_provision_c, end_provision_c,
  cancel_provision_c,
}
use anisette_kit.Mac.Steps.{continue, require_or}
use anisette_kit.Mac.Relocate.{
  elf64_rel, segment_pages, is_code, apply_rela_entry, rela_loop, apply_rel_entry, rel_loop,
  apply_rela, apply_rel, apply_jmprel, protect_pages, protect_segments, relocate_loader, relocate,
}
use anisette_kit.Mac.Globals.{
  delete_pointer, delete_ssc, delete_adi, delete_both, global_symbol, connect,
}
use anisette_kit.Mac.Registry.{
  text_lt, insert_ordered, erase_loader, contains, new_loader, delete_loader, add_sibling,
  get_symbol, symbol_in, or_else, get_adi_symbol,
}
use anisette_kit.Mac.Bodies.{
  routing_json, needed_symbol, call_or_return, out_data, bytes_at, write_adi_pb, headers_c, start_c,
  generated, end_c, cancel_c,
}
use anisette_kit.Mac.Exports.{
  export_sym, export_at, export_all, after_chain, export_chain, export_bucket, export_buckets,
  export_gnu, collect_exports,
}
use anisette_kit.Emulator.Elf.{elf64_ehdr, elf64_phdr, elf64_dyn, slice, headers_at}
use anisette_kit.Emulator.Symbols.{elf64_sym, has_prefix, replace_first, convert}
use anisette_kit.Emulator.Relocation.{elf64_rela}
use anisette_kit.Prelude.Text.{find, insert, text_eq}
use anisette_kit.Emulator.Vm.{find_key, insert_key, erase_key}
use anisette_kit.Core.Setup.{back, lib_path}
use anisette_kit.Prelude.Int.{int_eq}
use anisette_kit.Prelude.{le_bytes, le_value}
use anisette_kit.Base.Base64.{base64_encode}
use anisette_kit.Base.Errors.{value}
use anisette_kit.Prelude.{le_bytes, ℕ, ◌≡◌, refl, true, some, [], ◌∷◌, length, replicate}
use anisette_kit.Prelude.Text.{codes}
use anisette_kit.Emulator.Vm.{Run, ok}
use anisette_kit.Mac.Process.{Process, fresh_process}
use anisette_kit.Mac.Entries.Calls.{NativeCall, headers_call, serve_native}
use anisette_kit.Mac.Tests.System.{small, library, empty_memory}
use anisette_kit.Mac.Registry.{new_loader}
use anisette_kit.Mac.Load.{load}
use anisette_kit.Emulator.Vm.{and_then, find_key}
use anisette_kit.Prelude.{Bool}
use anisette_kit.Core.Bodies.{Response, answer}
use anisette_kit.Prelude.Int.{ℤ, pos}

library-length : length library ≡ 0x19c
unfolding le_bytes
library-length = refl

abbrev pub begin_process : Process small
begin_process = fresh_process small empty_memory

abbrev pub first : Run (ℕ × Process small)
first = new_loader begin_process

abbrev pub loaded_first : Run (Bool × Process small)
loaded_first = and_then first λ r. load 20 r.0 (codes "/lib/a.so") r.1

abbrev pub headers : NativeCall
headers =
    headers_call (some (codes "/lib")) (some (codes "/prov")) (some (replicate 16 7))
      (some (1 ∷ [])) 1 true

abbrev pub called : Run (Response × Process small)
called = serve_native 20 headers begin_process

abbrev pub code_of : Run (Response × Process small) → ℤ
code_of (ok (r, s)) = r.code
code_of other = pos 99

abbrev pub state_of : {A : Type 0} → Run (A × Process small) → Process small
state_of (ok (r, s)) = s
state_of other = begin_process

-- The call answers with an object of two empty texts and the routing info.
pub called_ends :
    serve_native 20 headers begin_process
    ≡ ok (answer (pos 0) (routing_json [] []), state_of called)
unfolding ◌>>=◌ store_bytes load_number text_from text_at change_loader has_load range_step
    range_loop image_size dynamic_vaddr file_part after_slash file_name copy_segment copy_segments
    register_loader keep_tables load_symbols load_tables load_dynamic load_mapped load_image
    load_elf load_path load ctype_mask ctype_loop store_at init_bionic_ctype system_symbol
    replaced_symbol lookup_system replacement lookup_hook found_or sibling_export exported
    exported_as or_hook resolve_name resolve_undefined resolve_sym resolve_symbol checked_call
    load_ssc load_adi load_both need_loaders tell_path tell_id returned setup_paths setup_loaders
    load_adi_and_setup set_table table_round tables_loop max_bucket chain_round chain_end gnu_count
    scan_round scan_symbols count_symbols behind_setup through with_adi get_anisette_headers_c
    start_provision_c end_provision_c cancel_provision_c continue require_or elf64_rel segment_pages
    is_code apply_rela_entry rela_loop apply_rel_entry rel_loop apply_rela apply_rel apply_jmprel
    protect_pages protect_segments relocate_loader relocate delete_pointer delete_ssc delete_adi
    delete_both global_symbol connect text_lt insert_ordered erase_loader contains new_loader
    delete_loader add_sibling get_symbol symbol_in or_else get_adi_symbol routing_json needed_symbol
    call_or_return out_data bytes_at write_adi_pb headers_c start_c generated end_c cancel_c
    export_sym export_at export_all after_chain export_chain export_bucket export_buckets export_gnu
    collect_exports elf64_ehdr elf64_phdr elf64_dyn slice headers_at elf64_sym has_prefix
    replace_first convert elf64_rela find insert text_eq find_key insert_key erase_key back lib_path
    int_eq le_bytes le_value base64_encode value serve_native
called_ends = refl

-- The first loader takes the file under its path.
pub loaded_ends : load 20 1 (codes "/lib/a.so") (state_of first) ≡ ok (true, state_of loaded_first)
unfolding ◌>>=◌ store_bytes load_number text_from text_at change_loader has_load range_step
    range_loop image_size dynamic_vaddr file_part after_slash file_name copy_segment copy_segments
    register_loader keep_tables load_symbols load_tables load_dynamic load_mapped load_image
    load_elf load_path load ctype_mask ctype_loop store_at init_bionic_ctype system_symbol
    replaced_symbol lookup_system replacement lookup_hook found_or sibling_export exported
    exported_as or_hook resolve_name resolve_undefined resolve_sym resolve_symbol set_table
    table_round tables_loop count_symbols segment_pages is_code apply_rela_entry rela_loop
    apply_rel_entry rel_loop apply_rela apply_rel apply_jmprel protect_pages protect_segments
    relocate_loader relocate text_lt insert_ordered new_loader or_else export_sym export_at
    export_all collect_exports elf64_ehdr elf64_phdr elf64_dyn slice headers_at elf64_sym has_prefix
    replace_first convert elf64_rela find insert text_eq find_key insert_key le_bytes le_value
loaded_ends = refl
