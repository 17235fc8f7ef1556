-- ===== src/Emulator/Symbols.antt =====
-- `vm_resolve_symbol` of Native/Loader/elf_loader_emulator.cpp.
use anisette_kit.Prelude.{
  ℕ, ◌*◌, ◌%◌, sym, Bool, true, false, not, ◌&&◌, ◌||◌, Option, none, some, List, [], ◌∷◌, ◌++◌,
  ltb, ◌==◌, if◌then◌else◌, length, take, drop, replicate, add64, sub64, le_value,
}
use anisette_kit.Prelude.Text.{Text, codes, text_eq, find, insert}
use anisette_kit.Emulator.Host.{Host}
use anisette_kit.Emulator.Unicorn.{Unicorn}
use anisette_kit.Emulator.Vm.{
  LibraryInfo, ok, Command, pure, ◌>>=◌, ◌>>◌, mem_read, mem_write, heap_alloc,
}
use mathlib.Core.Option
use anisette_kit.Emulator.Imports.{find_symbol, register_import}
use anisette_kit.Emulator.Memory.{buffer}

-- `Elf64_Sym`, without the fields that the code does not read.
pub record Elf64Sym : Type 0 where
  pub st_name : ℕ
  pub st_info : ℕ
  pub st_shndx : ℕ
  pub st_value : ℕ

abbrev pub sizeof_sym : ℕ
sizeof_sym = 24

-- `count` bytes of a structure from `offset` on, as a number.
abbrev pub field : (offset count : ℕ) → List ℕ → ℕ
field offset count bytes = le_value (take count (drop offset bytes))

unfoldable pub elf64_sym : List ℕ → Elf64Sym
elf64_sym bytes = record {
  st_name = field 0 4 bytes;
  st_info = field 4 1 bytes;
  st_shndx = field 6 2 bytes;
  st_value = field 8 8 bytes;
}

-- `std::string` from a character array: up to its first zero.
unfoldable pub c_text : List ℕ → Text
c_text [] = []
c_text (c ∷ cs) = let rest = c_text cs in if c == 0 then [] else c ∷ rest

-- `s.rfind(prefix, 0) == 0`
unfoldable pub has_prefix : (prefix s : Text) → Bool
has_prefix [] s = true
has_prefix (c ∷ prefix) [] = false
has_prefix (c ∷ prefix) (d ∷ s) = (c == d) && has_prefix prefix s

-- The first occurrence of `old` replaced; `none` if there is none.
unfoldable pub replace_first : (old new s : Text) → Option Text
replace_first old new [] = none
replace_first old new (c ∷ s) =
    let behind = replace_first old new s in
    if has_prefix old (c ∷ s)
    then some (new ++ drop (length old) (c ∷ s))
    else Option.map (λ t. c ∷ t) behind

-- The name without the inline namespace of the NDK.
unfoldable pub convert : Text → Text
convert sym_name = elim (replace_first (codes "6__ndk1") (codes "3__1") sym_name) [
  | some converted ↦ converted
  | none ↦ elim (replace_first (codes "__ndk1") (codes "__1") sym_name) [
    | some converted ↦ converted
    | none ↦ sym_name
  ]
]

abbrev pub data_prefixes : List Text
data_prefixes =
    codes "_ZTV" ∷ codes "_ZTI" ∷ codes "_ZTS" ∷ codes "kCF" ∷ codes "kAudio" ∷ codes "OBJC_" ∷ []

abbrev pub data_names : List Text
data_names =
    codes "__CFConstantStringClassReference"
    ∷ codes "__sF"
    ∷ codes "environ"
    ∷ codes "__stack_chk_guard"
    ∷ codes "__ctype_"
    ∷ []

abbrev pub any : {A : Type 0} → (A → Bool) → List A → Bool
any test [] = false
any test (a ∷ rest) = test a || any test rest

unfoldable pub is_data : (sym_type : ℕ) → (sym_name : Text) → Bool
is_data sym_type sym_name =
    (sym_type == 1)
    || any (λ p. has_prefix p sym_name) data_prefixes
    || any (λ n. text_eq sym_name n) data_names

-- An address of the library's file, where the guest has it.
abbrev pub mapped_at : LibraryInfo → ℕ → ℕ
mapped_at lib value = add64 lib.base_address (sub64 value lib.min_vaddr)

abbrev pub first_some : Option ℕ → Option ℕ → Option ℕ
first_some (some a) o = some a
first_some none o = o

-- The symbol in the library itself, in any library, or in any under its converted name.
unfoldable pub lookup_symbol : LibraryInfo → List LibraryInfo → Text → Option ℕ
lookup_symbol lib libs sym_name = first_some (find sym_name lib.symbols) (
    first_some (find_symbol sym_name libs)
      (if text_eq (convert sym_name) sym_name then none else find_symbol (convert sym_name) libs))

module _ {u : Unicorn} {h : Host} where
  -- A block of zeros that stands for data which no library has.
  unfoldable pub new_dummy : Text → Command u h ℕ
  new_dummy sym_name = do
    dummy ← heap_alloc 256
    mem_write dummy (replicate 256 0)
    (λ vm. ok (dummy, record vm { imported_symbols = insert sym_name dummy vm.imported_symbols }))

  unfoldable pub known_or_dummy : Option ℕ → Text → Command u h ℕ
  known_or_dummy (some address) sym_name = pure address
  known_or_dummy none sym_name = new_dummy sym_name

  unfoldable pub import_data : Text → Command u h ℕ
  import_data sym_name vm = known_or_dummy (find sym_name vm.imported_symbols) sym_name vm

  -- The address for a name that no library may have.
  unfoldable pub found_or_import : Option ℕ → (sym_type : ℕ) → Text → Command u h ℕ
  found_or_import (some address) sym_type sym_name = pure address
  found_or_import none sym_type sym_name =
      if is_data sym_type sym_name then import_data sym_name else register_import sym_name

  unfoldable pub resolve_named : LibraryInfo → Elf64Sym → Text → Command u h ℕ
  resolve_named lib sym sym_name vm =
      if length sym_name == 0
      then ok (if sym.st_value == 0 then lib.base_address else mapped_at lib sym.st_value, vm)
      else if not (sym.st_value == 0) && not (sym.st_shndx == 0)
      then ok (mapped_at lib sym.st_value, vm)
      else found_or_import (lookup_symbol lib vm.loaded_libraries sym_name) (sym.st_info % 16)
          sym_name vm

  unfoldable pub symbol_name : LibraryInfo → Elf64Sym → Command u h Text
  symbol_name lib sym vm = ok (
    if ltb sym.st_name lib.strsz
        then c_text (buffer (u.mem_read vm.uc (add64 lib.strtab sym.st_name) 255) 255)
        else [],
    vm,
  )

  unfoldable pub resolve_entry : LibraryInfo → Option (List ℕ) → Command u h ℕ
  resolve_entry lib none = pure 0
  resolve_entry lib (some bytes) = do
    let sym = elf64_sym bytes
    sym_name ← symbol_name lib sym
    resolve_named lib sym sym_name

  unfoldable pub vm_resolve_symbol : LibraryInfo → (sym_idx : ℕ) → Command u h ℕ
  vm_resolve_symbol lib sym_idx = if (lib.symtab == 0) || (lib.strtab == 0) then pure 0 else (do
    bytes ← mem_read (add64 lib.symtab (sym_idx * sizeof_sym)) sizeof_sym
    resolve_entry lib bytes)
