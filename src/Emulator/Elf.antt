-- ===== src/Emulator/Elf.antt =====
-- The structures of an ELF file that the loaders read (Native/anisette_base.h), from its bytes.
use anisette_kit.Prelude.{
  ℕ, zero, suc, ◌+◌, Option, none, some, List, [], ◌∷◌, ltb, if◌then◌else◌, length, take, drop,
}
use anisette_kit.Prelude.Options.{◌>>=◌}
use anisette_kit.Emulator.Symbols.{field}

-- `Elf64_Ehdr`, without the fields that the code does not read; so too below.
pub record Elf64Ehdr : Type 0 where
  pub e_ident : List ℕ
  pub e_machine : ℕ
  pub e_phoff : ℕ
  pub e_phentsize : ℕ
  pub e_phnum : ℕ

abbrev pub sizeof_ehdr : ℕ
sizeof_ehdr = 64

unfoldable pub elf64_ehdr : List ℕ → Elf64Ehdr
elf64_ehdr bytes = record {
  e_ident = take 16 bytes;
  e_machine = field 18 2 bytes;
  e_phoff = field 32 8 bytes;
  e_phentsize = field 54 2 bytes;
  e_phnum = field 56 2 bytes;
}

pub record Elf64Phdr : Type 0 where
  pub p_type : ℕ
  pub p_flags : ℕ
  pub p_offset : ℕ
  pub p_vaddr : ℕ
  pub p_filesz : ℕ
  pub p_memsz : ℕ

abbrev pub sizeof_phdr : ℕ
sizeof_phdr = 56

unfoldable pub elf64_phdr : List ℕ → Elf64Phdr
elf64_phdr bytes = record {
  p_type = field 0 4 bytes;
  p_flags = field 4 4 bytes;
  p_offset = field 8 8 bytes;
  p_vaddr = field 16 8 bytes;
  p_filesz = field 32 8 bytes;
  p_memsz = field 40 8 bytes;
}

abbrev pub pt_load : ℕ
pt_load = 1

abbrev pub pt_dynamic : ℕ
pt_dynamic = 2

-- `Elf64_Dyn`: its tag and its value, as 64 bits each.
pub record Elf64Dyn : Type 0 where
  pub d_tag : ℕ
  pub d_val : ℕ

abbrev pub sizeof_dyn : ℕ
sizeof_dyn = 16

unfoldable pub elf64_dyn : List ℕ → Elf64Dyn
elf64_dyn bytes = record { d_tag = field 0 8 bytes; d_val = field 8 8 bytes }

-- `count` bytes of a buffer from `offset` on, if they lie in it.
unfoldable pub slice : List ℕ → (offset count : ℕ) → Option (List ℕ)
slice bytes offset count =
    if ltb (length bytes) (offset + count) then none else some (take count (drop offset bytes))

-- The program headers, `left` of them from `offset` on; `none` if one does not lie in the file.
unfoldable pub phdrs : (left : ℕ) → List ℕ → (offset : ℕ) → Option (List Elf64Phdr)
phdrs zero bytes offset = some []
phdrs (suc left) bytes offset = do
  phdr ← slice bytes offset sizeof_phdr
  rest ← phdrs left bytes (offset + sizeof_phdr)
  some (elf64_phdr phdr ∷ rest)

-- The same where each is `size` bytes behind the one before.
unfoldable pub headers_at : (left : ℕ) → List ℕ → (offset size : ℕ) → Option (List Elf64Phdr)
headers_at zero bytes offset size = some []
headers_at (suc left) bytes offset size = do
  phdr ← slice bytes offset sizeof_phdr
  rest ← headers_at left bytes (offset + size) size
  some (elf64_phdr phdr ∷ rest)
