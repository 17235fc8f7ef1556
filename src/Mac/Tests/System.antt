-- ===== src/Mac/Tests/System.antt =====
-- A small system: memory that is all mapped, a disk on which every file is the same library, and
-- native calls that return 0.
use anisette_kit.Prelude.{
  ℕ, zero, suc, ◌+◌, ◌-◌, true, false, ◌&&◌, none, some, List, [], ◌∷◌, ◌++◌, ltb, leb, ◌==◌,
  if◌then◌else◌, get_or, length, replicate, le_bytes,
}
use anisette_kit.Prelude.Int.{pos}
use anisette_kit.Emulator.Host.{Host}
use anisette_kit.Emulator.Machine.{host}
use anisette_kit.Core.Adi
use anisette_kit.Mac.Platform.{Platform}

pub record Memory : Type 0 where
  pub mem : ℕ → ℕ
  pub next : ℕ
  pub err : ℕ

abbrev zero_bytes : ℕ → List ℕ
zero_bytes n = replicate n 0

abbrev join : List (List ℕ) → List ℕ
join [] = []
join (part ∷ parts) = part ++ join parts

abbrev file_header : List ℕ
file_header = join (
    (0x7f ∷ 0x45 ∷ 0x4c ∷ 0x46 ∷ [])
    ∷ zero_bytes 14
    ∷ le_bytes 2 183
    ∷ zero_bytes 12
    ∷ le_bytes 8 64
    ∷ zero_bytes 14
    ∷ le_bytes 2 56
    ∷ le_bytes 2 2
    ∷ zero_bytes 6
    ∷ [])

abbrev program_header : (type flags offset size : ℕ) → List ℕ
program_header type flags offset size = join (
    le_bytes 4 type
    ∷ le_bytes 4 flags
    ∷ le_bytes 8 offset
    ∷ le_bytes 8 offset
    ∷ zero_bytes 8
    ∷ le_bytes 8 size
    ∷ le_bytes 8 size
    ∷ zero_bytes 8
    ∷ [])

abbrev dynamic_entry : (tag val : ℕ) → List ℕ
dynamic_entry tag val = le_bytes 8 tag ++ le_bytes 8 val

abbrev symbol_entry : (name val : ℕ) → List ℕ
symbol_entry name val = join (le_bytes 4 name ∷ zero_bytes 4 ∷ le_bytes 8 val ∷ zero_bytes 8 ∷ [])

-- A library with four functions, whose code its only segment holds.
abbrev pub library : List ℕ
library = join (
    file_header
    ∷ program_header 1 5 0 0x19c
    ∷ program_header 2 4 0xb0 0x40
    ∷ dynamic_entry 6 0xf8
    ∷ dynamic_entry 5 0x170
    ∷ dynamic_entry 4 0xf0
    ∷ dynamic_entry 0 0
    ∷ le_bytes 4 0
    ∷ le_bytes 4 5
    ∷ symbol_entry 0 0
    ∷ symbol_entry 0 0x10
    ∷ symbol_entry 11 0x20
    ∷ symbol_entry 22 0x30
    ∷ symbol_entry 33 0x40
    ∷ Adi.load_library
    ∷ (0 ∷ [])
    ∷ Adi.set_provisioning_path
    ∷ (0 ∷ [])
    ∷ Adi.set_android_id
    ∷ (0 ∷ [])
    ∷ Adi.otp_request
    ∷ (0 ∷ [])
    ∷ [])

abbrev take_bytes : (ℕ → ℕ) → (address size : ℕ) → List ℕ
take_bytes mem address zero = []
take_bytes mem address (suc n) = mem address ∷ take_bytes mem (address + 1) n

abbrev put_bytes : (ℕ → ℕ) → (address : ℕ) → List ℕ → ℕ → ℕ
put_bytes mem address bytes a =
    if leb address a && ltb a (address + length bytes) then get_or bytes (a - address) 0 else mem a

abbrev pub small_host : Host
small_host = record {
  World = Memory;
  flags = host.flags;
  eexist = 17;
  errno = λ w. w.err;
  open_file = λ w path flags mode. (some 3, w);
  close = λ w fd. w;
  read = λ w fd count. (some [], w);
  write = λ w fd bytes. (some (length bytes), w);
  ftruncate = λ w fd long. (true, w);
  mkdir = λ w path mode. (false, record w { err = 17 });
  chmod = λ w path mode. (true, w);
  umask = λ w mask. (0, w);
  lstat = λ w path. (none, w);
  fstat = λ w fd. (none, w);
  arc4random = λ w. (4, w);
  gettimeofday = λ w. (0, 0);
  strtoll = λ t base. (0, 0);
  strtod = λ t. (0, 0);
  read_file = λ w path. some (0x19c, library);
  write_file = λ w path bytes. w;
  is_directory = λ w path. true;
  rmdir = λ w path. w;
}

abbrev pub small : Platform
small = record {
  host = small_host;
  set_errno = λ w value. record w { err = value };
  unlink = λ w path. w;
  open_to_write = λ w path. (some 3, w);
  write_and_close = λ w file bytes. w;
  read_mem = λ w address size. some (take_bytes w.mem address size);
  write_mem = λ w address bytes. some (record w { mem = put_bytes w.mem address bytes });
  mmap = λ w size. (some w.next, record w { next = w.next + 0x1000 });
  munmap = λ w address size. w;
  vm_protect = λ w address size. (true, w);
  mprotect = λ w address size. (true, w);
  jit_write_protect = λ w enabled. w;
  page_size = 0x1000;
  rtld_default = 0;
  dlopen = λ w path mode. (0, w);
  dlsym = λ w handle name. 0;
  address_of = λ name. suc (length name);
  isupper = λ c. leb b'A' c && leb c b'Z';
  islower = λ c. leb b'a' c && leb c b'z';
  isdigit = λ c. leb b'0' c && leb c b'9';
  isspace = λ c. c == 32;
  ispunct = λ c. false;
  iscntrl = λ c. ltb c 32;
  isblank = λ c. c == 32;
  isxdigit = λ c. leb b'0' c && leb c b'9';
  pthread_create = λ w thread attr start_routine arg. (0, w);
  native = λ w function args. some (record { result = pos 0; outs = [] }, w);
}

abbrev pub empty_memory : Memory
empty_memory = record { mem = λ a. 0; next = 0x10000; err = 0 }
