-- ===== src/Emulator/Machine.antt =====
-- A small machine with the laws of Emulator.Unicorn, and a host, for runs at concrete inputs.
use anisette_kit.Emulator.Allocator.{page_allocator}
use anisette_kit.Emulator.Vm.{
  return_address, stack_size, stack_address, import_address, heap_size, Vm, heap_address,
}
use anisette_kit.Emulator.Host.{Host, OpenFlags}
use anisette_kit.Prelude.{
  ap, sym, get_or, ℕ, zero, suc, ◌+◌, ◌-◌, ◌%◌, ◌^◌, ◌≡◌, Bool, true, false, ◌&&◌, Option, none,
  some, List, [], ltb, leb, ◌==◌, if◌then◌else◌, get_elem?, length, refl, arith,
}
use anisette_kit.Emulator.Unicorn.{
  touches, Unicorn, UnicornLaws, Reg, x, v, sp, lr, pc, w0, UcErr, err_ok, err_map, err_other,
  collect, is_some, only, byte, covers,
}

pub record Machine : Type 0 where
  pub regs : Reg → ℕ
  pub mem : ℕ → Option ℕ

abbrev is_x : Reg → ℕ → Bool
is_x (x i) j = i == j
is_x (v i) j = false
is_x sp j = false
is_x lr j = false
is_x pc j = false
is_x w0 j = false

abbrev set_reg : (Reg → ℕ) → Reg → ℕ → Reg → ℕ
set_reg regs (x i) w r = if is_x r i then w % 2 ^ 64 else regs r
set_reg regs w0 w r = if is_x r 0 then w % 2 ^ 32 else regs r
set_reg regs (v i) w r = regs r
set_reg regs sp w r = elim r [ sp ↦ w % 2 ^ 64 | other ↦ regs other ]
set_reg regs lr w r = elim r [ lr ↦ w % 2 ^ 64 | other ↦ regs other ]
set_reg regs pc w r = elim r [ pc ↦ w % 2 ^ 64 | other ↦ regs other ]

abbrev get_reg : (Reg → ℕ) → Reg → ℕ
get_reg regs w0 = regs (x 0) % 2 ^ 32
get_reg regs (x i) = regs (x i)
get_reg regs (v i) = regs (v i)
get_reg regs sp = regs sp
get_reg regs lr = regs lr
get_reg regs pc = regs pc

abbrev put : Machine → ℕ → List ℕ → ℕ → Option ℕ
put m a bs p = if leb a p && ltb p (a + length bs) then get_elem? bs (p - a) else m.mem p

abbrev store : Machine → ℕ → List ℕ → Machine
store m a bs = if is_some (collect m.mem a (length bs)) then record m { mem = put m a bs } else m

abbrev code : UcErr → ℕ
code err_ok = 0
code err_map = 11
code (err_other n) = suc n

abbrev map_zero : Machine → (address size : ℕ) → Machine
map_zero m a n = record m { mem = λ p. if leb a p && ltb p (a + n) then some 0 else m.mem p }

abbrev pub machine : Unicorn
machine = record {
  State = Machine;
  reg_read = λ m r. get_reg m.regs r;
  reg_write = λ m r w. record m { regs = set_reg m.regs r w };
  mem_read = λ m a n. collect m.mem a n;
  mem_write = store;
  mem_map = λ m a n p. (err_ok, map_zero m a n);
  emu_stop = λ m. m;
  code = code;
}

only-collect : (o : Option ℕ) (f : ℕ → Option ℕ) (a : ℕ) → f a ≡ o → only (collect f a 1) ≡ o
only-collect none f a e = rw e refl
only-collect (some b) f a e = rw e refl

byte_lem : (m : Machine) (a : ℕ) → byte machine m a ≡ m.mem a
unfolding byte
byte_lem m a = only-collect (m.mem a) m.mem a refl

collect-byte : (m : Machine) (a n : ℕ) → collect m.mem a n ≡ collect (byte machine m) a n
collect-byte m a zero = refl
collect-byte m a (suc n) = rw (byte_lem m a, collect-byte m (a + 1) n) refl

-- What the memory holds, without `uc_mem_read`.
pub holds : (m : Machine) (a n : ℕ) → collect (byte machine m) a n ≡ collect m.mem a n
holds m a n = sym (collect-byte m a n)

pub is_mapped : (m : Machine) (a n : ℕ) → covers machine m a n ≡ is_some (collect m.mem a n)
is_mapped m a n = ap is_some (holds m a n)

store-mem :
    (m : Machine) (a : ℕ) (bs : List ℕ) (p : ℕ)
    → (store m a bs).mem p ≡ (
        if is_some (collect m.mem a (length bs)) && (leb a p && ltb p (a + length bs))
        then get_elem? bs (p - a)
        else m.mem p)
store-mem m a bs p = ground arith

store-regs : (m : Machine) (a : ℕ) (bs : List ℕ) → (store m a bs).regs ≡ m.regs
store-regs m a bs = ground arith

apart :
    (m : Machine) (r q : Reg) (w : ℕ)
    → touches r q ≡ false
    → get_reg (set_reg m.regs r w) q ≡ get_reg m.regs q
apart m (x i) (x j) w h = ground arith
apart m (x i) w0 w h = ground arith
apart m w0 (x j) w h = ground arith
apart m w0 w0 w h = absurd cc
apart m sp sp w h = absurd cc
apart m lr lr w h = absurd cc
apart m pc pc w h = absurd cc
apart m _ _ w h = refl

pub machine_laws : UnicornLaws machine
machine_laws = record {
  mem_read-collect = collect-byte;
  byte-mem_write = λ m a bs p.
      rw (byte_lem (store m a bs) p, ← collect-byte m a (length bs), byte_lem m p)
        (store-mem m a bs p);
  byte-reg_write =
      λ m r w a. rw (byte_lem m a, byte_lem (record m { regs = set_reg m.regs r w }) a) refl;
  reg_read-mem_write = λ m a bs r. rw (store-regs m a bs) refl;
  reg_read-reg_write = λ m i j w. ground arith;
  reg_read-reg_write_apart = apart;
  sp-reg_write = λ m w. refl;
  lr-reg_write = λ m w. refl;
  pc-reg_write = λ m w. refl;
  reg_read-w0 = λ m. refl;
  code-ok = refl;
}

-- Linux's numbers for the flags.
abbrev open_flags : OpenFlags
open_flags = record {
  o_rdonly = 0;
  o_wronly = 1;
  o_rdwr = 2;
  o_creat = 0x40;
  o_excl = 0x80;
  o_noctty = 0x100;
  o_trunc = 0x200;
  o_append = 0x400;
  o_nonblock = 0x800;
  o_sync = 0x10_1000;
  o_cloexec = 0x8_0000;
}

-- A host whose world counts the calls that change it: every file opens and has no content.
abbrev pub host : Host
host = record {
  World = ℕ;
  flags = open_flags;
  eexist = 17;
  errno = λ w. 17;
  open_file = λ w path flags mode. (some (w + 3), w + 1);
  close = λ w fd. w + 1;
  read = λ w fd count. (some [], w);
  write = λ w fd bytes. (some (length bytes), w);
  ftruncate = λ w fd long. (true, w);
  mkdir = λ w path mode. (false, w);
  chmod = λ w path mode. (true, w);
  umask = λ w mask. (0x12, w);
  lstat = λ w path. (none, w);
  fstat = λ w fd. (none, w);
  arc4random = λ w. (w, w + 1);
  gettimeofday = λ w. (w, w);
  strtoll = λ t base. (0, 0);
  strtod = λ t. (0, 0);
  read_file = λ w path. none;
  write_file = λ w path bytes. w + 1;
  is_directory = λ w path. true;
  rmdir = λ w path. w + 1;
}

abbrev heap_limit : ℕ
heap_limit = heap_address + heap_size

-- Registers as listed from X0 on, a heap that is mapped and zero, and `text` at 0x1000.
abbrev pub guest : List ℕ → List ℕ → Vm machine host
guest args text = record {
  uc = record {
    regs = λ r. elim r [
      | x i ↦ get_or args i 0
      | pc ↦ import_address
      | sp ↦ stack_address + stack_size
      | lr ↦ return_address
      | other ↦ 0
    ];
    mem = λ p.
        if leb heap_address p && ltb p heap_limit
        then some 0
        else if leb 0x1000 p
        then get_elem? text (p - 0x1000)
        else none;
  };
  world = 0;
  heap = page_allocator heap_address heap_size 64;
  library_alloc = page_allocator 0x1000_0000 0x3000_0000 0x1_0000;
  imported_symbols = [];
  import_stubs = [];
  next_import_address = import_address;
  fd_map = [];
  next_guest_fd = 10;
  errno_addr = 0x3FF0_0000;
  loaded_libraries = [];
}
