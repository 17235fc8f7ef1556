-- ===== src/Mac/Process.antt =====
-- The state of the host loader (Native/Loader/elf_loader_host.h and its statics in
-- elf_loader_host.cpp) with the globals of Native/anisette_core_mac.cpp, and actions on it.
pub mod Quiet
pub mod Triples
pub mod Effects
use anisette_kit.Prelude.{
  ℕ, zero, suc, ◌+◌, Bool, true, false, Option, none, some, List, [], ◌∷◌, ◌==◌, if◌then◌else◌,
  length, replicate, le_bytes, le_value, add64,
}
use anisette_kit.Prelude.Text.{Text}
use anisette_kit.Emulator.Vm.{Run, ok, out_of_fuel, undefined, and_then, find_key, insert_key}
use anisette_kit.Core.Session.{Result, failed, done}
use anisette_kit.Mac.Platform.{Platform}

pub record SegmentInfo : Type 0 where
  pub vaddr : ℕ
  pub memsz : ℕ
  pub flags : ℕ

-- Addresses are numbers, 0 the null pointer. A pointer to a loader is the number of that object.
pub record ElfLoader : Type 0 where
  pub base_addr : ℕ
  pub data_addr : ℕ
  pub total_size : ℕ
  pub code_size : ℕ
  pub data_size : ℕ
  pub exports : List (Text × ℕ)
  pub siblings : List ℕ
  pub rela_ptr : ℕ
  pub rela_sz : ℕ
  pub rel_ptr : ℕ
  pub rel_sz : ℕ
  pub jmprel_ptr : ℕ
  pub pltrel_sz : ℕ
  pub pltrel_kind : ℕ
  pub sym_tab : ℕ
  pub str_tab : ℕ
  pub sym_cnt : ℕ
  pub segments : List SegmentInfo

-- `ElfLoader::ElfLoader()`
abbrev pub elf_loader : ElfLoader
elf_loader = record {
  base_addr = 0;
  data_addr = 0;
  total_size = 0;
  code_size = 0;
  data_size = 0;
  exports = [];
  siblings = [];
  rela_ptr = 0;
  rela_sz = 0;
  rel_ptr = 0;
  rel_sz = 0;
  jmprel_ptr = 0;
  pltrel_sz = 0;
  pltrel_kind = 0;
  sym_tab = 0;
  str_tab = 0;
  sym_cnt = 0;
  segments = [];
}

-- `loaders` are the objects that were made and not deleted; a number is given out once.
-- `loaded_libraries` is the map of `get_loaded_libraries_map`, in the order of its keys.
pub record Process (p : Platform) : Type 0 where
  pub world : p.host.World
  pub loaders : List (ℕ × ElfLoader)
  pub next_loader : ℕ
  pub loaded_libraries : List (Text × ℕ)
  pub ctype_initialized : Bool
  pub ctype_array : List ℕ
  pub g_adi : Option ℕ
  pub g_ssc : Option ℕ

-- Before the first call.
abbrev pub fresh_process : (p : Platform) → p.host.World → Process p
fresh_process p w = record {
  world = w;
  loaders = [];
  next_loader = 1;
  loaded_libraries = [];
  ctype_initialized = false;
  ctype_array = replicate 384 0;
  g_adi = none;
  g_ssc = none;
}

module _ (p : Platform) where
  abbrev pub Action : Type 0 → Type 0
  Action A = Process p → Run (A × Process p)

  -- An action that can fail with a reason.
  abbrev pub Step : (E A : Type 0) → Type 0
  Step E A = Action (Result E A)

module _ {p : Platform} where
  abbrev pub pure : {A : Type 0} → A → Action p A
  pure a s = ok (a, s)

  infixl 5 ◌>>=◌ ◌>>◌
  unfoldable pub ◌>>=◌ : {A B : Type 0} → Action p A → (A → Action p B) → Action p B
  ◌>>=◌ m k s = and_then (m s) λ r. k r.0 r.1

  abbrev pub ◌>>◌ : {B : Type 0} → Action p (Unit {0}) → Action p B → Action p B
  m >> k = m >>= λ _. k

  -- A fault, or the result of what may fault.
  abbrev pub checked : {A : Type 0} → Option A → Action p A
  checked none s = undefined
  checked (some a) s = ok (a, s)

  -- A computation beside the state.
  abbrev pub run : {A : Type 0} → Run A → Action p A
  run r s = and_then r λ a. ok (a, s)

  abbrev pub gets : {A : Type 0} → (Process p → A) → Action p A
  gets f s = ok (f s, s)

  abbrev pub update : (Process p → Process p) → Action p (Unit {0})
  update f s = ok (tt, f s)

  -- A call that changes only the platform, without and with a result.
  abbrev pub host_does : (p.host.World → p.host.World) → Action p (Unit {0})
  host_does act s = ok (tt, record s { world = act s.world })

  abbrev pub host_step : {A : Type 0} → (p.host.World → A × p.host.World) → Action p A
  host_step act s = let (a, w) = act s.world in ok (a, record s { world = w })

  abbrev pub host_checked : {A : Type 0} → (p.host.World → Option (A × p.host.World)) → Action p A
  host_checked act s = elim (act s.world) [
    | none ↦ undefined
    | some r ↦ ok (r.0, record s { world = r.1 })
  ]

  abbrev pub load_bytes : (address size : ℕ) → Action p (List ℕ)
  load_bytes address size s = checked (p.read_mem s.world address size) s

  abbrev pub stored : Option p.host.World → Action p (Unit {0})
  stored none s = undefined
  stored (some w) s = ok (tt, record s { world = w })

  -- A store of no bytes reaches no address.
  unfoldable pub store_bytes : (address : ℕ) → List ℕ → Action p (Unit {0})
  store_bytes address bytes s =
      if length bytes == 0 then ok (tt, s) else stored (p.write_mem s.world address bytes) s

  -- A number of `size` bytes.
  unfoldable pub load_number : (address size : ℕ) → Action p ℕ
  load_number address size = load_bytes address size >>= λ bytes. pure (le_value bytes)

  unfoldable pub text_from : (c : ℕ) → (rest : Action p Text) → Action p Text
  text_from c rest = if c == 0 then pure [] else (rest >>= λ cs. pure (c ∷ cs))

  -- The C string at an address, within the rounds.
  unfoldable pub text_at : (rounds : ℕ) → (address : ℕ) → Action p Text
  text_at zero address = λ s. out_of_fuel
  text_at (suc rounds) address = do
    c ← load_number address 1
    text_from c (text_at rounds (add64 address 1))

  -- The object behind a pointer; that of a deleted one is undefined.
  abbrev pub loader_at : (this : ℕ) → Action p ElfLoader
  loader_at this s = checked (find_key this s.loaders) s

  abbrev pub put_loader : (this : ℕ) → ElfLoader → Action p (Unit {0})
  put_loader this l s = ok (tt, record s { loaders = insert_key this l s.loaders })

  unfoldable pub change_loader : (this : ℕ) → (ElfLoader → ElfLoader) → Action p (Unit {0})
  change_loader this f = loader_at this >>= λ l. put_loader this (f l)
