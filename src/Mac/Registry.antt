-- ===== src/Mac/Registry.antt =====
-- The members of `ElfLoader` beside `load` and `relocate`, the map of the loaded libraries, and
-- `get_adi_symbol` (Native/Loader/elf_loader_host.cpp).
pub mod Owners
pub mod Names
pub mod Lookup
use anisette_kit.Prelude.{
  ℕ, ◌+◌, Bool, true, false, not, ◌&&◌, ◌||◌, Option, none, some, List, [], ◌∷◌, ◌++◌, ◌==◌,
  if◌then◌else◌, ltb,
}
use anisette_kit.Prelude.Text.{Text, text_eq, find}
use anisette_kit.Emulator.Vm.{Run, ok, undefined, and_then, find_key, erase_key}
use anisette_kit.Emulator.Symbols.{has_prefix, first_some}
use anisette_kit.Mac.Platform.{Platform}
use anisette_kit.Mac.Process.{
  ElfLoader, elf_loader, Process, Action, pure, ◌>>=◌, ◌>>◌, gets, update, host_does, loader_at,
  change_loader,
}

-- `std::string`'s order, on bytes.
unfoldable pub text_lt : Text → Text → Bool
text_lt s [] = false
text_lt [] (d ∷ t) = true
text_lt (c ∷ s) (d ∷ t) = ltb c d || ((c == d) && text_lt s t)

-- `map[k] = v` of a `std::map`, whose entries stand in the order of their keys.
unfoldable pub insert_ordered : {V : Type 0} → Text → V → List (Text × V) → List (Text × V)
insert_ordered k v [] = (k, v) ∷ []
insert_ordered k v ((j, w) ∷ m) =
    let rest = insert_ordered k v m in
    if text_eq j k then (j, v) ∷ m else if text_lt k j then (k, v) ∷ (j, w) ∷ m else (j, w) ∷ rest

-- The loop of the destructor over the map.
unfoldable pub erase_loader : (this : ℕ) → List (Text × ℕ) → List (Text × ℕ)
erase_loader this [] = []
erase_loader this ((k, l) ∷ m) =
    let rest = erase_loader this m in if l == this then rest else (k, l) ∷ rest

-- `s.find(part) != npos`
unfoldable pub contains : (part s : Text) → Bool
contains part [] = has_prefix part []
contains part (c ∷ s) = has_prefix part (c ∷ s) || contains part s

-- The pointer in a map, null without an entry.
abbrev pub or_null : Option ℕ → ℕ
or_null none = 0
or_null (some a) = a

module _ {p : Platform} where
  -- `new ElfLoader()`
  unfoldable pub new_loader : Action p ℕ
  new_loader s = ok (
    s.next_loader,
    record s { loaders = (s.next_loader, elf_loader) ∷ s.loaders; next_loader = s.next_loader + 1 },
  )

  abbrev pub when : Bool → Action p (Unit {0}) → Action p (Unit {0})
  when true action = action
  when false action = pure tt

  -- `delete this`: the destructor, and the end of the object.
  unfoldable pub delete_loader : (this : ℕ) → Action p (Unit {0})
  delete_loader this = do
    l ← loader_at this
    when (not (l.base_addr == 0)) (host_does (λ w. p.munmap w l.base_addr l.total_size))
    when (not (l.data_addr == 0)) (host_does (λ w. p.munmap w l.data_addr l.data_size))
    update (λ s. record s {
      loaded_libraries = erase_loader this s.loaded_libraries;
      loaders = erase_key this s.loaders;
    })

  unfoldable pub add_sibling : (this sib : ℕ) → Action p (Unit {0})
  add_sibling this sib = change_loader this (λ l. record l { siblings = l.siblings ++ sib ∷ [] })

  -- What a null name gives is left out: the callers pass names.
  unfoldable pub get_symbol : (this : ℕ) → (name : Text) → Action p ℕ
  get_symbol this name = loader_at this >>= λ l. pure (or_null (find name l.exports))

  -- The symbol in a loader, unless the pointer is null.
  unfoldable pub symbol_in : Option ℕ → (name : Text) → Action p ℕ
  symbol_in none name = pure 0
  symbol_in (some l) name = get_symbol l name

  -- The first address, or what the next step finds.
  unfoldable pub or_else : (sym : ℕ) → Action p ℕ → Action p ℕ
  or_else sym next = if sym == 0 then next else pure sym

  -- With a fallback name, which all callers give.
  unfoldable pub get_adi_symbol :
      (primary secondary : Option ℕ) → (obfuscated_key readable_fallback : Text) → Action p ℕ
  get_adi_symbol none secondary obfuscated_key readable_fallback = pure 0
  get_adi_symbol (some primary) secondary obfuscated_key readable_fallback = do
    sym ← get_symbol primary obfuscated_key
    or_else sym (do
      sym ← symbol_in secondary obfuscated_key
      or_else sym (do
        sym ← get_symbol primary readable_fallback
        or_else sym (symbol_in secondary readable_fallback)))
