-- ===== src/Emulator/Imports/Stubs.antt =====
-- The import stubs, and the names that they stand for.
use anisette_kit.Prelude.{
  ℕ, ◌+◌, ◌^◌, ◌≤◌, ◌<◌, ◌≡◌, refl, Option, none, some, ◌==◌, if◌then◌else◌, add64, le_bytes, arith,
  subst,
}
use anisette_kit.Prelude.Text.{Text, text_eq, find, insert}
use anisette_kit.Emulator.Host.{Host}
use anisette_kit.Emulator.Unicorn.{Unicorn}
use anisette_kit.Emulator.Vm.{import_address, ok, Vm, find_key, insert_key}
use anisette_kit.Prelude.Text.{find-insert, find-insert_self}
use anisette_kit.Emulator.Vm.Maps.{
  KeysIn, KeysIn-mono, KeysIn-insert_key, find_key-insert_key, find_key-out,
}
use anisette_kit.Emulator.Imports.{ret_insn, register_import, known_or_new, new_import}

module _ {u : Unicorn} {h : Host} where
  -- The stubs in use lie below the next one.
  pub record IsStubbed (vm : Vm u h) : Type 0 where
    pub keys : KeysIn import_address vm.next_import_address vm.import_stubs
    pub start : import_address ≤ vm.next_import_address
    pub fits : vm.next_import_address < 2 ^ 63

  -- A name that has no address yet gets the next address, of a stub that no other name has, from which the
  -- name is found again; every other stub and every other name keep what they had.
  pub register_import_new :
      (vm : Vm u h) (name : Text)
      → IsStubbed vm
      → vm.next_import_address + 8 < 2 ^ 63
      → find name vm.imported_symbols ≡ none
      → (stub : ℕ) × (vm' : Vm u h) × (register_import name vm ≡ ok (stub, vm'))
        × (stub ≡ vm.next_import_address)
        × (vm'.next_import_address ≡ stub + 8)
        × (find_key stub vm.import_stubs ≡ none)
        × ((a : ℕ)
            → find_key a vm'.import_stubs
              ≡ (if stub == a then some name else find_key a vm.import_stubs))
        × ((other : Text)
            → find other vm'.imported_symbols
              ≡ (if text_eq name other then some stub else find other vm.imported_symbols))
        × IsStubbed vm'
  unfolding register_import known_or_new new_import
  register_import_new vm name t room new =
      let stub : ℕ = vm.next_import_address in
      let next : add64 stub 8 ≡ stub + 8 = omega arith in
      (
        stub,
        record vm {
          next_import_address = add64 stub 8;
          uc = u.mem_write vm.uc stub (le_bytes 4 ret_insn);
          imported_symbols = insert name stub vm.imported_symbols;
          import_stubs = insert_key stub name vm.import_stubs;
        },
        rw new refl,
        refl,
        next,
        find_key-out import_address stub stub vm.import_stubs t.keys (omega arith),
        λ a. find_key-insert_key stub a name vm.import_stubs,
        λ other. find-insert name other stub vm.imported_symbols,
        record {
          keys =
              KeysIn-insert_key import_address (add64 stub 8) stub name vm.import_stubs t.start
                (omega arith)
                (KeysIn-mono import_address stub (add64 stub 8) vm.import_stubs (omega arith)
                  t.keys);
          start = omega (arith, t.start);
          fits = omega arith;
        },
      )

  known-after :
      (vm vm' : Vm u h) (name : Text) (stub : ℕ) (o : Option ℕ)
      → find name vm.imported_symbols ≡ o
      → known_or_new o name vm ≡ ok (stub, vm')
      → find name vm'.imported_symbols ≡ some stub
  unfolding known_or_new new_import
  known-after vm vm' name stub none absent e =
      let p : (
        vm.next_import_address,
        record vm {
          next_import_address = add64 vm.next_import_address 8;
          uc = u.mem_write vm.uc vm.next_import_address (le_bytes 4 ret_insn);
          imported_symbols = insert name vm.next_import_address vm.imported_symbols;
          import_stubs = insert_key vm.next_import_address name vm.import_stubs;
        },
      )
          ≡ (stub, vm') =
        cc e in
      subst (λ (r : ℕ × Vm u h). find name (r.1).imported_symbols ≡ some (r.0)) p
        (find-insert_self name vm.next_import_address vm.imported_symbols)
  known-after vm vm' name stub (some address) known e =
      let first : ℕ × Vm u h = (address, vm) in
      let p : first ≡ (stub, vm') = cc e in
      subst (λ (r : ℕ × Vm u h). find name (r.1).imported_symbols ≡ some (r.0)) p known

  -- Registering a name again returns the same address and changes nothing.
  pub register_import-twice :
      (vm vm' : Vm u h) (name : Text) (stub : ℕ)
      → register_import name vm ≡ ok (stub, vm')
      → register_import name vm' ≡ ok (stub, vm')
  unfolding register_import known_or_new new_import
  register_import-twice vm vm' name stub e =
      rw (known-after vm vm' name stub (find name vm.imported_symbols) refl e) refl
