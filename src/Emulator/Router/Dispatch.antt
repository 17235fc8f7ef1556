-- ===== src/Emulator/Router/Dispatch.antt =====
-- From a name to its hook, through the stubs that `register_import` gives out.
use anisette_kit.Prelude.{
  inr, sym, inl, true, ◌-◌, ◌&&◌, leb, subst, ℕ, ◌+◌, ◌*◌, ◌<◌, ◌≤◌, ◌≡◌, refl, Option, none, some,
  List, [], ◌∷◌, arith, length,
}
use mathlib.Core.List.{Memᴰ}
use mathlib.Core.List.Memᴰ
use anisette_kit.Prelude.Text.{Text, find, text_eq_iff}
use anisette_kit.Emulator.Host.{Host}
use anisette_kit.Emulator.Unicorn.{Unicorn}
use anisette_kit.Emulator.Vm.{
  import_address, import_size, Run, ok, Vm, Command, pure, ◌>>=◌, find_key,
}
use anisette_kit.Emulator.Imports.{emulator_vm, register_import, known_or_new}
use anisette_kit.Emulator.Imports.Stubs.{IsStubbed, register_import_new}
use anisette_kit.Emulator.Router.{run_handler, import_callback_router, import_hook}

module _ {u : Unicorn} {h : Host} where
  -- The registration of several names, one after the other.
  unfoldable pub register_all : List Text → Command u h (Unit {0})
  register_all [] = pure tt
  register_all (name ∷ names) = do stub ← register_import name; register_all names

  -- After at most `n` names are registered, each leads to a stub of its own, which leads back to it.
  record Routed (n : ℕ) (vm : Vm u h) : Type 0 where
    stubbed : IsStubbed vm
    few : vm.next_import_address ≤ import_address + 8 * n
    leads_back :
        (name : Text) (stub : ℕ)
        → find name vm.imported_symbols ≡ some stub
        → (import_address ≤ stub)
          × (stub < vm.next_import_address)
          × (find_key stub vm.import_stubs ≡ some name)

  known-same :
      (vm : Vm u h) (name : Text) (stub : ℕ)
      → find name vm.imported_symbols ≡ some stub
      → register_import name vm ≡ ok (stub, vm)
  unfolding register_import known_or_new
  known-same vm name stub e = rw e refl

  -- What one registration leaves.
  record Registered (n : ℕ) (vm : Vm u h) (name : Text) (stub : ℕ) (vm' : Vm u h) : Type 0 where
    ends : register_import name vm ≡ ok (stub, vm')
    routed : Routed (n + 1) vm'
    named : find name vm'.imported_symbols ≡ some stub
    keeps :
        (other : Text) (a : ℕ)
        → find other vm.imported_symbols ≡ some a
        → find other vm'.imported_symbols ≡ some a

  registers :
      (n : ℕ) (vm : Vm u h) (name : Text) (o : Option ℕ)
      → Routed n vm
      → n < 8192
      → find name vm.imported_symbols ≡ o
      → (stub : ℕ) × (vm' : Vm u h) × Registered n vm name stub vm'
  registers n vm name (some stub) r room e = (
    stub,
    vm,
    record {
      ends = known-same vm name stub e;
      routed = record {
        stubbed = r.stubbed;
        few = omega (arith, r.few);
        leads_back = r.leads_back;
      };
      named = e;
      keeps = λ other a f. f;
    },
  )
  registers n vm name none r room e =
      let (stub, vm', ends, at, next, fresh, stubs, names, stubbed) =
        register_import_new vm name r.stubbed (omega (arith, r.few)) e in
      (
        stub,
        vm',
        record {
          ends = ends;
          routed = record {
            stubbed = stubbed;
            few = omega (arith, r.few, at, next);
            leads_back = λ other a f. ground (
              arith,
              names other,
              stubs a,
              text_eq_iff name other,
              r.leads_back other a,
              at,
              next,
              r.stubbed.start,
            );
          };
          named = ground (arith, names name, text_eq_iff name name);
          keeps = λ other a f. ground (arith, names other, text_eq_iff name other, e);
        },
      )

  -- What the registration of all the names leaves.
  record AllRegistered (n : ℕ) (vm : Vm u h) (names : List Text) (vm' : Vm u h) : Type 0 where
    ends : register_all names vm ≡ ok (tt, vm')
    routed : Routed n vm'
    named :
        (name : Text) → Memᴰ name names → (stub : ℕ) × (find name vm'.imported_symbols ≡ some stub)
    keeps :
        (other : Text) (a : ℕ)
        → find other vm.imported_symbols ≡ some a
        → find other vm'.imported_symbols ≡ some a

  registers-all :
      (n : ℕ) (names : List Text) (vm : Vm u h)
      → Routed n vm
      → n + length names ≤ 8192
      → (vm' : Vm u h) × AllRegistered (n + length names) vm names vm'
  unfolding register_all
  registers-all n [] vm r room = (
    vm,
    record {
      ends = refl;
      routed = subst (λ k. Routed k vm) {x = n} (omega arith) r;
      named = λ name m. absurd (Memᴰ.not-nil m);
      keeps = λ other a f. f;
    },
  )
  registers-all n (name ∷ names) vm r room =
      let (stub, vm1, one) =
        registers n vm name (find name vm.imported_symbols) r (omega arith) refl in
      let (vm2, all) = registers-all (n + 1) names vm1 one.routed (omega arith) in
      (
        vm2,
        record {
          ends = rw one.ends all.ends;
          routed = subst (λ k. Routed k vm2) {x = n + 1 + length names} (omega arith) all.routed;
          named = λ other m. elim (Memᴰ.cases_cons m) [
            | inl same ↦ (
              stub,
              subst (λ k. find k vm2.imported_symbols ≡ some stub) (sym same)
                  (all.keeps name stub one.named),
            )
            | inr later ↦ all.named other later
          ];
          keeps = λ other a f. all.keeps other a (one.keeps other a f);
        },
      )

  RunRouted : Run (Vm u h) → Type 0
  RunRouted (ok vm) = Routed 0 vm
  RunRouted other = Unit

  started-Routed :
      (opened : Option u.State) (world : h.World) (vm : Vm u h)
      → emulator_vm opened world ≡ ok vm
      → Routed 0 vm
  unfolding emulator_vm find RunRouted
  started-Routed none world vm e = absurd cc
  started-Routed (some uc) world vm e = subst RunRouted e (record {
    stubbed = record { keys = tt; start = omega arith; fits = omega arith };
    few = omega arith;
    leads_back = λ name stub f. absurd cc;
  })

  stub-routes :
      (rounds n : ℕ) (vm : Vm u h) (name : Text) (stub : ℕ)
      → Routed n vm
      → n ≤ 8192
      → find name vm.imported_symbols ≡ some stub
      → import_hook rounds stub vm ≡ run_handler rounds (some name) vm
  unfolding import_hook import_callback_router
  stub-routes rounds n vm name stub r few e =
      let (low, high, found) = r.leads_back name stub e in
      let inside : leb import_address stub && leb stub (import_address + import_size - 1) ≡ true =
        ground (arith, r.few) in
      rw (inside, found) refl

  -- From the machine that the constructor makes, after any list of at most 8192 names is registered,
  -- each of them has a stub, a further registration of it returns that stub and changes nothing, and
  -- at the stub the hook that the constructor adds, with its range, runs the handler of that name.
  pub import_hook-register_all :
      (rounds : ℕ) (opened : Option u.State) (world : h.World) (vm : Vm u h) (names : List Text)
      (name : Text)
      → emulator_vm opened world ≡ ok vm
      → length names ≤ 8192
      → Memᴰ name names
      → (vm' : Vm u h) × (stub : ℕ) × (register_all names vm ≡ ok (tt, vm'))
        × (register_import name vm' ≡ ok (stub, vm'))
        × (import_hook rounds stub vm' ≡ run_handler rounds (some name) vm')
  import_hook-register_all rounds opened world vm names name e few m =
      let (vm', all) = registers-all 0 names vm (started-Routed opened world vm e) (omega arith) in
      let (stub, found) = all.named name m in
      (
        vm',
        stub,
        all.ends,
        known-same vm' name stub found,
        stub-routes rounds (0 + length names) vm' name stub all.routed (omega arith) found,
      )
