-- ===== src/Mac/Handles/Total.antt =====
-- The look-ups of `hook_dlsym` in the states that calls lead to.
use anisette_kit.Prelude.{
  ℕ, ◌+◌, ◌≡◌, ◌≢◌, refl, sym, Bool, true, false, Option, none, some, List, [], ◌∷◌, ◌==◌,
  if◌then◌else◌, arith, Bool-cases, inl, inr,
}
use anisette_kit.Prelude.Text.{Text, codes, find, text_eq}
use anisette_kit.Emulator.Vm.{Run, ok, find_key}
use anisette_kit.Mac.Platform.{Platform}
use anisette_kit.Mac.Process.{Process, ElfLoader, Action, ◌>>=◌}
use anisette_kit.Mac.Process.Quiet.{skeleton, objects_of}
use anisette_kit.Mac.Registry.{get_symbol, or_null, or_else, when}
use anisette_kit.Mac.Registry.Owners.{is_owner, Owned}
use anisette_kit.Mac.Resolve.{
  init_bionic_ctype, system_symbol, replaced_symbol, lookup_system, replacement, lookup_hook, hooks,
}
use anisette_kit.Mac.Setup.Stages.{Steady}
use anisette_kit.Mac.Handles.{dummy_stub, handle_symbol, any_symbol, symbol_among, host_dlsym}

-- An action that returns an address of which Q holds.
abbrev pub Finds : {p : Platform} → (Q : ℕ → Type 0) → Action p ℕ → Process p → Type 0
Finds {p} Q m s = (a : ℕ) × ((s' : Process p) × ((m s ≡ ok (a, s')) × Q a))

module _ {p : Platform} where
  Finds-or_else :
      (Q : ℕ → Type 0) (sym : ℕ) (next : Action p ℕ) (s : Process p)
      → (sym ≢ 0 → Q sym)
      → Finds Q next s
      → Finds Q (or_else sym next) s
  unfolding or_else
  Finds-or_else Q sym next s found r = elim (Bool-cases (sym == 0)) [
    | inl zero_sym ↦ rw zero_sym r
    | inr other ↦ rw other (sym, (s, (refl, found (λ e. ground arith))))
  ]

  -- In a state where every name leads to a loader, the loops over the names return.
  abbrev AllLive : Process p → List (Text × ℕ) → Type 0
  AllLive s [] = Unit
  AllLive s ((k, l) ∷ names) =
      ((loader : ElfLoader) × (find_key l s.loaders ≡ some loader)) × AllLive s names

  abbrev Reads : Action p ℕ → Process p → Type 0
  Reads m s = (a : ℕ) × (m s ≡ ok (a, s))

  Reads-or_else :
      (sym : ℕ) (next : Action p ℕ) (s : Process p) → Reads next s → Reads (or_else sym next) s
  unfolding or_else
  Reads-or_else sym next s r = elim (Bool-cases (sym == 0)) [
    | inl zero_sym ↦ rw zero_sym r
    | inr other ↦ rw other (sym, refl)
  ]

  Reads-bind :
      (m : Action p ℕ) (k : ℕ → Action p ℕ) (s : Process p)
      → Reads m s
      → ((a : ℕ) → Reads (k a) s)
      → Reads (m >>= k) s
  unfolding ◌>>=◌
  Reads-bind m k s (a, e) next = rw e (next a)

  Reads-get_symbol :
      (l : ℕ) (symbol : Text) (s : Process p) (loader : ElfLoader)
      → find_key l s.loaders ≡ some loader
      → Reads (get_symbol l symbol) s
  unfolding get_symbol ◌>>=◌
  Reads-get_symbol l symbol s loader e = rw e (or_null (find symbol loader.exports), refl)

  Reads-handle_symbol :
      (handle : ℕ) (symbol : Text) (names : List (Text × ℕ)) (s : Process p)
      → AllLive s names
      → Reads (handle_symbol handle symbol names) s
  unfolding handle_symbol
  Reads-handle_symbol handle symbol [] s live = (0, refl)
  Reads-handle_symbol handle symbol ((k, l) ∷ names) s live =
      Reads-bind _ _ s
        (elim (Bool-cases (l == handle)) [
          | inl same ↦ rw same (Reads-get_symbol l symbol s live.0.0 live.0.1)
          | inr other ↦ rw other (0, refl)
        ])
        λ a. Reads-or_else a _ s (Reads-handle_symbol handle symbol names s live.1)

  Reads-any_symbol :
      (symbol : Text) (names : List (Text × ℕ)) (s : Process p)
      → AllLive s names
      → Reads (any_symbol symbol names) s
  unfolding any_symbol
  Reads-any_symbol symbol [] s live = (0, refl)
  Reads-any_symbol symbol ((k, l) ∷ names) s live =
      Reads-bind _ _ s (Reads-get_symbol l symbol s live.0.0 live.0.1)
        λ a. Reads-or_else a _ s (Reads-any_symbol symbol names s live.1)

  if_returns :
      (test : Bool) (a b : Process p)
      → (s' : Process p) × (◌≡◌ {A = Run (Unit {0} × Process p)}
          (if test then ok (tt, a) else ok (tt, b))
          (ok (tt, s')))
  if_returns true a b = (a, refl)
  if_returns false a b = (b, refl)

  when-returns :
      (test : Bool) (s : Process p)
      → (s' : Process p) × (when test init_bionic_ctype s ≡ ok (tt, s'))
  unfolding init_bionic_ctype
  when-returns false s = (s, refl)
  when-returns true s = if_returns s.ctype_initialized s _

  then_unit :
      (m : Action p (Unit {0})) (k : Unit {0} → Action p ℕ) (s s' : Process p)
      → m s ≡ ok (tt, s')
      → Finds (λ a. a ≢ 0) (k tt) s'
      → Finds (λ a. a ≢ 0) (m >>= k) s
  unfolding ◌>>=◌
  then_unit m k s s' e f = rw e f

  Finds-bind :
      (Q : ℕ → Type 0) (m : Action p ℕ) (k : ℕ → Action p ℕ) (s : Process p)
      → Reads m s
      → ((a : ℕ) → Finds Q (k a) s)
      → Finds Q (m >>= k) s
  unfolding ◌>>=◌
  Finds-bind Q m k s (a, e) next = rw e (next a)

  -- A look-up that ends in one that finds an address which is not null.
  then_nonzero :
      (m next : Action p ℕ) (s : Process p)
      → Reads m s
      → Finds (λ a. a ≢ 0) next s
      → Finds (λ a. a ≢ 0) (m >>= λ sym. or_else sym next) s
  then_nonzero m next s r found =
      Finds-bind (λ a. a ≢ 0) m _ s r λ a. Finds-or_else (λ a. a ≢ 0) a next s (λ h. h) found

  Reads-replaced : (o : Option Text) (s : Process p) → Reads (replaced_symbol o) s
  unfolding replaced_symbol system_symbol
  Reads-replaced none s = (0, refl)
  Reads-replaced (some converted) s = (_, refl)

  module _ (linked : (name : Text) → p.address_of name ≢ 0) where
    Finds-lookup_system : (name : Text) (s : Process p) → Finds (λ a. a ≢ 0) (lookup_system name) s
    unfolding lookup_system system_symbol
    Finds-lookup_system name s =
        then_nonzero _ _ s (_, refl)
          (then_nonzero _ _ s (Reads-replaced _ s)
            (then_nonzero _ _ s (Reads-replaced _ s) (_, (s, (refl, linked _)))))

    Finds-replacement :
        (o : Option Text) (name : Text) (s : Process p) → Finds (λ a. a ≢ 0) (replacement o name) s
    unfolding replacement
    Finds-replacement none name s = Finds-lookup_system name s
    Finds-replacement (some hook) name s =
        let (s', e) = when-returns (text_eq hook (codes "g_ctype_ptr")) s in
        then_unit _ _ s s' e (_, (s', (refl, linked hook)))

    Finds-lookup_hook : (name : Text) (s : Process p) → Finds (λ a. a ≢ 0) (lookup_hook name) s
    unfolding lookup_hook
    Finds-lookup_hook name s = Finds-replacement (find name hooks) name s

    -- The look-up in the replacements, whose result is not null, before the stub.
    Finds-last :
        (name : Text) (s : Process p)
        → Finds (λ a. a ≢ 0) (lookup_hook name >>= λ sym. or_else sym dummy_stub) s
    unfolding ◌>>=◌
    Finds-last name s =
        let (a, (s', (e, n))) = Finds-lookup_hook name s in
        rw e (Finds-or_else (λ a. a ≢ 0) a dummy_stub s' (λ h. h) (_, (s', (refl, linked _))))

    Finds-symbol :
        (handle : ℕ) (symbol : Text) (names : List (Text × ℕ)) (s : Process p)
        → AllLive s names
        → Finds (λ a. a ≢ 0) (symbol_among handle symbol names) s
    unfolding symbol_among
    Finds-symbol handle symbol names s live =
        then_nonzero _ _ s (Reads-handle_symbol handle symbol names s live) (
          then_nonzero _ _ s (Reads-any_symbol symbol names s live)
            (then_nonzero _ _ s (_, refl) (then_nonzero _ _ s (_, refl) (Finds-last symbol s))))

-- A loader for each entry of the skeleton.
loader_of :
    (i : ℕ) (siblings : List ℕ) (ls : List (ℕ × ElfLoader))
    → find_key i (objects_of ls) ≡ some siblings
    → (l : ElfLoader) × (find_key i ls ≡ some l)
unfolding find_key
loader_of i siblings [] e = absurd cc
loader_of i siblings ((j, l) ∷ ls) e = elim (Bool-cases (j == i)) [
  | inl same ↦ rw same (l, refl)
  | inr other ↦ rw other (loader_of i siblings ls (rw other at e))
]

module _ {p : Platform} where
  all_live :
      (s : Process p) (owners : List ℕ) (names : List (Text × ℕ))
      → ((i : ℕ) → is_owner owners i ≡ true → (l : ElfLoader) × (find_key i s.loaders ≡ some l))
      → Owned owners names
      → AllLive s names
  all_live s owners [] live own = tt
  all_live s owners ((k, l) ∷ names) live own = (live l own.0, all_live s owners names live own.1)

  two_live :
      (s : Process p) (n i : ℕ)
      → objects_of s.loaders ≡ (n + 1, n ∷ []) ∷ (n, (n + 1) ∷ []) ∷ []
      → is_owner ((n + 1) ∷ n ∷ []) i ≡ true
      → (l : ElfLoader) × (find_key i s.loaders ≡ some l)
  unfolding find_key
  two_live s n i objects owner = elim (Bool-cases (n + 1 == i)) [
    | inl first ↦ loader_of i (n ∷ []) s.loaders (rw (objects, first) refl)
    | inr other ↦
        loader_of i ((n + 1) ∷ []) s.loaders (rw (objects, other) (ground (arith, owner, other)))
  ]

  steady-AllLive : (s : Process p) → Steady (skeleton s) → AllLive s s.loaded_libraries
  steady-AllLive s (inl (n, g)) = all_live s [] s.loaded_libraries (λ i e. absurd cc) g.owned
  steady-AllLive s (inr (n, g)) =
      all_live s ((n + 1) ∷ n ∷ []) s.loaded_libraries (λ i e. two_live s n i g.objects_are e)
        g.owned

  -- In the states that calls lead to, and if the linker put no function of the loader at address 0,
  -- dlsym of a name returns for every handle, without a look at a deleted loader, and its result is
  -- never null.
  pub host_dlsym-nonzero :
      (handle : ℕ) (symbol : Text) (s : Process p)
      → ((name : Text) → p.address_of name ≢ 0)
      → Steady (skeleton s)
      → (address : ℕ) × ((s' : Process p) × ((host_dlsym handle (some symbol) s ≡ ok (address, s'))
            × (address ≢ 0)))
  unfolding host_dlsym ◌>>=◌
  host_dlsym-nonzero handle symbol s linked steady =
      Finds-symbol linked handle symbol s.loaded_libraries s (steady-AllLive s steady)
