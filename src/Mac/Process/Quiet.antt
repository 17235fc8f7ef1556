-- ===== src/Mac/Process/Quiet.antt =====
-- What there is of loaders, names and globals, and the actions that leave it alone.
use anisette_kit.Prelude.{
  ℕ, zero, suc, ◌≡◌, refl, ap, ◌∙◌, Bool, true, false, Option, none, some, List, [], ◌∷◌, ◌==◌,
  if◌then◌else◌, arith, length,
}
use anisette_kit.Prelude.Text.{Text}
use anisette_kit.Emulator.Vm.{Run, ok, out_of_fuel, undefined, and_then, find_key, insert_key}
use anisette_kit.Emulator.Vm.Runs.{and_then-ok}
use anisette_kit.Mac.Platform.{Platform}
use anisette_kit.Mac.Process.{
  ElfLoader, Process, Action, pure, ◌>>=◌, checked, stored, gets, host_does, host_step,
  host_checked, store_bytes, load_bytes, load_number, text_from, text_at, loader_at, put_loader,
  change_loader,
}

-- The loaders with their siblings, the next loader's number, the map of the names, and the globals.
pub record Skeleton : Type 0 where
  pub objects : List (ℕ × List ℕ)
  pub next : ℕ
  pub names : List (Text × ℕ)
  pub adi : Option ℕ
  pub ssc : Option ℕ

abbrev pub objects_of : List (ℕ × ElfLoader) → List (ℕ × List ℕ)
objects_of [] = []
objects_of ((i, l) ∷ ls) = (i, l.siblings) ∷ objects_of ls

abbrev pub skeleton : {p : Platform} → Process p → Skeleton
skeleton s = record {
  objects = objects_of s.loaders;
  next = s.next_loader;
  names = s.loaded_libraries;
  adi = s.g_adi;
  ssc = s.g_ssc;
}

pub record Quiet {p : Platform} {A : Type 0} (m : Action p A) : Type 0 where
  pub same : (s s' : Process p) (a : A) → m s ≡ ok (a, s') → skeleton s ≡ skeleton s'

module _ {p : Platform} where
  same_state :
      {A : Type 0} (a a' : A) (s t s' : Process p)
      → skeleton s ≡ skeleton t
      → ◌≡◌ {A = Run (A × Process p)} (ok (a, t)) (ok (a', s'))
      → skeleton s ≡ skeleton s'
  same_state a a' s t s' q e = let r : t ≡ s' = cc in q ∙ ap skeleton r

  pub Quiet-bind :
      {A B : Type 0} {m : Action p A} {k : A → Action p B}
      → Quiet m
      → ((a : A) → Quiet (k a))
      → Quiet (m >>= k)
  unfolding ◌>>=◌
  Quiet-bind {m = m} {k = k} q next = record {
    same = λ s s' b e.
        let ((a, t), first, rest) = and_then-ok (m s) (λ r. k r.0 r.1) (b, s') e in
        q.same s t a first ∙ (next a).same t s' b rest;
  }

  pub Quiet-pure : {A : Type 0} (a : A) → Quiet (pure {p = p} a)
  Quiet-pure a = record { same = λ s s' b e. same_state a b s s s' refl e }

  pub Quiet-gets : {A : Type 0} (f : Process p → A) → Quiet (gets f)
  Quiet-gets f = record { same = λ s s' b e. same_state (f s) b s s s' refl e }

  pub Quiet-fuel : {A : Type 0} → Quiet {p = p} {A = A} (λ s. out_of_fuel)
  Quiet-fuel = record { same = λ s s' b e. absurd cc }

  pub Quiet-checked : {A : Type 0} (o : Option A) → Quiet (checked {p = p} o)
  Quiet-checked none = record { same = λ s s' b e. absurd cc }
  Quiet-checked (some a) = record { same = λ s s' b e. same_state a b s s s' refl e }

  -- A value that the state gives, if it gives one.
  pub Quiet-asked : {A : Type 0} (f : Process p → Option A) → Quiet (λ s. checked {p = p} (f s) s)
  Quiet-asked f = record { same = λ s s' b e. (Quiet-checked (f s)).same s s' b e }

  pub Quiet-load_bytes : (address size : ℕ) → Quiet (load_bytes {p = p} address size)
  Quiet-load_bytes address size = Quiet-asked (λ s. p.read_mem s.world address size)

  pub Quiet-loader_at : (this : ℕ) → Quiet (loader_at {p = p} this)
  Quiet-loader_at this = Quiet-asked (λ s. find_key this s.loaders)

  pub Quiet-host_does : (act : p.host.World → p.host.World) → Quiet (host_does {p = p} act)
  Quiet-host_does act = record {
    same = λ s s' b e. same_state tt b s (record s { world = act s.world }) s' refl e;
  }

  pub Quiet-host_step :
      {A : Type 0} (act : p.host.World → A × p.host.World) → Quiet (host_step {p = p} act)
  Quiet-host_step act = record {
    same =
        λ s s' b e. same_state (act s.world).0 b s (record s { world = (act s.world).1 }) s' refl e;
  }

  checked_state :
      {A : Type 0} (o : Option (A × p.host.World)) (s s' : Process p) (a : A)
      → ◌≡◌ {A = Run (A × Process p)}
          (elim o [ none ↦ undefined | some r ↦ ok (r.0, record s { world = r.1 }) ])
          (ok (a, s'))
      → skeleton s ≡ skeleton s'
  checked_state none s s' a e = absurd cc
  checked_state (some r) s s' a e = same_state r.0 a s (record s { world = r.1 }) s' refl e

  pub Quiet-host_checked :
      {A : Type 0} (act : p.host.World → Option (A × p.host.World))
      → Quiet (host_checked {p = p} act)
  Quiet-host_checked act = record { same = λ s s' b e. checked_state (act s.world) s s' b e }

  stored-Quiet : (o : Option p.host.World) → Quiet (stored {p = p} o)
  stored-Quiet none = record { same = λ s s' b e. absurd cc }
  stored-Quiet (some w) = record {
    same = λ s s' b e. same_state tt b s (record s { world = w }) s' refl e;
  }

  -- One of two actions, by a test.
  pub Quiet-if :
      {A : Type 0} (test : Bool) {m m' : Action p A}
      → Quiet m
      → Quiet m'
      → Quiet (if test then m else m')
  Quiet-if true q q' = q
  Quiet-if false q q' = q'

  store_if :
      (test : Bool) (o : Option p.host.World) (s s' : Process p) (a : Unit {0})
      → (if test then ok (tt, s) else stored {p = p} o s) ≡ ok (a, s')
      → skeleton s ≡ skeleton s'
  store_if true o s s' a e = same_state tt a s s s' refl e
  store_if false o s s' a e = (stored-Quiet o).same s s' a e

  pub Quiet-store_bytes : (address : ℕ) (bytes : List ℕ) → Quiet (store_bytes {p = p} address bytes)
  unfolding store_bytes
  Quiet-store_bytes address bytes = record {
    same = λ s s' a e. store_if (length bytes == 0) (p.write_mem s.world address bytes) s s' a e;
  }

  pub Quiet-load_number : (address size : ℕ) → Quiet (load_number {p = p} address size)
  unfolding load_number
  Quiet-load_number address size = Quiet-bind (Quiet-load_bytes address size) λ bytes. Quiet-pure _

  pub Quiet-text_at : (rounds address : ℕ) → Quiet (text_at {p = p} rounds address)
  unfolding text_at text_from
  Quiet-text_at zero address = Quiet-fuel
  Quiet-text_at (suc rounds) address = Quiet-bind (Quiet-load_number address 1) λ c.
      Quiet-if (c == 0) (Quiet-pure [])
        (Quiet-bind (Quiet-text_at rounds _) λ cs. Quiet-pure (c ∷ cs))

pub objects-insert_key :
    (this : ℕ) (l l' : ElfLoader) (ls : List (ℕ × ElfLoader))
    → find_key this ls ≡ some l
    → l.siblings ≡ l'.siblings
    → objects_of ls ≡ objects_of (insert_key this l' ls)
unfolding find_key insert_key
objects-insert_key this l l' [] e q = absurd cc
objects-insert_key this l l' ((i, m) ∷ ls) e q = ground (arith, objects-insert_key this l l' ls)

change_at :
    {p : Platform} (this : ℕ) (f : ElfLoader → ElfLoader)
    (same_siblings : (l : ElfLoader) → l.siblings ≡ (f l).siblings) (s s' : Process p)
    (a : Unit {0}) (l : ElfLoader)
    → find_key this s.loaders ≡ some l
    → ◌≡◌ {A = Run (Unit {0} × Process p)}
        (ok (tt, record s { loaders = insert_key this (f l) s.loaders }))
        (ok (a, s'))
    → skeleton s ≡ skeleton s'
change_at this f same_siblings s s' a l found e =
    same_state tt a s (record s { loaders = insert_key this (f l) s.loaders }) s'
      (ap
        (λ (o : List (ℕ × List ℕ)). record {
          objects = o;
          next = s.next_loader;
          names = s.loaded_libraries;
          adi = s.g_adi;
          ssc = s.g_ssc;
        })
        (objects-insert_key this l (f l) s.loaders found (same_siblings l)))
      e

change_found :
    {p : Platform} (this : ℕ) (f : ElfLoader → ElfLoader)
    (same_siblings : (l : ElfLoader) → l.siblings ≡ (f l).siblings) (s s' : Process p)
    (a : Unit {0}) (o : Option ElfLoader)
    → find_key this s.loaders ≡ o
    → and_then (checked {p = p} o s) (λ r. put_loader this (f r.0) r.1) ≡ ok (a, s')
    → skeleton s ≡ skeleton s'
change_found this f same_siblings s s' a none found e = absurd cc
change_found this f same_siblings s s' a (some l) found e =
    change_at this f same_siblings s s' a l found e

pub Quiet-change_loader :
    {p : Platform} (this : ℕ) (f : ElfLoader → ElfLoader)
    → ((l : ElfLoader) → l.siblings ≡ (f l).siblings)
    → Quiet (change_loader {p = p} this f)
unfolding change_loader ◌>>=◌
Quiet-change_loader this f same_siblings = record {
  same = λ s s' a e. change_found this f same_siblings s s' a (find_key this s.loaders) refl e;
}
