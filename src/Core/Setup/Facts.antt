-- ===== src/Core/Setup/Facts.antt =====
-- What the steps of a set-up leave in the globals, and what they return.
use anisette_kit.Prelude.{ℕ, ◌≡◌, refl, sym, true, false, some, List, []}
use anisette_kit.Prelude.Text.{Text, text_eq, text_eq-eq}
use anisette_kit.Base.Uuid.{get_android_id_string}
use anisette_kit.Emulator.Host.{Host}
use anisette_kit.Emulator.Unicorn.{Unicorn}
use anisette_kit.Emulator.Vm.{ok}
use anisette_kit.Emulator.Procedure.{EmuStart}
use anisette_kit.Core.Session.{
  Session, Result, failed, done, Step, finish, continue, ◌>>=◌, host_does,
}
use anisette_kit.Core.Session.Triples.{
  Triple-set, Triple-unless, Fact, Triple, Triple-bind, Triple-finish, Triple-lift, Triple-host,
  Triple-require, Triple-weaken,
}
use anisette_kit.Emulator.Vm.Runs.{and_then-ok}
use anisette_kit.Core.Setup.{
  setup_symbol, load_libraries, setup_call, initialize_libraries, need_libraries, set_prov_path,
  need_prov_path, set_id, need_id, uuid_prov_dir, setup_session,
}

-- Before the libraries are initialised they were told nothing.
abbrev pub IsConsistent : Fact
IsConsistent path id initialized = initialized ≡ false → (path ≡ []) × (id ≡ [])

abbrev Ready : Fact
Ready path id initialized = initialized ≡ true

abbrev ReadyAt : Text → Fact
ReadyAt dir path id initialized = (initialized ≡ true) × (path ≡ dir)

-- The libraries are initialised, and were last told this directory and this id.
abbrev pub IsSetUp : (dir android_id : Text) → Fact
IsSetUp dir android_id path id initialized = (initialized ≡ true) × (path ≡ dir) × (id ≡ android_id)

module _ {u : Unicorn} {h : Host} where
  setup_symbol-Triple :
      {P : Fact} (name err : Text) → Triple {u = u} {h = h} P (setup_symbol name err) P P
  unfolding setup_symbol
  setup_symbol-Triple name err =
      Triple-bind (Triple-lift _) λ ptr. Triple-bind (Triple-require _ _) λ done. Triple-finish ptr

  load_libraries-Triple :
      {P : Fact} (rounds : ℕ) (path : Text)
      → Triple {u = u} {h = h} P (load_libraries rounds path) P P
  unfolding load_libraries
  load_libraries-Triple rounds path = Triple-bind (Triple-lift _) λ ssc.
      Triple-bind (Triple-require _ _)
        λ found. Triple-bind (Triple-lift _) λ core. Triple-require _ _

  module _ (emu_start : EmuStart u h) where
    setup_call-Triple :
        {P : Fact} (call : Text) (ptr : ℕ) (args : List ℕ)
        → Triple P (setup_call emu_start call ptr args) P P
    unfolding setup_call
    setup_call-Triple call ptr args = Triple-bind (Triple-lift _) λ res. Triple-require _ _

    initialize_libraries-Triple :
        (rounds : ℕ) (path : Text)
        → Triple IsConsistent (initialize_libraries emu_start rounds path) Ready IsConsistent
    unfolding initialize_libraries
    initialize_libraries-Triple rounds path =
        Triple-bind (load_libraries-Triple rounds path) λ loaded.
          Triple-bind (Triple-lift _) λ relocated. Triple-bind (Triple-lift _) λ constructed.
            Triple-bind (setup_symbol-Triple _ _) λ ptr.
              Triple-bind (Triple-lift _)
                λ text. Triple-bind (setup_call-Triple _ _ _) λ called. Triple-set _ λ s p. refl

    need_libraries-Triple :
        (rounds : ℕ) (path : Text)
        → Triple IsConsistent (need_libraries emu_start rounds path) Ready IsConsistent
    unfolding need_libraries
    need_libraries-Triple rounds path =
        Triple-unless (λ s. s.libraries_initialized) (λ s p ready. ready)
          (initialize_libraries-Triple rounds path)

    set_prov_path-Triple :
        (dir : Text) → Triple Ready (set_prov_path emu_start dir) (ReadyAt dir) Ready
    unfolding set_prov_path
    set_prov_path-Triple dir = Triple-bind (setup_symbol-Triple _ _) λ ptr.
        Triple-bind (Triple-lift _)
          λ text. Triple-bind (setup_call-Triple _ _ _) λ called. Triple-set _ λ s p. (p, refl)

    need_prov_path-Triple :
        (dir : Text) → Triple Ready (need_prov_path emu_start dir) (ReadyAt dir) Ready
    unfolding need_prov_path
    need_prov_path-Triple dir =
        Triple-unless (λ s. text_eq dir s.current_prov_path)
          (λ s p same. (p, sym (text_eq-eq dir s.current_prov_path same)))
          (set_prov_path-Triple dir)

    set_id-Triple :
        (dir android_id : Text)
        → Triple (ReadyAt dir) (set_id emu_start android_id) (IsSetUp dir android_id) (ReadyAt dir)
    unfolding set_id
    set_id-Triple dir android_id = Triple-bind (setup_symbol-Triple _ _) λ ptr.
        Triple-bind (Triple-lift _) λ text.
          Triple-bind (setup_call-Triple _ _ _) λ called. Triple-set _ λ s p. (p.0, p.1, refl)

    need_id-Triple :
        (dir android_id : Text)
        → Triple (ReadyAt dir) (need_id emu_start android_id) (IsSetUp dir android_id) (ReadyAt dir)
    unfolding need_id
    need_id-Triple dir android_id =
        Triple-unless (λ s. text_eq android_id s.current_android_id)
          (λ s p same. (p.0, p.1, sym (text_eq-eq android_id s.current_android_id same)))
          (set_id-Triple dir android_id)

    pub setup_session-Triple :
        (rounds : ℕ) (lib_dir provisioning_dir : Text) (identifier : List ℕ)
        → Triple IsConsistent
            (setup_session emu_start rounds lib_dir provisioning_dir identifier)
            (IsSetUp
              (uuid_prov_dir provisioning_dir identifier)
              (get_android_id_string (some identifier)))
            IsConsistent
    unfolding setup_session
    setup_session-Triple rounds lib_dir provisioning_dir identifier =
        Triple-bind (need_libraries-Triple rounds _) λ initialized.
          Triple-bind (Triple-host _) λ made.
            Triple-bind
              (Triple-weaken (λ p i b r. r) (λ p i b r. r) (λ p i b r no. cc)
                (need_prov_path-Triple _))
              λ there.
                Triple-bind
                  (Triple-weaken (λ p i b r. r) (λ p i b r. r) (λ p i b r no. absurd (cc r.0))
                    (need_id-Triple _ _))
                  λ told. Triple-finish _

  -- Steps that end with one result.
  pub record Yields {A : Type 0} (m : Step u h Text A) (a : A) : Type 0 where
    pub yields : (s s' : Session u h) (a' : A) → m s ≡ ok (done a', s') → a' ≡ a

  continue-Yields :
      {A B : Type 0} {k : A → Step u h Text B} {b : B} (r : Result Text A) (s s' : Session u h)
      (b' : B)
      → ((a : A) → Yields (k a) b)
      → continue r k s ≡ ok (done b', s')
      → b' ≡ b
  unfolding continue
  continue-Yields (failed err) s s' b' next e = absurd cc
  continue-Yields (done a) s s' b' next e = (next a).yields s s' b' e

  Yields-bind :
      {A B : Type 0} {k : A → Step u h Text B} {b : B} (m : Step u h Text A)
      → ((a : A) → Yields (k a) b)
      → Yields (m >>= k) b
  Yields-bind {k = k} m next = record {
    yields = λ s s' b' e.
        let ((r1, s1), first, rest) = and_then-ok (m s) (λ c. continue c.0 k c.1) (done b', s') e in
        continue-Yields r1 s1 s' b' next rest;
  }

  Yields-finish : {A : Type 0} (a : A) → Yields (finish a) a
  Yields-finish a = record { yields = λ s s' a' e. cc }

  pub setup_session-Yields :
      (emu_start : EmuStart u h) (rounds : ℕ) (lib_dir provisioning_dir : Text)
      (identifier : List ℕ)
      → Yields
          (setup_session emu_start rounds lib_dir provisioning_dir identifier)
          (uuid_prov_dir provisioning_dir identifier)
  unfolding setup_session
  setup_session-Yields emu_start rounds lib_dir provisioning_dir identifier =
      Yields-bind (need_libraries emu_start rounds _) λ initialized.
        Yields-bind (host_does _) λ made.
          Yields-bind (need_prov_path emu_start _)
            λ there. Yields-bind (need_id emu_start _) λ told. Yields-finish _
