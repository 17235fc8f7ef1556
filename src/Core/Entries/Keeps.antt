-- ===== src/Core/Entries/Keeps.antt =====
-- What a call of a function keeps in the globals.
use anisette_kit.Prelude.{
  ℕ, ◌≡◌, sym, subst, Bool, true, false, Option, none, some, List, ◌==◌, Bool-cases, inl, inr,
}
use anisette_kit.Prelude.Text.{Text}
use anisette_kit.Emulator.Host.{Host}
use anisette_kit.Emulator.Unicorn.{Unicorn}
use anisette_kit.Emulator.Vm.{Run, ok, and_then}
use anisette_kit.Emulator.Procedure.{EmuStart}
use anisette_kit.Core.Session.{Session, Globals, idle, running, Result, failed, done, Step}
use anisette_kit.Core.Session.Triples.{
  Fact, Holds, Outcome, Triple, Triple-bind, Triple-finish, Triple-lift, Triple-if,
}
use anisette_kit.Emulator.Vm.Runs.{and_then-ok}
use anisette_kit.Core.Setup.{
  setup_session, setup_vm_and_adi, setup_shared, shared_vm, after_session, world_of,
}
use anisette_kit.Core.Setup.Facts.{IsConsistent, IsSetUp, setup_session-Triple}
use anisette_kit.Core.Setup.Again.{AllHold, shared_vm-IsConsistent}
use anisette_kit.Core.Bodies.{Response, invalid_argument}
use anisette_kit.Core.Entries.{
  Entry, given, given_out, after_body, after_setup, with_setup, destroy, cancel_body, cancel_shared,
}

module _ {u : Unicorn} {h : Host} {P : Fact} where
  module _ (emu_start : EmuStart u h) where
    destroy-Triple : (ptr session : ℕ) → Triple P (destroy emu_start ptr session) P P
    unfolding destroy
    destroy-Triple ptr session =
        Triple-if (ptr == 0) (Triple-finish _) (Triple-bind (Triple-lift _) λ res. Triple-finish _)

    pub cancel_body-Triple : (session : ℕ) → Triple P (cancel_body emu_start session) P P
    unfolding cancel_body
    cancel_body-Triple session =
        Triple-bind (Triple-lift _)
          λ ptr. Triple-bind (destroy-Triple ptr session) λ destroyed. Triple-finish _

IsSetUp-IsConsistent :
    (dir android_id p i : Text) (b : Bool) → IsSetUp dir android_id p i b → IsConsistent p i b
IsSetUp-IsConsistent dir android_id p i b is_set off = absurd (cc is_set.0)

module _ {u : Unicorn} {h : Host} where
  -- A call keeps what holds of each session there.
  pub record Keeps (P : Fact) (entry : Entry u h) : Type 0 where
    pub keeps :
        (g g' : Globals u h) (response : Response)
        → AllHold P g
        → entry g ≡ ok (response, g')
        → AllHold P g'

  same-AllHold :
      (P : Fact) (g g' : Globals u h) (a b : Response)
      → AllHold P g
      → ◌≡◌ {A = Run (Response × Globals u h)} (ok (a, g)) (ok (b, g'))
      → AllHold P g'
  same-AllHold P g g' a b p e = let at : g ≡ g' = cc in subst (λ g. AllHold P g) at p

  pub given-Keeps :
      {A : Type 0} {P : Fact} (o : Option A) {entry : A → Entry u h}
      → ((a : A) → Keeps P (entry a))
      → Keeps P (given o entry)
  unfolding given
  given-Keeps {P = P} none k = record {
    keeps = λ g g' response p e. same-AllHold P g g' invalid_argument response p e;
  }
  given-Keeps (some a) k = k a

  pub given_out-Keeps :
      {P : Fact} (out : Bool) {entry : Entry u h} → Keeps P entry → Keeps P (given_out out entry)
  unfolding given_out
  given_out-Keeps {P} false k = record {
    keeps = λ g g' response p e. same-AllHold P g g' invalid_argument response p e;
  }
  given_out-Keeps true k = k

  after_body-AllHold :
      (P : Fact) (r : Result Response Response) (s : Session u h)
      → Outcome P P r s
      → AllHold P (after_body (r, s)).1
  unfolding after_body
  after_body-AllHold P (failed response) s p = p
  after_body-AllHold P (done response) s p = p

  -- A body that keeps a statement, and what is returned for it.
  body-AllHold :
      {P : Fact} {body : Step u h Response Response}
      → Triple P body P P
      → (s : Session u h) (response : Response) (g' : Globals u h) → Holds P s
      → and_then (body s) (λ r. ok (after_body r)) ≡ ok (response, g')
      → AllHold P g'
  body-AllHold {P} {body} t s response g' p e =
      let ((r, s'), first, rest) = and_then-ok (body s) (λ r. ok (after_body r)) (response, g') e in
      let at : (after_body (r, s')).1 ≡ g' = cc in
      subst (λ g. AllHold P g) at (after_body-AllHold P r s' (t.ends s s' r p first))

  -- What follows a set-up.
  after_setup-AllHold :
      {P Q : Fact} {body : (dir : Text) → Step u h Response Response}
      → ((p i : Text) (b : Bool) → Q p i b → P p i b)
      → ((dir : Text) → Triple P (body dir) P P)
      → (r : Result Text Text) (s : Session u h) (response : Response) (g' : Globals u h)
      → Outcome Q P r s
      → after_setup body (after_session (r, s)) ≡ ok (response, g')
      → AllHold P g'
  unfolding after_setup after_session
  after_setup-AllHold {P = P} weak t (failed err) s response g' p e =
      same-AllHold P (running s) g' _ response p e
  after_setup-AllHold weak t (done dir) s response g' p e =
      body-AllHold (t dir) s response g' (weak _ _ _ p) e

  module _ (emu_start : EmuStart u h) (rounds : ℕ) (new_vm : Option u.State) where
    pub with_setup-Keeps :
        (lib_dir provisioning_dir : Text) (identifier : List ℕ)
        {body : (dir : Text) → Step u h Response Response}
        → ((dir : Text) → Triple IsConsistent (body dir) IsConsistent IsConsistent)
        → Keeps IsConsistent
            (with_setup emu_start rounds new_vm lib_dir provisioning_dir identifier body)
    unfolding with_setup setup_vm_and_adi setup_shared after_setup
    with_setup-Keeps lib_dir provisioning_dir identifier {body} t = record {
      keeps = λ g g' response p e. elim (Bool-cases (h.is_directory (world_of g) lib_dir)) [
        | inr missing ↦ let e' = rw missing at e in same-AllHold IsConsistent g g' _ response p e'
        | inl found ↦
            let e' = rw found at e in
            let (res, first, last) = and_then-ok _ (after_setup body) (response, g') e' in
            let (s0, start, rest) = and_then-ok (shared_vm new_vm g) _ res first in
            let ((r, s), set, at) =
              and_then-ok (setup_session emu_start rounds lib_dir provisioning_dir identifier s0) _
                res rest in
            let same : after_session (r, s) ≡ res = cc in
            let told =
              (setup_session-Triple emu_start rounds lib_dir provisioning_dir identifier).ends s0 s
                r (shared_vm-IsConsistent new_vm g s0 p start) set in
            after_setup-AllHold (IsSetUp-IsConsistent _ _) t r s response g' told
              (subst (λ q. after_setup body q ≡ ok (response, g')) (sym same) last)
      ];
    }

    cancel_shared-AllHold :
        (P : Fact) (session : ℕ) (g g' : Globals u h) (response : Response)
        → AllHold P g
        → cancel_shared emu_start rounds new_vm session g ≡ ok (response, g')
        → AllHold P g'
    unfolding cancel_shared
    cancel_shared-AllHold P session (idle w) g' response p e =
        same-AllHold P (idle w) g' _ response p e
    cancel_shared-AllHold P session (running s) g' response p e =
        body-AllHold (cancel_body-Triple emu_start session) s response g' p e

    pub cancel_shared-Keeps :
        {P : Fact} (session : ℕ) → Keeps P (cancel_shared emu_start rounds new_vm session)
    cancel_shared-Keeps {P} session = record { keeps = cancel_shared-AllHold P session }
