-- ===== src/Core/Session.antt =====
-- The state behind the C interface of Native/anisette_core_uc.cpp, and steps on it that can fail.
-- The mutex lets one call in at a time, so a call is a function on this state.
pub mod Triples
use anisette_kit.Prelude.{Bool, true, false, []}
use anisette_kit.Prelude.Text.{Text}
use anisette_kit.Emulator.Host.{Host}
use anisette_kit.Emulator.Unicorn.{Unicorn}
use anisette_kit.Emulator.Vm.{Vm, Run, ok, and_then, Command}

-- The globals once `g_shared_vm` is there. Before, the others have their initial values.
pub record Session (u : Unicorn) (h : Host) : Type 0 where
  pub vm : Vm u h
  pub current_prov_path : Text
  pub current_android_id : Text
  pub libraries_initialized : Bool

pub data Globals (u : Unicorn) (h : Host) : Type 0 where
  idle : h.World → Globals u h
  running : Session u h → Globals u h

-- How a step ends that can fail: with a reason or with a result.
pub data Result (E A : Type 0) : Type 0 where
  failed : E → Result E A
  done : A → Result E A

module _ (u : Unicorn) (h : Host) where
  abbrev pub Step : (E A : Type 0) → Type 0
  Step E A = Session u h → Run (Result E A × Session u h)

module _ {u : Unicorn} {h : Host} {E : Type 0} where
  abbrev pub finish : {A : Type 0} → A → Step u h E A
  finish a s = ok (done a, s)

  -- What follows a step, unless it failed.
  unfoldable pub continue : {A B : Type 0} → Result E A → (A → Step u h E B) → Step u h E B
  continue (failed e) k s = ok (failed e, s)
  continue (done a) k s = k a s

  infixl 5 ◌>>=◌ ◌>>◌
  abbrev pub ◌>>=◌ : {A B : Type 0} → Step u h E A → (A → Step u h E B) → Step u h E B
  ◌>>=◌ m k s = and_then (m s) λ r. continue r.0 k r.1

  abbrev pub ◌>>◌ : {B : Type 0} → Step u h E (Unit {0}) → Step u h E B → Step u h E B
  m >> k = m >>= λ _. k

  -- A command of the machine, which does not fail.
  abbrev pub lift : {A : Type 0} → Command u h A → Step u h E A
  lift command s = and_then (command s.vm) λ r. ok (done r.0, record s { vm = r.1 })

  -- `if (!test) return false;` with the reason set before.
  abbrev pub require : Bool → E → Step u h E (Unit {0})
  require true e s = ok (done tt, s)
  require false e s = ok (failed e, s)

  -- A call that changes only the host.
  abbrev pub host_does : (h.World → h.World) → Step u h E (Unit {0})
  host_does act s = finish tt (record s { vm = record s.vm { world = act s.vm.world } })
