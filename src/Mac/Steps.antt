-- ===== src/Mac/Steps.antt =====
-- Actions of the core over the host loader that can fail with a reason, for do blocks.
use anisette_kit.Prelude.{Bool, true, false}
use anisette_kit.Core.Session.{Result, failed, done}
use anisette_kit.Mac.Platform.{Platform}
use anisette_kit.Mac.Process
use anisette_kit.Mac.Process.{Action, Step, ◌>>=◌ as bind}

module _ {p : Platform} {E : Type 0} where
  abbrev pub finish : {A : Type 0} → A → Step p E A
  finish a = Process.pure (done a)

  abbrev pub fail : {A : Type 0} → E → Step p E A
  fail e = Process.pure (failed e)

  unfoldable pub continue : {A B : Type 0} → Result E A → (A → Step p E B) → Step p E B
  continue (failed e) k = fail e
  continue (done a) k = k a

  infixl 5 ◌>>=◌ ◌>>◌
  abbrev pub ◌>>=◌ : {A B : Type 0} → Step p E A → (A → Step p E B) → Step p E B
  m >>= k = bind m λ r. continue r k

  abbrev pub ◌>>◌ : {B : Type 0} → Step p E (Unit {0}) → Step p E B → Step p E B
  m >> k = m >>= λ _. k

  -- An action that does not fail.
  abbrev pub lift : {A : Type 0} → Action p A → Step p E A
  lift action = bind action λ a. finish a

  -- `if (!test) { cleanup; return reason; }`
  unfoldable pub require_or : Bool → (cleanup : Action p (Unit {0})) → E → Step p E (Unit {0})
  require_or true cleanup e = finish tt
  require_or false cleanup e = bind cleanup λ _. fail e

  abbrev pub require : Bool → E → Step p E (Unit {0})
  require test e = require_or test (Process.pure tt) e
