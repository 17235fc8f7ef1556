-- ===== src/Core/Session/Triples.antt =====
-- What steps do to the globals beside the machine, whether they fail or not.
use anisette_kit.Prelude.{Bool, true, false, ◌≡◌, refl, if◌then◌else◌}
use anisette_kit.Prelude.Text.{Text}
use anisette_kit.Emulator.Host.{Host}
use anisette_kit.Emulator.Unicorn.{Unicorn}
use anisette_kit.Emulator.Vm.{Run, ok, Command}
use anisette_kit.Emulator.Vm.Runs.{and_then-ok}
use anisette_kit.Core.Session.{
  Session, Result, failed, done, Step, finish, continue, ◌>>=◌, lift, require, host_does,
}

-- A statement about the path and the id that the libraries were told, and whether they are initialised.
abbrev pub Fact : Type 1
Fact = (current_prov_path current_android_id : Text) → (libraries_initialized : Bool) → Type 0

-- A statement on the globals of a session, and one on those that a step leaves, failed or not.
module _ {u : Unicorn} {h : Host} where
  abbrev pub Holds : Fact → Session u h → Type 0
  Holds P s = P s.current_prov_path s.current_android_id s.libraries_initialized

  abbrev pub Outcome : {E A : Type 0} → (Q F : Fact) → Result E A → Session u h → Type 0
  Outcome Q F (failed e) s = Holds F s
  Outcome Q F (done a) s = Holds Q s

-- From a session with P, the step ends in one with Q, or fails in one with F, if it ends.
pub record Triple {u : Unicorn} {h : Host} {E A : Type 0} (P : Fact) (m : Step u h E A) (Q F : Fact)
    : Type 0 where
  pub ends : (s s' : Session u h) (r : Result E A) → Holds P s → m s ≡ ok (r, s') → Outcome Q F r s'

module _ {u : Unicorn} {h : Host} {E : Type 0} where
  Outcome-ok :
      {A : Type 0} (Q F : Fact) (r r' : Result E A) (s s' : Session u h)
      → Outcome Q F r s
      → ◌≡◌ {A = Run (Result E A × Session u h)} (ok (r, s)) (ok (r', s'))
      → Outcome Q F r' s'
  Outcome-ok Q F r r' s s' o e = let p : r ≡ r' = cc in let q : s ≡ s' = cc in rw (p, q) at o

  continue-Outcome :
      {A B : Type 0} (Q R F : Fact) (r : Result E A) (k : A → Step u h E B) (s s' : Session u h)
      (r' : Result E B)
      → Outcome R F r s
      → ((a : A) → Triple R (k a) Q F)
      → continue r k s ≡ ok (r', s')
      → Outcome Q F r' s'
  unfolding continue
  continue-Outcome Q R F (failed e) k s s' r' o t eq = Outcome-ok Q F (failed e) r' s s' o eq
  continue-Outcome Q R F (done a) k s s' r' o t eq = (t a).ends s s' r' o eq

  pub Triple-bind :
      {A B : Type 0} {P Q R F : Fact} {m : Step u h E A} {k : A → Step u h E B}
      → Triple P m R F
      → ((a : A) → Triple R (k a) Q F)
      → Triple P (m >>= k) Q F
  Triple-bind {Q = Q} {R = R} {F = F} {m = m} {k = k} t next = record {
    ends = λ s s' r p e.
        let ((r1, s1), first, rest) = and_then-ok (m s) (λ c. continue c.0 k c.1) (r, s') e in
        continue-Outcome Q R F r1 k s1 s' r (t.ends s s1 r1 p first) next rest;
  }

  pub Triple-finish :
      {A : Type 0} {P F : Fact} (a : A) → Triple {E = E} P (finish {u = u} {h = h} a) P F
  Triple-finish {P = P} {F = F} a = record {
    ends = λ s s' r p e. Outcome-ok P F (done a) r s s' p e;
  }

  pub Triple-read :
      {A : Type 0} {P F : Fact} (f : Session u h → A) → Triple {E = E} P (λ s. finish (f s) s) P F
  Triple-read {P = P} {F = F} f = record {
    ends = λ s s' r p e. Outcome-ok P F (done (f s)) r s s' p e;
  }

  pub Triple-lift : {A : Type 0} {P F : Fact} (c : Command u h A) → Triple {E = E} P (lift c) P F
  Triple-lift {P = P} {F = F} c = record {
    ends = λ s s' r p e.
        let ((a, vm), first, rest) = and_then-ok (c s.vm) _ (r, s') e in
        Outcome-ok P F (done a) r (record s { vm = vm }) s' p rest;
  }

  pub Triple-host :
      {P F : Fact} (act : h.World → h.World) → Triple {E = E} P (host_does {u = u} {h = h} act) P F
  Triple-host {P = P} {F = F} act = record {
    ends = λ s s' r p e.
        Outcome-ok P F (done tt) r (record s { vm = record s.vm { world = act s.vm.world } }) s' p
          e;
  }

  pub Triple-require :
      {P : Fact} (test : Bool) (e : E) → Triple P (require {u = u} {h = h} test e) P P
  Triple-require {P} true e = record { ends = λ s s' r p eq. Outcome-ok P P (done tt) r s s' p eq }
  Triple-require {P} false e = record {
    ends = λ s s' r p eq. Outcome-ok P P (failed e) r s s' p eq;
  }

  -- One of two steps, by a test.
  pub Triple-if :
      {A : Type 0} {P Q F : Fact} (test : Bool) {m m' : Step u h E A}
      → Triple P m Q F
      → Triple P m' Q F
      → Triple P (if test then m else m') Q F
  Triple-if true t t' = t
  Triple-if false t t' = t'

  Outcome-weaken :
      {A : Type 0} (Q Q' F F' : Fact) (r : Result E A) (s : Session u h)
      → ((p i : Text) (b : Bool) → Q p i b → Q' p i b)
      → ((p i : Text) (b : Bool) → F p i b → F' p i b)
      → Outcome Q F r s
      → Outcome Q' F' r s
  Outcome-weaken Q Q' F F' (failed e) s after fail o = fail _ _ _ o
  Outcome-weaken Q Q' F F' (done a) s after fail o = after _ _ _ o

  pub Triple-weaken :
      {A : Type 0} {P P' Q Q' F F' : Fact} {m : Step u h E A}
      → ((p i : Text) (b : Bool) → P' p i b → P p i b)
      → ((p i : Text) (b : Bool) → Q p i b → Q' p i b)
      → ((p i : Text) (b : Bool) → F p i b → F' p i b)
      → Triple P m Q F
      → Triple P' m Q' F'
  Triple-weaken {Q = Q} {Q' = Q'} {F = F} {F' = F'} before after fail t = record {
    ends =
        λ s s' r p e. Outcome-weaken Q Q' F F' r s' after fail (t.ends s s' r (before _ _ _ p) e);
  }

  -- A change of the globals.
  pub Triple-set :
      {P Q F : Fact} (f : Session u h → Session u h)
      → ((s : Session u h) → Holds P s → Holds Q (f s))
      → Triple {E = E} P (λ s. finish tt (f s)) Q F
  Triple-set {Q = Q} {F = F} f change = record {
    ends = λ s s' r p e. Outcome-ok Q F (done tt) r (f s) s' (change s p) e;
  }

  choose-Outcome :
      {P Q F : Fact} {m : Step u h E (Unit {0})} (test : Bool) (s s' : Session u h)
      (r : Result E (Unit {0}))
      → (test ≡ true → Holds Q s)
      → Triple P m Q F
      → Holds P s
      → (if test then finish tt s else m s) ≡ ok (r, s')
      → Outcome Q F r s'
  choose-Outcome {Q = Q} {F = F} true s s' r change t p e =
      Outcome-ok Q F (done tt) r s s' (change refl) e
  choose-Outcome false s s' r change t p e = t.ends s s' r p e

  -- A step that is left out where a test finds its work done.
  pub Triple-unless :
      {P Q F : Fact} {m : Step u h E (Unit {0})} (test : Session u h → Bool)
      → ((s : Session u h) → Holds P s → test s ≡ true → Holds Q s)
      → Triple P m Q F
      → Triple P (λ s. if test s then finish tt s else m s) Q F
  Triple-unless {m = m} test change t = record {
    ends = λ s s' r p e. choose-Outcome {m = m} (test s) s s' r (change s p) t p e;
  }
