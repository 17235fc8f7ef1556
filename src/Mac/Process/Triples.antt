-- ===== src/Mac/Process/Triples.antt =====
-- What actions do to the loaders, the names and the globals, with what their results say.
use anisette_kit.Prelude.{inr, inl, ◌⊎◌, Bool, true, false, ◌≡◌, if◌then◌else◌, subst}
use anisette_kit.Core.Session.{Result, failed, done}
use anisette_kit.Emulator.Vm.{Run, ok}
use anisette_kit.Emulator.Vm.Runs.{and_then-ok}
use anisette_kit.Mac.Platform.{Platform}
use anisette_kit.Mac.Process.{Process, Action, pure, ◌>>=◌, gets, update}
use anisette_kit.Mac.Process.Quiet.{Skeleton, skeleton, Quiet}

abbrev pub Fact : Type 1
Fact = Skeleton → Type 0

-- From a state with P, the action ends in one with Q of its result, if it ends.
pub record Triple {p : Platform} {A : Type 0} (P : Fact) (m : Action p A) (Q : A → Fact)
    : Type 0 where
  pub ends : (s s' : Process p) (a : A) → P (skeleton s) → m s ≡ ok (a, s') → Q a (skeleton s')

-- Facts for the two ways in which a step ends.
abbrev pub Outcome : {E A : Type 0} → (Q : A → Fact) → (F : E → Fact) → Result E A → Fact
Outcome Q F (failed e) k = F e k
Outcome Q F (done a) k = Q a k

module _ {p : Platform} where
  ends_at :
      {A : Type 0} (Q : A → Fact) (a a' : A) (s s' : Process p)
      → Q a (skeleton s)
      → ◌≡◌ {A = Run (A × Process p)} (ok (a, s)) (ok (a', s'))
      → Q a' (skeleton s')
  ends_at Q a a' s s' h e = let q : a ≡ a' = cc in let r : s ≡ s' = cc in rw (q, r) at h

  pub Triple-Quiet : {A : Type 0} {P : Fact} {m : Action p A} → Quiet m → Triple P m (λ _. P)
  Triple-Quiet {P = P} q = record { ends = λ s s' a h e. subst P (q.same s s' a e) h }

  pub Triple-bind :
      {A B : Type 0} {P : Fact} {R : A → Fact} {Q : B → Fact} {m : Action p A} {k : A → Action p B}
      → Triple P m R
      → ((a : A) → Triple (R a) (k a) Q)
      → Triple P (m >>= k) Q
  unfolding ◌>>=◌
  Triple-bind {m = m} {k = k} t next = record {
    ends = λ s s' b h e.
        let ((a, u), first, rest) = and_then-ok (m s) (λ r. k r.0 r.1) (b, s') e in
        (next a).ends u s' b (t.ends s u a h first) rest;
  }

  pub Triple-pure :
      {A : Type 0} {P : Fact} (Q : A → Fact) (a : A)
      → ((k : Skeleton) → P k → Q a k)
      → Triple P (pure {p = p} a) Q
  Triple-pure Q a gives = record {
    ends = λ s s' b h e. ends_at Q a b s s' (gives (skeleton s) h) e;
  }

  -- An action that always ends.
  pub Triple-exact :
      {A : Type 0} {P : Fact} (Q : A → Fact) (f : Process p → A) (act : Process p → Process p)
      → ((s : Process p) → P (skeleton s) → Q (f s) (skeleton (act s)))
      → Triple {p = p} P (λ s. ok (f s, act s)) Q
  Triple-exact Q f act gives = record {
    ends = λ s s' b h e. ends_at Q (f s) b (act s) s' (gives s h) e;
  }

  pub Triple-update :
      {P : Fact} (Q : Unit {0} → Fact) (f : Process p → Process p)
      → ((s : Process p) → P (skeleton s) → Q tt (skeleton (f s)))
      → Triple P (update f) Q
  Triple-update Q f gives = Triple-exact Q (λ s. tt) f gives

  pub Triple-gets :
      {A : Type 0} {P : Fact} (Q : A → Fact) (f : Process p → A)
      → ((s : Process p) → P (skeleton s) → Q (f s) (skeleton s))
      → Triple P (gets f) Q
  Triple-gets Q f gives = Triple-exact Q f (λ s. s) gives

  pub Triple-if :
      {A : Type 0} {P : Fact} {Q : A → Fact} (test : Bool) {m m' : Action p A}
      → Triple P m Q
      → Triple P m' Q
      → Triple P (if test then m else m') Q
  Triple-if true t t' = t
  Triple-if false t t' = t'

  pub Triple-weaken :
      {A : Type 0} {P P' : Fact} {Q Q' : A → Fact} {m : Action p A}
      → ((k : Skeleton) → P' k → P k)
      → ((a : A) (k : Skeleton) → Q a k → Q' a k)
      → Triple P m Q
      → Triple P' m Q'
  Triple-weaken before after t = record {
    ends = λ s s' a h e. after a (skeleton s') (t.ends s s' a (before (skeleton s) h) e);
  }

  -- A fact beside the state may be used before the action runs.
  pub Triple-given :
      {A X : Type 0} {P : Fact} {Q : A → Fact} {m : Action p A}
      → (X → Triple P m Q)
      → Triple (λ k. X × P k) m Q
  Triple-given t = record { ends = λ s s' a h e. (t h.0).ends s s' a h.1 e }

  pub Triple-some :
      {A X : Type 0} {P : X → Fact} {Q : A → Fact} {m : Action p A}
      → ((x : X) → Triple (P x) m Q)
      → Triple (λ k. (x : X) × P x k) m Q
  Triple-some t = record { ends = λ s s' a h e. (t h.0).ends s s' a h.1 e }

  pub Triple-either :
      {A : Type 0} {P P' : Fact} {Q : A → Fact} {m : Action p A}
      → Triple P m Q
      → Triple P' m Q
      → Triple (λ k. P k ⊎ P' k) m Q
  Triple-either t t' = record {
    ends = λ s s' a h e. elim h [ inl x ↦ t.ends s s' a x e | inr y ↦ t'.ends s s' a y e ];
  }
