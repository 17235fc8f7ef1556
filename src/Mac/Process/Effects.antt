-- ===== src/Mac/Process/Effects.antt =====
-- What the actions that make, delete, connect and name loaders do to them, and steps that can fail.
use anisette_kit.Prelude.{
  ℕ, ◌+◌, ◌≡◌, refl, ap, Bool, true, false, ◌==◌, if◌then◌else◌, Option, none, some, List, [], ◌∷◌,
  ◌++◌, arith, not,
}
use anisette_kit.Core.Session.{Result, failed, done}
use anisette_kit.Emulator.Vm.{ok, and_then, find_key, insert_key, erase_key}
use anisette_kit.Mac.Platform.{Platform}
use anisette_kit.Mac.Process.{
  ElfLoader, Process, Action, Step, ◌>>=◌, checked, put_loader, change_loader,
}
use anisette_kit.Mac.Process.Quiet.{
  Skeleton, skeleton, objects_of, Quiet-loader_at, Quiet-host_does,
}
use anisette_kit.Mac.Process.Triples.{
  Triple-exact, Fact, Outcome, Triple, Triple-Quiet, Triple-bind, Triple-pure, Triple-update,
}
use anisette_kit.Mac.Registry.{new_loader, delete_loader, add_sibling, erase_loader}
use anisette_kit.Mac.Resolve.Quiet.{Quiet-when}
use anisette_kit.Mac.Steps.{◌>>=◌ as bind, continue, lift, require_or, fail, finish}

abbrev pub made : Skeleton → Skeleton
made k = record k { objects = (k.next, []) ∷ k.objects; next = k.next + 1 }

abbrev pub deleted : (this : ℕ) → Skeleton → Skeleton
deleted this k = record k { objects = erase_key this k.objects; names = erase_loader this k.names }

unfoldable pub push_sibling : (this sib : ℕ) → List (ℕ × List ℕ) → List (ℕ × List ℕ)
push_sibling this sib [] = []
push_sibling this sib ((i, siblings) ∷ objects) =
    let rest = push_sibling this sib objects in
    if i == this then (i, siblings ++ sib ∷ []) ∷ objects else (i, siblings) ∷ rest

abbrev pub connected : (this sib : ℕ) → Skeleton → Skeleton
connected this sib k = record k { objects = push_sibling this sib k.objects }

-- A state that comes from one with P by a change.
abbrev pub From : (P : Fact) → (change : Skeleton → Skeleton) → Fact
From P change k = (before : Skeleton) × P before × (k ≡ change before)

objects-erase_key :
    (this : ℕ) (ls : List (ℕ × ElfLoader))
    → objects_of (erase_key this ls) ≡ erase_key this (objects_of ls)
unfolding erase_key
objects-erase_key this [] = refl
objects-erase_key this ((i, l) ∷ ls) = ground (arith, objects-erase_key this ls)

objects-push :
    (this sib : ℕ) (l l' : ElfLoader) (ls : List (ℕ × ElfLoader))
    → find_key this ls ≡ some l
    → l'.siblings ≡ l.siblings ++ sib ∷ []
    → objects_of (insert_key this l' ls) ≡ push_sibling this sib (objects_of ls)
unfolding find_key insert_key push_sibling
objects-push this sib l l' [] found e = absurd cc
objects-push this sib l l' ((i, m) ∷ ls) found e = ground (arith, objects-push this sib l l' ls)

module _ {p : Platform} where
  pub Triple-new_loader :
      {P : Fact}
      → Triple {p = p} P new_loader
          (λ this k. (before : Skeleton) × P before × (k ≡ made before) × (before.next ≡ this))
  unfolding new_loader
  Triple-new_loader = Triple-exact _ _ _ λ s h. (skeleton s, h, refl, refl)

  pub Triple-delete_loader :
      {P : Fact} (this : ℕ) → Triple {p = p} P (delete_loader this) (λ _. From P (deleted this))
  unfolding delete_loader
  Triple-delete_loader this = Triple-bind (Triple-Quiet (Quiet-loader_at this)) λ l.
      Triple-bind (Triple-Quiet (Quiet-when (not (l.base_addr == 0)) (Quiet-host_does _))) λ _.
        Triple-bind (Triple-Quiet (Quiet-when (not (l.data_addr == 0)) (Quiet-host_does _))) λ _.
          Triple-update _ _ λ s h. (
            skeleton s,
            h,
            ap
                (λ (o : List (ℕ × List ℕ)). record (skeleton s) {
                  objects = o;
                  names = erase_loader this s.loaded_libraries;
                })
                (objects-erase_key this s.loaders),
          )

  push_found :
      (P : Fact) (this sib : ℕ) (s s' : Process p) (a : Unit {0}) (o : Option ElfLoader)
      → P (skeleton s)
      → find_key this s.loaders ≡ o
      → and_then
          (checked {p = p} o s)
          (λ r. put_loader this (record r.0 { siblings = (r.0).siblings ++ sib ∷ [] }) r.1)
        ≡ ok (a, s')
      → From P (connected this sib) (skeleton s')
  push_found P this sib s s' a none h found e = absurd cc
  push_found P this sib s s' a (some l) h found e =
      let l' : ElfLoader = record l { siblings = l.siblings ++ sib ∷ [] } in
      (Triple-exact {P = P} (λ (x : Unit {0}). From P (connected this sib)) (λ u. tt)
          (λ u. record s { loaders = insert_key this l' s.loaders })
          (λ u g. (
            skeleton s,
            h,
            ap (λ (o : List (ℕ × List ℕ)). record (skeleton s) { objects = o })
                (objects-push this sib l l' s.loaders found refl),
          ))).ends
        s s' a h e

  pub Triple-add_sibling :
      {P : Fact} (this sib : ℕ)
      → Triple {p = p} P (add_sibling this sib) (λ _. From P (connected this sib))
  unfolding add_sibling change_loader ◌>>=◌
  Triple-add_sibling {P = P} this sib = record {
    ends = λ s s' a h e. push_found P this sib s s' a (find_key this s.loaders) h refl e;
  }

module _ {p : Platform} {E : Type 0} where
  continue-Outcome :
      {A B : Type 0} {R : A → Fact} {Q : B → Fact} {F : E → Fact} (r : Result E A)
      {k : A → Step p E B}
      → ((a : A) → Triple (R a) (k a) (Outcome Q F))
      → Triple (Outcome R F r) (continue r k) (Outcome Q F)
  unfolding continue
  continue-Outcome {Q = Q} {F = F} (failed e) next = Triple-pure (Outcome Q F) (failed e) λ k h. h
  continue-Outcome (done a) next = next a

  -- The next step starts where the first one was done; one that failed ends the chain.
  pub Triple-then :
      {A B : Type 0} {P : Fact} {R : A → Fact} {Q : B → Fact} {F : E → Fact} {m : Step p E A}
      {k : A → Step p E B}
      → Triple P m (Outcome R F)
      → ((a : A) → Triple (R a) (k a) (Outcome Q F))
      → Triple P (bind m k) (Outcome Q F)
  Triple-then t next = Triple-bind t λ r. continue-Outcome r next

  pub Triple-lift :
      {A : Type 0} {P : Fact} {R : A → Fact} {F : E → Fact} {m : Action p A}
      → Triple P m R
      → Triple P (lift {E = E} m) (Outcome R F)
  Triple-lift {R = R} {F = F} t = Triple-bind t λ a. Triple-pure (Outcome R F) (done a) λ k h. h

  pub Triple-finish :
      {A : Type 0} {P : Fact} {Q : A → Fact} {F : E → Fact} (a : A)
      → ((k : Skeleton) → P k → Q a k)
      → Triple {p = p} P (finish {E = E} a) (Outcome Q F)
  Triple-finish {Q = Q} {F = F} a gives = Triple-pure (Outcome Q F) (done a) gives

  pub Triple-fail :
      {A : Type 0} {P : Fact} {Q : A → Fact} {F : E → Fact} (e : E)
      → ((k : Skeleton) → P k → F e k)
      → Triple {p = p} P (fail {E = E} {A = A} e) (Outcome Q F)
  Triple-fail {Q = Q} {F = F} e gives = Triple-pure (Outcome Q F) (failed e) gives

  -- The fact for the test that held, or what the cleanup leaves.
  pub Triple-require_or :
      (P : Bool → Fact) {F : E → Fact} (test : Bool) {cleanup : Action p (Unit {0})} (e : E)
      → Triple (P false) cleanup (λ _. F e)
      → Triple (P test) (require_or test cleanup e) (Outcome (λ _. P true) F)
  unfolding require_or
  Triple-require_or P {F = F} true e t = Triple-finish tt λ k h. h
  Triple-require_or P {F = F} false e t = Triple-bind t λ _. Triple-fail e λ k h. h
