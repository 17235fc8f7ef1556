-- ===== src/Mac/Setup/Steady.antt =====
-- The loaders, names and globals that `load_adi_and_setup` of Native/anisette_core_mac.cpp leaves.
use anisette_kit.Mac.Registry.Owners.{is_owner}
use anisette_kit.Prelude.{
  ℕ, ◌+◌, ◌≡◌, refl, sym, ◌∙◌, not, true, ◌==◌, none, some, List, [], ◌∷◌, arith,
}
use anisette_kit.Core.Session.{Result, failed, done}
use anisette_kit.Prelude.Text.{Text}
use anisette_kit.Prelude.Int.{int_eq, pos}
use anisette_kit.Core.Session.{Result, failed, done}
use anisette_kit.Emulator.Vm.{erase_key}
use anisette_kit.Mac.Platform.{Platform, Arg}
use anisette_kit.Mac.Process.{Action}
use anisette_kit.Mac.Process.Quiet.{Skeleton, Quiet, Quiet-bind, Quiet-gets, Quiet-host_checked}
use anisette_kit.Mac.Process.Triples.{
  Triple-some, Fact, Outcome, Triple, Triple-bind, Triple-Quiet, Triple-given, Triple-weaken,
}
use anisette_kit.Mac.Process.Effects.{
  push_sibling, connected, Triple-new_loader, Triple-add_sibling, Triple-then, Triple-lift,
  Triple-finish, Triple-require_or,
}
use anisette_kit.Mac.Resolve.Quiet.{Quiet-get_adi_symbol}
use anisette_kit.Mac.Relocate.Quiet.{Quiet-relocate}
use anisette_kit.Mac.Load.Names.{Loaded, Triple-load}
use anisette_kit.Mac.Globals.{delete_ssc, delete_both, global_symbol, connect}
use anisette_kit.Mac.Setup.{Result, load_ssc, load_adi, load_both, checked_call}
use anisette_kit.Mac.Setup.Stages.{
  Stage, Idle, Running, Stage-made, Stage-connected, Stage-registered, set_ssc-Stage, set_adi-Stage,
  delete_ssc-Stage, delete_adi-Stage,
}

-- The stages of loading: `ssc` is there, and `adi` too.
abbrev One : (siblings : List ℕ) → (n : ℕ) → Fact
One siblings n = Stage ((n, siblings) ∷ []) (n ∷ []) none (some n) (n + 1)

abbrev Two : (adi_siblings ssc_siblings : List ℕ) → (n : ℕ) → Fact
Two adi_siblings ssc_siblings n =
    Stage ((n + 1, adi_siblings) ∷ (n, ssc_siblings) ∷ []) ((n + 1) ∷ n ∷ []) (some (n + 1))
      (some n) (n + 2)

erase_one : (n : ℕ) (b : List ℕ) → erase_key n ((n, b) ∷ []) ≡ []
unfolding erase_key
erase_one n b = ground arith

erase_two : (n : ℕ) (a b : List ℕ) → erase_key (n + 1) ((n + 1, a) ∷ (n, b) ∷ []) ≡ (n, b) ∷ []
unfolding erase_key
erase_two n a b = ground arith

owner_first : (n : ℕ) (owners : List ℕ) → is_owner (n ∷ owners) n ≡ true
owner_first n owners = ground arith

push_both :
    (n : ℕ)
    → push_sibling (n + 1) n (push_sibling n (n + 1) ((n + 1, []) ∷ (n, []) ∷ []))
      ≡ (n + 1, n ∷ []) ∷ (n, (n + 1) ∷ []) ∷ []
unfolding push_sibling
push_both n = ground arith

plus_two : (n : ℕ) → n + 1 + 1 ≡ n + 2
plus_two n = omega arith

running_from :
    (n : ℕ) (r : Result Text (Unit {0})) (k : Skeleton)
    → Outcome (λ _. Two (n ∷ []) ((n + 1) ∷ []) n) (λ _. Idle) r k
    → Outcome (λ _. Running) (λ _. Idle) r k
running_from n (failed e) k o = o
running_from n (done a) k o = (n, o)

module _ {p : Platform} where
  pub Quiet-global_symbol : (key fallback : Text) → Quiet (global_symbol {p = p} key fallback)
  unfolding global_symbol
  Quiet-global_symbol key fallback =
      Quiet-bind (Quiet-gets _)
        λ ssc. Quiet-bind (Quiet-gets _) λ adi. Quiet-get_adi_symbol ssc adi key fallback

  delete_one :
      (n m : ℕ) (b : List ℕ)
      → Triple {p = p} (Stage ((n, b) ∷ []) (n ∷ []) none (some n) m) delete_ssc (λ _. Idle)
  delete_one n m b =
      Triple-weaken (λ k h. h) (λ u k g. (m, rw (erase_one n b) at g)) (delete_ssc-Stage n)

  delete_two : (n : ℕ) (a b : List ℕ) → Triple {p = p} (Two a b n) delete_both (λ _. Idle)
  unfolding delete_both
  delete_two n a b =
      Triple-bind
        (Triple-weaken {Q' = λ _. Stage ((n, b) ∷ []) (n ∷ []) none (some n) (n + 2)} (λ k h. h)
          (λ u k g. rw (erase_two n a b) at g) (delete_adi-Stage (n + 1)))
        λ _. delete_one n (n + 2) b

  -- The first loader, loaded.
  load_ssc-One :
      (rounds : ℕ) (ssc_so : Text) (n : ℕ)
      → Triple {p = p}
          (Stage [] [] none none n)
          (load_ssc rounds ssc_so)
          (Outcome (λ ssc k. (ssc ≡ n) × One [] n k) (λ _. Idle))
  unfolding load_ssc
  load_ssc-One rounds ssc_so n =
      Triple-then
        (Triple-lift (
          Triple-weaken
            {Q' = λ ssc k. (ssc ≡ n) × Stage ((n, []) ∷ []) (n ∷ []) none none (n + 1) k} (λ k h. h)
            (λ ssc k (b, g, q, i). (sym i ∙ g.next_is, rw q (Stage-made b g))) Triple-new_loader))
        λ ssc. Triple-given λ e. rw e (
          Triple-then (Triple-lift (set_ssc-Stage (some n))) λ _.
            Triple-then (Triple-lift (Triple-load (One [] n) rounds n ssc_so)) λ loaded.
              Triple-then
                (Triple-require_or (Loaded (One [] n) n ssc_so) loaded _ (delete_one n (n + 1) []))
                λ _.
                  Triple-finish n
                    λ k (b, g, q). (refl, rw q (Stage-registered n ssc_so b (owner_first n []) g)))

  -- The second loader, loaded; the first is deleted too if that fails.
  load_adi-Two :
      (rounds : ℕ) (coreadi_so : Text) (n : ℕ)
      → Triple {p = p}
          (One [] n)
          (load_adi rounds coreadi_so)
          (Outcome (λ adi k. (adi ≡ n + 1) × Two [] [] n k) (λ _. Idle))
  unfolding load_adi
  load_adi-Two rounds coreadi_so n =
      Triple-then
        (Triple-lift (
          Triple-weaken
            {Q' = λ adi k.
              (adi ≡ n + 1)
              × Stage ((n + 1, []) ∷ (n, []) ∷ []) ((n + 1) ∷ n ∷ []) none (some n) (n + 2) k}
            (λ k h. h)
            (λ adi k (b, g, q, i). (sym i ∙ g.next_is, rw (q, ← plus_two n) (Stage-made b g)))
            Triple-new_loader))
        λ adi. Triple-given λ e. rw e (
          Triple-then (Triple-lift (set_adi-Stage (some (n + 1)))) λ _.
            Triple-then (Triple-lift (Triple-load (Two [] [] n) rounds (n + 1) coreadi_so))
              λ loaded.
                Triple-then
                  (Triple-require_or (Loaded (Two [] [] n) (n + 1) coreadi_so) loaded _
                    (delete_two n [] []))
                  λ _. Triple-finish (n + 1) λ k (b, g, q). (
                    refl,
                    rw q (Stage-registered (n + 1) coreadi_so b (owner_first (n + 1) (n ∷ [])) g),
                  ))

  connect-Two :
      (rounds n : ℕ)
      → Triple {p = p} (Two [] [] n) (connect rounds n (n + 1)) (λ _. Two (n ∷ []) ((n + 1) ∷ []) n)
  unfolding connect
  connect-Two rounds n = Triple-bind (Triple-add_sibling n (n + 1)) λ _.
      Triple-bind
        (Triple-weaken {Q' = λ _. Two (n ∷ []) ((n + 1) ∷ []) n} (λ k h. h)
          (λ u k (b, (c, g, q), r).
            rw (r, q)
              (rw (push_both n) at (
                Stage-connected (n + 1) n (connected n (n + 1) c) (Stage-connected n (n + 1) c g))))
          (Triple-add_sibling (n + 1) n))
        λ _.
          Triple-bind (Triple-Quiet (Quiet-relocate rounds n))
            λ _. Triple-Quiet (Quiet-relocate rounds (n + 1))

  -- A call whose cleanup restores what the failure promises.
  pub checked_call-Outcome :
      {P F : Fact} (call : Text) (function : ℕ) (args : List Arg) (cleanup : Action p (Unit {0}))
      → Triple P cleanup (λ _. F)
      → Triple P (checked_call call function args cleanup) (Outcome (λ _. P) (λ _. F))
  unfolding checked_call
  checked_call-Outcome {P = P} call function args cleanup t =
      Triple-then (Triple-lift (Triple-Quiet (Quiet-host_checked _)))
        λ reply. Triple-require_or (λ _. P) (int_eq reply.result (pos 0)) _ t

  pub load_both-Running :
      (rounds : ℕ) (path : Text)
      → Triple {p = p} Idle (load_both rounds path) (Outcome (λ _. Running) (λ _. Idle))
  unfolding load_both
  load_both-Running rounds path = Triple-some λ n. Triple-then (load_ssc-One rounds _ n) λ ssc.
      Triple-given λ e. rw e (
        Triple-then (load_adi-Two rounds _ n) λ adi. Triple-given λ e'. rw e' (
          Triple-then (Triple-lift (connect-Two rounds n)) λ _.
            Triple-then (Triple-lift (Triple-Quiet (Quiet-global_symbol _ _))) λ load_lib.
              Triple-then
                (Triple-require_or (λ _. Two (n ∷ []) ((n + 1) ∷ []) n) (not (load_lib == 0)) _
                  (delete_two n _ _))
                λ _.
                  Triple-weaken (λ k h. h) (λ r k o. running_from n r k o)
                    (checked_call-Outcome _ load_lib _ delete_both (delete_two n _ _))))
