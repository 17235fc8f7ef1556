-- ===== src/Mac/Setup/Outcomes.antt =====
-- How `load_adi_and_setup` of Native/anisette_core_mac.cpp ends from each state.
use anisette_kit.Prelude.{ℕ, ◌≡◌, refl, not, ◌==◌, Option, none, some, List, [], inl, inr}
use anisette_kit.Prelude.Text.{Text}
use anisette_kit.Base.Uuid.{get_android_id_string}
use anisette_kit.Core.Session.{Result, failed, done}
use anisette_kit.Core.Setup.{lib_path}
use anisette_kit.Mac.Platform.{Platform}
use anisette_kit.Mac.Process.{Step, pure}
use anisette_kit.Mac.Process.Quiet.{Skeleton, Quiet-gets, Quiet-host_step, Quiet-checked}
use anisette_kit.Mac.Process.Triples.{
  Fact, Outcome, Triple, Triple-Quiet, Triple-gets, Triple-weaken, Triple-pure,
}
use anisette_kit.Mac.Process.Effects.{
  Triple-then, Triple-lift, Triple-finish, Triple-fail, Triple-require_or,
}
use anisette_kit.Mac.Setup.{
  need_loaders, prov_dir_of, tell_path, tell_id, returned, setup_paths, setup_loaders,
  load_adi_and_setup,
}
use anisette_kit.Mac.Setup.Stages.{Idle, Running, Steady}
use anisette_kit.Mac.Setup.Steady.{Quiet-global_symbol, checked_call-Outcome, load_both-Running}

-- The globals when `g_adi` is as given.
abbrev From_adi : (adi : Option ℕ) → Fact
From_adi adi k = (k.adi ≡ adi) × Steady k

idle_of : (k : Skeleton) → From_adi none k → Idle k
idle_of k (e, inl i) = i
idle_of k (e, inr (n, g)) = absurd (let q = g.adi_is in cc)

running_of : (adi : ℕ) (k : Skeleton) → From_adi (some adi) k → Running k
running_of adi k (e, inl (n, g)) = absurd (let q = g.adi_is in cc)
running_of adi k (e, inr r) = r

steady_after :
    (r : Result Text (Unit {0})) (k : Skeleton)
    → Outcome (λ _. Running) (λ _. Idle) r k
    → Outcome (λ _. Running) (λ _. Steady) r k
steady_after (failed e) k o = inl o
steady_after (done a) k o = o

module _ {p : Platform} where
  need_loaders-Running :
      (rounds : ℕ) (path : Text) (adi : Option ℕ)
      → Triple {p = p}
          (From_adi adi)
          (need_loaders rounds path adi)
          (Outcome (λ _. Running) (λ _. Steady))
  unfolding need_loaders
  need_loaders-Running rounds path none =
      Triple-weaken idle_of (λ r k o. steady_after r k o) (load_both-Running rounds path)
  need_loaders-Running rounds path (some adi) = Triple-finish tt (running_of adi)

  -- Behind the loading every step keeps the loaders.
  abbrev Goes : {A : Type 0} → Step p Text A → Type 0
  Goes m = Triple Running m (Outcome (λ _. Running) (λ _. Steady))

  steady : Triple {p = p} Running (pure tt) (λ _. Steady)
  steady = Triple-pure (λ _. Steady) tt λ k h. inr h

  tell_path-Goes : (dir : Text) → Goes (tell_path dir)
  unfolding tell_path
  tell_path-Goes dir = Triple-then (Triple-lift (Triple-Quiet (Quiet-global_symbol _ _))) λ f.
      Triple-then (Triple-require_or (λ _. Running) (not (f == 0)) _ steady)
        λ _. checked_call-Outcome _ f _ (pure tt) steady

  tell_id-Goes : (android_id : Text) → Goes (tell_id android_id)
  unfolding tell_id
  tell_id-Goes android_id = Triple-then (Triple-lift (Triple-Quiet (Quiet-global_symbol _ _))) λ f.
      Triple-then (Triple-require_or (λ _. Running) (not (f == 0)) _ steady)
        λ _. checked_call-Outcome _ f _ (pure tt) steady

  returned-Goes : (adi : Option ℕ) (dir : Text) → Goes (returned adi dir)
  unfolding returned
  returned-Goes none dir = Triple-fail [] λ k h. inr h
  returned-Goes (some adi) dir = Triple-finish (adi, dir) λ k h. h

  setup_paths-Goes : (dir : Text) (identifier : Option (List ℕ)) → Goes (setup_paths dir identifier)
  unfolding setup_paths
  setup_paths-Goes dir identifier =
      Triple-then (Triple-lift (Triple-Quiet (Quiet-host_step _))) λ made.
        Triple-then (tell_path-Goes (prov_dir_of dir identifier)) λ _.
          Triple-then (tell_id-Goes (get_android_id_string identifier)) λ _.
            Triple-then (Triple-lift (Triple-Quiet (Quiet-gets _)))
              λ adi. returned-Goes adi (prov_dir_of dir identifier)

  pub load_adi_and_setup-Running :
      (rounds : ℕ) (lib_dir provisioning_dir : Option Text) (identifier : Option (List ℕ))
      → Triple {p = p} Steady
          (load_adi_and_setup rounds lib_dir provisioning_dir identifier)
          (Outcome (λ _. Running) (λ _. Steady))
  unfolding load_adi_and_setup setup_loaders
  load_adi_and_setup-Running rounds none provisioning_dir identifier = Triple-fail _ λ k h. h
  load_adi_and_setup-Running rounds (some lib_dir) provisioning_dir identifier =
      Triple-then (Triple-lift (Triple-Quiet (Quiet-gets _))) λ is_dir.
        Triple-then
          (Triple-require_or (λ _. Steady) is_dir _ (Triple-pure (λ _. Steady) tt λ k h. h))
          λ _. Triple-then (Triple-lift (Triple-gets From_adi _ λ s h. (refl, h))) λ adi.
            Triple-then (need_loaders-Running rounds (lib_path lib_dir) adi) λ _.
              Triple-then (Triple-lift (Triple-Quiet (Quiet-checked provisioning_dir)))
                λ dir. setup_paths-Goes dir identifier
