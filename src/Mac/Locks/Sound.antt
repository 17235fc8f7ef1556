-- ===== src/Mac/Locks/Sound.antt =====
-- Which host locks the hooks use, in any order of their calls.
use anisette_kit.Prelude.{
  inr, inl, Bool-cases, ℕ, true, false, ◌≡◌, refl, Option, none, some, List, ◌==◌, arith,
}
use anisette_kit.Emulator.Vm.{Run, ok, find_key, insert_key, erase_key}
use anisette_kit.Emulator.Vm.Maps.{find_key-insert_key, find_key-erase_key}
use anisette_kit.Mac.Locks.{
  Threads, ThreadsLaws, Locks, lock_or_new, get_host_rwlock, with_lock, unlock_known, destroy_known,
  rwlock_init, rwlock_rdlock, rwlock_wrlock, rwlock_unlock, rwlock_destroy,
}

-- Every lock in the map is live, and no two locks of the loaded code share one.
pub record IsSound {t : Threads} (s : Locks t) : Type 0 where
  pub live : (g l : ℕ) → find_key g s.g_rwlock_map ≡ some l → t.is_live s.world l ≡ true
  pub apart :
      (g g' l : ℕ)
      → find_key g s.g_rwlock_map ≡ some l
      → find_key g' s.g_rwlock_map ≡ some l
      → g ≡ g'

pub data LockCall : Type 0 where
  init_call rdlock_call wrlock_call unlock_call destroy_call : (guest_lock : ℕ) → LockCall

abbrev pub lock_hook : {t : Threads} → LockCall → Locks t → Run (ℕ × Locks t)
lock_hook (init_call g) = rwlock_init g
lock_hook (rdlock_call g) = rwlock_rdlock g
lock_hook (wrlock_call g) = rwlock_wrlock g
lock_hook (unlock_call g) = rwlock_unlock g
lock_hook (destroy_call g) = rwlock_destroy g

-- A run that ends in a state as stated, and does not get stuck.
abbrev pub EndsIn : {t : Threads} → (Q : Locks t → Type 0) → Run (ℕ × Locks t) → Type 0
EndsIn {t} Q run = (result : ℕ) × (s : Locks t) × (run ≡ ok (result, s)) × Q s

kept :
    (g i l : ℕ) (m : List (ℕ × ℕ))
    → find_key i (erase_key g m) ≡ some l
    → (g == i ≡ false) × (find_key i m ≡ some l)
kept g i l m e = ground (arith, find_key-erase_key g i m)

module _ {t : Threads} (laws : ThreadsLaws t) where
  new-IsSound :
      (g : ℕ) (s : Locks t)
      → find_key g s.g_rwlock_map ≡ none
      → IsSound s
      → IsSound {t = t} (record {
        world = (t.new_rwlock s.world).1;
        g_rwlock_map = insert_key g (t.new_rwlock s.world).0 s.g_rwlock_map;
      })
  new-IsSound g s missing v =
      let l : ℕ = (t.new_rwlock s.world).0 in
      record {
        live = λ i m e. grind (
          arith,
          find_key-insert_key g i l s.g_rwlock_map,
          laws.is_live-new s.world m,
          v.live i m,
        );
        apart = λ i j m e f. grind (
          arith,
          find_key-insert_key g i l s.g_rwlock_map,
          find_key-insert_key g j l s.g_rwlock_map,
          laws.new-is_live s.world,
          v.live i m,
          v.live j m,
          v.apart i j m,
        );
      }

  -- A change of the threads that keeps every lock alive keeps the map sound.
  same-IsSound :
      (s : Locks t) (w : t.World)
      → ((m : ℕ) → t.is_live w m ≡ t.is_live s.world m)
      → IsSound s
      → IsSound {t = t} (record s { world = w })
  same-IsSound s w same v = record {
    live = λ i m e. grind (arith, same m, v.live i m e);
    apart = v.apart;
  }

  clash :
      (g i l m : ℕ) (s : Locks t)
      → IsSound s
      → find_key g s.g_rwlock_map ≡ some l
      → (g == i ≡ false) × (find_key i s.g_rwlock_map ≡ some m)
      → l == m ≡ true
      → ⊥
  clash g i l m s v found k same =
      let q : l ≡ m = ground arith in
      let e : find_key i s.g_rwlock_map ≡ some l = rw q k.1 in
      let p : g ≡ i = v.apart g i l found e in ground (arith, k.0)

  erased-IsSound :
      (g l : ℕ) (s : Locks t)
      → find_key g s.g_rwlock_map ≡ some l
      → IsSound s
      → IsSound {t = t}
          (record { world = t.destroy_rwlock s.world l; g_rwlock_map = erase_key g s.g_rwlock_map })
  erased-IsSound g l s found v = record {
    live = λ i m e.
        let k = kept g i m s.g_rwlock_map e in
        rw (laws.is_live-destroy s.world l m) (elim (Bool-cases (l == m)) [
          | inl same ↦ absurd (clash g i l m s v found k same)
          | inr other ↦ rw (other, v.live i m k.1) refl
        ]);
    apart =
        λ i j m e f. v.apart i j m (kept g i m s.g_rwlock_map e).1 (kept g j m s.g_rwlock_map f).1;
  }

  get-IsSound :
      (g : ℕ) (s : Locks t) (o : Option ℕ)
      → find_key g s.g_rwlock_map ≡ o
      → IsSound s
      → (l : ℕ) × ((s' : Locks t) × (lock_or_new o g true s ≡ (some l, s')) × IsSound s')
  unfolding lock_or_new
  get-IsSound g s none missing v = (
    (t.new_rwlock s.world).0,
    (
      record {
        world = (t.new_rwlock s.world).1;
        g_rwlock_map = insert_key g (t.new_rwlock s.world).0 s.g_rwlock_map;
      },
      refl,
      new-IsSound g s missing v,
    ),
  )
  get-IsSound g s (some l) found v = (l, (s, refl, v))

  unlocked :
      (g : ℕ) (s : Locks t) (o : Option ℕ)
      → find_key g s.g_rwlock_map ≡ o
      → IsSound s
      → EndsIn IsSound (unlock_known (lock_or_new o g false s))
  unfolding lock_or_new unlock_known
  unlocked g s none missing v = (0, s, refl, v)
  unlocked g s (some l) found v = (_, _, refl, same-IsSound s _ (laws.is_live-unlock s.world l) v)

  destroyed :
      (g : ℕ) (s : Locks t) (o : Option ℕ)
      → find_key g s.g_rwlock_map ≡ o
      → IsSound s
      → EndsIn IsSound (destroy_known o g s)
  unfolding destroy_known
  destroyed g s none missing v = (0, s, refl, v)
  destroyed g s (some l) found v = (0, _, refl, erased-IsSound g l s found v)

  -- From a state in which every host lock in the map is live and no two locks of the loaded code
  -- share one, each of the five hooks returns, without a null lock, in such a state.
  pub lock_hook-IsSound : (c : LockCall) (s : Locks t) → IsSound s → EndsIn IsSound (lock_hook c s)
  unfolding rwlock_init rwlock_rdlock rwlock_wrlock rwlock_unlock rwlock_destroy get_host_rwlock
      with_lock unlock_known destroy_known
  lock_hook-IsSound (init_call g) s v =
      let (l, (s', e, v')) = get-IsSound g s (find_key g s.g_rwlock_map) refl v in
      rw e (0, s', refl, v')
  lock_hook-IsSound (rdlock_call g) s v =
      let (l, (s', e, v')) = get-IsSound g s (find_key g s.g_rwlock_map) refl v in
      rw e (_, _, refl, same-IsSound s' _ (laws.is_live-rdlock s'.world l) v')
  lock_hook-IsSound (wrlock_call g) s v =
      let (l, (s', e, v')) = get-IsSound g s (find_key g s.g_rwlock_map) refl v in
      rw e (_, _, refl, same-IsSound s' _ (laws.is_live-wrlock s'.world l) v')
  lock_hook-IsSound (unlock_call g) s v = unlocked g s (find_key g s.g_rwlock_map) refl v
  lock_hook-IsSound (destroy_call g) s v = destroyed g s (find_key g s.g_rwlock_map) refl v
