-- ===== src/Mac/Locks.antt =====
-- The read-write locks of Native/Loader/elf_loader_host.cpp: the code that is loaded has locks of
-- another layout, each of which stands for one of the host's. `g_rwlock_mutex` lets one hook at a time
-- look at the map.
pub mod Sound
use anisette_kit.Prelude.{
  ℕ, Bool, true, false, not, ◌&&◌, ◌||◌, ◌≡◌, Option, none, some, List, [], ◌==◌,
}
use anisette_kit.Emulator.Vm.{Run, ok, undefined, find_key, insert_key, erase_key}

-- The locks of <pthread.h>: a parameter. `is_live` tells which addresses are those of locks that were
-- initialised and not yet destroyed.
pub record Threads : Type 1 where
  pub World : Type 0
  pub is_live : World → (lock : ℕ) → Bool
  -- `malloc`, which is taken to succeed, and `pthread_rwlock_init`.
  pub new_rwlock : World → ℕ × World
  pub rdlock : World → (lock : ℕ) → ℕ × World
  pub wrlock : World → (lock : ℕ) → ℕ × World
  pub unlock : World → (lock : ℕ) → ℕ × World
  -- `pthread_rwlock_destroy` and `free`.
  pub destroy_rwlock : World → (lock : ℕ) → World

-- A new lock is at an address of its own; no other call but that which destroys a lock ends one.
pub record ThreadsLaws (t : Threads) : Type 0 where
  pub new-is_live : (w : t.World) → t.is_live w (t.new_rwlock w).0 ≡ false
  pub is_live-new :
      (w : t.World) (l : ℕ)
      → t.is_live (t.new_rwlock w).1 l ≡ ((t.new_rwlock w).0 == l) || t.is_live w l
  pub is_live-rdlock : (w : t.World) (l m : ℕ) → t.is_live (t.rdlock w l).1 m ≡ t.is_live w m
  pub is_live-wrlock : (w : t.World) (l m : ℕ) → t.is_live (t.wrlock w l).1 m ≡ t.is_live w m
  pub is_live-unlock : (w : t.World) (l m : ℕ) → t.is_live (t.unlock w l).1 m ≡ t.is_live w m
  pub is_live-destroy :
      (w : t.World) (l m : ℕ) → t.is_live (t.destroy_rwlock w l) m ≡ not (l == m) && t.is_live w m

pub record Locks (t : Threads) : Type 0 where
  pub world : t.World
  pub g_rwlock_map : List (ℕ × ℕ)

module _ {t : Threads} where
  unfoldable pub lock_or_new :
      Option ℕ → (guest_lock : ℕ) → (create_if_missing : Bool) → Locks t → Option ℕ × Locks t
  lock_or_new (some host_lock) guest_lock create_if_missing s = (some host_lock, s)
  lock_or_new none guest_lock false s = (none, s)
  lock_or_new none guest_lock true s =
      let (host_lock, w) = t.new_rwlock s.world in
      (
        some host_lock,
        record { world = w; g_rwlock_map = insert_key guest_lock host_lock s.g_rwlock_map },
      )

  unfoldable pub get_host_rwlock :
      (guest_lock : ℕ) → (create_if_missing : Bool) → Locks t → Option ℕ × Locks t
  get_host_rwlock guest_lock create_if_missing s =
      lock_or_new (find_key guest_lock s.g_rwlock_map) guest_lock create_if_missing s

  -- A call with the host's lock; a null one is undefined.
  unfoldable pub with_lock :
      (call : t.World → (lock : ℕ) → ℕ × t.World) → Option ℕ × Locks t → Run (ℕ × Locks t)
  with_lock call (none, s) = undefined
  with_lock call (some host_lock, s) =
      let (result, w) = call s.world host_lock in ok (result, record s { world = w })

  unfoldable pub unlock_known : Option ℕ × Locks t → Run (ℕ × Locks t)
  unlock_known (none, s) = ok (0, s)
  unlock_known (some host_lock, s) =
      let (result, w) = t.unlock s.world host_lock in ok (result, record s { world = w })

  unfoldable pub destroy_known : Option ℕ → (guest_lock : ℕ) → Locks t → Run (ℕ × Locks t)
  destroy_known none guest_lock s = ok (0, s)
  destroy_known (some host_lock) guest_lock s = ok (
    0,
    record {
      world = t.destroy_rwlock s.world host_lock;
      g_rwlock_map = erase_key guest_lock s.g_rwlock_map;
    },
  )

  -- `hook_pthread_rwlock_init`; its result is 0 whatever the attributes are.
  unfoldable pub rwlock_init : (guest_lock : ℕ) → Locks t → Run (ℕ × Locks t)
  rwlock_init guest_lock s = ok (0, (get_host_rwlock guest_lock true s).1)

  unfoldable pub rwlock_rdlock : (guest_lock : ℕ) → Locks t → Run (ℕ × Locks t)
  rwlock_rdlock guest_lock s = with_lock t.rdlock (get_host_rwlock guest_lock true s)

  unfoldable pub rwlock_wrlock : (guest_lock : ℕ) → Locks t → Run (ℕ × Locks t)
  rwlock_wrlock guest_lock s = with_lock t.wrlock (get_host_rwlock guest_lock true s)

  unfoldable pub rwlock_unlock : (guest_lock : ℕ) → Locks t → Run (ℕ × Locks t)
  rwlock_unlock guest_lock s = unlock_known (get_host_rwlock guest_lock false s)

  unfoldable pub rwlock_destroy : (guest_lock : ℕ) → Locks t → Run (ℕ × Locks t)
  rwlock_destroy guest_lock s = destroy_known (find_key guest_lock s.g_rwlock_map) guest_lock s
