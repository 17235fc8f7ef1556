-- ===== src/Mac/Tests/Claims.antt =====
-- The theorems on the host loader and the core over it at concrete inputs.
use anisette_kit.Emulator.Vm.{ok, find_key}
use anisette_kit.Prelude.{
  ◌⊎◌, ℕ, ◌+◌, ◌≡◌, ◌≢◌, refl, Bool, false, not, ◌&&◌, ◌||◌, none, some, [], ◌∷◌, ltb, ◌==◌,
  if◌then◌else◌, arith, get_elem?, ◌≤◌, ◌<◌, ◌%◌, ◌^◌,
}
use anisette_kit.Prelude.Int.{pos}
use anisette_kit.Prelude.Text.{codes, find, text_eq}
use anisette_kit.Core.Adi
use anisette_kit.Core.Bodies.{answer}
use anisette_kit.Emulator.Machine.{host}
use anisette_kit.Emulator.FileFormats.{linux_to_darwin_open_flags}
use anisette_kit.Mac.Process.{Process, ElfLoader, elf_loader}
use anisette_kit.Mac.Process.Quiet.{skeleton}
use anisette_kit.Mac.Bodies.{routing_json}
use anisette_kit.Mac.Files.{mac_open_flags}
use anisette_kit.Mac.Files.Results.{mac_open_flags_lem}
use anisette_kit.Mac.Load.{file_name}
use anisette_kit.Mac.Registry.{delete_loader, get_adi_symbol}
use anisette_kit.Mac.Registry.Names.{load_names, delete_loader_lem}
use anisette_kit.Mac.Registry.Lookup.{get_adi_symbol_lem}
use anisette_kit.Mac.Resolve.{init_bionic_ctype}
use anisette_kit.Mac.Resolve.Characters.{HasClasses, init_bionic_ctype_lem}
use anisette_kit.Mac.Relocate.{segment_pages}
use anisette_kit.Mac.Relocate.Pages.{segment_pages_lem}
use anisette_kit.Mac.Handles.{host_dlsym}
use anisette_kit.Mac.Handles.Total.{host_dlsym-nonzero}
use anisette_kit.Mac.Locks.{Threads, ThreadsLaws, Locks}
use anisette_kit.Mac.Locks.Sound.{IsSound, EndsIn, rdlock_call, lock_hook, lock_hook-IsSound}
use anisette_kit.Mac.Setup.Stages.{Steady}
use anisette_kit.Mac.Entries.Calls.{
  IsResult, Reached, begin, next_call, Reached-Steady, serve_native-IsResult,
}
use anisette_kit.Mac.Tests.System.{small, empty_memory}
use anisette_kit.Mac.Tests.Runs.{
  begin_process, headers, first, loaded_first, called, state_of, called_ends, loaded_ends,
}

called-Reached : Reached {p = small} 20 (state_of called)
called-Reached =
    next_call headers begin_process (state_of called) (answer (pos 0) (routing_json [] []))
      (begin empty_memory) called_ends

Reached-Steady_example : Steady (skeleton (state_of called))
Reached-Steady_example = Reached-Steady 20 (state_of called) called-Reached

serve_native-IsResult_example : IsResult headers (answer (pos 0) (routing_json [] []))
serve_native-IsResult_example =
    serve_native-IsResult 20 headers begin_process (state_of called)
      (answer (pos 0) (routing_json [] [])) (begin empty_memory) called_ends

load_names_example : find (codes "a.so") (state_of loaded_first).loaded_libraries ≡ (
    if text_eq (file_name (codes "/lib/a.so")) (codes "a.so")
    then some 1
    else if text_eq (codes "/lib/a.so") (codes "a.so")
    then some 1
    else find (codes "a.so") (state_of first).loaded_libraries)
load_names_example =
    load_names 20 1 (codes "/lib/a.so") (codes "a.so") (state_of first) (state_of loaded_first)
      loaded_ends

host_dlsym-nonzero_example :
    (address : ℕ) × ((s' : Process small) × ((host_dlsym 2 (some Adi.otp_request) (state_of called)
          ≡ ok (address, s'))
        × (address ≢ 0)))
host_dlsym-nonzero_example =
    host_dlsym-nonzero 2 Adi.otp_request (state_of called) (λ name e. absurd (ground arith))
      (Reached-Steady 20 (state_of called) called-Reached)

abbrev first_loader : ElfLoader
first_loader = record elf_loader { exports = (codes "ADIOTPRequest", 0x10) ∷ [] }

abbrev second_loader : ElfLoader
second_loader = record elf_loader { exports = (Adi.otp_request, 0x20) ∷ [] }

abbrev two_loaders : Process small
two_loaders = record begin_process { loaders = (2, second_loader) ∷ (1, first_loader) ∷ [] }

abbrev named_loaders : Process small
named_loaders = record two_loaders { loaded_libraries = (codes "a.so", 1) ∷ (codes "b.so", 2) ∷ [] }

first_named : find_key 1 named_loaders.loaders ≡ some first_loader
unfolding find_key
first_named = refl

delete_loader_lem_example :
    (s' : Process small) × (delete_loader 1 named_loaders ≡ ok (tt, s'))
    × (find_key 1 (skeleton s').objects ≡ none)
    × (find (codes "b.so") s'.loaded_libraries ≢ some 1)
    × ((find (codes "b.so") s'.loaded_libraries
          ≡ find (codes "b.so") named_loaders.loaded_libraries)
        ⊎ (find (codes "b.so") named_loaders.loaded_libraries ≡ some 1))
delete_loader_lem_example =
    delete_loader_lem 1 first_loader (codes "b.so") named_loaders first_named

get_adi_symbol_lem_example :
    get_adi_symbol (some 1) (some 2) Adi.otp_request (codes "ADIOTPRequest") two_loaders
    ≡ ok (0x20, two_loaders)
unfolding find_key find text_eq
get_adi_symbol_lem_example =
    get_adi_symbol_lem 1 2 first_loader second_loader Adi.otp_request (codes "ADIOTPRequest")
      two_loaders refl refl

segment_pages_lem_example :
    (let (page_start, seg_sz) =
        segment_pages (2 ^ 12) 0x10000 (record { vaddr = 0x1234; memsz = 0x2000; flags = 5 }) in
      (page_start % 2 ^ 12 ≡ 0)
      × (seg_sz % 2 ^ 12 ≡ 0)
      × (page_start ≤ 0x10000 + 0x1234)
      × (0x10000 + 0x1234 + 0x2000 ≤ page_start + seg_sz)
      × (page_start + seg_sz < 0x10000 + 0x1234 + 0x2000 + 2 ^ 12))
segment_pages_lem_example =
    segment_pages_lem 12 0x10000 (record { vaddr = 0x1234; memsz = 0x2000; flags = 5 })
      (omega arith) (omega arith)

mac_open_flags_lem_example :
    mac_open_flags host.flags 0x8_0241 ≡ linux_to_darwin_open_flags host.flags 0x8_0241
mac_open_flags_lem_example =
    mac_open_flags_lem host.flags 0x8_0241 refl refl refl (omega arith) refl refl refl

init_bionic_ctype_lem_example :
    (s' : Process small) × (mask : ℕ) × (init_bionic_ctype begin_process ≡ ok (tt, s'))
    × (get_elem? s'.ctype_array (128 + b'A') ≡ some mask)
    × HasClasses small b'A' mask
    × (get_elem? s'.ctype_array 7 ≡ some 0)
    × (init_bionic_ctype s' ≡ ok (tt, s'))
init_bionic_ctype_lem_example =
    init_bionic_ctype_lem empty_memory b'A' 7 (omega arith) (omega arith)

record Pool : Type 0 where
  next_lock : ℕ
  in_use : ℕ → Bool

abbrev pool_live : Pool → ℕ → Bool
pool_live w l = ltb l w.next_lock && w.in_use l

abbrev pool : Threads
pool = record {
  World = Pool;
  is_live = pool_live;
  new_rwlock = λ w. (
    w.next_lock,
    record { next_lock = w.next_lock + 1; in_use = λ l. (w.next_lock == l) || w.in_use l },
  );
  rdlock = λ w l. (0, w);
  wrlock = λ w l. (0, w);
  unlock = λ w l. (0, w);
  destroy_rwlock = λ w l. record w { in_use = λ m. not (l == m) && w.in_use m };
}

pool_laws : ThreadsLaws pool
pool_laws = record {
  new-is_live = λ w. ground arith;
  is_live-new = λ w l. ground arith;
  is_live-rdlock = λ w l m. refl;
  is_live-wrlock = λ w l m. refl;
  is_live-unlock = λ w l m. refl;
  is_live-destroy = λ w l m. ground arith;
}

abbrev no_locks : Locks pool
no_locks = record { world = record { next_lock = 1; in_use = λ l. false }; g_rwlock_map = [] }

no_locks-IsSound : IsSound no_locks
unfolding find_key
no_locks-IsSound = record { live = λ g l e. absurd cc; apart = λ g g' l e f. absurd cc }

lock_hook-IsSound_example : EndsIn {t = pool} IsSound (lock_hook (rdlock_call 0x7000) no_locks)
lock_hook-IsSound_example =
    lock_hook-IsSound pool_laws (rdlock_call 0x7000) no_locks no_locks-IsSound
