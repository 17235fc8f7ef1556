-- ===== src/Mac/Registry/Names.antt =====
-- What is found in the map of the loaded libraries after loaders are registered and deleted.
use anisette_kit.Prelude.{
  inr, ◌==◌, Bool-cases, inl, ◌⊎◌, ℕ, ◌≡◌, ◌≢◌, refl, ap, true, none, some, List, [], ◌∷◌,
  if◌then◌else◌, arith,
}
use anisette_kit.Prelude.Text.{Text, text_eq, text_eq_iff, find}
use anisette_kit.Emulator.Vm.{ok, find_key, erase_key}
use anisette_kit.Emulator.Vm.Maps.{find_key-erase_key}
use anisette_kit.Mac.Platform.{Platform}
use anisette_kit.Mac.Process.{◌>>=◌, ElfLoader, Process}
use anisette_kit.Mac.Process.Quiet.{Skeleton, skeleton}
use anisette_kit.Mac.Process.Effects.{deleted, Triple-delete_loader}
use anisette_kit.Mac.Registry.{insert_ordered, erase_loader, delete_loader}
use anisette_kit.Mac.Load.{load, file_name}
use anisette_kit.Mac.Load.Names.{registered, load-registered}

find-insert_ordered :
    (k j : Text) (v : ℕ) (m : List (Text × ℕ))
    → find j (insert_ordered k v m) ≡ (if text_eq k j then some v else find j m)
unfolding find insert_ordered
find-insert_ordered k j v [] = refl
find-insert_ordered k j v ((i, w) ∷ m) =
    ground (arith, text_eq_iff k j, text_eq_iff i k, text_eq_iff i j, find-insert_ordered k j v m)

-- A call of load that returns true makes its path and the name of its file lead to the loader, and
-- leaves what every other name leads to.
pub load_names :
    {p : Platform} (rounds this : ℕ) (path name : Text) (s s' : Process p)
    → load rounds this path s ≡ ok (true, s')
    → find name s'.loaded_libraries ≡ (
        if text_eq (file_name path) name
        then some this
        else if text_eq path name
        then some this
        else find name s.loaded_libraries)
load_names rounds this path name s s' e =
    let q : skeleton s' ≡ registered this path (skeleton s) =
      load-registered rounds this path s s' true e in
    let names : s'.loaded_libraries ≡ (registered this path (skeleton s)).names = cc in
    rw
      (
        names,
        find-insert_ordered (file_name path) name this
            (insert_ordered path this s.loaded_libraries),
        find-insert_ordered path name this s.loaded_libraries,
      )
      refl

erased_not :
    (this l : ℕ) (k : Text) (m : List (Text × ℕ)) → find k (erase_loader this m) ≡ some l → this ≢ l
unfolding find erase_loader
erased_not this l k [] e = absurd cc
erased_not this l k ((i, j) ∷ m) e = ground (arith, erased_not this l k m)

erased_keeps :
    (this : ℕ) (k : Text) (m : List (Text × ℕ))
    → (find k (erase_loader this m) ≡ find k m) ⊎ (find k m ≡ some this)
unfolding find erase_loader
erased_keeps this k [] = inl refl
erased_keeps this k ((i, j) ∷ m) = ground (arith, erased_keeps this k m)

delete_loader-ends :
    {p : Platform} (this : ℕ) (l : ElfLoader) (s : Process p)
    → find_key this s.loaders ≡ some l
    → (s' : Process p) × (delete_loader this s ≡ ok (tt, s'))
unfolding delete_loader ◌>>=◌
delete_loader-ends this l s found = rw found (elim (Bool-cases (l.base_addr == 0)) [
  | inl b ↦ elim (Bool-cases (l.data_addr == 0)) [
    | inl d ↦ rw (b, d) (_, refl)
    | inr d ↦ rw (b, d) (_, refl)
  ]
  | inr b ↦ elim (Bool-cases (l.data_addr == 0)) [
    | inl d ↦ rw (b, d) (_, refl)
    | inr d ↦ rw (b, d) (_, refl)
  ]
])

-- The deletion of a loader that was not deleted before returns; then it is no object any more, no
-- name leads to it, and a name that did not lead to it leads where it led before, or still nowhere.
pub delete_loader_lem :
    {p : Platform} (this : ℕ) (l : ElfLoader) (name : Text) (s : Process p)
    → find_key this s.loaders ≡ some l
    → (s' : Process p) × (delete_loader this s ≡ ok (tt, s'))
      × (find_key this (skeleton s').objects ≡ none)
      × (find name s'.loaded_libraries ≢ some this)
      × ((find name s'.loaded_libraries ≡ find name s.loaded_libraries)
          ⊎ (find name s.loaded_libraries ≡ some this))
delete_loader_lem this l name s found =
    let (s', e) = delete_loader-ends this l s found in
    let (before, b, q) =
      (Triple-delete_loader {P = λ k. k ≡ skeleton s} this).ends s s' tt refl e in
    let r : skeleton s' ≡ deleted this (skeleton s) = rw b at q in
    let objects : (skeleton s').objects ≡ erase_key this (skeleton s).objects =
      ap (λ (k : Skeleton). k.objects) r in
    let names : s'.loaded_libraries ≡ erase_loader this s.loaded_libraries =
      ap (λ (k : Skeleton). k.names) r in
    (
      s',
      e,
      rw (objects, find_key-erase_key this this (skeleton s).objects) (ground arith),
      λ g. erased_not this this name s.loaded_libraries (rw names at g) refl,
      rw names (erased_keeps this name s.loaded_libraries),
    )
