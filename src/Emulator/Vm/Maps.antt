-- ===== src/Emulator/Vm/Maps.antt =====
-- The maps from numbers: what is found after an insertion or an erasure, and bounds on the keys.
use anisette_kit.Prelude.{
  ℕ, ◌≤◌, ◌<◌, ◌≡◌, refl, none, some, List, [], ◌∷◌, ◌==◌, if◌then◌else◌, arith,
}
use anisette_kit.Emulator.Vm.{find_key, insert_key, erase_key}

module _ {ℓ} {V : Type ℓ} where
  pub find_key-insert_key :
      (k j : ℕ) (a : V) (m : List (ℕ × V))
      → find_key j (insert_key k a m) ≡ (if k == j then some a else find_key j m)
  unfolding find_key insert_key
  find_key-insert_key k j a [] = refl
  find_key-insert_key k j a ((i, b) ∷ m) = ground (arith, find_key-insert_key k j a m)

  pub find_key-erase_key :
      (k j : ℕ) (m : List (ℕ × V))
      → find_key j (erase_key k m) ≡ (if k == j then none else find_key j m)
  unfolding find_key erase_key
  find_key-erase_key k j [] = ground arith
  find_key-erase_key k j ((i, b) ∷ m) = ground (arith, find_key-erase_key k j m)

  abbrev pub KeysIn : (lo hi : ℕ) → List (ℕ × V) → Type 0
  KeysIn lo hi [] = Unit {0}
  KeysIn lo hi ((k, a) ∷ m) = (lo ≤ k) × (k < hi) × KeysIn lo hi m

  pub KeysIn-mono : (lo hi hi' : ℕ) (m : List (ℕ × V)) → hi ≤ hi' → KeysIn lo hi m → KeysIn lo hi' m
  KeysIn-mono lo hi hi' [] le b = tt
  KeysIn-mono lo hi hi' ((k, a) ∷ m) le b =
      (b.0, omega (arith, b.1), KeysIn-mono lo hi hi' m le b.2)

  pub KeysIn-insert_key :
      (lo hi k : ℕ) (a : V) (m : List (ℕ × V))
      → lo ≤ k
      → k < hi
      → KeysIn lo hi m
      → KeysIn lo hi (insert_key k a m)
  unfolding insert_key
  KeysIn-insert_key lo hi k a [] l r b = (l, r, tt)
  KeysIn-insert_key lo hi k a ((i, c) ∷ m) l r b = ground (arith, KeysIn-insert_key lo hi k a m)

  pub KeysIn-erase_key :
      (lo hi k : ℕ) (m : List (ℕ × V)) → KeysIn lo hi m → KeysIn lo hi (erase_key k m)
  unfolding erase_key
  KeysIn-erase_key lo hi k [] b = tt
  KeysIn-erase_key lo hi k ((i, c) ∷ m) b = ground (arith, KeysIn-erase_key lo hi k m)

  pub find_key-out :
      (lo hi k : ℕ) (m : List (ℕ × V)) → KeysIn lo hi m → hi ≤ k → find_key k m ≡ none
  unfolding find_key
  find_key-out lo hi k [] b le = refl
  find_key-out lo hi k ((i, c) ∷ m) b le = ground (arith, find_key-out lo hi k m)
