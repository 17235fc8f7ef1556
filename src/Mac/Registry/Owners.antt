-- ===== src/Mac/Registry/Owners.antt =====
-- Which loaders the names of the map lead to.
use anisette_kit.Prelude.{
  ℕ, ◌≡◌, Bool, true, false, ◌||◌, ◌==◌, List, [], ◌∷◌, arith, Bool-cases, inl, inr,
}
use anisette_kit.Prelude.Text.{Text, text_eq}
use anisette_kit.Mac.Registry.{text_lt, insert_ordered, erase_loader}

abbrev pub is_owner : (owners : List ℕ) → (this : ℕ) → Bool
is_owner [] this = false
is_owner (o ∷ owners) this = (o == this) || is_owner owners this

-- Every name leads to one of the owners.
abbrev pub Owned : (owners : List ℕ) → (names : List (Text × ℕ)) → Type 0
Owned owners [] = Unit
Owned owners ((k, l) ∷ names) = (is_owner owners l ≡ true) × Owned owners names

pub insert_ordered-Owned :
    (owners : List ℕ) (k : Text) (this : ℕ) (names : List (Text × ℕ))
    → is_owner owners this ≡ true
    → Owned owners names
    → Owned owners (insert_ordered k this names)
unfolding insert_ordered
insert_ordered-Owned owners k this [] own h = (own, tt)
insert_ordered-Owned owners k this ((j, l) ∷ names) own h =
    let rest = insert_ordered-Owned owners k this names own h.1 in
    elim (Bool-cases (text_eq j k)) [
      | inl same ↦ rw same (own, h.1)
      | inr apart ↦ elim (Bool-cases (text_lt k j)) [
        | inl before ↦ rw (apart, before) (own, h)
        | inr behind ↦ rw (apart, behind) (h.0, rest)
      ]
    ]

pub erase_loader-Owned :
    (this : ℕ) (owners : List ℕ) (names : List (Text × ℕ))
    → Owned (this ∷ owners) names
    → Owned owners (erase_loader this names)
unfolding erase_loader
erase_loader-Owned this owners [] h = tt
erase_loader-Owned this owners ((k, l) ∷ names) h =
    let rest = erase_loader-Owned this owners names h.1 in
    elim (Bool-cases (l == this)) [
      | inl same ↦ rw same rest
      | inr apart ↦ rw apart (ground (arith, h.0), rest)
    ]

pub Owned-weaken :
    (this : ℕ) (owners : List ℕ) (names : List (Text × ℕ))
    → Owned owners names
    → Owned (this ∷ owners) names
Owned-weaken this owners [] h = tt
Owned-weaken this owners ((k, l) ∷ names) h =
    (ground (arith, h.0), Owned-weaken this owners names h.1)
