-- ===== src/Mac/Setup/Stages.antt =====
-- The loaders, names and globals at each stage of `load_adi_and_setup` of Native/anisette_core_mac.cpp.
use anisette_kit.Prelude.{ℕ, ◌+◌, ◌≡◌, refl, true, Option, none, some, List, [], ◌∷◌, ◌⊎◌}
use anisette_kit.Prelude.Text.{Text}
use anisette_kit.Emulator.Vm.{erase_key}
use anisette_kit.Mac.Platform.{Platform}
use anisette_kit.Mac.Process.{update}
use anisette_kit.Mac.Process.Quiet.{Skeleton}
use anisette_kit.Mac.Process.Triples.{
  Fact, Triple, Triple-bind, Triple-gets, Triple-update, Triple-given, Triple-weaken,
}
use anisette_kit.Mac.Process.Effects.{made, deleted, connected, push_sibling, Triple-delete_loader}
use anisette_kit.Mac.Registry.{insert_ordered}
use anisette_kit.Mac.Registry.Owners.{
  is_owner, Owned, insert_ordered-Owned, erase_loader-Owned, Owned-weaken,
}
use anisette_kit.Mac.Load.{file_name}
use anisette_kit.Mac.Load.Names.{registered}
use anisette_kit.Mac.Globals.{delete_pointer, delete_ssc, delete_adi}

-- The loaders with their siblings, whom the names may lead to, the globals, and the next number.
pub record Stage (objects : List (ℕ × List ℕ)) (owners : List ℕ) (adi ssc : Option ℕ) (next : ℕ)
    (k : Skeleton) : Type 0 where
  pub objects_are : k.objects ≡ objects
  pub owned : Owned owners k.names
  pub adi_is : k.adi ≡ adi
  pub ssc_is : k.ssc ≡ ssc
  pub next_is : k.next ≡ next

-- There are no loaders, and no name leads to one.
abbrev pub Idle : Fact
Idle k = (n : ℕ) × Stage [] [] none none n k

-- There are two loaders, to which the globals lead, each is the other's only sibling, and every name
-- leads to one of them.
abbrev pub Running : Fact
Running k =
    (n : ℕ) × Stage ((n + 1, n ∷ []) ∷ (n, (n + 1) ∷ []) ∷ []) ((n + 1) ∷ n ∷ []) (some (n + 1))
      (some n) (n + 2) k

abbrev pub Steady : Fact
Steady k = Idle k ⊎ Running k

pub Stage-made :
    {objects : List (ℕ × List ℕ)} {owners : List ℕ} {adi ssc : Option ℕ} {n : ℕ} (k : Skeleton)
    → Stage objects owners adi ssc n k
    → Stage ((n, []) ∷ objects) (n ∷ owners) adi ssc (n + 1) (made k)
Stage-made {owners = owners} {n = n} k g = record {
  objects_are = rw (g.objects_are, g.next_is) refl;
  owned = Owned-weaken n owners k.names g.owned;
  adi_is = g.adi_is;
  ssc_is = g.ssc_is;
  next_is = rw g.next_is refl;
}

pub Stage-deleted :
    {objects : List (ℕ × List ℕ)} {owners : List ℕ} {adi ssc : Option ℕ} {n : ℕ} (this : ℕ)
    (k : Skeleton)
    → Stage objects (this ∷ owners) adi ssc n k
    → Stage (erase_key this objects) owners adi ssc n (deleted this k)
Stage-deleted {owners = owners} this k g = record {
  objects_are = rw g.objects_are refl;
  owned = erase_loader-Owned this owners k.names g.owned;
  adi_is = g.adi_is;
  ssc_is = g.ssc_is;
  next_is = g.next_is;
}

pub Stage-connected :
    {objects : List (ℕ × List ℕ)} {owners : List ℕ} {adi ssc : Option ℕ} {n : ℕ} (this sib : ℕ)
    (k : Skeleton)
    → Stage objects owners adi ssc n k
    → Stage (push_sibling this sib objects) owners adi ssc n (connected this sib k)
Stage-connected this sib k g = record {
  objects_are = rw g.objects_are refl;
  owned = g.owned;
  adi_is = g.adi_is;
  ssc_is = g.ssc_is;
  next_is = g.next_is;
}

pub Stage-registered :
    {objects : List (ℕ × List ℕ)} {owners : List ℕ} {adi ssc : Option ℕ} {n : ℕ} (this : ℕ)
    (path : Text) (k : Skeleton)
    → is_owner owners this ≡ true
    → Stage objects owners adi ssc n k
    → Stage objects owners adi ssc n (registered this path k)
Stage-registered {owners = owners} this path k own g = record {
  objects_are = g.objects_are;
  owned =
      insert_ordered-Owned owners (file_name path) this (insert_ordered path this k.names) own
        (insert_ordered-Owned owners path this k.names own g.owned);
  adi_is = g.adi_is;
  ssc_is = g.ssc_is;
  next_is = g.next_is;
}

module _ {p : Platform} where
  pub set_ssc-Stage :
      {objects : List (ℕ × List ℕ)} {owners : List ℕ} {adi ssc : Option ℕ} {n : ℕ} (new : Option ℕ)
      → Triple {p = p}
          (Stage objects owners adi ssc n)
          (update (λ s. record s { g_ssc = new }))
          (λ _. Stage objects owners adi new n)
  set_ssc-Stage new = Triple-update _ _ λ s g. record {
    objects_are = g.objects_are;
    owned = g.owned;
    adi_is = g.adi_is;
    ssc_is = refl;
    next_is = g.next_is;
  }

  pub set_adi-Stage :
      {objects : List (ℕ × List ℕ)} {owners : List ℕ} {adi ssc : Option ℕ} {n : ℕ} (new : Option ℕ)
      → Triple {p = p}
          (Stage objects owners adi ssc n)
          (update (λ s. record s { g_adi = new }))
          (λ _. Stage objects owners new ssc n)
  set_adi-Stage new = Triple-update _ _ λ s g. record {
    objects_are = g.objects_are;
    owned = g.owned;
    adi_is = refl;
    ssc_is = g.ssc_is;
    next_is = g.next_is;
  }

  delete_known :
      {objects : List (ℕ × List ℕ)} {owners : List ℕ} {adi ssc : Option ℕ} {n : ℕ} (this : ℕ)
      (l : Option ℕ)
      → l ≡ some this
      → Triple {p = p}
          (Stage objects (this ∷ owners) adi ssc n)
          (delete_pointer l)
          (λ _. Stage (erase_key this objects) owners adi ssc n)
  unfolding delete_pointer
  delete_known this none e = absurd cc
  delete_known {objects} {owners} {adi} {ssc} {n} this (some i) e =
      let same : i ≡ this = cc in
      rw same (
        Triple-weaken (λ k h. h) (λ a k (b, g, q). rw q (Stage-deleted this b g))
          (Triple-delete_loader this))

  pub delete_ssc-Stage :
      {objects : List (ℕ × List ℕ)} {owners : List ℕ} {adi : Option ℕ} {n : ℕ} (this : ℕ)
      → Triple {p = p}
          (Stage objects (this ∷ owners) adi (some this) n)
          delete_ssc
          (λ _. Stage (erase_key this objects) owners adi none n)
  unfolding delete_ssc
  delete_ssc-Stage {objects} {owners} {adi} {n} this =
      Triple-bind
        (Triple-gets (λ l k. (l ≡ some this) × Stage objects (this ∷ owners) adi (some this) n k) _
          λ s g. (g.ssc_is, g))
        λ l. Triple-given λ e. Triple-bind (delete_known this l e) λ _. set_ssc-Stage none

  pub delete_adi-Stage :
      {objects : List (ℕ × List ℕ)} {owners : List ℕ} {ssc : Option ℕ} {n : ℕ} (this : ℕ)
      → Triple {p = p}
          (Stage objects (this ∷ owners) (some this) ssc n)
          delete_adi
          (λ _. Stage (erase_key this objects) owners none ssc n)
  unfolding delete_adi
  delete_adi-Stage {objects} {owners} {ssc} {n} this =
      Triple-bind
        (Triple-gets (λ l k. (l ≡ some this) × Stage objects (this ∷ owners) (some this) ssc n k) _
          λ s g. (g.adi_is, g))
        λ l. Triple-given λ e. Triple-bind (delete_known this l e) λ _. set_adi-Stage none
