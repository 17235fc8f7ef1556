-- ===== src/Emulator/Vm/Runs.antt =====
-- Runs that ended well, taken apart.
use anisette_kit.Prelude.{◌≡◌, refl}
use anisette_kit.Emulator.Vm.{Run, ok, aborted, out_of_fuel, undefined, and_then}

pub and_then-ok :
    {A B : Type 0} (r : Run A) (k : A → Run B) (b : B)
    → and_then r k ≡ ok b
    → (a : A) × (r ≡ ok a) × (k a ≡ ok b)
and_then-ok (ok a) k b e = (a, refl, e)
and_then-ok aborted k b e = absurd cc
and_then-ok out_of_fuel k b e = absurd cc
and_then-ok undefined k b e = absurd cc

pub ok-eq : {A : Type 0} (a b : A) → ◌≡◌ {A = Run A} (ok a) (ok b) → a ≡ b
ok-eq a b e = cc
