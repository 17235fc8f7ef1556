-- ===== src/Emulator/Tests/Calls.antt =====
-- The theorems on import stubs and calls of guest code at concrete inputs, and runs of the router.
use anisette_kit.Prelude.{List, ℕ, ◌+◌, ◌-◌, ◌^◌, ◌<◌, ◌≡◌, refl, some, [], ◌∷◌, get_elem?, arith}
use anisette_kit.Prelude.Text.{Text, codes, text_eq, find}
use anisette_kit.Emulator.Unicorn.{x, sp, lr, pc, err_ok, err_other}
use anisette_kit.Emulator.Vm.{
  Run, return_address, stack_address, stack_size, import_address, ok, Vm,
}
use anisette_kit.Emulator.Machine.{machine, machine_laws, host, guest}
use anisette_kit.Emulator.Imports.{register_import, known_or_new}
use anisette_kit.Emulator.Router.{handlers, handler_or_zero, run_handler}
use mathlib.Core.List.{Memᴰ}
use anisette_kit.Emulator.Imports.{emulator_vm}
use anisette_kit.Emulator.Router.{import_hook}
use anisette_kit.Emulator.Router.Dispatch.{register_all, import_hook-register_all}
use anisette_kit.Emulator.Strings.{hook_strlen}
use anisette_kit.Emulator.Procedure.{prepare, EmuStart}
use anisette_kit.Emulator.Procedure.Calls.{passed, prepare_lem}

abbrev empty_guest : Vm machine host
empty_guest = guest [] []

abbrev one_import : Vm machine host
one_import = record empty_guest { imported_symbols = (codes "strlen", import_address) ∷ [] }

once : register_import (codes "strlen") one_import ≡ ok (import_address, one_import)
unfolding register_import known_or_new find text_eq
once = refl

prepare_lem_example :
    ((j : ℕ)
      → j < 8
      → machine.reg_read (prepare machine 0x1000_0000 (7 ∷ 8 ∷ []) empty_guest.uc) (x j)
        ≡ passed (get_elem? (7 ∷ 8 ∷ []) j) 0)
    × (machine.reg_read (prepare machine 0x1000_0000 (7 ∷ 8 ∷ []) empty_guest.uc) sp
        ≡ stack_address + stack_size - 16)
    × (machine.reg_read (prepare machine 0x1000_0000 (7 ∷ 8 ∷ []) empty_guest.uc) lr
        ≡ return_address)
    × (machine.reg_read (prepare machine 0x1000_0000 (7 ∷ 8 ∷ []) empty_guest.uc) pc ≡ 0x1000_0000)
prepare_lem_example = prepare_lem machine_laws 0x1000_0000 (7 ∷ 8 ∷ []) empty_guest.uc (omega arith)

-- An engine that returns at once with -45061 in W0, and one that stops at the start.
abbrev returns_at_once : EmuStart machine host
returns_at_once begin until vm = ok (
  err_ok,
  record vm { uc = machine.reg_write (machine.reg_write vm.uc pc until) (x 0) (2 ^ 32 - 45061) },
)

abbrev stops_at_once : EmuStart machine host
stops_at_once begin until vm = ok (err_other 5, vm)

abbrev started_guest : Vm machine host
started_guest = record empty_guest { uc = prepare machine 0x1000_0000 (7 ∷ []) empty_guest.uc }

abbrev returned_guest : Vm machine host
returned_guest = record empty_guest {
  uc =
      machine.reg_write (machine.reg_write started_guest.uc pc return_address) (x 0)
        (2 ^ 32 - 45061);
}

abbrev vm_of : Run (Vm machine host) → Vm machine host
vm_of (ok vm) = vm
vm_of other = empty_guest

abbrev new_guest : Vm machine host
new_guest = vm_of (emulator_vm (some empty_guest.uc) empty_guest.world)

new_guest-starts : emulator_vm (some empty_guest.uc) empty_guest.world ≡ ok new_guest
unfolding emulator_vm
new_guest-starts = refl

abbrev two_names : List Text
two_names = codes "malloc" ∷ codes "strlen" ∷ []

import_hook-register_all_example :
    (vm' : Vm machine host) × (stub : ℕ) × (register_all two_names new_guest ≡ ok (tt, vm'))
    × (register_import (codes "strlen") vm' ≡ ok (stub, vm'))
    × (import_hook 9 stub vm' ≡ run_handler 9 (some (codes "strlen")) vm')
import_hook-register_all_example =
    import_hook-register_all 9 (some empty_guest.uc) empty_guest.world new_guest two_names
      (codes "strlen") new_guest-starts (omega arith) (Memᴰ.tail (Memᴰ.head refl))

routes_strlen : (vm : Vm machine host) → run_handler 9 (some (codes "strlen")) vm ≡ hook_strlen 9 vm
unfolding run_handler handlers handler_or_zero find text_eq
routes_strlen vm = refl
