-- ===== src/Core/Bodies/Frames.antt =====
-- What the bodies of the functions (Core/Bodies) do to the globals beside the machine.
use anisette_kit.Prelude.{ℕ, le_bytes, not, ◌&&◌, List, ◌==◌}
use anisette_kit.Prelude.Int.{ℤ, pos, int_eq}
use anisette_kit.Prelude.Text.{Text}
use anisette_kit.Emulator.Host.{Host}
use anisette_kit.Emulator.Unicorn.{Unicorn}
use anisette_kit.Emulator.Vm.{mem_read, mem_write}
use anisette_kit.Emulator.Procedure.{EmuStart}
use anisette_kit.Core.Session.Triples.{
  Triple-read, Fact, Triple, Triple-bind, Triple-finish, Triple-lift, Triple-host, Triple-require,
  Triple-if,
}
use anisette_kit.Core.Bodies.{
  symbol, guest_number, guest_data, check_call, adi_call, headers_body, check_start, start_body,
  read_adi_pb, end_body,
}

module _ {u : Unicorn} {h : Host} {P : Fact} where
  symbol-Triple : (name err : Text) → Triple {u = u} {h = h} P (symbol name err) P P
  unfolding symbol
  symbol-Triple name err =
      Triple-bind (Triple-lift _) λ ptr. Triple-bind (Triple-require _ _) λ there. Triple-finish ptr

  guest_number-Triple :
      (address size : ℕ) → Triple {u = u} {h = h} P (guest_number address size) P P
  unfolding guest_number
  guest_number-Triple address size =
      Triple-bind (Triple-lift (mem_read address size)) λ bytes. Triple-finish _

  guest_data-Triple : (address size : ℕ) → Triple {u = u} {h = h} P (guest_data address size) P P
  unfolding guest_data
  guest_data-Triple address size =
      Triple-if (not (size == 0) && not (address == 0))
        (Triple-bind (Triple-lift (mem_read address size)) λ bytes. Triple-finish _)
        (Triple-finish _)

  module _ (emu_start : EmuStart u h) where
    check_call-Triple : (call : Text) (res : ℤ) → Triple {u = u} {h = h} P (check_call call res) P P
    unfolding check_call
    check_call-Triple call res = Triple-require _ _

    adi_call-Triple :
        (call : Text) (ptr : ℕ) (args : List ℕ) → Triple P (adi_call emu_start call ptr args) P P
    unfolding adi_call
    adi_call-Triple call ptr args = Triple-bind (Triple-lift _) λ res. check_call-Triple call res

    pub headers_body-Triple :
        (adi_pb : List ℕ) (dir : Text) → Triple P (headers_body emu_start adi_pb dir) P P
    unfolding headers_body
    headers_body-Triple adi_pb dir = Triple-bind (Triple-host _) λ wrote.
        Triple-bind (symbol-Triple _ _) λ ptr. Triple-bind (Triple-lift _) λ a.
          Triple-bind (Triple-lift _) λ b. Triple-bind (Triple-lift _) λ c.
            Triple-bind (Triple-lift _) λ d. Triple-bind (adi_call-Triple _ _ _) λ called.
              Triple-bind (guest_number-Triple _ _) λ mid_addr.
                Triple-bind (guest_number-Triple _ _) λ mid_len.
                  Triple-bind (guest_number-Triple _ _) λ otp_addr.
                    Triple-bind (guest_number-Triple _ _) λ otp_len.
                      Triple-bind (guest_data-Triple _ _)
                        λ mid. Triple-bind (guest_data-Triple _ _) λ otp. Triple-finish _

    check_start-Triple : (dir : Text) (res : ℤ) → Triple {u = u} {h = h} P (check_start dir res) P P
    unfolding check_start
    check_start-Triple dir res =
        Triple-if (int_eq res (pos 0)) (Triple-finish _)
          (Triple-bind (Triple-host _) λ removed. check_call-Triple _ res)

    pub start_body-Triple :
        (spim : List ℕ) (dir : Text) → Triple P (start_body emu_start spim dir) P P
    unfolding start_body
    start_body-Triple spim dir = Triple-bind (symbol-Triple _ _) λ ptr.
        Triple-bind (Triple-lift _) λ spim_vm. Triple-bind (Triple-lift _) λ a.
          Triple-bind (Triple-lift _) λ b. Triple-bind (Triple-lift _) λ c.
            Triple-bind (Triple-lift (mem_write a (le_bytes 8 0))) λ zero_a.
              Triple-bind (Triple-lift (mem_write b (le_bytes 4 0))) λ zero_b.
                Triple-bind (Triple-lift (mem_write c (le_bytes 4 0))) λ zero_c.
                  Triple-bind (Triple-lift _) λ res.
                    Triple-bind (check_start-Triple dir res) λ started.
                      Triple-bind (guest_number-Triple _ _) λ addr.
                        Triple-bind (guest_number-Triple _ _) λ len.
                          Triple-bind (guest_number-Triple _ _)
                            λ session. Triple-bind (guest_data-Triple _ _) λ cpim. Triple-finish _

    read_adi_pb-Triple : (dir : Text) → Triple {u = u} {h = h} P (read_adi_pb dir) P P
    unfolding read_adi_pb
    read_adi_pb-Triple dir = Triple-read _

    pub end_body-Triple :
        (session : ℕ) (ptm tk : List ℕ) (dir : Text)
        → Triple P (end_body emu_start session ptm tk dir) P P
    unfolding end_body
    end_body-Triple session ptm tk dir = Triple-bind (symbol-Triple _ _) λ ptr.
        Triple-bind (Triple-lift _) λ ptm_vm.
          Triple-bind (Triple-lift _)
            λ tk_vm. Triple-bind (adi_call-Triple _ _ _) λ called. read_adi_pb-Triple dir
