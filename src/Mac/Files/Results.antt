-- ===== src/Mac/Files/Results.antt =====
-- What the hooks on files return, and the errno that they leave.
use anisette_kit.Prelude.{
  ℕ, ◌≡◌, refl, Bool, true, false, ◌||◌, ◌==◌, ◌<◌, if◌then◌else◌, bit_and, bit_or, arith,
  Bool-cases, inl, inr,
}
use anisette_kit.Prelude.Bits.{zero-bit_or}
use anisette_kit.Prelude.Int.{ℤ, pos, minus}
use anisette_kit.Prelude.Text.{Text}
use anisette_kit.Emulator.Host.{OpenFlags}
use anisette_kit.Emulator.FileFormats.{access_flags, linux_to_darwin_open_flags}
use anisette_kit.Emulator.Vm.{ok}
use anisette_kit.Mac.Platform.{Platform}
use anisette_kit.Mac.Process.{Process, ◌>>=◌}
use anisette_kit.Mac.Files.{mac_open_flags, saved_errno, made_or_exists, host_mkdir}

access_same :
    (o : OpenFlags) (a : ℕ)
    → o.o_rdonly ≡ 0
    → o.o_wronly ≡ 1
    → o.o_rdwr ≡ 2
    → a < 3
    → access_flags o a ≡ bit_or 0 a
access_same o a r w rw' h = rw (zero-bit_or a) (
    ground (arith, r, w, rw', zero-bit_or o.o_rdonly, zero-bit_or o.o_wronly, zero-bit_or o.o_rdwr))

-- On a system whose access modes are numbered as Linux's, the translation of open's flags for
-- native code is the one for the guest, if the access mode is one of the three and the flags are not
-- those that only the guest's translation knows.
pub mac_open_flags_lem :
    (o : OpenFlags) (flags : ℕ)
    → o.o_rdonly ≡ 0
    → o.o_wronly ≡ 1
    → o.o_rdwr ≡ 2
    → bit_and flags 3 < 3
    → bit_and flags 0x100 ≡ 0
    → bit_and flags 0x800 ≡ 0
    → bit_and flags 0x1000 ≡ 0
    → mac_open_flags o flags ≡ linux_to_darwin_open_flags o flags
unfolding mac_open_flags linux_to_darwin_open_flags
mac_open_flags_lem o flags r w rw' access noctty nonblock sync =
    rw (noctty, nonblock, sync, access_same o (bit_and flags 3) r w rw' access) refl

-- The result and the errno of `hook_mkdir`, where the system's call gave `made` and `errno`.
abbrev pub MkdirEnds : {p : Platform} (made : Bool) (errno : ℕ) (result : ℤ) → Process p → Type 0
MkdirEnds {p} made errno result s =
    if made || (errno == p.host.eexist)
    then (result ≡ pos 0) × (p.host.errno s.world ≡ 0)
    else (result ≡ minus 1) × (p.host.errno s.world ≡ errno)

module _ {p : Platform} where
  mkdir-ends :
      ((w : p.host.World) (v : ℕ) → p.host.errno (p.set_errno w v) ≡ v)
      → (made : Bool) (s : Process p)
      → (result : ℤ) × ((s' : Process p) × (((saved_errno made >>= made_or_exists made) s
              ≡ ok (result, s'))
            × MkdirEnds made (p.host.errno s.world) result s'))
  unfolding made_or_exists saved_errno ◌>>=◌
  mkdir-ends get_set true s =
      (pos 0, (record s { world = p.set_errno s.world 0 }, (refl, (refl, get_set s.world 0))))
  mkdir-ends get_set false s =
      let e : ℕ = p.host.errno s.world in
      elim (Bool-cases (e == p.host.eexist)) [
        | inl same ↦ rw same (
          pos 0,
          (record s { world = p.set_errno (p.set_errno s.world 0) 0 }, (refl, (refl, get_set _ 0))),
        )
        | inr other ↦
            rw other
              (minus 1, (record s { world = p.set_errno s.world e }, (refl, (refl, get_set _ e))))
      ]

  -- mkdir returns 0 and leaves no errno if the system made the directory or says that it exists, and
  -- otherwise returns -1 and leaves the system's errno, where a read of errno gives what was set last.
  pub host_mkdir_lem :
      (path : Text) (mode : ℕ) (s : Process p)
      → ((w : p.host.World) (v : ℕ) → p.host.errno (p.set_errno w v) ≡ v)
      → (result : ℤ) × ((s' : Process p) × ((host_mkdir path mode s ≡ ok (result, s'))
            × MkdirEnds
                (p.host.mkdir s.world path mode).0
                (p.host.errno (p.host.mkdir s.world path mode).1)
                result
                s'))
  unfolding host_mkdir ◌>>=◌
  host_mkdir_lem path mode s get_set =
      mkdir-ends get_set (p.host.mkdir s.world path mode).0
        (record s { world = (p.host.mkdir s.world path mode).1 })
