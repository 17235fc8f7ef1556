-- ===== src/Core/Entries/Calls.antt =====
-- Sequences of calls of the interface: what they leave in the globals; and calls with null pointers.
use anisette_kit.Prelude.{ℕ, ◌≡◌, refl, Bool, true, false, ◌&&◌, Option, none, some, List}
use anisette_kit.Prelude.Int.{minus}
use anisette_kit.Prelude.Text.{Text}
use anisette_kit.Emulator.Host.{Host}
use anisette_kit.Emulator.Unicorn.{Unicorn, is_some}
use anisette_kit.Emulator.Vm.{ok}
use anisette_kit.Emulator.Procedure.{EmuStart}
use anisette_kit.Core.Session.{Globals, idle}
use anisette_kit.Core.Setup.Facts.{IsConsistent}
use anisette_kit.Core.Setup.Again.{AllHold}
use anisette_kit.Core.Bodies.{Response, invalid_argument}
use anisette_kit.Core.Bodies.Frames.{headers_body-Triple, start_body-Triple, end_body-Triple}
use anisette_kit.Core.Entries.{
  Entry, given, given_out, get_anisette_headers_uc, start_provision_uc, end_provision_uc,
  cancel_provision_uc,
}
use anisette_kit.Base.Errors.{value}
use anisette_kit.Core.Entries.Keeps.{
  Keeps, given-Keeps, given_out-Keeps, with_setup-Keeps, cancel_shared-Keeps,
}

-- A call of one of the functions, with its arguments.
pub data Call : Type 0 where
  get_anisette_headers :
      (lib_dir provisioning_dir : Option Text) (identifier adi_pb : Option (List ℕ))
      (out_json : Bool)
      → Call
  start_provision :
      (lib_dir provisioning_dir : Option Text) (identifier spim : Option (List ℕ)) (out_json : Bool)
      → Call
  end_provision :
      (lib_dir provisioning_dir : Option Text) (identifier : Option (List ℕ)) (session : ℕ)
      (ptm tk : Option (List ℕ)) (out_json : Bool)
      → Call
  cancel_provision :
      (lib_dir provisioning_dir : Option Text) (identifier : Option (List ℕ)) (session : ℕ) → Call

module _ {u : Unicorn} {h : Host} (emu_start : EmuStart u h) (rounds : ℕ)
    (new_vm : Option u.State) where
  unfoldable pub serve : Call → Entry u h
  serve (get_anisette_headers lib_dir provisioning_dir identifier adi_pb out_json) =
      get_anisette_headers_uc emu_start rounds new_vm lib_dir provisioning_dir identifier adi_pb
        out_json
  serve (start_provision lib_dir provisioning_dir identifier spim out_json) =
      start_provision_uc emu_start rounds new_vm lib_dir provisioning_dir identifier spim out_json
  serve (end_provision lib_dir provisioning_dir identifier session ptm tk out_json) =
      end_provision_uc emu_start rounds new_vm lib_dir provisioning_dir identifier session ptm tk
        out_json
  serve (cancel_provision lib_dir provisioning_dir identifier session) =
      cancel_provision_uc emu_start rounds new_vm lib_dir provisioning_dir identifier session

  serve-Keeps : (call : Call) → Keeps IsConsistent (serve call)
  unfolding serve get_anisette_headers_uc start_provision_uc end_provision_uc cancel_provision_uc
  serve-Keeps (get_anisette_headers lib_dir provisioning_dir identifier adi_pb out_json) =
      given-Keeps lib_dir λ dir. given-Keeps provisioning_dir λ prov. given-Keeps identifier λ id.
        given-Keeps adi_pb λ pb.
          given_out-Keeps out_json (
            with_setup-Keeps emu_start rounds new_vm dir prov id (headers_body-Triple emu_start pb))
  serve-Keeps (start_provision lib_dir provisioning_dir identifier spim out_json) =
      given-Keeps lib_dir λ dir. given-Keeps provisioning_dir λ prov. given-Keeps identifier λ id.
        given-Keeps spim λ bytes.
          given_out-Keeps out_json (
            with_setup-Keeps emu_start rounds new_vm dir prov id
              (start_body-Triple emu_start bytes))
  serve-Keeps (end_provision lib_dir provisioning_dir identifier session ptm tk out_json) =
      given-Keeps lib_dir λ dir. given-Keeps provisioning_dir λ prov. given-Keeps identifier λ id.
        given-Keeps ptm λ ptm_bytes. given-Keeps tk λ tk_bytes. given_out-Keeps out_json (
          with_setup-Keeps emu_start rounds new_vm dir prov id
            (end_body-Triple emu_start session ptm_bytes tk_bytes))
  serve-Keeps (cancel_provision lib_dir provisioning_dir identifier session) =
      given-Keeps lib_dir λ dir.
        given-Keeps provisioning_dir
          λ prov. given-Keeps identifier λ id. cancel_shared-Keeps emu_start rounds new_vm session

  -- The states of the globals that calls lead to, from the start of the process on.
  pub data Reachable : Globals u h → Type 0 where
    start : (w : h.World) → Reachable (idle w)
    call :
        (c : Call) (g g' : Globals u h) (response : Response)
        → Reachable g
        → serve c g ≡ ok (response, g')
        → Reachable g'

  -- In all states that calls lead to from the start of the process, whether they failed or not,
  -- the globals name a directory or an id only if the libraries are initialised.
  pub Reachable-IsConsistent : (g : Globals u h) → Reachable g → AllHold IsConsistent g
  Reachable-IsConsistent g (start w) = tt
  Reachable-IsConsistent g' (call c g g'' response r e) =
      (serve-Keeps c).keeps g g' response (Reachable-IsConsistent g r) e

-- Whether no pointer among the arguments is null.
abbrev pub all_given : Call → Bool
all_given (get_anisette_headers lib_dir provisioning_dir identifier adi_pb out_json) =
    is_some lib_dir
    && (is_some provisioning_dir && (is_some identifier && (is_some adi_pb && out_json)))
all_given (start_provision lib_dir provisioning_dir identifier spim out_json) =
    is_some lib_dir
    && (is_some provisioning_dir && (is_some identifier && (is_some spim && out_json)))
all_given (end_provision lib_dir provisioning_dir identifier session ptm tk out_json) =
    is_some lib_dir
    && (is_some provisioning_dir
        && (is_some identifier && (is_some ptm && (is_some tk && out_json))))
all_given (cancel_provision lib_dir provisioning_dir identifier session) =
    is_some lib_dir && (is_some provisioning_dir && (is_some identifier && true))

module _ {u : Unicorn} {h : Host} where
  -- A call that ends at a null pointer, unless all are given.
  pub record Rejects (all : Bool) (entry : Entry u h) : Type 0 where
    pub rejects : (g : Globals u h) → all ≡ false → entry g ≡ ok (invalid_argument, g)

  given-Rejects :
      {A : Type 0} (o : Option A) {others : Bool} {entry : A → Entry u h}
      → ((a : A) → Rejects others (entry a))
      → Rejects (is_some o && others) (given o entry)
  unfolding given
  given-Rejects none k = record { rejects = λ g null. refl }
  given-Rejects (some a) k = k a

  given_out-Rejects : (out : Bool) (entry : Entry u h) → Rejects out (given_out out entry)
  unfolding given_out
  given_out-Rejects false entry = record { rejects = λ g null. refl }
  given_out-Rejects true entry = record { rejects = λ g null. absurd cc }

module _ {u : Unicorn} {h : Host} (emu_start : EmuStart u h) (rounds : ℕ)
    (new_vm : Option u.State) where
  serve-Rejects : (c : Call) → Rejects (all_given c) (serve emu_start rounds new_vm c)
  unfolding serve get_anisette_headers_uc start_provision_uc end_provision_uc cancel_provision_uc
  serve-Rejects (get_anisette_headers lib_dir provisioning_dir identifier adi_pb out_json) =
      given-Rejects lib_dir λ dir. given-Rejects provisioning_dir λ prov.
        given-Rejects identifier λ id. given-Rejects adi_pb λ pb. given_out-Rejects out_json _
  serve-Rejects (start_provision lib_dir provisioning_dir identifier spim out_json) =
      given-Rejects lib_dir λ dir. given-Rejects provisioning_dir λ prov.
        given-Rejects identifier λ id. given-Rejects spim λ bytes. given_out-Rejects out_json _
  serve-Rejects (end_provision lib_dir provisioning_dir identifier session ptm tk out_json) =
      given-Rejects lib_dir λ dir. given-Rejects provisioning_dir λ prov.
        given-Rejects identifier λ id.
          given-Rejects ptm λ ptm_bytes. given-Rejects tk λ tk_bytes. given_out-Rejects out_json _
  serve-Rejects (cancel_provision lib_dir provisioning_dir identifier session) =
      given-Rejects lib_dir λ dir.
        given-Rejects provisioning_dir
          λ prov. given-Rejects identifier λ id. record { rejects = λ g null. absurd cc }

  -- A call with a null pointer returns the code for invalid arguments, leaves no text and changes
  -- nothing, whichever of its pointers it is.
  pub serve-all_given :
      (c : Call) (g : Globals u h)
      → all_given c ≡ false
      → serve emu_start rounds new_vm c g ≡ ok (record { code = minus 1; json = none }, g)
  unfolding value
  serve-all_given c g null = (serve-Rejects c).rejects g null
