-- ===== src/Mac/Entries/Calls.antt =====
-- Calls of the functions of Native/anisette_core_mac.cpp, one after another.
use anisette_kit.Prelude.{ℕ, ◌≡◌, refl, Bool, true, false, Option, none, List, inl, inr, ◌⊎◌}
use anisette_kit.Prelude.Text.{Text}
use anisette_kit.Base.Errors.{value}
use anisette_kit.Core.Session.{Result, failed, done}
use anisette_kit.Core.Bodies.{Response, error}
use anisette_kit.Core.Bodies.Replies.{IsError, IsStart, IsEnd}
use anisette_kit.Emulator.Vm.{ok}
use anisette_kit.Mac.Platform.{Platform}
use anisette_kit.Mac.Process.{Process, Action, pure, fresh_process}
use anisette_kit.Mac.Process.Quiet.{skeleton, Quiet-loader_at}
use anisette_kit.Mac.Process.Triples.{
  Fact, Outcome, Triple, Triple-bind, Triple-Quiet, Triple-weaken, Triple-pure,
}
use anisette_kit.Mac.Bodies.{Body, either, setup_error, first_sibling}
use anisette_kit.Mac.Setup.Stages.{Running, Steady}
use anisette_kit.Mac.Setup.Outcomes.{load_adi_and_setup-Running}
use anisette_kit.Mac.Entries.{
  behind_setup, through, with_adi, get_anisette_headers_c, start_provision_c, end_provision_c,
  cancel_provision_c,
}
use anisette_kit.Mac.Entries.Replies.{
  Goes, IsRouting, headers_c-Goes, start_c-Goes, end_c-Goes, cancel_c-Goes,
}

-- A call of one of the functions, with its arguments.
pub data NativeCall : Type 0 where
  headers_call :
      (lib_dir provisioning_dir : Option Text) (identifier adi_pb : Option (List ℕ))
      (adi_pb_len : ℕ) (out_json : Bool)
      → NativeCall
  start_call :
      (lib_dir provisioning_dir : Option Text) (identifier spim : Option (List ℕ)) (spim_len : ℕ)
      (out_json : Bool)
      → NativeCall
  end_call :
      (lib_dir provisioning_dir : Option Text) (identifier : Option (List ℕ)) (session : ℕ)
      (ptm : Option (List ℕ)) (ptm_len : ℕ) (tk : Option (List ℕ)) (tk_len : ℕ) (out_json : Bool)
      → NativeCall
  cancel_call :
      (lib_dir provisioning_dir : Option Text) (identifier : Option (List ℕ)) (session : ℕ)
      → NativeCall

-- What the response to a call is that does not fail.
abbrev pub IsResult : NativeCall → Response → Type 0
IsResult (headers_call lib_dir provisioning_dir identifier adi_pb adi_pb_len out_json) r =
    IsError r ⊎ IsRouting r
IsResult (start_call lib_dir provisioning_dir identifier spim spim_len out_json) r =
    IsError r ⊎ IsStart r
IsResult (end_call lib_dir provisioning_dir identifier session ptm ptm_len tk tk_len out_json) r =
    IsError r ⊎ IsEnd r
IsResult (cancel_call lib_dir provisioning_dir identifier session) r = r.json ≡ none

setup_error-IsError : (err : Text) → IsError (setup_error err)
unfolding error value
setup_error-IsError err = (cc, (err, refl))

-- The response of a body is one of the two, and the loaders stay.
abbrev Ends : (F Q : Response → Type 0) → Response → Fact
Ends F Q r k = (F r ⊎ Q r) × Steady k

module _ {p : Platform} where
  through-Triple :
      {P : Response → Fact} (out_json : Bool) (r : Response)
      → Triple {p = p} (P r) (through out_json r) P
  unfolding through
  through-Triple {P} true r = Triple-pure P r λ k h. h
  through-Triple {P} false r = record { ends = λ s s' a h e. absurd cc }

  module _ (F Q : Response → Type 0) where
    ended :
        (r : Result Response Response)
        → Triple {p = p}
            (Outcome (λ a k. Q a × Running k) (λ a k. F a × Running k) r)
            (pure (either r))
            (Ends F Q)
    ended (failed a) = Triple-pure (Ends F Q) a λ k h. (inl h.0, inr h.1)
    ended (done a) = Triple-pure (Ends F Q) a λ k h. (inr h.0, inr h.1)

    behind_setup-Ends :
        (failure : (err : Text) → Response) (body : Body p)
        → ((err : Text) → F (failure err))
        → ((ssc : Option ℕ) (adi : ℕ) (dir : Text) → Goes F Q (body ssc adi dir))
        → (r : Result Text (ℕ × Text))
        → Triple {p = p}
            (Outcome (λ _. Running) (λ _. Steady) r)
            (behind_setup failure body r)
            (Ends F Q)
    unfolding behind_setup
    behind_setup-Ends failure body fails goes (failed err) =
        Triple-pure (Ends F Q) (failure err) λ k h. (inl (fails err), h)
    behind_setup-Ends failure body fails goes (done (adi, dir)) =
        Triple-bind (Triple-Quiet (Quiet-loader_at adi))
          λ l. Triple-bind (goes (first_sibling l.siblings) adi dir) λ r. ended r

    with_adi-Ends :
        (rounds : ℕ) (lib_dir provisioning_dir : Option Text) (identifier : Option (List ℕ))
        (failure : (err : Text) → Response) (body : Body p)
        → ((err : Text) → F (failure err))
        → ((ssc : Option ℕ) (adi : ℕ) (dir : Text) → Goes F Q (body ssc adi dir))
        → Triple {p = p} Steady
            (with_adi rounds lib_dir provisioning_dir identifier failure body)
            (Ends F Q)
    unfolding with_adi
    with_adi-Ends rounds lib_dir provisioning_dir identifier failure body fails goes =
        Triple-bind (load_adi_and_setup-Running rounds lib_dir provisioning_dir identifier)
          λ r. behind_setup-Ends failure body fails goes r

module _ {p : Platform} (rounds : ℕ) where
  unfoldable pub serve_native : NativeCall → Action p Response
  serve_native (headers_call lib_dir provisioning_dir identifier adi_pb adi_pb_len out_json) =
      get_anisette_headers_c rounds lib_dir provisioning_dir identifier adi_pb adi_pb_len out_json
  serve_native (start_call lib_dir provisioning_dir identifier spim spim_len out_json) =
      start_provision_c rounds lib_dir provisioning_dir identifier spim spim_len out_json
  serve_native
        (end_call lib_dir provisioning_dir identifier session ptm ptm_len tk tk_len out_json) =
      end_provision_c rounds lib_dir provisioning_dir identifier session ptm ptm_len tk tk_len
        out_json
  serve_native (cancel_call lib_dir provisioning_dir identifier session) =
      cancel_provision_c rounds lib_dir provisioning_dir identifier session

  serve_native-Triple :
      (c : NativeCall) → Triple {p = p} Steady (serve_native c) (λ r k. IsResult c r × Steady k)
  unfolding serve_native get_anisette_headers_c start_provision_c end_provision_c cancel_provision_c
  serve_native-Triple
        (headers_call lib_dir provisioning_dir identifier adi_pb adi_pb_len out_json) =
      Triple-bind
        (with_adi-Ends IsError IsRouting rounds lib_dir provisioning_dir identifier _ _
          setup_error-IsError (headers_c-Goes adi_pb adi_pb_len))
        λ r. through-Triple {P = Ends IsError IsRouting} out_json r
  serve_native-Triple (start_call lib_dir provisioning_dir identifier spim spim_len out_json) =
      Triple-bind
        (with_adi-Ends IsError IsStart rounds lib_dir provisioning_dir identifier _ _
          setup_error-IsError (start_c-Goes spim spim_len))
        λ r. through-Triple {P = Ends IsError IsStart} out_json r
  serve_native-Triple
        (end_call lib_dir provisioning_dir identifier session ptm ptm_len tk tk_len out_json) =
      Triple-bind
        (with_adi-Ends IsError IsEnd rounds lib_dir provisioning_dir identifier _ _
          setup_error-IsError (end_c-Goes session ptm ptm_len tk tk_len))
        λ r. through-Triple {P = Ends IsError IsEnd} out_json r
  serve_native-Triple (cancel_call lib_dir provisioning_dir identifier session) =
      Triple-weaken (λ k h. h) (λ r k h. (elim h.0 [ inl e ↦ e | inr e ↦ e ], h.1))
        (with_adi-Ends (λ r. r.json ≡ none) (λ r. r.json ≡ none) rounds lib_dir provisioning_dir
          identifier _ _ (λ err. refl) (cancel_c-Goes session))

  -- The states that calls lead to, from the start of the process on.
  pub data Reached : Process p → Type 0 where
    begin : (w : p.host.World) → Reached (fresh_process p w)
    next_call :
        (c : NativeCall) (s s' : Process p) (response : Response)
        → Reached s
        → serve_native c s ≡ ok (response, s')
        → Reached s'

  -- In all states that calls lead to from the start of the process, whether they failed or not, either
  -- there is no loader, both globals are null and no name is registered for a loader, or there are
  -- exactly the two loaders that the globals lead to, each is the other's only sibling, and every name
  -- that is registered leads to one of them.
  pub Reached-Steady : (s : Process p) → Reached s → Steady (skeleton s)
  Reached-Steady s (begin w) =
      inl
        (1, record { objects_are = refl; owned = tt; adi_is = refl; ssc_is = refl; next_is = refl })
  Reached-Steady s' (next_call c s s'' response r e) =
      ((serve_native-Triple c).ends s s' response (Reached-Steady s r) e).1

  -- Whatever the system and the libraries do, a call that returns in a state that calls lead to gives
  -- an error, with a code other than 0 and the text for a reason, or the code 0 and the object with
  -- the data, if it is not the call that cancels, which leaves no text.
  pub serve_native-IsResult :
      (c : NativeCall) (s s' : Process p) (r : Response)
      → Reached s
      → serve_native c s ≡ ok (r, s')
      → IsResult c r
  serve_native-IsResult c s s' r reached e =
      ((serve_native-Triple c).ends s s' r (Reached-Steady s reached) e).0
