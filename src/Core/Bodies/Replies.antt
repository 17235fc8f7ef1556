-- ===== src/Core/Bodies/Replies.antt =====
-- What the bodies of the functions (Core/Bodies) return.
use anisette_kit.Prelude.{
  ℕ, le_bytes, ◌≡◌, ◌≢◌, refl, sym, subst, Bool, true, false, not, ◌&&◌, Option, none, some, List,
  ◌++◌, ◌==◌, if◌then◌else◌, inl, inr, ◌⊎◌,
}
use anisette_kit.Prelude.Int.{ℤ, pos, int_eq, int_eq_iff}
use anisette_kit.Prelude.Text.{Text, codes}
use anisette_kit.Base.Errors.{value}
use anisette_kit.Emulator.Host.{Host}
use anisette_kit.Emulator.Unicorn.{Unicorn}
use anisette_kit.Emulator.Vm.{Run, ok, mem_read, mem_write, Command}
use anisette_kit.Emulator.Procedure.{EmuStart}
use anisette_kit.Core.Json.{error_json, headers_json, start_json, end_json}
use anisette_kit.Core.Adi
use anisette_kit.Core.Session.{
  Session, Result, failed, done, Step, finish, continue, ◌>>=◌, lift, require, host_does,
}
use anisette_kit.Emulator.Vm.Runs.{and_then-ok}
use anisette_kit.Core.Bodies.{
  Response, answer, error, symbol, guest_number, guest_data, check_call, adi_call, headers_body,
  check_start, start_body, end_response, file_data, read_adi_pb, end_body,
}

-- A response with a code other than 0 and a text for the reason.
abbrev pub IsError : Response → Type 0
IsError r = (r.code ≢ pos 0) × ((err : Text) × (r.json ≡ some (error_json err)))

-- What the response of a body is when it is no error.
abbrev pub IsHeaders : Response → Type 0
IsHeaders r =
    (mid_data : List ℕ) × (otp_data : List ℕ) × (r
      ≡ answer (pos 0) (headers_json mid_data otp_data))

abbrev pub IsStart : Response → Type 0
IsStart r =
    (cpim_data : List ℕ) × (session : ℕ) × (r ≡ answer (pos 0) (start_json cpim_data session))

abbrev pub IsEnd : Response → Type 0
IsEnd r = (IsError r) ⊎ ((pb_data : List ℕ) × (r ≡ answer (pos 0) (end_json pb_data)))

pub result_of :
    {A B : Type 0} (a a' : A) {b b' : B} → ◌≡◌ {A = Run (A × B)} (ok (a, b)) (ok (a', b')) → a' ≡ a
result_of a a' e = cc

abbrev pub Reply : {A : Type 0} → (A → Type 0) → Result Response A → Type 0
Reply Q (failed r) = IsError r
Reply Q (done a) = Q a

module _ {u : Unicorn} {h : Host} where
  -- A step that fails with an error only, and ends with a result as stated.
  pub record Replies {A : Type 0} (m : Step u h Response A) (Q : A → Type 0) : Type 0 where
    pub replies : (s s' : Session u h) (r : Result Response A) → m s ≡ ok (r, s') → Reply Q r

  continue-Reply :
      {A B : Type 0} {Q : B → Type 0} {k : A → Step u h Response B} (r : Result Response A)
      (s s' : Session u h) (r' : Result Response B)
      → Reply (λ a. Unit {0}) r
      → ((a : A) → Replies (k a) Q)
      → continue r k s ≡ ok (r', s')
      → Reply Q r'
  unfolding continue
  continue-Reply {Q = Q} (failed e) s s' r' o t eq =
      let at : failed e ≡ r' = cc in subst (λ r. Reply Q r) at o
  continue-Reply (done a) s s' r' o t eq = (t a).replies s s' r' eq

  pub Replies-bind :
      {A B : Type 0} {Q : B → Type 0} {m : Step u h Response A} {k : A → Step u h Response B}
      → Replies m (λ a. Unit {0})
      → ((a : A) → Replies (k a) Q)
      → Replies (m >>= k) Q
  Replies-bind {m = m} {k = k} t next = record {
    replies = λ s s' r e.
        let ((r1, s1), first, rest) = and_then-ok (m s) (λ c. continue c.0 k c.1) (r, s') e in
        continue-Reply {k = k} r1 s1 s' r (t.replies s s1 r1 first) next rest;
  }

  -- A step that does not fail.
  Replies-any :
      {A : Type 0} {Q : A → Type 0} (m : Step u h Response A)
      → ((s s' : Session u h) (r : Result Response A)
          → m s ≡ ok (r, s')
          → (a : A) × (r ≡ done a) × Q a)
      → Replies m Q
  Replies-any {A} {Q} m total = record {
    replies = λ s s' r e. let (a, at, q) = total s s' r e in subst (λ r. Reply Q r) (sym at) q;
  }

  pub Replies-finish : {A : Type 0} {Q : A → Type 0} (a : A) → Q a → Replies (finish a) Q
  Replies-finish a q = Replies-any _ λ s s' r e. (a, cc, q)

  pub Replies-lift : {A : Type 0} (c : Command u h A) → Replies (lift c) (λ a. Unit {0})
  Replies-lift c =
      Replies-any _
        λ s s' r e. let ((a, vm), first, rest) = and_then-ok (c s.vm) _ (r, s') e in (a, cc, tt)

  Replies-host : (act : h.World → h.World) → Replies (host_does act) (λ a. Unit {0})
  Replies-host act = Replies-any _ λ s s' r e. (tt, result_of (done tt) r e, tt)

  Replies-require :
      (test : Bool) (e : Response)
      → (test ≡ false → IsError e)
      → Replies (require test e) (λ a. Unit {0})
  Replies-require true e bad = Replies-any _ λ s s' r eq. (tt, cc, tt)
  Replies-require false e bad = record {
    replies = λ s s' r eq.
        let at : failed e ≡ r = cc in subst (λ r. Reply (λ a. Unit {0}) r) at (bad refl);
  }

  pub Replies-if :
      {A : Type 0} {Q : A → Type 0} (test : Bool) {m m' : Step u h Response A}
      → Replies m Q
      → (test ≡ false → Replies m' Q)
      → Replies (if test then m else m') Q
  Replies-if true t t' = t
  Replies-if false t t' = t' refl

  symbol-Replies : (name err : Text) → Replies (symbol name err) (λ a. Unit {0})
  unfolding symbol error value
  symbol-Replies name err = Replies-bind (Replies-lift _) λ ptr.
      Replies-bind (Replies-require _ _ λ no. (λ e. absurd cc, (err, refl)))
        λ there. Replies-finish ptr tt

  guest_number-Replies : (address size : ℕ) → Replies (guest_number address size) (λ a. Unit {0})
  unfolding guest_number
  guest_number-Replies address size =
      Replies-bind (Replies-lift (mem_read address size)) λ bytes. Replies-finish _ tt

  guest_data-Replies : (address size : ℕ) → Replies (guest_data address size) (λ a. Unit {0})
  unfolding guest_data
  guest_data-Replies address size =
      Replies-if (not (size == 0) && not (address == 0))
        (Replies-bind (Replies-lift (mem_read address size)) λ bytes. Replies-finish _ tt)
        λ no. Replies-finish _ tt

  check_call-Replies : (call : Text) (res : ℤ) → Replies (check_call call res) (λ a. Unit {0})
  unfolding check_call error
  check_call-Replies call res =
      Replies-require _ _ λ bad. (λ e. absurd (cc ((int_eq_iff res (pos 0)).1 e)), (_, refl))

  check_start-Replies : (dir : Text) (res : ℤ) → Replies (check_start dir res) (λ a. Unit {0})
  unfolding check_start
  check_start-Replies dir res =
      Replies-if (int_eq res (pos 0)) (Replies-finish tt tt)
        λ bad. Replies-bind (Replies-host _) λ removed. check_call-Replies _ res

  module _ (emu_start : EmuStart u h) where
    adi_call-Replies :
        (call : Text) (ptr : ℕ) (args : List ℕ)
        → Replies (adi_call emu_start call ptr args) (λ a. Unit {0})
    unfolding adi_call
    adi_call-Replies call ptr args =
        Replies-bind (Replies-lift _) λ res. check_call-Replies call res

    pub headers_body-Replies :
        (adi_pb : List ℕ) (dir : Text) → Replies (headers_body emu_start adi_pb dir) IsHeaders
    unfolding headers_body value
    headers_body-Replies adi_pb dir = Replies-bind (Replies-host _) λ wrote.
        Replies-bind (symbol-Replies _ _) λ ptr. Replies-bind (Replies-lift _) λ a.
          Replies-bind (Replies-lift _) λ b. Replies-bind (Replies-lift _) λ c.
            Replies-bind (Replies-lift _) λ d. Replies-bind (adi_call-Replies _ _ _) λ called.
              Replies-bind (guest_number-Replies _ _) λ mid_addr.
                Replies-bind (guest_number-Replies _ _) λ mid_len.
                  Replies-bind (guest_number-Replies _ _) λ otp_addr.
                    Replies-bind (guest_number-Replies _ _) λ otp_len.
                      Replies-bind (guest_data-Replies _ _) λ mid.
                        Replies-bind (guest_data-Replies _ _)
                          λ otp. Replies-finish _ (mid, otp, refl)

    pub start_body-Replies :
        (spim : List ℕ) (dir : Text) → Replies (start_body emu_start spim dir) IsStart
    unfolding start_body value
    start_body-Replies spim dir = Replies-bind (symbol-Replies _ _) λ ptr.
        Replies-bind (Replies-lift _) λ spim_vm. Replies-bind (Replies-lift _) λ a.
          Replies-bind (Replies-lift _) λ b. Replies-bind (Replies-lift _) λ c.
            Replies-bind (Replies-lift (mem_write a (le_bytes 8 0))) λ zero_a.
              Replies-bind (Replies-lift (mem_write b (le_bytes 4 0))) λ zero_b.
                Replies-bind (Replies-lift (mem_write c (le_bytes 4 0))) λ zero_c.
                  Replies-bind (Replies-lift _) λ res.
                    Replies-bind (check_start-Replies dir res) λ started.
                      Replies-bind (guest_number-Replies _ _) λ addr.
                        Replies-bind (guest_number-Replies _ _) λ len.
                          Replies-bind (guest_number-Replies _ _) λ session.
                            Replies-bind (guest_data-Replies _ _)
                              λ cpim. Replies-finish _ (cpim, session, refl)

    end_response-IsEnd : (o : Option (ℕ × List ℕ)) → IsEnd (end_response o)
    unfolding end_response error value
    end_response-IsEnd none = inl (λ e. absurd cc, (_, refl))
    end_response-IsEnd (some (size, bytes)) = inr (file_data size bytes, refl)

    read_adi_pb-Replies : (dir : Text) → Replies (read_adi_pb dir) IsEnd
    unfolding read_adi_pb
    read_adi_pb-Replies dir = Replies-any _ λ s s' r e.
        let response =
          end_response (h.read_file s.vm.world (dir ++ codes "/" ++ Adi.adi_pb_filename)) in
        (response, result_of (done response) r e, end_response-IsEnd _)

    pub end_body-Replies :
        (session : ℕ) (ptm tk : List ℕ) (dir : Text)
        → Replies (end_body emu_start session ptm tk dir) IsEnd
    unfolding end_body
    end_body-Replies session ptm tk dir = Replies-bind (symbol-Replies _ _) λ ptr.
        Replies-bind (Replies-lift _) λ ptm_vm.
          Replies-bind (Replies-lift _)
            λ tk_vm. Replies-bind (adi_call-Replies _ _ _) λ called. read_adi_pb-Replies dir
