-- ===== src/Mac/Entries/Replies.antt =====
-- What the functions of Native/anisette_core_mac.cpp return, and the loaders that they leave.
use anisette_kit.Prelude.{
  ℕ, ◌≡◌, refl, not, false, ◌==◌, Option, none, some, List, [], inl, inr, ◌≢◌,
}
use anisette_kit.Prelude.Text.{Text, codes}
use anisette_kit.Prelude.Int.{ℤ, int_eq, int_eq_iff, pos}
use anisette_kit.Base.Errors.{value, anisette_ok}
use anisette_kit.Core.Json.{start_json}
use anisette_kit.Core.Bodies.{Response, answer, error, end_response}
use anisette_kit.Core.Bodies.Replies.{IsError, IsStart, IsEnd}
use anisette_kit.Mac.Platform.{Platform, Arg}
use anisette_kit.Mac.Process.{Action, Step}
use anisette_kit.Mac.Process.Quiet.{
  Quiet-bind, Quiet-host_step, Quiet, Quiet-pure, Quiet-if, Quiet-gets, Quiet-host_does,
  Quiet-host_checked, Quiet-checked, Quiet-load_bytes,
}
use anisette_kit.Mac.Process.Triples.{
  Outcome, Triple, Triple-Quiet, Triple-weaken, Triple-pure, Triple-given,
}
use anisette_kit.Mac.Process.Effects.{Triple-then, Triple-lift, Triple-finish, Triple-require_or}
use anisette_kit.Mac.Steps.{◌>>=◌ as bind, lift, finish}
use anisette_kit.Mac.Resolve.Quiet.{Quiet-get_adi_symbol}
use anisette_kit.Mac.Bodies.{
  write_adi_pb, routing_json, needed_symbol, missing_symbol, call_or_return, out_data, out32,
  headers_c, start_c, generated, end_c, cancel_c,
}
use anisette_kit.Mac.Setup.Stages.{Running}

-- The response of `get_anisette_headers_c` when it is no error.
abbrev pub IsRouting : Response → Type 0
IsRouting r = (mid : List ℕ) × (otp : List ℕ) × (r ≡ answer (pos 0) (routing_json mid otp))

-- A step of a body keeps the loaders, and if it ends the call, then with F.
abbrev pub Goes :
    {p : Platform} {A : Type 0}
    → (F : Response → Type 0) → (Q : A → Type 0) → Step p Response A
    → Type 0
Goes F Q m = Triple Running m (Outcome (λ a k. Q a × Running k) (λ r k. F r × Running k))

nonzero : (res : ℤ) → int_eq res (pos 0) ≡ false → res ≢ pos 0
nonzero res e q = let t = (int_eq_iff res (pos 0)).1 q in cc

-- An error for a symbol that is missing, with a text or without.
missing-IsError : (name : Text) → IsError (missing_symbol name)
unfolding error value
missing-IsError name = (cc, (_, refl))

failure-IsError : (res : ℤ) (err : Text) → int_eq res (pos 0) ≡ false → IsError (error res err)
unfolding error
failure-IsError res err e = (nonzero res e, (err, refl))

generated-IsEnd : (o : Option (ℕ × List ℕ)) → IsEnd (end_response o)
unfolding end_response error value
generated-IsEnd none = inl (cc, (_, refl))
generated-IsEnd (some (size, bytes)) = inr (_, refl)

answer-IsRouting :
    (mid otp : List ℕ) → IsRouting (answer (value anisette_ok) (routing_json mid otp))
unfolding value
answer-IsRouting mid otp = (mid, otp, refl)

answer-IsStart :
    (cpim : List ℕ) (session : ℕ) → IsStart (answer (value anisette_ok) (start_json cpim session))
unfolding value
answer-IsStart cpim session = (cpim, session, refl)

module _ {p : Platform} {F : Response → Type 0} where
  Quiet-Goes : {A : Type 0} {m : Action p A} → Quiet m → Goes F (λ a. Unit {0}) (lift m)
  Quiet-Goes q = Triple-lift (Triple-weaken (λ k h. h) (λ a k h. (tt, h)) (Triple-Quiet q))

  Goes-then :
      {A B : Type 0} {R : A → Type 0} {Q : B → Type 0} {m : Step p Response A}
      {k : A → Step p Response B}
      → Goes F R m
      → ((a : A) → R a → Goes F Q (k a))
      → Goes F Q (bind m k)
  Goes-then t next = Triple-then t λ a. Triple-given λ r. next a r

  Goes-finish : {A : Type 0} {Q : A → Type 0} (a : A) → Q a → Goes {p = p} F Q (finish a)
  Goes-finish a q = Triple-finish a λ k h. (q, h)

  needed_symbol-Goes :
      (ssc : Option ℕ) (adi : ℕ) (key fallback : Text) (missing : Response)
      → F missing
      → Goes F (λ f. Unit {0}) (needed_symbol {p = p} ssc adi key fallback missing)
  unfolding needed_symbol
  needed_symbol-Goes ssc adi key fallback missing is_error =
      Triple-then (Triple-lift (Triple-Quiet (Quiet-get_adi_symbol ssc (some adi) key fallback)))
        λ sym.
          Triple-then
            (Triple-require_or (λ _. Running) (not (sym == 0)) missing
              (Triple-pure (λ u k. F missing × Running k) tt λ k h. (is_error, h)))
            λ _. Goes-finish sym tt

module _ {p : Platform} where
  call-Goes :
      (call : Text) (function : ℕ) (args : List Arg) {cleanup : Action p (Unit {0})}
      → Quiet cleanup
      → Goes IsError (λ reply. Unit {0}) (call_or_return call function args cleanup)
  unfolding call_or_return
  call-Goes call function args quiet =
      Triple-then (Triple-lift (Triple-Quiet (Quiet-host_checked _))) λ reply.
        Triple-then
          (Triple-weaken (λ k h. (refl, h)) (λ r k h. h)
            (Triple-require_or (λ b k. (int_eq reply.result (pos 0) ≡ b) × Running k)
              (int_eq reply.result (pos 0)) _
              (Triple-given λ e.
                Triple-weaken (λ k h. h) (λ u k h. (failure-IsError reply.result _ e, h))
                  (Triple-Quiet quiet))))
          λ _. Triple-finish reply λ k h. (tt, h.1)

  Quiet-out_data : (address len : ℕ) → Quiet (out_data {p = p} address len)
  unfolding out_data
  Quiet-out_data address len =
      Quiet-if (address == 0) (Quiet-pure []) (Quiet-load_bytes address len)

  Quiet-write_adi_pb :
      (f : Option ℕ) (pb : Option (List ℕ)) (len : ℕ) → Quiet (write_adi_pb {p = p} f pb len)
  unfolding write_adi_pb
  Quiet-write_adi_pb none pb len = Quiet-pure tt
  Quiet-write_adi_pb (some f) pb len = Quiet-bind (Quiet-checked _) λ bytes. Quiet-host_does _

  pub headers_c-Goes :
      (pb : Option (List ℕ)) (len : ℕ) (ssc : Option ℕ) (adi : ℕ) (dir : Text)
      → Goes IsError IsRouting (headers_c {p = p} pb len ssc adi dir)
  unfolding headers_c
  headers_c-Goes pb len ssc adi dir = Goes-then (Quiet-Goes (Quiet-host_step _)) λ f _.
      Goes-then (Quiet-Goes (Quiet-write_adi_pb f pb len)) λ _ _.
        Goes-then (needed_symbol-Goes ssc adi _ _ _ (missing-IsError (codes "ADIOTPRequest")))
          λ f _. Goes-then (call-Goes _ f _ (Quiet-pure tt)) λ reply _.
            Goes-then (Quiet-Goes (Quiet-out_data _ _)) λ mid _.
              Goes-then (Quiet-Goes (Quiet-out_data _ _))
                λ otp _. Goes-finish _ (answer-IsRouting mid otp)

  pub start_c-Goes :
      (spim : Option (List ℕ)) (len : ℕ) (ssc : Option ℕ) (adi : ℕ) (dir : Text)
      → Goes IsError IsStart (start_c {p = p} spim len ssc adi dir)
  unfolding start_c
  start_c-Goes spim len ssc adi dir =
      Goes-then (needed_symbol-Goes ssc adi _ _ _ (missing-IsError (codes "ADIProvisioningStart")))
        λ f _. Goes-then (call-Goes _ f _ (Quiet-host_does _)) λ reply _.
          Goes-then (Quiet-Goes (Quiet-out_data _ _))
            λ cpim _. Goes-finish _ (answer-IsStart cpim (out32 reply 2))

  generated-Goes :
      (dir : Text) (o : Option (ℕ × List ℕ)) → Goes IsError IsEnd (generated {p = p} dir o)
  unfolding generated
  generated-Goes dir none =
      Goes-then (Quiet-Goes (Quiet-host_does _)) λ _ _. Goes-finish _ (generated-IsEnd none)
  generated-Goes dir (some file) = Goes-then (Quiet-Goes (Quiet-host_does _)) λ _ _.
      Goes-then (Quiet-Goes (Quiet-host_does _)) λ _ _. Goes-finish _ (generated-IsEnd (some file))

  pub end_c-Goes :
      (session : ℕ) (ptm : Option (List ℕ)) (ptm_len : ℕ) (tk : Option (List ℕ)) (tk_len : ℕ)
      (ssc : Option ℕ) (adi : ℕ) (dir : Text)
      → Goes IsError IsEnd (end_c {p = p} session ptm ptm_len tk tk_len ssc adi dir)
  unfolding end_c
  end_c-Goes session ptm ptm_len tk tk_len ssc adi dir =
      Goes-then (needed_symbol-Goes ssc adi _ _ _ (missing-IsError (codes "ADIProvisioningEnd")))
        λ f _.
          Goes-then (call-Goes _ f _ (Quiet-host_does _))
            λ reply _. Goes-then (Quiet-Goes (Quiet-gets _)) λ file _. generated-Goes dir file

  pub cancel_c-Goes :
      (session : ℕ) (ssc : Option ℕ) (adi : ℕ) (dir : Text)
      → Goes (λ r. r.json ≡ none) (λ r. r.json ≡ none) (cancel_c {p = p} session ssc adi dir)
  unfolding cancel_c
  cancel_c-Goes session ssc adi dir = Goes-then (needed_symbol-Goes ssc adi _ _ _ refl) λ f _.
      Goes-then (Quiet-Goes (Quiet-host_checked _))
        λ reply _. Goes-then (Quiet-Goes (Quiet-host_does _)) λ _ _. Goes-finish _ refl
