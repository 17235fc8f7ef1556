-- ===== src/Core/Entries/Answers.antt =====
-- What the functions return, whatever the guest and the host do.
use anisette_kit.Prelude.{ℕ, ◌≡◌, none, List}
use anisette_kit.Prelude.Int.{pos}
use anisette_kit.Prelude.Text.{Text}
use anisette_kit.Emulator.Host.{Host}
use anisette_kit.Emulator.Unicorn.{Unicorn}
use anisette_kit.Emulator.Vm.{ok}
use anisette_kit.Core.Session.{Session, Globals}
use anisette_kit.Core.Bodies.{Response, invalid_argument}
use anisette_kit.Core.Entries.{Entry}
use anisette_kit.Prelude.{◌⊎◌}
use anisette_kit.Core.Json.{headers_json, start_json, end_json}
use anisette_kit.Core.Entries.Calls.{
  Call, get_anisette_headers, start_provision, end_provision, cancel_provision,
}
use anisette_kit.Core.Bodies.{answer}
use anisette_kit.Core.Bodies.Replies.{IsError, Replies}

-- The response to a null pointer, an error, or one that is as stated.
abbrev pub Answer : (Q : Response → Type 0) → Response → Type 0
Answer Q r = (r ≡ invalid_argument) ⊎ (IsError r ⊎ Q r)

module _ {u : Unicorn} {h : Host} where
  pub record Answers (Q : Response → Type 0) (entry : Entry u h) : Type 0 where
    pub answers : (g g' : Globals u h) (r : Response) → entry g ≡ ok (r, g') → Answer Q r

-- What the response to a call is that succeeds.
abbrev pub IsData : Call → Response → Type 0
IsData (get_anisette_headers lib_dir provisioning_dir identifier adi_pb out_json) r =
    (mid_data : List ℕ) × (otp_data : List ℕ) × (r
      ≡ answer (pos 0) (headers_json mid_data otp_data))
IsData (start_provision lib_dir provisioning_dir identifier spim out_json) r =
    (cpim_data : List ℕ) × (session : ℕ) × (r ≡ answer (pos 0) (start_json cpim_data session))
IsData (end_provision lib_dir provisioning_dir identifier session ptm tk out_json) r =
    (pb_data : List ℕ) × (r ≡ answer (pos 0) (end_json pb_data))
IsData (cancel_provision lib_dir provisioning_dir identifier session) r =
    r ≡ record { code = pos 0; json = none }
