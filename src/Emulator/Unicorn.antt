-- ===== src/Emulator/Unicorn.antt =====
-- What the emulator uses of the Unicorn engine (unicorn/unicorn.h): a parameter, with the
-- documented behaviour of its registers and its memory as named laws.
pub mod Content
use anisette_kit.Prelude.{
  ℕ, zero, suc, ◌+◌, ◌-◌, ◌%◌, ◌^◌, ◌≡◌, Bool, true, false, ◌&&◌, Option, none, some, List, [], ◌∷◌,
  ltb, leb, ◌==◌, if◌then◌else◌, get_elem?, length,
}
use anisette_kit.Prelude.Options.{◌>>=◌}

-- The registers that the source names: X0 to X7, V0 to V31 (Q0 is V0), SP, LR, PC and W0.
pub data Reg : Type 0 where
  x : ℕ → Reg
  v : ℕ → Reg
  sp lr pc w0 : Reg

-- `uc_err`, as far as the source tells errors apart, and `uc_mem_type` likewise.
pub data UcErr : Type 0 where
  err_ok err_map : UcErr
  err_other : ℕ → UcErr

pub data UcMemType : Type 0 where
  fetch_unmapped write_unmapped read_unmapped : UcMemType

-- `UC_PROT_NONE`, `UC_PROT_READ | UC_PROT_WRITE` and `UC_PROT_ALL`.
pub data UcProt : Type 0 where
  prot_none prot_read_write prot_all : UcProt

pub record Unicorn : Type 1 where
  pub State : Type 0
  pub reg_read : State → Reg → ℕ
  pub reg_write : State → Reg → ℕ → State
  -- `none` is any status but `UC_ERR_OK`.
  pub mem_read : State → (address size : ℕ) → Option (List ℕ)
  pub mem_write : State → (address : ℕ) → List ℕ → State
  pub mem_map : State → (address size : ℕ) → UcProt → UcErr × State
  pub emu_stop : State → State
  -- The number of a status.
  pub code : UcErr → ℕ

-- What `n` addresses hold, if all are mapped.
abbrev pub collect : (ℕ → Option ℕ) → ℕ → ℕ → Option (List ℕ)
collect f a zero = some []
collect f a (suc n) = do b ← f a; bs ← collect f (a + 1) n; some (b ∷ bs)

abbrev pub is_some {ℓ} : {A : Type ℓ} → Option A → Bool
is_some none = false
is_some (some a) = true

abbrev pub only : Option (List ℕ) → Option ℕ
only none = none
only (some []) = none
only (some (b ∷ [])) = some b
only (some (b ∷ c ∷ bs)) = none

-- Whether a write to one register shows in the other: W0 is the low half of X0, LR is X30.
abbrev pub touches : Reg → Reg → Bool
touches (x i) (x j) = i == j
touches (x i) w0 = i == 0
touches w0 (x j) = j == 0
touches (x i) lr = i == 30
touches lr (x j) = j == 30
touches (v i) (v j) = i == j
touches sp sp = true
touches lr lr = true
touches pc pc = true
touches w0 w0 = true
touches _ _ = false

module _ (u : Unicorn) where
  -- One byte of the guest's memory, as `uc_mem_read` shows it.
  unfoldable pub byte : u.State → ℕ → Option ℕ
  byte s a = only (u.mem_read s a 1)

  abbrev pub covers : u.State → ℕ → ℕ → Bool
  covers s a n = is_some (collect (byte s) a n)

  -- `uc_mem_read` succeeds where all of its bytes can be read; `uc_mem_write` writes all or
  -- nothing; registers and memory do not touch one another.
  pub record UnicornLaws : Type 0 where
    pub mem_read-collect : (s : u.State) (a n : ℕ) → u.mem_read s a n ≡ collect (byte s) a n
    pub byte-mem_write :
        (s : u.State) (a : ℕ) (bs : List ℕ) (p : ℕ)
        → byte (u.mem_write s a bs) p ≡ (
            if covers s a (length bs) && (leb a p && ltb p (a + length bs))
            then get_elem? bs (p - a)
            else byte s p)
    pub byte-reg_write : (s : u.State) (r : Reg) (w a : ℕ) → byte (u.reg_write s r w) a ≡ byte s a
    pub reg_read-mem_write :
        (s : u.State) (a : ℕ) (bs : List ℕ) (r : Reg)
        → u.reg_read (u.mem_write s a bs) r ≡ u.reg_read s r
    pub reg_read-reg_write :
        (s : u.State) (i j w : ℕ)
        → u.reg_read (u.reg_write s (x i) w) (x j)
          ≡ (if i == j then w % 2 ^ 64 else u.reg_read s (x j))
    pub reg_read-reg_write_apart :
        (s : u.State) (r q : Reg) (w : ℕ)
        → touches r q ≡ false
        → u.reg_read (u.reg_write s r w) q ≡ u.reg_read s q
    pub sp-reg_write : (s : u.State) (w : ℕ) → u.reg_read (u.reg_write s sp w) sp ≡ w % 2 ^ 64
    pub lr-reg_write : (s : u.State) (w : ℕ) → u.reg_read (u.reg_write s lr w) lr ≡ w % 2 ^ 64
    pub pc-reg_write : (s : u.State) (w : ℕ) → u.reg_read (u.reg_write s pc w) pc ≡ w % 2 ^ 64
    pub reg_read-w0 : (s : u.State) → u.reg_read s w0 ≡ u.reg_read s (x 0) % 2 ^ 32
    pub code-ok : u.code err_ok ≡ 0
