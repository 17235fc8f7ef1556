-- ===== src/Emulator/Strings/Reading.antt =====
-- The hooks that read text: where a text and its zero lie in the guest's memory, and the loops get one
-- round more than it has characters, they see just that text.
use anisette_kit.Emulator.Unicorn.Content.{collect-reg_write}
use anisette_kit.Prelude.{
  ℕ, zero, suc, ◌+◌, ◌^◌, ◌<◌, ◌≡◌, refl, ap, ◌∙◌, false, Option, none, some, [], ◌∷◌, ◌==◌, length,
  add64, arith, ◌↔◌, ◌≢◌,
}
use anisette_kit.Prelude.Text.{Text}
use anisette_kit.Emulator.Host.{Host}
use anisette_kit.Emulator.Unicorn.{Unicorn, UnicornLaws, x, collect, byte}
use anisette_kit.Emulator.Vm.{ok, Vm}
use anisette_kit.Emulator.Strings.{
  keep_len, first_char, read_char, push_char, text_loop, strlen_loop, load_text, hook_strlen,
  hook_strcmp,
}
use anisette_kit.Emulator.Memory.{compare_bytes, sign_word}
use anisette_kit.Emulator.Memory.Heap.{x0-back}
use anisette_kit.Emulator.Memory.Compare.{sign_word-zero_iff, sign_word-lt}

-- A text without zeros at an address, and a zero behind it, before the end of the address space.
abbrev pub IsText : (u : Unicorn) → u.State → ℕ → Text → Type 0
IsText u s a [] = byte u s a ≡ some 0
IsText u s a (c ∷ t) = (byte u s a ≡ some c) × (c ≢ 0) × (a + 1 < 2 ^ 64) × IsText u s (a + 1) t

first_char-collect :
    (f : ℕ → Option ℕ) (a : ℕ) (o : Option ℕ) → f a ≡ o → first_char (collect f a 1) ≡ o
first_char-collect f a none e = rw e refl
first_char-collect f a (some c) e = rw e refl

module _ {u : Unicorn} (L : UnicornLaws u) where
  pub read_char-byte : (s : u.State) (a : ℕ) → read_char u s a ≡ byte u s a
  unfolding read_char
  read_char-byte s a =
      ap first_char (L.mem_read-collect s a 1) ∙ first_char-collect (byte u s) a (byte u s a) refl

  text_loop_lem :
      (rounds : ℕ) (s : u.State) (a : ℕ) (t : Text)
      → length t < rounds
      → IsText u s a t
      → text_loop u rounds s a ≡ ok t
  unfolding text_loop push_char
  text_loop_lem zero s a t enough i = absurd (omega arith)
  text_loop_lem (suc rounds) s a [] enough i = rw (read_char-byte s a, i) refl
  text_loop_lem (suc rounds) s a (c ∷ t) enough i =
      let next : add64 a 1 ≡ a + 1 = omega (arith, i.2) in
      let test : (c == 0) ≡ false = ground (arith, i.1) in
      rw (read_char-byte s a, i.0, test, next, text_loop_lem rounds s (a + 1) t (omega arith) (i.3))
        refl

  strlen_loop_lem :
      (rounds : ℕ) (s : u.State) (p len : ℕ) (t : Text)
      → length t < rounds
      → p + len < 2 ^ 64
      → IsText u s (p + len) t
      → strlen_loop u rounds s p len ≡ ok (len + length t)
  unfolding strlen_loop keep_len
  strlen_loop_lem zero s p len t enough fits i = absurd (omega arith)
  strlen_loop_lem (suc rounds) s p len [] enough fits i =
      let here : add64 p len ≡ p + len = omega arith in
      rw (here, read_char-byte s (p + len), i) (ap ok (omega arith))
  strlen_loop_lem (suc rounds) s p len (c ∷ t) enough fits i =
      let here : add64 p len ≡ p + len = omega arith in
      let next : add64 len 1 ≡ len + 1 = omega (arith, i.2) in
      let shift : p + len + 1 ≡ p + (len + 1) = omega arith in
      let test : (c == 0) ≡ false = ground (arith, i.1) in
      rw
        (
          here,
          read_char-byte s (p + len),
          i.0,
          test,
          next,
          strlen_loop_lem rounds s p (len + 1) t (omega arith) (omega (arith, i.2))
              (rw shift at (i.3)),
        )
        (ap ok (omega arith))

module _ {u : Unicorn} {h : Host} (L : UnicornLaws u) where
  pub load_text_lem :
      (rounds a : ℕ) (vm : Vm u h) (t : Text)
      → 0 < a
      → length t < rounds
      → IsText u vm.uc a t
      → load_text rounds a vm ≡ ok (t, vm)
  unfolding load_text
  load_text_lem rounds a vm t pos enough i =
      let test : (a == 0) ≡ false = ground arith in
      rw (test, text_loop_lem L rounds vm.uc a t enough i) refl

  -- `strlen` of a text returns its length and changes no memory, if its loop gets more rounds than the
  -- text has characters.
  pub strlen_lem :
      (rounds : ℕ) (vm : Vm u h) (t : Text)
      → let s : ℕ = u.reg_read vm.uc (x 0) in
        0 < s
        → s < 2 ^ 64
        → length t < rounds
        → length t < 2 ^ 64
        → IsText u vm.uc s t
        → (vm' : Vm u h) × (hook_strlen rounds vm ≡ ok (tt, vm'))
          × (u.reg_read vm'.uc (x 0) ≡ length t)
          × ((a n : ℕ) → collect (byte u vm'.uc) a n ≡ collect (byte u vm.uc) a n)
  unfolding hook_strlen
  strlen_lem rounds vm t pos fits enough short i =
      let s : ℕ = u.reg_read vm.uc (x 0) in
      let start : s ≡ s + 0 = omega arith in
      let test : (s == 0) ≡ false = ground arith in
      let counted : strlen_loop u rounds vm.uc s 0 ≡ ok (length t) =
        strlen_loop_lem L rounds vm.uc s 0 t enough (omega arith) (rw start at i)
        ∙ ap ok (omega arith) in
      (
        record vm { uc = u.reg_write vm.uc (x 0) (length t) },
        rw (test, counted) refl,
        x0-back L vm.uc (length t) short,
        λ a n. collect-reg_write u L vm.uc (x 0) (length t) a n,
      )

  -- `strcmp` of two texts returns 0 exactly where they are the same, if its loops get more rounds than
  -- the texts have characters.
  pub strcmp_lem :
      (rounds : ℕ) (vm : Vm u h) (t1 t2 : Text)
      → 0 < u.reg_read vm.uc (x 0)
      → 0 < u.reg_read vm.uc (x 1)
      → length t1 < rounds
      → length t2 < rounds
      → IsText u vm.uc (u.reg_read vm.uc (x 0)) t1
      → IsText u vm.uc (u.reg_read vm.uc (x 1)) t2
      → (vm' : Vm u h) × (hook_strcmp rounds vm ≡ ok (tt, vm'))
        × ((u.reg_read vm'.uc (x 0) ≡ 0) ↔ (t1 ≡ t2))
  unfolding hook_strcmp
  strcmp_lem rounds vm t1 t2 pos1 pos2 enough1 enough2 i1 i2 =
      let res : ℕ = sign_word (compare_bytes t1 t2) in
      (
        record vm { uc = u.reg_write vm.uc (x 0) res },
        rw
            (
              load_text_lem rounds (u.reg_read vm.uc (x 0)) vm t1 pos1 enough1 i1,
              load_text_lem rounds (u.reg_read vm.uc (x 1)) vm t2 pos2 enough2 i2,
            )
            refl,
        rw (x0-back L vm.uc res (sign_word-lt _)) (sign_word-zero_iff t1 t2),
      )
