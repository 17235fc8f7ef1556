-- ===== src/Emulator/Strings/Copying.antt =====
-- `strcpy` of the guest.
use anisette_kit.Prelude.{
  ℕ, zero, suc, ◌+◌, ◌^◌, ◌≤◌, ◌<◌, ◌≡◌, refl, sym, ◌∙◌, true, false, not, ◌&&◌, Option, none, some,
  [], ◌∷◌, ◌++◌, ◌==◌, length, add64, arith, ◌⊎◌, inl, subst,
}
use anisette_kit.Prelude.Text.{Text}
use anisette_kit.Emulator.Host.{Host}
use anisette_kit.Emulator.Unicorn.{Unicorn, UnicornLaws, x, collect, byte, covers}
use anisette_kit.Emulator.Vm.{ok, Vm}
use anisette_kit.Emulator.Unicorn.Content.{
  covers-part, collect-mem_write_self, collect-mem_write_apart, covers-mem_write, collect-reg_write,
}
use anisette_kit.Emulator.Strings.{strcpy_round, strcpy_loop, hook_strcpy}
use anisette_kit.Emulator.Strings.Reading.{IsText, read_char-byte}
use anisette_kit.Emulator.Memory.Heap.{x0-back}

one_byte :
    (f : ℕ → Option ℕ) (a c : ℕ) (o : Option ℕ)
    → f a ≡ o
    → collect f a 1 ≡ some (c ∷ [])
    → f a ≡ some c
one_byte f a c none e h = let p : none ≡ some (c ∷ []) = (rw e at h) in absurd cc
one_byte f a c (some b) e h = let p : some (b ∷ []) ≡ some (c ∷ []) = (rw e at h) in e ∙ cc p

module _ {u : Unicorn} (L : UnicornLaws u) where
  -- A write of one byte elsewhere keeps a text.
  IsText-mem_write :
      (s : u.State) (to c : ℕ) (a : ℕ) (t : Text)
      → (a + length t + 1 ≤ to) ⊎ (to + 1 ≤ a)
      → IsText u s a t
      → IsText u (u.mem_write s to (c ∷ [])) a t
  IsText-mem_write s to c a [] apart i = ground (arith, L.byte-mem_write s to (c ∷ []) a)
  IsText-mem_write s to c a (d ∷ t) apart i = (
    ground (arith, L.byte-mem_write s to (c ∷ []) a, i.0),
    i.1,
    i.2,
    IsText-mem_write s to c (a + 1) t (ground arith) (i.3),
  )

  -- What a copy of a text and its zero leaves.
  abbrev pub Copied : (s s' : u.State) → (to : ℕ) → Text → Type 0
  Copied s s' to t =
      (collect (byte u s') to (length t + 1) ≡ some (t ++ 0 ∷ []))
      × ((a n : ℕ)
          → (a + n ≤ to) ⊎ (to + length t + 1 ≤ a)
          → collect (byte u s') a n ≡ collect (byte u s) a n)

  -- The first character, and the copy behind it.
  Copied-cons :
      (s s' : u.State) (to c : ℕ) (t : Text)
      → covers u s to 1 ≡ true
      → Copied (u.mem_write s to (c ∷ [])) s' (to + 1) t
      → Copied s s' to (c ∷ t)
  Copied-cons s s' to c t m (content, others) =
      let first : collect (byte u s') to 1 ≡ some (c ∷ []) =
        others to 1 (inl (omega arith)) ∙ collect-mem_write_self u L s to (c ∷ []) 1 refl m in
      let here : byte u s' to ≡ some c = one_byte (byte u s') to c (byte u s' to) refl first in
      let long : suc (length t) + 1 ≡ suc (length t + 1) = omega arith in
      (
        rw (long, here, content) refl,
        λ a n apart.
            others a n (ground arith)
            ∙ collect-mem_write_apart u L s to (c ∷ []) a n (ground arith),
      )

  strcpy_loop_lem :
      (rounds : ℕ) (s : u.State) (dst src offset : ℕ) (t : Text)
      → length t < rounds
      → IsText u s (src + offset) t
      → src + offset < 2 ^ 64
      → dst + offset + length t < 2 ^ 64
      → covers u s (dst + offset) (length t + 1) ≡ true
      → (src + offset + length t + 1 ≤ dst + offset) ⊎ (dst + offset + length t + 1 ≤ src + offset)
      → (s' : u.State) × (strcpy_loop u rounds s dst src offset ≡ ok s')
        × Copied s s' (dst + offset) t
  unfolding strcpy_loop strcpy_round
  strcpy_loop_lem zero s dst src offset t enough i fits room m apart = absurd (omega arith)
  strcpy_loop_lem (suc rounds) s dst src offset [] enough i fits room m apart =
      let from : add64 src offset ≡ src + offset = omega arith in
      let to : add64 dst offset ≡ dst + offset = omega arith in
      (
        u.mem_write s (dst + offset) (0 ∷ []),
        rw (from, to, read_char-byte L s (src + offset), i) refl,
        (
          collect-mem_write_self u L s (dst + offset) (0 ∷ []) 1 refl m,
          λ a n far. collect-mem_write_apart u L s (dst + offset) (0 ∷ []) a n (ground arith),
        ),
      )
  strcpy_loop_lem (suc rounds) s dst src offset (c ∷ t) enough i fits room m apart =
      let from : add64 src offset ≡ src + offset = omega arith in
      let to : add64 dst offset ≡ dst + offset = omega arith in
      let next : add64 offset 1 ≡ offset + 1 = omega (arith, i.2) in
      let from' : src + offset + 1 ≡ src + (offset + 1) = omega arith in
      let to' : dst + (offset + 1) ≡ dst + offset + 1 = omega arith in
      let test : (c == 0) ≡ false = ground (arith, i.1) in
      let written = u.mem_write s (dst + offset) (c ∷ []) in
      let kept =
        rw from' at
          (IsText-mem_write s (dst + offset) c (src + offset + 1) t (ground arith) (i.3)) in
      let round : strcpy_loop u (suc rounds) s dst src offset
          ≡ strcpy_loop u rounds written dst src (offset + 1) =
        rw (from, to, read_char-byte L s (src + offset), i.0, test, next) refl in
      let mapped : covers u written (dst + (offset + 1)) (length t + 1) ≡ true =
        covers-mem_write u L s (dst + offset) (c ∷ []) (dst + (offset + 1)) (length t + 1) (
          covers-part (byte u s) (dst + offset) (length (c ∷ t) + 1) (dst + (offset + 1))
            (length t + 1) m (omega arith) (omega arith)) in
      let (s', e, copied) =
        strcpy_loop_lem rounds written dst src (offset + 1) t (omega arith) kept
          (omega (arith, i.2)) (omega arith) mapped (ground arith) in
      (
        s',
        round ∙ e,
        Copied-cons s s' (dst + offset) c t
            (covers-part (byte u s) (dst + offset) (length (c ∷ t) + 1) (dst + offset) 1 m
              (omega arith) (omega arith))
            (subst (λ p. Copied written s' p t) to' copied),
      )

module _ {u : Unicorn} {h : Host} (L : UnicornLaws u) where
  -- `strcpy` of a text to mapped memory that does not overlap it leaves the text and its zero at `dst`,
  -- changes nothing else, and returns `dst`, if its loop gets more rounds than the text has characters.
  pub strcpy_lem :
      (rounds : ℕ) (vm : Vm u h) (t : Text)
      → let dst : ℕ = u.reg_read vm.uc (x 0) in
        let src : ℕ = u.reg_read vm.uc (x 1) in
        0 < dst
        → 0 < src
        → length t < rounds
        → IsText u vm.uc src t
        → src < 2 ^ 64
        → dst + length t < 2 ^ 64
        → covers u vm.uc dst (length t + 1) ≡ true
        → (src + length t + 1 ≤ dst) ⊎ (dst + length t + 1 ≤ src)
        → (vm' : Vm u h) × (hook_strcpy rounds vm ≡ ok (tt, vm'))
          × (u.reg_read vm'.uc (x 0) ≡ dst)
          × (collect (byte u vm'.uc) dst (length t + 1) ≡ some (t ++ 0 ∷ []))
          × ((a n : ℕ)
              → (a + n ≤ dst) ⊎ (dst + length t + 1 ≤ a)
              → collect (byte u vm'.uc) a n ≡ collect (byte u vm.uc) a n)
  unfolding hook_strcpy
  strcpy_lem rounds vm t to_pos from_pos enough i fits room m apart =
      let dst : ℕ = u.reg_read vm.uc (x 0) in
      let src : ℕ = u.reg_read vm.uc (x 1) in
      let test : (not (src == 0) && not (dst == 0)) ≡ true = ground arith in
      let d : dst ≡ dst + 0 = omega arith in
      let r : src ≡ src + 0 = omega arith in
      let (s', e, copied) =
        strcpy_loop_lem L rounds vm.uc dst src 0 t enough (rw r at i) (omega arith) (omega arith)
          (rw d at m) (ground arith) in
      let (content, others) = subst (λ (p : ℕ). Copied L vm.uc s' p t) (sym d) copied in
      (
        record vm { uc = u.reg_write s' (x 0) dst },
        rw (test, e) refl,
        x0-back L s' dst (omega arith),
        collect-reg_write u L s' (x 0) dst dst (length t + 1) ∙ content,
        λ a n far. collect-reg_write u L s' (x 0) dst a n ∙ others a n far,
      )
