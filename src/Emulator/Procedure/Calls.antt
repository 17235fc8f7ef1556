-- ===== src/Emulator/Procedure/Calls.antt =====
-- How a call of guest code begins and what it returns.
use anisette_kit.Prelude.{
  Bool-cases, ℕ, zero, suc, ◌+◌, ◌-◌, ◌%◌, ◌^◌, ◌<◌, ◌≡◌, refl, ap, ◌∙◌, true, false, ◌&&◌, Option,
  none, some, List, [], ◌∷◌, ltb, leb, ◌==◌, if◌then◌else◌, get_elem?, arith, ◌⊎◌, inl, inr, ◌≢◌,
}
use anisette_kit.Emulator.Host.{Host}
use anisette_kit.Emulator.Unicorn.{Unicorn, UnicornLaws, x, v, sp, lr, pc, UcErr}
use anisette_kit.Emulator.Vm.{return_address, stack_address, stack_size, ok, Vm}
use anisette_kit.Prelude.Int.{minus}
use anisette_kit.Emulator.Procedure.{
  stack_top, int32, clear_vectors, clear_args, pass_args, prepare, EmuStart, exit_value,
  run_vm_procedure,
}

-- An argument as its register holds it, or what was there.
abbrev pub passed : Option ℕ → ℕ → ℕ
passed none old = old
passed (some a) old = a % 2 ^ 64

first_arg :
    (args : List ℕ) (j : ℕ)
    → (if leb 0 j then passed (get_elem? args (j - 0)) 0 else 0) ≡ passed (get_elem? args j) 0
first_arg args j =
    let e : j - 0 ≡ j = omega arith in let test : leb 0 j ≡ true = ground arith in rw (e, test) refl

module _ {u : Unicorn} (L : UnicornLaws u) where
  clear_vectors-x :
      (count : ℕ) (s : u.State) (j : ℕ)
      → u.reg_read (clear_vectors u count s) (x j) ≡ u.reg_read s (x j)
  unfolding clear_vectors
  clear_vectors-x zero s j = refl
  clear_vectors-x (suc count) s j =
      L.reg_read-reg_write_apart (clear_vectors u count s) (v count) (x j) 0 refl
      ∙ clear_vectors-x count s j

  clear_args-x :
      (count : ℕ) (s : u.State) (j : ℕ) → j < count → u.reg_read (clear_args u count s) (x j) ≡ 0
  unfolding clear_args
  clear_args-x zero s j h = absurd (omega arith)
  clear_args-x (suc count) s j h =
      ground (arith, L.reg_read-reg_write (clear_args u count s) count j 0, clear_args-x count s j)

  -- The register behind the test of one round.
  one_arg :
      (i a j : ℕ) (s : u.State)
      → j < 8
      → u.reg_read (if ltb i 8 then u.reg_write s (x i) a else s) (x j)
        ≡ (if i == j then a % 2 ^ 64 else u.reg_read s (x j))
  one_arg i a j s h = elim (Bool-cases (ltb i 8)) [
    | inl t ↦ rw t (L.reg_read-reg_write s i j a)
    | inr t ↦ rw t (ground arith)
  ]

  pass_args-x :
      (i : ℕ) (args : List ℕ) (s : u.State) (j : ℕ)
      → j < 8
      → u.reg_read (pass_args u i args s) (x j) ≡ (
          if leb i j
          then passed (get_elem? args (j - i)) (u.reg_read s (x j))
          else u.reg_read s (x j))
  unfolding pass_args
  pass_args-x i [] s j h = ground arith
  pass_args-x i (a ∷ args) s j h =
      let s' : u.State = if ltb i 8 then u.reg_write s (x i) a else s in
      pass_args-x (i + 1) args s' j h ∙ rw (one_arg i a j s h) (place i j)
    where
      later : (i j : ℕ) → i < j → get_elem? (a ∷ args) (j - i) ≡ get_elem? args (j - (i + 1))
      later i j lt =
          let e : j - i ≡ suc (j - (i + 1)) = omega arith in ap (λ t. get_elem? (a ∷ args) t) e

      here : (i j : ℕ) → i ≡ j → get_elem? (a ∷ args) (j - i) ≡ some a
      here i j same = let e : j - i ≡ 0 = omega arith in ap (λ t. get_elem? (a ∷ args) t) e

      place :
          (i j : ℕ)
          → (if leb (i + 1) j
              then passed
                  (get_elem? args (j - (i + 1)))
                  (if i == j then a % 2 ^ 64 else u.reg_read s (x j))
              else if i == j
              then a % 2 ^ 64
              else u.reg_read s (x j))
            ≡ (if leb i j
                then passed (get_elem? (a ∷ args) (j - i)) (u.reg_read s (x j))
                else u.reg_read s (x j))
      place i j = ground (arith, later i j, here i j)

  -- The engine starts on the registers that the procedure call standard asks for: the first eight
  -- arguments in X0 to X7 and zero in the others, the stack pointer 16 bytes below the stack's end,
  -- the return address in LR, the procedure's in PC.
  pub prepare_lem :
      (proc_addr : ℕ) (args : List ℕ) (s : u.State)
      → proc_addr < 2 ^ 64
      → let s' = prepare u proc_addr args s in
        ((j : ℕ) → j < 8 → u.reg_read s' (x j) ≡ passed (get_elem? args j) 0)
        × (u.reg_read s' sp ≡ stack_address + stack_size - 16)
        × (u.reg_read s' lr ≡ return_address)
        × (u.reg_read s' pc ≡ proc_addr)
  unfolding prepare
  prepare_lem proc_addr args s fits =
      let cleared = clear_vectors u 32 (clear_args u 8 s) in
      let with_args = pass_args u 0 args cleared in
      let with_sp = u.reg_write with_args sp stack_top in
      let with_lr = u.reg_write with_sp lr return_address in
      (
        λ j h.
            L.reg_read-reg_write_apart with_lr pc (x j) proc_addr refl
            ∙ L.reg_read-reg_write_apart with_sp lr (x j) return_address (ground arith)
            ∙ L.reg_read-reg_write_apart with_args sp (x j) stack_top refl
            ∙ pass_args-x 0 args cleared j h
            ∙ from_start j h,
        L.reg_read-reg_write_apart with_lr pc sp proc_addr refl
            ∙ L.reg_read-reg_write_apart with_sp lr sp return_address refl
            ∙ L.sp-reg_write with_args stack_top,
        L.reg_read-reg_write_apart with_lr pc lr proc_addr refl
            ∙ L.lr-reg_write with_sp return_address,
        omega (arith, L.pc-reg_write with_lr proc_addr),
      )
    where
      from_start :
          (j : ℕ)
          → j < 8
          → (if leb 0 j
              then passed
                  (get_elem? args (j - 0))
                  (u.reg_read (clear_vectors u 32 (clear_args u 8 s)) (x j))
              else u.reg_read (clear_vectors u 32 (clear_args u 8 s)) (x j))
            ≡ passed (get_elem? args j) 0
      from_start j h =
          rw (clear_vectors-x 32 (clear_args u 8 s) j, clear_args-x 8 s j h) (first_arg args j)

module _ {u : Unicorn} {h : Host} (L : UnicornLaws u) (emu_start : EmuStart u h) (proc_addr : ℕ)
    (args : List ℕ) (err : UcErr) (vm vm' : Vm u h) (pos : 0 < proc_addr)
    (started : emu_start proc_addr return_address
        (record vm { uc = prepare u proc_addr args vm.uc })
      ≡ ok (err, vm')) where
  -- Where the engine ends without an error and with the guest at the return address, the call's result
  -- is the low half of X0 as a signed number.
  pub run_vm_procedure-returns :
      u.code err ≡ 0
      → u.reg_read vm'.uc pc ≡ return_address
      → run_vm_procedure emu_start proc_addr args vm
        ≡ ok (int32 (u.reg_read vm'.uc (x 0) % 2 ^ 32), vm')
  unfolding run_vm_procedure exit_value
  run_vm_procedure-returns clean at_return =
      let test : (proc_addr == 0) ≡ false = ground arith in
      rw (test, started, clean, at_return, L.reg_read-w0 vm'.uc) refl

  -- Where it ends otherwise, the result is -1000 less the engine's status.
  pub run_vm_procedure-stops :
      (u.code err ≢ 0) ⊎ (u.reg_read vm'.uc pc ≢ return_address)
      → run_vm_procedure emu_start proc_addr args vm ≡ ok (minus (1000 + u.code err), vm')
  unfolding run_vm_procedure exit_value
  run_vm_procedure-stops stopped =
      let test : (proc_addr == 0) ≡ false = ground arith in
      let out : ((u.code err == 0) && (u.reg_read vm'.uc pc == return_address)) ≡ false =
        ground arith in
      rw (test, started, out) refl
