-- ===== src/Emulator/Strings.antt =====
-- The string hooks of Native/Loader/elf_loader_emulator.cpp. A loop that ends at a zero byte or at
-- an address that cannot be read is given a number of rounds.
pub mod Reading
pub mod Copying
use anisette_kit.Prelude.{
  List, ℕ, zero, suc, Bool, true, false, not, ◌&&◌, Option, none, some, [], ◌∷◌, ◌==◌,
  if◌then◌else◌, get_or, add64,
}
use anisette_kit.Prelude.Text.{Text}
use anisette_kit.Emulator.Host.{Host}
use anisette_kit.Emulator.Unicorn.{Unicorn, x}
use anisette_kit.Emulator.Vm.{
  Run, ok, out_of_fuel, and_then, when, Command, pure, ◌>>=◌, ◌>>◌, reg_read, reg_write,
}
use anisette_kit.Emulator.Memory.{compare_bytes, sign_word}

abbrev pub first_char : Option (List ℕ) → Option ℕ
first_char none = none
first_char (some bytes) = some (get_or bytes 0 0)

-- `while (uc_mem_read(..., ptr++, &c, 1) == UC_ERR_OK && c != '\0') text.push_back(c);`
unfoldable pub push_char : Option ℕ → Run Text → Run Text
push_char none rest = ok []
push_char (some c) rest = if c == 0 then ok [] else and_then rest λ t. ok (c ∷ t)

unfoldable pub keep_len : Option ℕ → (len : ℕ) → Run ℕ → Run ℕ
keep_len none len rest = ok len
keep_len (some c) len rest = if c == 0 then ok len else rest

unfoldable pub push_max : Option ℕ → Text → Text
push_max none rest = []
push_max (some c) rest = if c == 0 then [] else c ∷ rest

-- A round of `hook_strcpy`, given how it writes a character and what follows.
unfoldable pub strcpy_round :
    {S : Type 0} → Option ℕ → S → (write : ℕ → S) → (next : S → Run S) → Run S
strcpy_round none s write next = ok s
strcpy_round (some c) s write next =
    let s' = write c in let rest = next s' in if c == 0 then ok s' else rest

-- The character that a round of `hook_strncpy` writes, and whether a zero was met.
unfoldable pub strncpy_char : (null_reached : Bool) → Option ℕ → ℕ × Bool
strncpy_char true read = (0, true)
strncpy_char false none = (0, true)
strncpy_char false (some c) = (c, c == 0)

module _ (u : Unicorn) where
  -- `uc_mem_read` of one byte.
  unfoldable pub read_char : u.State → ℕ → Option ℕ
  read_char s a = first_char (u.mem_read s a 1)

  unfoldable pub text_loop : (rounds : ℕ) → u.State → (ptr : ℕ) → Run Text
  text_loop zero s ptr = out_of_fuel
  text_loop (suc rounds) s ptr = push_char (read_char s ptr) (text_loop rounds s (add64 ptr 1))

  -- The loop of `hook_strlen`, after `len` rounds.
  unfoldable pub strlen_loop : (rounds : ℕ) → u.State → (str_ptr len : ℕ) → Run ℕ
  strlen_loop zero s str_ptr len = out_of_fuel
  strlen_loop (suc rounds) s str_ptr len =
      let rest = strlen_loop rounds s str_ptr (add64 len 1) in
      keep_len (read_char s (add64 str_ptr len)) len rest

  -- The loops of `hook_strncmp`, at index `i` of `left` rounds to go.
  unfoldable pub text_max : (left : ℕ) → u.State → (ptr i : ℕ) → Text
  text_max zero s ptr i = []
  text_max (suc left) s ptr i =
      push_max (read_char s (add64 ptr i)) (text_max left s ptr (add64 i 1))

  -- The loop of `hook_strcpy`.
  unfoldable pub strcpy_loop : (rounds : ℕ) → u.State → (dst src offset : ℕ) → Run u.State
  strcpy_loop zero s dst src offset = out_of_fuel
  strcpy_loop (suc rounds) s dst src offset =
      strcpy_round (read_char s (add64 src offset)) s
        (λ c. u.mem_write s (add64 dst offset) (c ∷ []))
        (λ s'. strcpy_loop rounds s' dst src (add64 offset 1))

  unfoldable pub strncpy_loop :
      (left : ℕ) → u.State → (dst src i : ℕ) → (null_reached : Bool) → u.State
  strncpy_loop zero s dst src i null_reached = s
  strncpy_loop (suc left) s dst src i null_reached =
      let (c, reached) = strncpy_char null_reached (read_char s (add64 src i)) in
      strncpy_loop left (u.mem_write s (add64 dst i) (c ∷ [])) dst src (add64 i 1) reached

module _ {u : Unicorn} {h : Host} where
  -- `if (ptr) while (...) text.push_back(c);`
  unfoldable pub load_text : (rounds ptr : ℕ) → Command u h Text
  load_text rounds ptr vm =
      if ptr == 0 then ok ([], vm) else and_then (text_loop u rounds vm.uc ptr) λ t. ok (t, vm)

  unfoldable pub hook_strlen : (rounds : ℕ) → Command u h (Unit {0})
  hook_strlen rounds = do
    str_ptr ← reg_read (x 0)
    len ←
        if str_ptr == 0
        then pure 0
        else (λ vm. and_then (strlen_loop u rounds vm.uc str_ptr 0) λ len. ok (len, vm))
    reg_write (x 0) len

  unfoldable pub hook_strcmp : (rounds : ℕ) → Command u h (Unit {0})
  hook_strcmp rounds = do
    s1_ptr ← reg_read (x 0)
    s2_ptr ← reg_read (x 1)
    s1 ← load_text rounds s1_ptr
    s2 ← load_text rounds s2_ptr
    reg_write (x 0) (sign_word (compare_bytes s1 s2))

  unfoldable pub max_text : (ptr n : ℕ) → Command u h Text
  max_text ptr n vm = ok (if ptr == 0 then [] else text_max u n vm.uc ptr 0, vm)

  unfoldable pub hook_strncmp : Command u h (Unit {0})
  hook_strncmp = do
    s1_ptr ← reg_read (x 0)
    s2_ptr ← reg_read (x 1)
    n ← reg_read (x 2)
    s1 ← max_text s1_ptr n
    s2 ← max_text s2_ptr n
    reg_write (x 0) (sign_word (compare_bytes s1 s2))

  unfoldable pub hook_strcpy : (rounds : ℕ) → Command u h (Unit {0})
  hook_strcpy rounds = do
    dst ← reg_read (x 0)
    src ← reg_read (x 1)
    when (not (src == 0) && not (dst == 0))
        (λ vm. and_then (strcpy_loop u rounds vm.uc dst src 0) λ s. ok (tt, record vm { uc = s }))
    reg_write (x 0) dst

  unfoldable pub hook_strncpy : Command u h (Unit {0})
  hook_strncpy = do
    dst ← reg_read (x 0)
    src ← reg_read (x 1)
    n ← reg_read (x 2)
    (λ vm. ok (tt, record vm { uc = strncpy_loop u n vm.uc dst src 0 false }))
    reg_write (x 0) dst
