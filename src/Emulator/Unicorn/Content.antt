-- ===== src/Emulator/Unicorn/Content.antt =====
-- What writes do to the content of ranges of the guest's memory.
use anisette_kit.Prelude.Options.{>>=-eq-some}
use anisette_kit.Prelude.{
  ℕ, zero, suc, ◌+◌, ◌-◌, ◌≤◌, ◌<◌, ◌≡◌, refl, ap, ◌⊎◌, true, Option, some, List, [], ◌∷◌,
  get_elem?, length, arith,
}
use anisette_kit.Emulator.Unicorn.{Unicorn, Reg, collect, is_some, byte, covers, UnicornLaws}

collect-same :
    (f g : ℕ → Option ℕ) (a n : ℕ)
    → ((p : ℕ) → a ≤ p → p < a + n → f p ≡ g p)
    → collect f a n ≡ collect g a n
collect-same f g a zero h = refl
collect-same f g a (suc n) h = rw (
  h a (omega arith) (omega arith),
  collect-same f g (a + 1) n (λ p l r. h p (omega arith) (omega arith)),
)

collect-get :
    (f : ℕ → Option ℕ) (a : ℕ) (bs : List ℕ)
    → ((p : ℕ) → a ≤ p → p < a + length bs → f p ≡ get_elem? bs (p - a))
    → collect f a (length bs) ≡ some bs
collect-get f a [] h = refl
collect-get f a (b ∷ bs) h =
    let z : a - a ≡ 0 = omega arith in
    let raw = h a (omega arith) (omega arith) in
    let head : f a ≡ some b = rw z at raw in
    rw (head, collect-get f (a + 1) bs (λ p l r. behind p l (h p (omega arith) (omega arith))))
  where
    behind :
        (p : ℕ) → a + 1 ≤ p → f p ≡ get_elem? (b ∷ bs) (p - a) → f p ≡ get_elem? bs (p - (a + 1))
    behind p l e = let k : p - a ≡ suc (p - (a + 1)) = omega arith in rw k at e

pub length-collect :
    (f : ℕ → Option ℕ) (a n : ℕ) (bs : List ℕ) → collect f a n ≡ some bs → length bs ≡ n
length-collect f a zero bs e = ground arith
length-collect f a (suc n) bs e =
    let (b, _, e1) = >>=-eq-some (f a) _ e in
    let (rest, p, e2) = >>=-eq-some (collect f (a + 1) n) _ e1 in
    let q : b ∷ rest ≡ bs = ground arith in rw (← q) (ap suc (length-collect f (a + 1) n rest p))

get_in : (bs : List ℕ) (i : ℕ) → i < length bs → is_some (get_elem? bs i) ≡ true
get_in [] i h = elim h [ ]
get_in (b ∷ bs) zero h = refl
get_in (b ∷ bs) (suc i) h = get_in bs i (omega arith)

covers_at :
    (f : ℕ → Option ℕ) (a n p : ℕ)
    → is_some (collect f a n) ≡ true
    → a ≤ p
    → p < a + n
    → is_some (f p) ≡ true
covers_at f a zero p h l r = absurd (omega arith)
covers_at f a (suc n) p h l r = ground (arith, covers_at f (a + 1) n p)

covers_from :
    (f : ℕ → Option ℕ) (a n : ℕ)
    → ((p : ℕ) → a ≤ p → p < a + n → is_some (f p) ≡ true)
    → is_some (collect f a n) ≡ true
covers_from f a zero h = refl
covers_from f a (suc n) h =
    ground (arith, h a, covers_from f (a + 1) n λ p l r. h p (omega arith) (omega arith))

-- A part of a readable range is readable.
pub covers-part :
    (f : ℕ → Option ℕ) (a n b k : ℕ)
    → is_some (collect f a n) ≡ true
    → a ≤ b
    → b + k ≤ a + n
    → is_some (collect f b k) ≡ true
covers-part f a n b k m lo hi =
    covers_from f b k λ p l r. covers_at f a n p m (omega arith) (omega arith)

module _ (u : Unicorn) (L : UnicornLaws u) where
  -- A write of `n` bytes that is mapped can be read back.
  pub collect-mem_write_self :
      (s : u.State) (a : ℕ) (bs : List ℕ) (n : ℕ)
      → length bs ≡ n
      → covers u s a n ≡ true
      → collect (byte u (u.mem_write s a bs)) a n ≡ some bs
  collect-mem_write_self s a bs n e m =
      rw (← e) (collect-get _ a bs λ p l r. ground (arith, L.byte-mem_write s a bs p, subst_covers))
    where
      subst_covers : covers u s a (length bs) ≡ true
      subst_covers = rw e m

  -- It leaves what it does not reach.
  pub collect-mem_write_apart :
      (s : u.State) (a : ℕ) (bs : List ℕ) (b n : ℕ)
      → (b + n ≤ a) ⊎ (a + length bs ≤ b)
      → collect (byte u (u.mem_write s a bs)) b n ≡ collect (byte u s) b n
  collect-mem_write_apart s a bs b n apart =
      collect-same _ _ b n λ p l r. ground (arith, L.byte-mem_write s a bs p)

  byte-mem_write_mapped :
      (s : u.State) (a : ℕ) (bs : List ℕ) (p : ℕ)
      → is_some (byte u s p) ≡ true
      → is_some (byte u (u.mem_write s a bs) p) ≡ true
  byte-mem_write_mapped s a bs p m = ground (arith, L.byte-mem_write s a bs p, get_in bs (p - a))

  -- And nothing is unmapped by it.
  pub covers-mem_write :
      (s : u.State) (a : ℕ) (bs : List ℕ) (b n : ℕ)
      → covers u s b n ≡ true
      → covers u (u.mem_write s a bs) b n ≡ true
  covers-mem_write s a bs b n m =
      covers_from _ b n λ p l r. byte-mem_write_mapped s a bs p (covers_at (byte u s) b n p m l r)

  pub collect-reg_write :
      (s : u.State) (r : Reg) (w b n : ℕ)
      → collect (byte u (u.reg_write s r w)) b n ≡ collect (byte u s) b n
  collect-reg_write s r w b n = collect-same _ _ b n λ p l q. L.byte-reg_write s r w p
