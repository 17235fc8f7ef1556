-- ===== src/Base/Errors/Laws.antt =====
-- Each code has a text of its own, and every other number has the text for unknown errors.
use anisette_kit.Prelude.{
  ◌∙◌, ◌↔◌, ◌≡◌, ◌≢◌, refl, sym, ap, List, [], ◌∷◌, Option, none, some, false, if◌then◌else◌,
  Bool-cases, inl, inr,
}
use anisette_kit.Prelude.Int.{ℤ, int_eq, int_eq_iff}
use anisette_kit.Prelude.Text.{Text, text_eq, text_eq_refl}
use anisette_kit.Base.Errors.{
  AnisetteErrorCode, anisette_ok, value, case_text, labels, unknown_text, switch,
  get_anisette_error_description,
}

-- The first label whose text is this one.
unfoldable pub code_of : List AnisetteErrorCode → Text → Option AnisetteErrorCode
code_of [] t = none
code_of (c ∷ cs) t = if text_eq (case_text c) t then some c else code_of cs t

code_of-description :
    (c : AnisetteErrorCode) → code_of labels (get_anisette_error_description (value c)) ≡ some c
unfolding code_of switch get_anisette_error_description value case_text int_eq text_eq
code_of-description anisette_ok = refl
code_of-description _ = refl

-- Different error codes have different descriptions.
pub description-injective :
    (c d : AnisetteErrorCode)
    → get_anisette_error_description (value c) ≡ get_anisette_error_description (value d)
    → c ≡ d
description-injective c d e =
    cc (code_of-description c, code_of-description d, ap (code_of labels) e)

-- No code of the enumeration has the text for unknown errors.
description-known :
    (c : AnisetteErrorCode)
    → text_eq (get_anisette_error_description (value c)) unknown_text ≡ false
unfolding switch get_anisette_error_description value case_text int_eq text_eq
description-known anisette_ok = refl
description-known _ = refl

switch-unknown :
    (cs : List AnisetteErrorCode) (code : ℤ)
    → ((c : AnisetteErrorCode) → value c ≢ code)
    → switch cs code ≡ unknown_text
unfolding switch
switch-unknown [] code h = refl
switch-unknown (c ∷ cs) code h = elim (Bool-cases (int_eq code (value c))) [
  | inl e ↦ absurd (h c (sym ((int_eq_iff code (value c)).0 e)))
  | inr e ↦ rw e (switch-unknown cs code h)
]

-- A number has the text for unknown errors exactly if it is no code of the enumeration.
pub description_exact :
    (code : ℤ)
    → (get_anisette_error_description code ≡ unknown_text)
      ↔ ((c : AnisetteErrorCode) → value c ≢ code)
description_exact code = (
  λ e c same. cc (
    description-known c,
    text_eq_refl unknown_text,
    ap (λ t. text_eq t unknown_text) (ap get_anisette_error_description same ∙ e),
  ),
  λ h. unfold get_anisette_error_description in switch-unknown labels code h,
)
