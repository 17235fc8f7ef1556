-- ===== src/Mac/Globals.antt =====
-- What `load_adi_and_setup` of Native/anisette_core_mac.cpp does with the two loaders that the globals
-- lead to.
use anisette_kit.Prelude.{ℕ, Option, none, some}
use anisette_kit.Prelude.Text.{Text}
use anisette_kit.Mac.Platform.{Platform}
use anisette_kit.Mac.Process.{Action, pure, ◌>>=◌, ◌>>◌, gets, update}
use anisette_kit.Mac.Registry.{delete_loader, add_sibling, get_adi_symbol}
use anisette_kit.Mac.Relocate.{relocate}

module _ {p : Platform} where
  -- `delete` of a pointer, which does nothing if it is null.
  unfoldable pub delete_pointer : Option ℕ → Action p (Unit {0})
  delete_pointer none = pure tt
  delete_pointer (some l) = delete_loader l

  unfoldable pub delete_ssc : Action p (Unit {0})
  delete_ssc = do l ← gets (λ s. s.g_ssc); delete_pointer l; update (λ s. record s { g_ssc = none })

  unfoldable pub delete_adi : Action p (Unit {0})
  delete_adi = do l ← gets (λ s. s.g_adi); delete_pointer l; update (λ s. record s { g_adi = none })

  unfoldable pub delete_both : Action p (Unit {0})
  delete_both = delete_adi >> delete_ssc

  -- A symbol of the two loaders that the globals lead to.
  unfoldable pub global_symbol : (obfuscated_key readable_fallback : Text) → Action p ℕ
  global_symbol obfuscated_key readable_fallback = do
    ssc ← gets (λ s. s.g_ssc)
    adi ← gets (λ s. s.g_adi)
    get_adi_symbol ssc adi obfuscated_key readable_fallback

  unfoldable pub connect : (rounds : ℕ) → (ssc adi : ℕ) → Action p (Unit {0})
  connect rounds ssc adi = do
    add_sibling ssc adi
    add_sibling adi ssc
    relocate rounds ssc
    relocate rounds adi
