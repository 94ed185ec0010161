-- ===== src/Base/Truth.antt =====
-- Truthiness of JavaScript values, `||` and the update `if (x) y = x`. A field that may be missing
-- (`undefined`) is an `Option`.
use Prim.Native.Nat.{ℕ, zero, suc}
use mathlib.Core.Bool.{Bool, true, false}
use mathlib.Core.List.{[], ◌∷◌}
use mathlib.Core.Option.{Option, none, some}
use meshtastic_proxy.Base.Tests.{if◌then◌else◌}
use meshtastic_proxy.Base.Int.{ℤ, pos, negsuc}
use meshtastic_proxy.Base.Strings.{Text}

pub record Truthy {ℓ} (A : Type ℓ) : Type ℓ where
  pub test : A → Bool

abbrev pub truthy {ℓ} : {A : Type ℓ} ⦃t : Truthy A⦄ → A → Bool
truthy ⦃t⦄ = t.test

abbrev nat_test : ℕ → Bool
nat_test zero = false
nat_test (suc n) = true

abbrev int_test : ℤ → Bool
int_test (pos n) = nat_test n
int_test (negsuc n) = true

abbrev text_test : Text → Bool
text_test [] = false
text_test (_ ∷ _) = true

abbrev option_test {ℓ} : {A : Type ℓ} → (A → Bool) → Option A → Bool
option_test p none = false
option_test p (some a) = p a

instance abbrev pub bool_truthy : Truthy Bool
bool_truthy = record { test = λ b. b }

instance abbrev pub nat_truthy : Truthy ℕ
nat_truthy = record { test = nat_test }

instance abbrev pub int_truthy : Truthy ℤ
int_truthy = record { test = int_test }

instance abbrev pub text_truthy : Truthy Text
text_truthy = record { test = text_test }

instance abbrev pub option_truthy {ℓ} : {A : Type ℓ} ⦃t : Truthy A⦄ → Truthy (Option A)
option_truthy ⦃t⦄ = record { test = option_test t.test }

module _ {ℓ} {A : Type ℓ} ⦃t : Truthy A⦄ where
  -- `x || y`.
  abbrev pub or_else : A → A → A
  or_else x y = if truthy x then x else y

  -- `x || y` where `x` may be missing and `y` is a value.
  abbrev pub value_or : Option A → A → A
  value_or none y = y
  value_or (some x) y = if truthy x then x else y

-- `entry.x || ''`.
abbrev pub text_or : Option Text → Text
text_or none = []
text_or (some s) = s
