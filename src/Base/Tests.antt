-- ===== src/Base/Tests.antt =====
-- Boolean tests on the native numbers and the conditional, shared by every model of the dashboard.
use Prim.Native.Nat.{ℕ, ◌≤◌, ◌<◌, compare, Ordering}
use mathlib.Core.Path.{◌≡◌, refl}
use mathlib.Core.Logic.{◌↔◌, ◌⊎◌, inl, inr}
use mathlib.Core.Bool.{Bool, true, false, ◌&&◌}
use mathlib.Core.Option.{Option, none, some}
use native.Mathlib.Omega.{arith}

abbrev pub ltb : ℕ → ℕ → Bool
ltb a b = elim (compare a b) [ Ordering.lt ↦ true | _ ↦ false ]

abbrev pub leb : ℕ → ℕ → Bool
leb a b = elim (compare a b) [ Ordering.gt ↦ false | _ ↦ true ]

infix 50 ◌==◌
abbrev pub ◌==◌ : ℕ → ℕ → Bool
a == b = elim (compare a b) [ Ordering.eq ↦ true | _ ↦ false ]

infix 1 if◌then◌else◌
abbrev pub if◌then◌else◌ {ℓ} : {A : Type ℓ} → Bool → A → A → A
if true then x else y = x
if false then x else y = y

pub ltb→lt : (a b : ℕ) → ltb a b ≡ true → a < b
ltb→lt a b h = ground arith

pub lt→ltb : (a b : ℕ) → a < b → ltb a b ≡ true
lt→ltb a b h = ground arith

pub leb→le : (a b : ℕ) → leb a b ≡ true → a ≤ b
leb→le a b h = ground arith

pub ltb-false : (a b : ℕ) → b ≤ a → ltb a b ≡ false
ltb-false a b h = ground arith

pub ==_iff : (a b : ℕ) → ((a == b) ≡ true) ↔ (a ≡ b)
==_iff a b = ground arith

pub ==_refl : (a : ℕ) → (a == a) ≡ true
==_refl a = ground arith

pub Bool-cases : (b : Bool) → (b ≡ true) ⊎ (b ≡ false)
Bool-cases true = inl refl
Bool-cases false = inr refl

pub Option-cases {ℓ} : {A : Type ℓ} (o : Option A) → (o ≡ none) ⊎ ((a : A) × (o ≡ some a))
Option-cases none = inl refl
Option-cases (some a) = inr (a, refl)

-- A function of a conditional, by its value in both branches.
module _ {ℓ κ} {A : Type ℓ} {B : Type κ} (f : A → B) where
  pub if_both : (b : Bool) (s t : A) (x : B) → f s ≡ x → f t ≡ x → f (if b then s else t) ≡ x
  if_both true s t x h k = h
  if_both false s t x h k = k

  pub if_apart :
      (b : Bool) (s t : A) (x y : B)
      → f s ≡ x
      → f t ≡ y
      → f (if b then s else t) ≡ (if b then x else y)
  if_apart true s t x y h k = h
  if_apart false s t x y h k = k

  -- A predicate on it.
  pub if_keeps {μ} :
      (P : B → Type μ) (b : Bool) (s t : A) → P (f s) → P (f t) → P (f (if b then s else t))
  if_keeps P true s t h k = h
  if_keeps P false s t h k = k

pub &&-true : (a b : Bool) → (a && b) ≡ true → (a ≡ true) × (b ≡ true)
&&-true a b h = ground arith

pub ruleset tests = (arith, ltb→lt, lt→ltb, leb→le)
