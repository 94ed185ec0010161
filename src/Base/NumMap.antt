-- ===== src/Base/NumMap.antt =====
-- An object of the source whose keys are node or channel numbers in decimal (`nodeDir`,
-- `mapMarkers`, `counts`). Such keys are enumerated in ascending order, which the list keeps.
pub mod Ext
use Prim.Native.Nat.{ℕ, ◌<◌, ◌≤◌}
use mathlib.Core.Path.{◌≡◌, refl}
use mathlib.Core.List.{List, [], ◌∷◌}
use mathlib.Core.Option.{Option, none, some}
use native.Mathlib.Omega.{arith}
use meshtastic_proxy.Base.Tests.{if◌then◌else◌, ◌==◌, ltb}
use meshtastic_proxy.Base.Lists.{All}

abbrev pub NumMap {ℓ} : Type ℓ → Type ℓ
NumMap V = List (ℕ × V)

module _ {ℓ} {V : Type ℓ} where
  -- `m[k]`, `m[k] = v` and `delete m[k]`.
  unfoldable pub lookup : ℕ → NumMap V → Option V
  lookup k [] = none
  lookup k ((j, v) ∷ m) = if j == k then some v else lookup k m

  unfoldable pub insert : ℕ → V → NumMap V → NumMap V
  insert k v [] = (k, v) ∷ []
  insert k v ((j, w) ∷ m) =
      let rest = insert k v m in
      if k == j then (k, v) ∷ m else (if ltb k j then (k, v) ∷ (j, w) ∷ m else (j, w) ∷ rest)

  unfoldable erase : ℕ → NumMap V → NumMap V
  erase k [] = []
  erase k ((j, v) ∷ m) = let rest = erase k m in if j == k then rest else (j, v) ∷ rest

  -- `Object.keys(m)`.
  abbrev pub keys : NumMap V → List ℕ
  keys [] = []
  keys ((j, v) ∷ m) = j ∷ keys m

  abbrev pub IsAbove : ℕ → NumMap V → Type 0
  IsAbove k m = All (λ j. k < j) (keys m)

  -- The keys ascend, so none occurs twice.
  abbrev pub IsSorted : NumMap V → Type 0
  IsSorted [] = Unit
  IsSorted ((k, v) ∷ m) = IsAbove k m × IsSorted m

module _ {ℓ} {V : Type ℓ} where
  pub lookup-insert :
      (key asked : ℕ) (v : V) (m : NumMap V)
      → lookup asked (insert key v m) ≡ (if key == asked then some v else lookup asked m)
  unfolding insert lookup
  lookup-insert key asked v ((head, w) ∷ rest) = ground (arith, lookup-insert key asked v rest)
  lookup-insert key asked v [] = refl

  lookup-erase :
      (k j : ℕ) (m : NumMap V) → lookup j (erase k m) ≡ (if k == j then none else lookup j m)
  unfolding lookup erase
  lookup-erase k j [] = ground arith
  lookup-erase k j ((i, w) ∷ m) = ground (arith, lookup-erase k j m)

  IsAbove-trans : (j k : ℕ) (m : NumMap V) → j ≤ k → IsAbove k m → IsAbove j m
  IsAbove-trans j k [] h a = tt
  IsAbove-trans j k ((i, w) ∷ m) h a = (omega arith, IsAbove-trans j k m h a.1)

  IsAbove-insert : (j k : ℕ) (v : V) (m : NumMap V) → j < k → IsAbove j m → IsAbove j (insert k v m)
  unfolding insert
  IsAbove-insert j k v [] h a = (h, tt)
  IsAbove-insert j k v ((i, w) ∷ m) h a = ground (arith, IsAbove-insert j k v m h a.1)

  pub insert-IsSorted : (k : ℕ) (v : V) (m : NumMap V) → IsSorted m → IsSorted (insert k v m)
  unfolding insert
  insert-IsSorted k v [] s = (tt, tt)
  insert-IsSorted k v ((j, w) ∷ m) s =
      ground (arith, insert-IsSorted k v m s.1, IsAbove-insert j k v m, IsAbove-trans k j m)

  IsAbove-erase : (j k : ℕ) (m : NumMap V) → IsAbove j m → IsAbove j (erase k m)
  unfolding erase
  IsAbove-erase j k [] a = tt
  IsAbove-erase j k ((i, w) ∷ m) a = ground (arith, IsAbove-erase j k m a.1)

  erase-IsSorted : (k : ℕ) (m : NumMap V) → IsSorted m → IsSorted (erase k m)
  unfolding erase
  erase-IsSorted k [] s = tt
  erase-IsSorted k ((j, w) ∷ m) s = ground (arith, erase-IsSorted k m s.1, IsAbove-erase j k m s.0)

  pub lookup-above : (j k : ℕ) (m : NumMap V) → j ≤ k → IsAbove k m → lookup j m ≡ none
  unfolding lookup
  lookup-above j k [] h a = refl
  lookup-above j k ((i, w) ∷ m) h a = ground (arith, lookup-above j k m h a.1)
