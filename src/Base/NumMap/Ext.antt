-- ===== src/Base/NumMap/Ext.antt =====
-- Objects with numeric keys are determined by what they hold at each key.
use Prim.Native.Nat.{ℕ, ◌<◌, ◌≤◌}
use mathlib.Core.Path.{◌≡◌, refl, sym, ap, ap₂, ◌∙◌, subst}
use mathlib.Core.List.{[], ◌∷◌}
use mathlib.Core.Option.{none, some}
use mathlib.Core.Logic.{◌⊎◌, inl, inr}
use native.Mathlib.Omega.{arith}
use meshtastic_proxy.Base.NumMap.{NumMap, lookup, IsAbove, IsSorted, lookup-above}

le_or_gt : (j k : ℕ) → (j ≤ k) ⊎ (k < j)
le_or_gt j k = ground arith

three_ways : (j k : ℕ) → (j < k) ⊎ ((j ≡ k) ⊎ (k < j))
three_ways j k = ground arith

module _ {ℓ} {V : Type ℓ} where
  lookup_self : (k : ℕ) (v : V) (m : NumMap V) → lookup k ((k, v) ∷ m) ≡ some v
  unfolding lookup
  lookup_self k v m = ground arith

  lookup_past : (j k : ℕ) (v : V) (m : NumMap V) → k < j → lookup j ((k, v) ∷ m) ≡ lookup j m
  unfolding lookup
  lookup_past j k v m h = ground arith

  lookup_before :
      (j k : ℕ) (v : V) (m : NumMap V) → j < k → IsAbove k m → lookup j ((k, v) ∷ m) ≡ none
  unfolding lookup
  lookup_before j k v m h a = ground (arith, lookup-above j k m (omega arith) a)

  lookup_nil : (k : ℕ) → lookup {V = V} k [] ≡ none
  unfolding lookup
  lookup_nil k = refl

  tails_agree :
      (k : ℕ) (v w : V) (m l : NumMap V)
      → IsAbove k m
      → IsAbove k l
      → ((j : ℕ) → lookup j ((k, v) ∷ m) ≡ lookup j ((k, w) ∷ l))
      → (j : ℕ) → lookup j m ≡ lookup j l
  tails_agree k v w m l a b h j = elim (le_or_gt j k) [
    | inl low ↦ lookup-above j k m low a ∙ sym (lookup-above j k l low b)
    | inr high ↦ sym (lookup_past j k v m high) ∙ h j ∙ lookup_past j k w l high
  ]

  -- Two objects that hold the same at every key are the same.
  pub NumMap-ext :
      (m l : NumMap V) → IsSorted m → IsSorted l → ((j : ℕ) → lookup j m ≡ lookup j l) → m ≡ l
  NumMap-ext [] [] s t h = refl
  NumMap-ext [] ((k, w) ∷ l) s t h = absurd (cc (sym (lookup_nil k) ∙ h k ∙ lookup_self k w l))
  NumMap-ext ((k, v) ∷ m) [] s t h = absurd (cc (sym (lookup_self k v m) ∙ h k ∙ lookup_nil k))
  NumMap-ext ((k, v) ∷ m) ((i, w) ∷ l) s t h = elim (three_ways k i) [
    | inl first ↦ absurd (cc (sym (lookup_self k v m) ∙ h k ∙ lookup_before k i w l first t.0))
    | inr (inr last) ↦
        absurd (cc (sym (lookup_self i w l) ∙ sym (h i) ∙ lookup_before i k v m last s.0))
    | inr (inl same) ↦
        let agree : (j : ℕ) → lookup j ((k, v) ∷ m) ≡ lookup j ((k, w) ∷ l) =
          λ j. h j ∙ ap (λ x. lookup j ((x, w) ∷ l)) (sym same) in
        let above : IsAbove k l = subst (λ x. IsAbove x l) (sym same) t.0 in
        let value : v ≡ w = cc (sym (lookup_self k v m) ∙ agree k ∙ lookup_self k w l) in
        ap₂ ◌∷◌ (ap₂ (λ x y. (x, y)) same value)
          (NumMap-ext m l s.1 t.1 (tails_agree k v w m l s.0 above agree))
  ]
