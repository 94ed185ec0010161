-- ===== src/Map/Abort.antt =====
-- app.js `updateMapMarkers` on a directory with a node that cannot be drawn: the loop ends there.
use mathlib.Core.Path.{subst}
use meshtastic_proxy.Base.{
  ltb, ltb→lt, ℕ, ◌≤◌, ◌<◌, [], ◌∷◌, Bool, true, false, ◌&&◌, Option, some, ◌==◌, if◌then◌else◌,
  ◌≡◌, refl, ap, ◌∙◌, arith, Bool-cases, inl, inr, option_truthy,
}
use meshtastic_proxy.Base.NumMap.{lookup-above, NumMap, lookup, insert, IsSorted, IsAbove}
use meshtastic_proxy.Directory.{Entry}
use meshtastic_proxy.Trace.Route.{has_position, is_drawable}
use meshtastic_proxy.Map.{Marker, moved_or_new, place_markers}
use meshtastic_proxy.Map.Markers.{lookup-if_insert}

if_false : (b : Bool) (x y : NumMap Marker) → b ≡ false → (if b then x else y) ≡ y
if_false b x y h = rw h

apart : (b : Bool) (i j : ℕ) (x y : Option Marker) → i < j → (if b && i == j then x else y) ≡ y
apart b i j x y h = ground arith

if_same :
    (b : Bool) (x y : NumMap Marker) (j : ℕ) (o : Option Marker)
    → lookup j x ≡ o
    → lookup j y ≡ o
    → lookup j (if b then x else y) ≡ o
if_same true x y j o h k = h
if_same false x y j o h k = k

here :
    (i k : ℕ) (f e : Entry) (d : NumMap Entry)
    → (i == k) ≡ true
    → lookup k ((i, f) ∷ d) ≡ some e
    → f ≡ e
unfolding lookup
here i k f e d same known =
    let found : some f ≡ some e =
      subst (λ b. (if b then some f else lookup k d) ≡ some e) same known in
    cc

there :
    (i k : ℕ) (f e : Entry) (d : NumMap Entry)
    → (i == k) ≡ false
    → lookup k ((i, f) ∷ d) ≡ some e
    → lookup k d ≡ some e
unfolding lookup
there i k f e d other known = subst (λ b. (if b then some f else lookup k d) ≡ some e) other known

below : (i k : ℕ) (e : Entry) (d : NumMap Entry) → IsAbove i d → lookup k d ≡ some e → i < k
below i k e d above known = elim (Bool-cases (ltb i k)) [
  | inl less ↦ ltb→lt i k less
  | inr more ↦ absurd (cc (known, lookup-above k i d (ground (arith, more)) above))
]

-- The markers of the node that throws and of those behind it stay as they were.
pub lookup-place_behind :
    (d : NumMap Entry) (ms : NumMap Marker) (k j : ℕ) (e : Entry)
    → IsSorted d
    → lookup k d ≡ some e
    → is_drawable e ≡ false
    → k ≤ j
    → lookup j (place_markers d ms) ≡ lookup j ms
unfolding place_markers
lookup-place_behind [] ms k j e s known bad h = refl
lookup-place_behind ((i, f) ∷ d) ms k j e s known bad h =
    let next : NumMap Marker =
      if has_position f then insert i (moved_or_new f (lookup i ms)) ms else ms in
    elim (Bool-cases (i == k)) [
      | inl same ↦
          let stops : is_drawable f ≡ false = ap is_drawable (here i k f e d same known) ∙ bad in
          ap (lookup j) (if_false (is_drawable f) (place_markers d next) ms stops)
      | inr other ↦
          let later = there i k f e d other known in
          let before = below i k e d s.0 later in
          if_same (is_drawable f) (place_markers d next) ms j (lookup j ms)
            (lookup-place_behind d next k j e s.1 later bad h
              ∙ lookup-if_insert (has_position f) i j (moved_or_new f (lookup i ms)) ms
              ∙ apart (has_position f) i j _ (lookup j ms) (omega arith))
            refl
    ]
