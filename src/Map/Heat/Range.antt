-- ===== src/Map/Heat/Range.antt =====
-- The points of the heat map: how many there are, and that a better reading is not shown weaker.
use meshtastic_proxy.Base.{
  ℕ, suc, ◌≤◌, ℤ, pos, negsuc, ◌+ℤ◌, ◌≤ℤ◌, [], ◌∷◌, Bool, true, false, ◌&&◌, Option, none, some,
  if◌then◌else◌, ◌≡◌, refl, arith, length, count,
}
use meshtastic_proxy.Base.NumMap.{NumMap}
use meshtastic_proxy.Directory.{Entry}
use meshtastic_proxy.Trace.Route.{has_position, is_some}
use meshtastic_proxy.Map.Heat.{
  HeatMode, off, rssi, snr, clamped, range_of, linear, reading_of, heat_point, points_from,
}

clamped_lem :
    (shift range : ℕ) (v w : ℤ)
    → v ≤ℤ w
    → (clamped shift range v ≤ clamped shift range w) × (clamped shift range w ≤ range)
unfolding clamped ◌+ℤ◌
clamped_lem shift range (pos v) (pos w) h = ground arith
clamped_lem shift range (pos v) (negsuc w) h = ground arith
clamped_lem shift range (negsuc v) (pos w) h = ground arith
clamped_lem shift range (negsuc v) (negsuc w) h = ground arith

-- The value of a reading is within its range, so from 0 to 1, and a reading that is at least as good
-- has a value that is at least as high.
linear_mono :
    (mode : HeatMode) (v w : ℤ)
    → v ≤ℤ w
    → (linear mode v ≤ linear mode w) × (linear mode w ≤ range_of mode)
unfolding linear
linear_mono off v w h = (omega arith, omega arith)
linear_mono rssi v w h = clamped_lem 115 40 v w h
linear_mono snr v w h = clamped_lem 60 108 v w h

abbrev has_point : HeatMode → ℕ × Entry → Bool
has_point mode (n, e) = has_position e && is_some (reading_of mode e)

module _ {ℓ} {R : Type ℓ} (curve : ℕ → ℕ → R) where
  -- There is one point for each node that has a position and a reading.
  length-points_from :
      (mode : HeatMode) (d : NumMap Entry)
      → length (points_from curve mode d) ≡ count (has_point mode) d
  unfolding points_from
  length-points_from mode [] = refl
  length-points_from mode ((n, e) ∷ d) =
      go (has_position e) (reading_of mode e) (length-points_from mode d)
    where
      go :
          (b : Bool) (o : Option ℤ)
          → length (points_from curve mode d) ≡ count (has_point mode) d
          → length (
              if b
              then elim o [
                | none ↦ points_from curve mode d
                | some v ↦ heat_point curve mode e v ∷ points_from curve mode d
              ]
              else points_from curve mode d)
            ≡ (let rest = count (has_point mode) d in if b && is_some o then suc rest else rest)
      go true none ih = ih
      go true (some v) ih = ground (arith, ih)
      go false o ih = ih
