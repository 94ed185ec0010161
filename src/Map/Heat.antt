-- ===== src/Map/Heat.antt =====
-- app.js `getHeatmapPoints` and `updateHeatmap`: the layer that shows how well nodes are received.
-- A value between 0 and 1 is a fraction of which the denominator is fixed by the mode; the power
-- curve `Math.pow(linear, 0.6)` is the engine's and is a parameter.
pub mod Range
pub mod Stable
use meshtastic_proxy.Base.{
  ℕ, ◌+◌, min, ℤ, pos, negsuc, ◌+ℤ◌, pos_part, List, [], ◌∷◌, Bool, true, false, not, ◌||◌, Option,
  none, some, if◌then◌else◌, truthy, int_truthy, option_truthy, or_else, value_or,
}
use meshtastic_proxy.Base.NumMap.{NumMap}
use meshtastic_proxy.Directory.{Entry, Dir, dir_or_empty}
use meshtastic_proxy.Trace.Route.{Coords, has_position, is_some}

pub data HeatMode : Type 0 where
  off rssi snr : HeatMode

-- `Math.max(0, Math.min(1, (v + shift) / range))`, as the numerator over `range`.
unfoldable pub clamped : ℕ → ℕ → ℤ → ℕ
unfolding ◌+ℤ◌
clamped shift range v = min range (pos_part (v +ℤ pos shift))

-- The range of a mode: 40 dBm, or 27 dB in quarters.
abbrev pub range_of : HeatMode → ℕ
range_of off = 1
range_of rssi = 40
range_of snr = 108

unfoldable pub linear : HeatMode → ℤ → ℕ
unfolding clamped
linear off v = 0
linear rssi v = clamped 115 40 v
linear snr v = clamped 60 108 v

-- The reading of a node that counts: an RSSI that is not 0, and an SNR that is there.
unfoldable pub reading_of : HeatMode → Entry → Option ℤ
reading_of off e = none
reading_of rssi e = if truthy e.rx_rssi then e.rx_rssi else none
reading_of snr e = or_else e.rx_snr e.snr

pub record HeatPoint {ℓ} (R : Type ℓ) : Type ℓ where
  pub at : Coords
  pub intensity : R

module _ {ℓ} {R : Type ℓ} (curve : ℕ → ℕ → R) where
  abbrev pub heat_point : HeatMode → Entry → ℤ → HeatPoint R
  heat_point mode e v = record {
    at = (e.latitude, e.longitude);
    intensity = curve (linear mode v) (range_of mode);
  }

  -- The loop of `getHeatmapPoints`.
  unfoldable pub points_from : HeatMode → NumMap Entry → List (HeatPoint R)
  unfolding reading_of linear
  points_from mode [] = []
  points_from mode ((n, e) ∷ d) =
      let rest = points_from mode d in
      if has_position e
      then elim (reading_of mode e) [ none ↦ rest | some v ↦ heat_point mode e v ∷ rest ]
      else rest

  unfoldable pub get_heatmap_points : HeatMode → Dir → List (HeatPoint R)
  unfolding points_from
  get_heatmap_points mode dir = points_from mode (dir_or_empty dir)

-- The layer on the map with the gradient of its mode, the mode of the radio buttons, and the mode
-- that the legend explains, where it is displayed.
pub record Heat {ℓ} (R : Type ℓ) : Type ℓ where
  pub mode : HeatMode
  pub layer : Option (HeatMode × List (HeatPoint R))
  pub legend : Option HeatMode

module _ {ℓ} {R : Type ℓ} (curve : ℕ → ℕ → R) where
  -- The layer and the legend of a mode.
  unfoldable pub draw_heat : HeatMode → Dir → Heat R → Heat R
  unfolding get_heatmap_points
  draw_heat off dir h = record h { layer = none; legend = none }
  draw_heat rssi dir h = record h {
    layer = some (rssi, get_heatmap_points curve rssi dir);
    legend = some rssi;
  }
  draw_heat snr dir h = record h {
    layer = some (snr, get_heatmap_points curve snr dir);
    legend = some snr;
  }

  -- `updateHeatmap`, with the map made or not.
  unfoldable pub update_heatmap : Bool → Dir → Heat R → Heat R
  unfolding draw_heat
  update_heatmap ready dir h = if ready then draw_heat h.mode dir h else h
