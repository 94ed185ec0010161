-- ===== src/App/Points.antt =====
-- The events that do not move a node and bring no reading: they leave the points of the heat map.
use meshtastic_proxy.Base.{ℕ, Bool, Option, none, some, ◌≡◌, refl, sym, ap, ◌∙◌}
use meshtastic_proxy.Base.NumMap.{lookup, IsSorted, insert-IsSorted}
use meshtastic_proxy.Directory.{
  Entry, Dir, TelemetryUpdate, InfoUpdate, dir_or_empty, merge_telemetry, merge_info, put_telemetry,
  put_info,
}
use meshtastic_proxy.Nodes.Actions.{mark_favorite, write_mark}
use meshtastic_proxy.Map.Heat.{HeatMode, off, rssi, snr, reading_of, get_heatmap_points}
use meshtastic_proxy.Map.Heat.Stable.{point_of, point_at, points_from-insert}

module _ {ℓ} {R : Type ℓ} (curve : ℕ → ℕ → R) where
  telemetry_point :
      (mode : HeatMode) (now : ℕ) (u : TelemetryUpdate) (o : Option Entry)
      → point_of curve mode (merge_telemetry now u o) ≡ point_at curve mode o
  unfolding merge_telemetry reading_of
  telemetry_point mode now u none = refl
  telemetry_point off now u (some e) = refl
  telemetry_point rssi now u (some e) = refl
  telemetry_point snr now u (some e) = refl

  info_point :
      (mode : HeatMode) (now : ℕ) (u : InfoUpdate) (o : Option Entry)
      → point_of curve mode (merge_info now u o) ≡ point_at curve mode o
  unfolding merge_info reading_of
  info_point mode now u none = refl
  info_point off now u (some e) = refl
  info_point rssi now u (some e) = refl
  info_point snr now u (some e) = refl

  mark_point :
      (mode : HeatMode) (b : Bool) (e : Entry)
      → point_of curve mode (record e { is_favorite = some b }) ≡ point_of curve mode e
  unfolding reading_of
  mark_point off b e = refl
  mark_point rssi b e = refl
  mark_point snr b e = refl

  pub points-put_telemetry :
      (mode : HeatMode) (now : ℕ) (u : TelemetryUpdate) (dir : Dir)
      → IsSorted (dir_or_empty dir)
      → get_heatmap_points curve mode (put_telemetry now u dir) ≡ get_heatmap_points curve mode dir
  unfolding put_telemetry get_heatmap_points
  points-put_telemetry mode now u none sorted = refl
  points-put_telemetry mode now u (some d) sorted =
      points_from-insert curve mode u.node_num (merge_telemetry now u (lookup u.node_num d)) d
        sorted (telemetry_point mode now u (lookup u.node_num d))

  pub points-put_info :
      (mode : HeatMode) (now : ℕ) (u : InfoUpdate) (dir : Dir)
      → IsSorted (dir_or_empty dir)
      → get_heatmap_points curve mode (put_info now u dir) ≡ get_heatmap_points curve mode dir
  unfolding put_info get_heatmap_points
  points-put_info mode now u dir sorted =
      let d = dir_or_empty dir in
      points_from-insert curve mode u.node_num (merge_info now u (lookup u.node_num d)) d sorted
        (info_point mode now u (lookup u.node_num d))

  pub points-mark_favorite :
      (mode : HeatMode) (n : ℕ) (b : Bool) (dir : Dir)
      → IsSorted (dir_or_empty dir)
      → get_heatmap_points curve mode (mark_favorite n b dir) ≡ get_heatmap_points curve mode dir
  unfolding mark_favorite get_heatmap_points
  points-mark_favorite mode n b none sorted = refl
  points-mark_favorite mode n b (some d) sorted = go (lookup n d) refl
    where
      go :
          (o : Option Entry)
          → lookup n d ≡ o
          → get_heatmap_points curve mode (write_mark n b d o)
            ≡ get_heatmap_points curve mode (some d)
      go none at = refl
      go (some e) at =
          points_from-insert curve mode n (record e { is_favorite = some b }) d sorted
            (mark_point mode b e ∙ ap (point_at curve mode) (sym at))

pub mark_favorite-IsSorted :
    (n : ℕ) (b : Bool) (dir : Dir)
    → IsSorted (dir_or_empty dir)
    → IsSorted (dir_or_empty (mark_favorite n b dir))
unfolding mark_favorite
mark_favorite-IsSorted n b none sorted = sorted
mark_favorite-IsSorted n b (some d) sorted = go (lookup n d)
  where
    go : (o : Option Entry) → IsSorted (dir_or_empty (write_mark n b d o))
    go none = sorted
    go (some e) = insert-IsSorted n (record e { is_favorite = some b }) d sorted
