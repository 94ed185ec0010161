-- ===== src/Map/Heat/Stable.antt =====
-- When a change of the directory leaves the heat map as it is.
use meshtastic_proxy.Base.{
  ℕ, ℤ, List, [], ◌∷◌, Bool, true, false, Option, none, some, if◌then◌else◌, ◌≡◌, refl, sym, ap,
  ◌∙◌, arith, ◌==◌, ltb, ltb→lt, Bool-cases, inl, inr,
}
use meshtastic_proxy.Base.NumMap.{NumMap, lookup, insert, IsSorted, lookup-above}
use meshtastic_proxy.Directory.{Entry, Dir}
use meshtastic_proxy.Trace.Route.{has_position}
use meshtastic_proxy.Map.Heat.{
  HeatMode, HeatPoint, Heat, off, rssi, snr, reading_of, heat_point, points_from,
  get_heatmap_points, draw_heat, update_heatmap,
}

abbrev cons_point {ℓ} : {A : Type ℓ} → Option A → List A → List A
cons_point none xs = xs
cons_point (some x) xs = x ∷ xs

module _ {ℓ} {R : Type ℓ} (curve : ℕ → ℕ → R) where
  -- The point of an entry, if it has one.
  abbrev pub point_of : HeatMode → Entry → Option (HeatPoint R)
  point_of mode e =
      if has_position e
      then elim (reading_of mode e) [ none ↦ none | some v ↦ some (heat_point curve mode e v) ]
      else none

  abbrev pub point_at : HeatMode → Option Entry → Option (HeatPoint R)
  point_at mode none = none
  point_at mode (some e) = point_of mode e

  points_from-cons :
      (mode : HeatMode) (n : ℕ) (e : Entry) (d : NumMap Entry)
      → points_from curve mode ((n, e) ∷ d)
        ≡ cons_point (point_of mode e) (points_from curve mode d)
  unfolding points_from
  points_from-cons mode n e d = go (has_position e) (reading_of mode e)
    where
      go :
          (b : Bool) (o : Option ℤ)
          → (if b
              then elim o [
                | none ↦ points_from curve mode d
                | some v ↦ heat_point curve mode e v ∷ points_from curve mode d
              ]
              else points_from curve mode d)
            ≡ cons_point
                (if b
                  then elim o [ none ↦ none | some v ↦ some (heat_point curve mode e v) ]
                  else none)
                (points_from curve mode d)
      go true none = refl
      go true (some v) = refl
      go false o = refl

  -- A written entry with the point of the entry that was there leaves all points as they were.
  pub points_from-insert :
      (mode : HeatMode) (k : ℕ) (e : Entry) (d : NumMap Entry)
      → IsSorted d
      → point_of mode e ≡ point_at mode (lookup k d)
      → points_from curve mode (insert k e d) ≡ points_from curve mode d
  unfolding insert lookup
  points_from-insert mode k e [] sorted same =
      points_from-cons mode k e [] ∙ ap (λ o. cons_point o (points_from curve mode [])) same
  points_from-insert mode k e ((j, w) ∷ m) sorted same = elim (Bool-cases (k == j)) [
    | inl here ↦ rw here (
        let there : (j == k) ≡ true = ground arith in
        points_from-cons mode k e m
        ∙ ap (λ o. cons_point o (points_from curve mode m)) (same ∙ rw there)
        ∙ sym (points_from-cons mode j w m))
    | inr other ↦
        let past : (j == k) ≡ false = ground arith in
        elim (Bool-cases (ltb k j)) [
          | inl before ↦
              rw (other, before)
                (points_from-cons mode k e ((j, w) ∷ m)
                  ∙ ap (λ o. cons_point o (points_from curve mode ((j, w) ∷ m)))
                      (same ∙ ap (point_at mode) (missing past before)))
          | inr after ↦
              rw (other, after)
                (points_from-cons mode j w (insert k e m)
                  ∙ ap (cons_point (point_of mode w))
                      (points_from-insert mode k e m sorted.1 (same ∙ rw past))
                  ∙ sym (points_from-cons mode j w m))
        ]
  ]
    where
      missing : (j == k) ≡ false → ltb k j ≡ true → (if j == k then some w else lookup k m) ≡ none
      missing past before = rw past (lookup-above k j m (omega (arith, ltb→lt k j before)) sorted.0)

  draw_heat-mode : (m : HeatMode) (dir : Dir) (h : Heat R) → (draw_heat curve m dir h).mode ≡ h.mode
  unfolding draw_heat
  draw_heat-mode off dir h = refl
  draw_heat-mode rssi dir h = refl
  draw_heat-mode snr dir h = refl

  draw_heat_again :
      (m : HeatMode) (dir : Dir) (h : Heat R)
      → draw_heat curve m dir (draw_heat curve m dir h) ≡ draw_heat curve m dir h
  unfolding draw_heat
  draw_heat_again off dir h = refl
  draw_heat_again rssi dir h = refl
  draw_heat_again snr dir h = refl

  -- The heat map is drawn again to the same.
  pub update_heatmap_again :
      (dir : Dir) (h : Heat R)
      → update_heatmap curve true dir (update_heatmap curve true dir h)
        ≡ update_heatmap curve true dir h
  unfolding update_heatmap
  update_heatmap_again dir h =
      ap (λ m. draw_heat curve m dir (draw_heat curve h.mode dir h)) (draw_heat-mode h.mode dir h)
      ∙ draw_heat_again h.mode dir h

  pub update_heatmap_same :
      (d e : Dir) (h : Heat R)
      → ((mode : HeatMode) → get_heatmap_points curve mode e ≡ get_heatmap_points curve mode d)
      → update_heatmap curve true e h ≡ update_heatmap curve true d h
  unfolding update_heatmap
  update_heatmap_same d e h same = go h.mode
    where
      go : (m : HeatMode) → draw_heat curve m e h ≡ draw_heat curve m d h
      go off = unfold draw_heat in refl
      go rssi = unfold draw_heat in rw (same rssi)
      go snr = unfold draw_heat in rw (same snr)
