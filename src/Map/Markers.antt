-- ===== src/Map/Markers.antt =====
-- The markers after `updateMapMarkers`, and what `applyMapFilters` counts.
use meshtastic_proxy.Base.{
  &&-true, ℕ, ◌+◌, [], ◌∷◌, Bool, true, false, ◌&&◌, Option, none, some, ◌==◌, if◌then◌else◌, ◌≡◌,
  refl, sym, ap, ◌∙◌, arith, count, Bool-cases, inl, inr, ==_iff, Locale, option_truthy,
}
use meshtastic_proxy.Base.NumMap.{lookup-above, NumMap, lookup, insert, IsSorted, lookup-insert}
use meshtastic_proxy.Directory.{Entry}
use meshtastic_proxy.Trace.Route.{has_position, is_drawable, draws}
use meshtastic_proxy.Map.{
  Marker, Map, Panel, Scan, moved_or_new, place_markers, is_placed, sweep_markers, show_marker,
  scan_entry, scan, node_passes_filters, apply_map_filters, update_map_markers,
}

-- The marker of a node after the loop over the directory.
abbrev placed_at : Option Entry → Option Marker → Option Marker
placed_at none o = o
placed_at (some e) o = if has_position e then some (moved_or_new e o) else o

pub lookup-if_insert :
    (b : Bool) (k j : ℕ) (v : Marker) (ms : NumMap Marker)
    → lookup j (if b then insert k v ms else ms) ≡ (if b && k == j then some v else lookup j ms)
lookup-if_insert true k j v ms = lookup-insert k j v ms
lookup-if_insert false k j v ms = refl

if_true {ℓ} : {A : Type ℓ} (b : Bool) (x y : A) → b ≡ true → (if b then x else y) ≡ x
if_true b x y h = rw h

lookup_self : {V : Type 0} (k j : ℕ) (m : NumMap V) → (k == j) ≡ true → lookup k m ≡ lookup j m
lookup_self k j m h = ap (λ i. lookup i m) ((==_iff k j).0 h)

place_step :
    (b : Bool) (e : Entry) (k j : ℕ) (rest : Option Entry) (ms : NumMap Marker)
    → has_position e ≡ b
    → ((k == j) ≡ true → rest ≡ none)
    → placed_at rest (if b && k == j then some (moved_or_new e (lookup k ms)) else lookup j ms)
      ≡ placed_at (if k == j then some e else rest) (lookup j ms)
place_step b e k j rest ms h absent = elim (Bool-cases (k == j)) [
  | inl same ↦ rw (same, absent same, h) (ground (arith, lookup_self k j ms same))
  | inr other ↦ ground arith
]

lookup-place :
    (d : NumMap Entry) (ms : NumMap Marker) (j : ℕ)
    → IsSorted d
    → draws d ≡ true
    → lookup j (place_markers d ms) ≡ placed_at (lookup j d) (lookup j ms)
unfolding place_markers draws
lookup-place [] ms j s a = unfold lookup in refl
lookup-place ((k, e) ∷ d) ms j s a =
    let next : NumMap Marker =
      if has_position e then insert k (moved_or_new e (lookup k ms)) ms else ms in
    let (here, there) = &&-true (is_drawable e) (draws d) a in
    ap (lookup j) (if_true (is_drawable e) (place_markers d next) ms here)
    ∙ lookup-place d next j s.1 there
    ∙ ap (placed_at (lookup j d))
        (lookup-if_insert (has_position e) k j (moved_or_new e (lookup k ms)) ms)
    ∙ place_step (has_position e) e k j (lookup j d) ms refl
        (λ same. sym (lookup_self k j d same) ∙ lookup-above k k d (omega arith) s.0)
    ∙ ap (λ o. placed_at o (lookup j ms)) (unfold lookup in refl)

lookup-sweep :
    (d : NumMap Entry) (ms : NumMap Marker) (j : ℕ)
    → lookup j (sweep_markers d ms) ≡ (if is_placed d j then lookup j ms else none)
unfolding sweep_markers lookup
lookup-sweep d [] j = ground arith
lookup-sweep d ((k, m) ∷ ms) j = ground (arith, lookup-sweep d ms j)

abbrev set_shown : Bool → Option Marker → Option Marker
set_shown b none = none
set_shown b (some m) = some (record m { on_map = b })

-- The marker of a node after the loop of the filters.
abbrev shown_at : (ℕ → Entry → Bool) → ℕ → Option Entry → Option Marker → Option Marker
shown_at test j none o = o
shown_at test j (some e) o = if has_position e then set_shown (test j e) o else o

lookup-show_marker :
    (k j : ℕ) (b : Bool) (ms : NumMap Marker)
    → lookup j (show_marker k b ms) ≡ (if k == j then set_shown b (lookup j ms) else lookup j ms)
lookup-show_marker k j b ms = go (lookup k ms) refl
  where
    go :
        (o : Option Marker)
        → lookup k ms ≡ o
        → lookup j (elim o [ none ↦ ms | some m ↦ insert k (record m { on_map = b }) ms ])
          ≡ (if k == j then set_shown b (lookup j ms) else lookup j ms)
    go none h = elim (Bool-cases (k == j)) [
      | inl same ↦ let absent = sym (lookup_self k j ms same) ∙ h in rw (same, absent)
      | inr other ↦ rw other
    ]
    go (some m) h = lookup-insert k j _ ms ∙ elim (Bool-cases (k == j)) [
      | inl same ↦ let there = sym (lookup_self k j ms same) ∙ h in rw (same, there)
      | inr other ↦ rw other
    ]

lookup-scan_entry :
    (test : ℕ → Entry → Bool) (k j : ℕ) (e : Entry) (s : Scan)
    → lookup j (scan_entry test k e s).markers ≡ (
        if has_position e && k == j
        then set_shown (test k e) (lookup j s.markers)
        else lookup j s.markers)
unfolding scan_entry
lookup-scan_entry test k j e s = elim (Bool-cases (has_position e)) [
  | inl p ↦ rw p (lookup-show_marker k j (test k e) s.markers)
  | inr p ↦ rw p
]

scan_step :
    (test : ℕ → Entry → Bool) (e : Entry) (k j : ℕ) (rest : Option Entry) (o : Option Marker)
    → ((k == j) ≡ true → rest ≡ none)
    → shown_at test j rest (if has_position e && k == j then set_shown (test k e) o else o)
      ≡ shown_at test j (if k == j then some e else rest) o
scan_step test e k j rest o absent = elim (Bool-cases (k == j)) [
  | inl same ↦
      let self : k ≡ j = (==_iff k j).0 same in rw (same, absent same, self) (go (has_position e))
  | inr other ↦ ap (shown_at test j rest) (kept (has_position e) other) ∙ rw other
]
  where
    go :
        (b : Bool)
        → (if b && true then set_shown (test j e) o else o)
          ≡ (if b then set_shown (test j e) o else o)
    go true = refl
    go false = refl

    kept : (b : Bool) → (k == j) ≡ false → (if b && k == j then set_shown (test k e) o else o) ≡ o
    kept true other = rw other
    kept false other = refl

lookup-scan :
    (test : ℕ → Entry → Bool) (d : NumMap Entry) (s : Scan) (j : ℕ)
    → IsSorted d
    → lookup j (scan test d s).markers ≡ shown_at test j (lookup j d) (lookup j s.markers)
unfolding scan
lookup-scan test [] s j o = unfold lookup in refl
lookup-scan test ((k, e) ∷ d) s j o =
    lookup-scan test d (scan_entry test k e s) j o.1
    ∙ ap (shown_at test j (lookup j d)) (lookup-scan_entry test k j e s)
    ∙ scan_step test e k j (lookup j d) (lookup j s.markers)
        (λ same. sym (lookup_self k j d same) ∙ lookup-above k k d (omega arith) o.0)
    ∙ ap (λ o. shown_at test j o (lookup j s.markers)) (unfold lookup in refl)

-- The nodes with a position that pass.
abbrev pub matches : (ℕ → Entry → Bool) → ℕ × Entry → Bool
matches test (n, e) = has_position e && test n e

scan-counts :
    (test : ℕ → Entry → Bool) (d : NumMap Entry) (s : Scan)
    → ((scan test d s).visible ≡ s.visible + count (matches test) d)
      × ((scan test d s).total ≡ s.total + count (λ ne. has_position ne.1) d)
unfolding scan scan_entry
scan-counts test [] s = (omega arith, omega arith)
scan-counts test ((k, e) ∷ d) s =
    let ih = scan-counts test d (scan_entry test k e s) in ground arith

-- The marker that a node should have: one if it has a position, there, with its short name, and on
-- the map exactly if it passes.
abbrev pub marker_for : (ℕ → Entry → Bool) → ℕ → Option Entry → Option Marker
marker_for test j none = none
marker_for test j (some e) =
    if has_position e
    then some (record { at = (e.latitude, e.longitude); icon = e.short_name; on_map = test j e })
    else none

refreshed :
    (test : ℕ → Entry → Bool) (j : ℕ) (d : NumMap Entry) (o : Option Marker)
    → shown_at test j (lookup j d) (if is_placed d j then placed_at (lookup j d) o else none)
      ≡ marker_for test j (lookup j d)
unfolding is_placed
refreshed test j d o = go (lookup j d) o
  where
    go :
        (r : Option Entry) (o : Option Marker)
        → shown_at test j r
            (if elim r [ none ↦ false | some e ↦ has_position e ] then placed_at r o else none)
          ≡ marker_for test j r
    go none o = refl
    go (some e) none = elim (Bool-cases (has_position e)) [ inl p ↦ rw p | inr p ↦ rw p ]
    go (some e) (some m) = elim (Bool-cases (has_position e)) [ inl p ↦ rw p | inr p ↦ rw p ]

-- When the map is there, the directory lists each node once, in order, and no node with a position
-- lacks a coordinate (at which Leaflet throws), `updateMapMarkers` leaves for every node exactly the marker that it should have, whatever markers were there before: stale
-- ones are gone, and each is on the map exactly if its node passes the filters. The counter shows how
-- many nodes with a position pass, and how many there are.
pub update_map_markers_lem :
    (loc : Locale) (now : ℕ) (p : Panel) (d : NumMap Entry) (s : Map) (j : ℕ)
    → IsSorted d
    → draws d ≡ true
    → s.ready ≡ true
    → let test = node_passes_filters loc now p in
      let after = update_map_markers loc now p (some d) s in
      (lookup j after.markers ≡ marker_for test j (lookup j d))
      × (after.counter ≡ (count (matches test) d, count (λ ne. has_position ne.1) d))
unfolding update_map_markers apply_map_filters
update_map_markers_lem loc now p d s j sorted drawn ready =
    let test = node_passes_filters loc now p in
    let swept = sweep_markers d (place_markers d s.markers) in
    let start : Scan = record { visible = 0; total = 0; single = none; markers = swept } in
    let counts = scan-counts test d start in
    let visible : (scan test d start).visible ≡ count (matches test) d = omega (arith, counts) in
    let total : (scan test d start).total ≡ count (λ ne. has_position ne.1) d =
      omega (arith, counts) in
    rw (ready, drawn)
      (
        lookup-scan test d start j sorted
            ∙ ap (shown_at test j (lookup j d)) (
                lookup-sweep d (place_markers d s.markers) j
                ∙ ap (λ o. if is_placed d j then o else none)
                    (lookup-place d s.markers j sorted drawn))
            ∙ refreshed test j d (lookup j s.markers),
        ap (λ n. (n, (scan test d start).total)) visible
            ∙ ap (λ n. (count (matches test) d, n)) total,
      )
