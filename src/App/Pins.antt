-- ===== src/App/Pins.antt =====
-- The markers of the map and the directory: a node with a position has its marker there, with its name.
pub mod Entries
pub mod Listeners
pub mod Handlers
pub mod Runs
use mathlib.Core.Path.{subst}
use meshtastic_proxy.Base.{
  ℕ, List, [], ◌∷◌, Text, Bool, true, false, ◌&&◌, Option, none, some, if◌then◌else◌, ◌≡◌, refl,
  sym, ap, ◌∙◌, arith, ◌==◌, ==_iff, ==_refl, Bool-cases, inl, inr, Locale, ℤ,
}
use meshtastic_proxy.Base.NumMap.{NumMap, lookup, insert, IsSorted, lookup-insert}
use meshtastic_proxy.Directory.{
  Entry, Dir, PositionUpdate, dir_or_empty, merge_position, put_position,
}
use meshtastic_proxy.Trace.Route.{Coords, has_position, is_some, is_full, draws}
use meshtastic_proxy.Map.{
  Map, Marker, Panel, Scan, moved_or_new, show_marker, scan_entry, scan, node_passes_filters,
  apply_map_filters, update_map_markers, update_map_node,
}
use meshtastic_proxy.Map.Markers.{marker_for, update_map_markers_lem}
use meshtastic_proxy.App.{set_icon}

-- Where a marker is, and the name on its icon.
abbrev Pin : Type 0
Pin = Coords × Option Text

abbrev pub pin_of : Option Marker → Option Pin
pin_of none = none
pin_of (some m) = some (m.at, m.icon)

abbrev pub pin_for : Entry → Pin
pin_for e = ((e.latitude, e.longitude), e.short_name)

-- Every node with a position has a marker at its coordinates with its short name.
abbrev pub Pins : NumMap Entry → NumMap Marker → Type 0
Pins d ms =
    (j : ℕ) (e : Entry)
    → lookup j d ≡ some e
    → has_position e ≡ true
    → pin_of (lookup j ms) ≡ some (pin_for e)

pin-insert :
    (k j : ℕ) (m : Marker) (ms : NumMap Marker)
    → pin_of (lookup j (insert k m ms))
      ≡ (if k == j then some (m.at, m.icon) else pin_of (lookup j ms))
pin-insert k j m ms = elim (Bool-cases (k == j)) [
  | inl same ↦ rw (lookup-insert, same)
  | inr other ↦ rw (lookup-insert, other)
]

here : (k j : ℕ) → (k == j) ≡ true → k ≡ j
here k j h = (==_iff k j).0 h

-- A marker that is written with the pin that it had.
pin-insert_same :
    (k j : ℕ) (m : Marker) (ms : NumMap Marker)
    → pin_of (lookup k ms) ≡ some (m.at, m.icon)
    → pin_of (lookup j (insert k m ms)) ≡ pin_of (lookup j ms)
pin-insert_same k j m ms h = pin-insert k j m ms ∙ elim (Bool-cases (k == j)) [
  | inl same ↦ rw same (sym h ∙ ap (λ x. pin_of (lookup x ms)) (here k j same))
  | inr other ↦ rw other
]

pin-show_marker :
    (k j : ℕ) (b : Bool) (ms : NumMap Marker)
    → pin_of (lookup j (show_marker k b ms)) ≡ pin_of (lookup j ms)
pin-show_marker k j b ms = go (lookup k ms) refl
  where
    go :
        (o : Option Marker)
        → lookup k ms ≡ o
        → pin_of (lookup j (elim o [ none ↦ ms | some m ↦ insert k (record m { on_map = b }) ms ]))
          ≡ pin_of (lookup j ms)
    go none at = refl
    go (some m) at = pin-insert_same k j (record m { on_map = b }) ms (ap pin_of at)

pin-scan :
    (test : ℕ → Entry → Bool) (d : NumMap Entry) (s : Scan) (j : ℕ)
    → pin_of (lookup j (scan test d s).markers) ≡ pin_of (lookup j s.markers)
unfolding scan
pin-scan test [] s j = refl
pin-scan test ((k, e) ∷ d) s j = pin-scan test d (scan_entry test k e s) j ∙ entry
  where
    entry : pin_of (lookup j (scan_entry test k e s).markers) ≡ pin_of (lookup j s.markers)
    entry = elim (Bool-cases (has_position e)) [
      | inl there ↦ unfold scan_entry in rw there (pin-show_marker k j (test k e) s.markers)
      | inr missing ↦ unfold scan_entry in rw missing
    ]

-- The filters move no marker.
pub pin-apply_map_filters :
    (loc : Locale) (now : ℕ) (p : Panel) (dir : Dir) (m : Map) (j : ℕ)
    → pin_of (lookup j (apply_map_filters loc now p dir m).markers) ≡ pin_of (lookup j m.markers)
unfolding apply_map_filters
pin-apply_map_filters loc now p none m j = refl
pin-apply_map_filters loc now p (some d) m j = elim (Bool-cases m.ready) [
  | inl h ↦ rw h (pin-scan (node_passes_filters loc now p) d _ j)
  | inr h ↦ rw h
]

-- After `updateMapMarkers`.
pub update_map_markers-Pins :
    (loc : Locale) (now : ℕ) (p : Panel) (d : NumMap Entry) (m : Map)
    → IsSorted d
    → draws d ≡ true
    → m.ready ≡ true
    → Pins d (update_map_markers loc now p (some d) m).markers
update_map_markers-Pins loc now p d m sorted drawn ready j e known placed =
    ap pin_of (update_map_markers_lem loc now p d m j sorted drawn ready).0
    ∙ ap (λ o. pin_of (marker_for (node_passes_filters loc now p) j o)) known
    ∙ rw placed

if_true {ℓ} : {A : Type ℓ} (b : Bool) (x y : A) → b ≡ true → (if b then x else y) ≡ x
if_true b x y h = rw h

if_false {ℓ} : {A : Type ℓ} (b : Bool) (x y : A) → b ≡ false → (if b then x else y) ≡ y
if_false b x y h = rw h

-- An entry is written, and its marker fits it.
pub insert-Pins :
    (k : ℕ) (e : Entry) (d : NumMap Entry) (ms : NumMap Marker)
    → (has_position e ≡ true → pin_of (lookup k ms) ≡ some (pin_for e))
    → ((j : ℕ) (f : Entry)
        → (k == j) ≡ false
        → lookup j d ≡ some f
        → has_position f ≡ true
        → pin_of (lookup j ms) ≡ some (pin_for f))
    → Pins (insert k e d) ms
insert-Pins k e d ms fits others j f known placed = elim (Bool-cases (k == j)) [
  | inl same ↦
      let written : some e ≡ some f = sym (if_true (k == j) (some e) (lookup j d) same) ∙ at in
      let same_entry : e ≡ f = cc in
      ap (λ x. pin_of (lookup x ms)) (sym (here k j same))
      ∙ subst (λ x. has_position x ≡ true → pin_of (lookup k ms) ≡ some (pin_for x)) same_entry fits
          placed
  | inr other ↦ others j f other (sym (if_false (k == j) (some e) (lookup j d) other) ∙ at) placed
]
  where
    at : (if k == j then some e else lookup j d) ≡ some f
    at = sym (lookup-insert k j e d) ∙ known

moved_pin : (e : Entry) (o : Option Marker) → pin_of (some (moved_or_new e o)) ≡ some (pin_for e)
moved_pin e none = refl
moved_pin e (some m) = refl

pin-update_map_node :
    (loc : Locale) (now : ℕ) (p : Panel) (u : PositionUpdate) (d : NumMap Entry) (m : Map) (j : ℕ)
    → m.ready ≡ true
    → is_full (u.latitude, u.longitude) ≡ true
    → let written =
        moved_or_new (merge_position now u (lookup u.node_num d)) (lookup u.node_num m.markers) in
      pin_of (lookup j (update_map_node loc now p u (some d) m).markers)
      ≡ (if u.node_num == j then some (written.at, written.icon) else pin_of (lookup j m.markers))
unfolding update_map_node
pin-update_map_node loc now p u d m j ready full =
    let written =
      moved_or_new (merge_position now u (lookup u.node_num d)) (lookup u.node_num m.markers) in
    let placed : Map = record m {
      markers = insert u.node_num written m.markers;
      no_nodes_note = m.no_nodes_note && is_some (lookup u.node_num m.markers);
    } in
    let dir = put_position now u (some d) in
    ap (λ x. pin_of (lookup j x.markers))
      (if_true (m.ready && is_full (u.latitude, u.longitude))
        (apply_map_filters loc now p dir placed) m (rw (ready, full)))
    ∙ pin-apply_map_filters loc now p dir placed j
    ∙ pin-insert u.node_num j written m.markers

-- After `updateMapNode`, with the entry that it writes.
pub update_map_node-Pins :
    (loc : Locale) (now : ℕ) (p : Panel) (u : PositionUpdate) (d : NumMap Entry) (m : Map)
    → m.ready ≡ true
    → is_full (u.latitude, u.longitude) ≡ true
    → Pins d m.markers
    → Pins
        (insert u.node_num (merge_position now u (lookup u.node_num d)) d)
        (update_map_node loc now p u (some d) m).markers
update_map_node-Pins loc now p u d m ready full pins =
    insert-Pins k e d after (λ placed. moved k ∙ own)
      (λ j f other known placed.
        moved j
        ∙ if_false (k == j) (some ((written.at, written.icon))) (pin_of (lookup j m.markers)) other
        ∙ pins j f known placed)
  where
    k : ℕ
    k = u.node_num

    e : Entry
    e = merge_position now u (lookup k d)

    written : Marker
    written = moved_or_new e (lookup k m.markers)

    after : NumMap Marker
    after = (update_map_node loc now p u (some d) m).markers

    moved :
        (j : ℕ)
        → pin_of (lookup j after)
          ≡ (if k == j then some (written.at, written.icon) else pin_of (lookup j m.markers))
    moved j = pin-update_map_node loc now p u d m j ready full

    own :
        (if k == k then some (written.at, written.icon) else pin_of (lookup k m.markers))
        ≡ some (pin_for e)
    own =
        if_true (k == k) (some ((written.at, written.icon))) (pin_of (lookup k m.markers))
          (==_refl k)
        ∙ moved_pin e (lookup k m.markers)

-- The icon of a node that is renamed.
pub set_icon-Pins :
    (k : ℕ) (e : Entry) (d : NumMap Entry) (ms : NumMap Marker)
    → (has_position e ≡ true
        → (name : Option Text) × (pin_of (lookup k ms) ≡ some ((e.latitude, e.longitude), name)))
    → Pins d ms
    → Pins (insert k e d) (set_icon k (some e) (lookup k ms) ms)
set_icon-Pins k e d ms fits pins = go (lookup k ms) refl
  where
    moved_at :
        (m : Marker) (name : Option Text)
        → ◌≡◌ {A = Option Pin} (some (m.at, m.icon)) (some ((e.latitude, e.longitude), name))
        → ◌≡◌ {A = Option Pin} (some (m.at, e.short_name)) (some (pin_for e))
    moved_at m name old = cc

    go : (o : Option Marker) → lookup k ms ≡ o → Pins (insert k e d) (set_icon k (some e) o ms)
    go none at =
        insert-Pins k e d ms (λ placed. absurd (cc (ap pin_of at, (fits placed).1)))
          (λ j f other known placed. pins j f known placed)
    go (some m) at =
        let icon : Marker = record m { icon = e.short_name } in
        insert-Pins k e d (insert k icon ms)
          (λ placed.
            pin-insert k k icon ms
            ∙ if_true (k == k) (some ((icon.at, icon.icon))) (pin_of (lookup k ms)) (==_refl k)
            ∙ moved_at m (fits placed).0 (sym (ap pin_of at) ∙ (fits placed).1))
          (λ j f other known placed.
            pin-insert k j icon ms
            ∙ if_false (k == j) (some ((icon.at, icon.icon))) (pin_of (lookup j ms)) other
            ∙ pins j f known placed)
