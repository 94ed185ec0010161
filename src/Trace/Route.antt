-- ===== src/Trace/Route.antt =====
-- app.js `drawTraceroute`: the route that a trace result draws on the map, as the line, the popup
-- of the line and the numbered markers of the hops.
pub mod Markers
use meshtastic_proxy.Base.{
  not, ◌&&◌, ℕ, zero, suc, ◌+◌, ◌-◌, ℤ, pos, List, [], ◌∷◌, ◌++◌, Text, Bool, true, false, ◌||◌,
  Option, none, some, ◌==◌, ltb, if◌then◌else◌, truthy, nat_truthy, int_truthy, text_truthy,
  option_truthy, length, get_elem?, map,
}
use meshtastic_proxy.Base.NumMap.{NumMap, lookup}
use meshtastic_proxy.Mesh.Names.{node_hex_name}
use meshtastic_proxy.Directory.{Entry, Dir, dir_or_empty}

-- The result of a trace. A Go slice that is nil arrives as `null`.
pub record TraceData : Type 0 where
  pub from : ℕ
  pub to : ℕ
  pub route : Option (List ℕ)
  pub route_back : Option (List ℕ)
  pub snr_towards : Option (List ℤ)
  pub snr_back : Option (List ℤ)
  pub timeout : Bool

abbrev pub list_or_empty {ℓ} : {A : Type ℓ} → Option (List A) → List A
list_or_empty none = []
list_or_empty (some xs) = xs

-- `hopNums`: our node, the hops, the target.
unfoldable pub hops : TraceData → List ℕ
hops t = t.to ∷ (list_or_empty t.route ++ t.from ∷ [])

abbrev pub is_some {ℓ} : {A : Type ℓ} → Option A → Bool
is_some none = false
is_some (some _) = true

-- An entry has a position if its latitude or its longitude is truthy. The other may be missing.
abbrev pub has_position : Entry → Bool
has_position e = truthy e.latitude || truthy e.longitude

abbrev pub Coords : Type 0
Coords = Option ℤ × Option ℤ

-- Neither is missing. Leaflet throws at a place with a missing coordinate, and so does `toFixed`.
abbrev pub is_full : Coords → Bool
is_full at = is_some at.0 && is_some at.1

-- A node with a position can be drawn if it has both coordinates; one without is passed over.
abbrev pub is_drawable : Entry → Bool
is_drawable e = not (has_position e) || is_full (e.latitude, e.longitude)

unfoldable pub draws : NumMap Entry → Bool
draws [] = true
draws ((k, e) ∷ d) = is_drawable e && draws d

unfoldable pub coords_of : Dir → ℕ → Option Coords
unfolding lookup
coords_of dir n = elim (lookup n (dir_or_empty dir)) [
  | none ↦ none
  | some e ↦ if has_position e then some (e.latitude, e.longitude) else none
]

pub record CoordHop : Type 0 where
  pub num : ℕ
  pub index : ℕ
  pub at : Coords

-- `coords` and `coordHops`, which run in parallel: the hops with a position, from index `i` on.
unfoldable pub coord_hops : Dir → ℕ → List ℕ → List CoordHop
unfolding coords_of
coord_hops dir i [] = []
coord_hops dir i (n ∷ ns) =
    let rest = coord_hops dir (i + 1) ns in
    elim (coords_of dir n) [ none ↦ rest | some c ↦ record { num = n; index = i; at = c } ∷ rest ]

-- The SNR (in quarters of a dB) that is shown for the `i`-th hop: there is one and it is not 0.
unfoldable pub snr_tag : List ℤ → ℕ → Option ℤ
snr_tag snr i = elim (get_elem? snr i) [ none ↦ none | some v ↦ if truthy v then some v else none ]

-- The place of a hop in the route, by which it is coloured.
pub data Place : Type 0 where
  start middle end : Place

unfoldable pub place : ℕ → ℕ → Place
place total i = if i == 0 then start else if i == total - 1 then end else middle

-- An item of the popup: the tag of the arrow before the name (none before the first), the name and
-- its colour.
pub record Stop : Type 0 where
  pub tag : Option (Option ℤ)
  pub name : Text
  pub at : Place

unfoldable pub popup_stops : Dir → List ℤ → ℕ → ℕ → List ℕ → List Stop
unfolding snr_tag place node_hex_name
popup_stops dir snr total i [] = []
popup_stops dir snr total i (n ∷ ns) =
    record {
      tag = if ltb 0 i then some (snr_tag snr (i - 1)) else none;
      name = node_hex_name dir n;
      at = place total i;
    }
    ∷ popup_stops dir snr total (i + 1) ns

-- The line `Return:` of the popup: the names after the target, each hop with its tag, our node last.
unfoldable back_stops : Dir → List ℤ → ℕ → List ℕ → List (Option ℤ × Text)
unfolding snr_tag node_hex_name
back_stops dir snr i [] = []
back_stops dir snr i (n ∷ ns) = (snr_tag snr i, node_hex_name dir n) ∷ back_stops dir snr (i + 1) ns

pub record Return : Type 0 where
  pub first : Text
  pub between : List (Option ℤ × Text)
  pub last : Text

pub record Marker : Type 0 where
  pub at : Coords
  pub number : ℕ
  pub tooltip : Text
  pub colour : Place

pub record Route : Type 0 where
  pub line : List Coords
  pub stops : List Stop
  pub node_count : ℕ
  pub hop_count : ℕ
  pub back : Option Return
  pub markers : List Marker

abbrev pub hop_marker : Dir → ℕ → CoordHop → Marker
hop_marker dir total h = record {
  at = h.at;
  number = h.index;
  tooltip = node_hex_name dir h.num;
  colour = place total h.index;
}

unfoldable return_line : Dir → TraceData → Option Return
unfolding back_stops node_hex_name
return_line dir t = elim (list_or_empty t.route_back) [
  | [] ↦ none
  | n ∷ ns ↦ some (record {
    first = node_hex_name dir t.from;
    between = back_stops dir (list_or_empty t.snr_back) 0 (n ∷ ns);
    last = node_hex_name dir t.to;
  })
]

unfoldable pub route_of : Dir → TraceData → Route
unfolding hops coord_hops popup_stops return_line place node_hex_name
route_of dir t =
    let ns = hops t in
    let placed = coord_hops dir 0 ns in
    record {
      line = map (λ h. h.at) placed;
      stops = popup_stops dir (list_or_empty t.snr_towards) (length ns) 0 ns;
      node_count = length ns;
      hop_count = length ns - 1;
      back = return_line dir t;
      markers = map (hop_marker dir (length ns)) placed;
    }

unfoldable pub all_full : List CoordHop → Bool
all_full [] = true
all_full (h ∷ hs) = is_full h.at && all_full hs

-- `drawTraceroute` on the layer `traceRouteLayer`: nothing before the map and the directory are
-- there; else the old route goes, and a new one is drawn if two hops have a position. `L.polyline`
-- throws if one of them lacks a coordinate, when the old route is gone.
unfoldable pub draw_traceroute : Bool → Dir → TraceData → Option Route → Option Route
unfolding route_of hops coord_hops all_full
draw_traceroute false dir t layer = layer
draw_traceroute true none t layer = layer
draw_traceroute true (some d) t layer =
    let placed = coord_hops (some d) 0 (hops t) in
    if ltb (length placed) 2
    then none
    else (if all_full placed then some (route_of (some d) t) else none)

-- Whether `drawTraceroute` throws.
unfoldable pub route_throws : Bool → Dir → TraceData → Bool
unfolding hops coord_hops all_full
route_throws false dir t = false
route_throws true none t = false
route_throws true (some d) t =
    let placed = coord_hops (some d) 0 (hops t) in
    not (ltb (length placed) 2) && not (all_full placed)
