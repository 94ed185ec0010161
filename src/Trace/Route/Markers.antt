-- ===== src/Trace/Route/Markers.antt =====
-- What a drawn route shows: its markers are hops of the trace, numbered by their place in it.
use meshtastic_proxy.Mesh.Names.{node_hex_name}
use meshtastic_proxy.Base.{
  map, ℤ, ℕ, suc, ◌+◌, List, [], ◌∷◌, true, Option, none, some, ◌≡◌, refl, ap, ◌∙◌, arith, length,
  length-append, length-map, get_elem?, All, count, if◌then◌else◌, ltb,
}
use meshtastic_proxy.Directory.{Dir}
use meshtastic_proxy.Trace.Route.{
  TraceData, CoordHop, Coords, hops, coords_of, coord_hops, list_or_empty, is_some, Route, route_of,
  draw_traceroute, popup_stops, hop_marker, Marker, place, all_full,
}

-- A hop on the map stands in the route at its index, and has the position of its node.
abbrev IsHop : Dir → List ℕ → ℕ → CoordHop → Type 0
IsHop dir ns i h =
    (j : ℕ) × (h.index ≡ i + j) × (get_elem? ns j ≡ some h.num) × (coords_of dir h.num ≡ some h.at)

IsHop-tail :
    (dir : Dir) (n : ℕ) (ns : List ℕ) (i : ℕ) (hs : List CoordHop)
    → All (IsHop dir ns (i + 1)) hs
    → All (IsHop dir (n ∷ ns) i) hs
IsHop-tail dir n ns i [] a = tt
IsHop-tail dir n ns i (h ∷ hs) ((j, e, p, q), a) =
    ((suc j, omega arith, p, q), IsHop-tail dir n ns i hs a)

coord_hops-IsHop : (dir : Dir) (i : ℕ) (ns : List ℕ) → All (IsHop dir ns i) (coord_hops dir i ns)
unfolding coord_hops
coord_hops-IsHop dir i [] = tt
coord_hops-IsHop dir i (n ∷ ns) = go (coords_of dir n) refl (coord_hops-IsHop dir (i + 1) ns)
  where
    go :
        (o : Option Coords)
        → coords_of dir n ≡ o
        → All (IsHop dir ns (i + 1)) (coord_hops dir (i + 1) ns)
        → All (IsHop dir (n ∷ ns) i) (elim o [
          | none ↦ coord_hops dir (i + 1) ns
          | some c ↦ record { num = n; index = i; at = c } ∷ coord_hops dir (i + 1) ns
        ])
    go none e a = IsHop-tail dir n ns i (coord_hops dir (i + 1) ns) a
    go (some c) e a =
        ((0, omega arith, refl, e), IsHop-tail dir n ns i (coord_hops dir (i + 1) ns) a)

-- Every marker of a trace stands at the node whose number is at its index among the hops, and at
-- that node's coordinates in the directory.
coord_hops-hops :
    (dir : Dir) (t : TraceData) → All (IsHop dir (hops t) 0) (coord_hops dir 0 (hops t))
coord_hops-hops dir t = coord_hops-IsHop dir 0 (hops t)

length-coord_hops :
    (dir : Dir) (i : ℕ) (ns : List ℕ)
    → length (coord_hops dir i ns) ≡ count (λ n. is_some (coords_of dir n)) ns
unfolding coord_hops
length-coord_hops dir i [] = refl
length-coord_hops dir i (n ∷ ns) = ground (arith, length-coord_hops dir (i + 1) ns)

popup_stops-names :
    (dir : Dir) (snr : List ℤ) (total i : ℕ) (ns : List ℕ)
    → map (λ s. s.name) (popup_stops dir snr total i ns) ≡ map (node_hex_name dir) ns
unfolding popup_stops
popup_stops-names dir snr total i [] = refl
popup_stops-names dir snr total i (n ∷ ns) =
    ap (λ xs. node_hex_name dir n ∷ xs) (popup_stops-names dir snr total (i + 1) ns)

length-hops : (t : TraceData) → length (hops t) ≡ length (list_or_empty t.route) + 2
unfolding hops
length-hops t = omega (arith, length-append (list_or_empty t.route) (t.from ∷ []))

-- A marker that carries the place of its hop in the route, and stands where the directory has the node
-- of that hop, with its name and the colour of the place.
abbrev pub Marks : Dir → List ℕ → Marker → Type 0
Marks dir ns m =
    (n : ℕ) × (get_elem? ns m.number ≡ some n)
    × (coords_of dir n ≡ some m.at)
    × (m.tooltip ≡ node_hex_name dir n)
    × (m.colour ≡ place (length ns) m.number)

hop_marker-Marks :
    (dir : Dir) (ns : List ℕ) (hs : List CoordHop)
    → All (IsHop dir ns 0) hs
    → All (Marks dir ns) (map (hop_marker dir (length ns)) hs)
hop_marker-Marks dir ns [] a = tt
hop_marker-Marks dir ns (h ∷ hs) ((j, e, p, q), a) =
    ((h.num, ap (get_elem? ns) (e ∙ omega arith) ∙ p, q, refl, refl), hop_marker-Marks dir ns hs a)

line_at :
    (dir : Dir) (total : ℕ) (hs : List CoordHop)
    → map (λ h. h.at) hs ≡ map (λ m. m.at) (map (hop_marker dir total) hs)
line_at dir total [] = refl
line_at dir total (h ∷ hs) = ap (λ xs. h.at ∷ xs) (line_at dir total hs)

-- With a map and a directory, a route replaces the layer exactly when at least two hops have a
-- position and none of them lacks a coordinate, at which Leaflet throws; else the layer is empty. The
-- popup of a route names the hops in their order, of which there are two more than the trace has
-- between. There is one marker for each hop with a position; each is numbered by the place of its hop
-- in the route, stands where the directory has that node, and has its name; and the line joins the
-- markers.
pub draw_traceroute_lem :
    (d : Dir) (t : TraceData) (layer : Option Route)
    → is_some d ≡ true
    → let placed = count (λ n. is_some (coords_of d n)) (hops t) in
      let route = route_of d t in
      (draw_traceroute true d t layer ≡ (
        if ltb placed 2
        then none
        else (if all_full (coord_hops d 0 (hops t)) then some route else none)))
      × (map (λ s. s.name) route.stops ≡ map (node_hex_name d) (hops t))
      × (length (hops t) ≡ length (list_or_empty t.route) + 2)
      × (route.hop_count ≡ length (list_or_empty t.route) + 1)
      × (length route.markers ≡ placed)
      × All (Marks d (hops t)) route.markers
      × (route.line ≡ map (λ m. m.at) route.markers)
unfolding draw_traceroute route_of
draw_traceroute_lem none t layer h = cc
draw_traceroute_lem (some d) t layer h =
    let hs = coord_hops (some d) 0 (hops t) in
    let placed = length-coord_hops (some d) 0 (hops t) in
    (
      rw placed,
      popup_stops-names (some d) _ (length (hops t)) 0 (hops t),
      length-hops t,
      omega (arith, length-hops t),
      length-map (hop_marker (some d) (length (hops t))) hs ∙ placed,
      hop_marker-Marks (some d) (hops t) hs (coord_hops-hops (some d) t),
      line_at (some d) (length (hops t)) hs,
    )
