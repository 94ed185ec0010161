-- ===== src/Map/Bound.antt =====
-- app.js: which popup of a marker is built anew by which event. The HTML that is bound to a marker is
-- kept as the entry and the time from which `nodePopupHTML` made it; Leaflet has one popup open at most.
pub mod Fresh
pub mod Opened
use meshtastic_proxy.Base.{
  ℕ, List, [], ◌∷◌, Bool, true, false, ◌&&◌, Option, none, some, if◌then◌else◌, ◌==◌, truthy,
  nat_truthy,
}
use meshtastic_proxy.Base.NumMap.{NumMap, lookup, insert}
use meshtastic_proxy.Directory.{
  Entry, Dir, Update, position, telemetry, signal, info, favorite, dir_or_empty, put_position,
  put_telemetry, put_signal, put_info, put_favorite,
}
use meshtastic_proxy.Trace.Route.{has_position, is_some, is_full, is_drawable, draws}
use meshtastic_proxy.Map.{Map, is_placed}

pub record Content : Type 0 where
  pub entry : Entry
  pub made_at : ℕ

pub record Popups : Type 0 where
  pub contents : NumMap Content
  pub opened : Option ℕ

-- `isPopupOpen()`.
unfoldable pub is_open : ℕ → Popups → Bool
is_open n p = elim p.opened [ none ↦ false | some k ↦ k == n ]

-- `bindPopup` and `setPopupContent` with the entry that the directory has. For a node with a position
-- that lacks a coordinate `nodePopupHTML` throws, and the popup stays as it was.
abbrev pub write_popup : ℕ → ℕ → Entry → Popups → Popups
write_popup now n e p = record p {
  contents = insert n (record { entry = e; made_at = now }) p.contents;
}

abbrev pub bind_popup : ℕ → ℕ → Option Entry → Popups → Popups
bind_popup now n none p = p
bind_popup now n (some e) p = if is_drawable e then write_popup now n e p else p

unfoldable pub refresh_if_open : ℕ → ℕ → Dir → Map → Popups → Popups
unfolding lookup insert is_open
refresh_if_open now n dir m p =
    if m.ready && (is_some (lookup n m.markers) && is_open n p)
    then bind_popup now n (lookup n (dir_or_empty dir)) p
    else p

-- The loops of `updateMapMarkers`: a popup for each node with a position, none for the others. The
-- first ends where `L.marker` or `setLatLng` throws, and then the second is not reached.
unfoldable pub bind_placed : ℕ → NumMap Entry → NumMap Content → NumMap Content
unfolding insert
bind_placed now [] cs = cs
bind_placed now ((k, e) ∷ d) cs =
    let rest =
      bind_placed now d
        (if has_position e then insert k (record { entry = e; made_at = now }) cs else cs) in
    if is_drawable e then rest else cs

unfoldable pub sweep_popups : NumMap Entry → NumMap Content → NumMap Content
unfolding is_placed
sweep_popups d [] = []
sweep_popups d ((k, c) ∷ cs) =
    let rest = sweep_popups d cs in if is_placed d k then (k, c) ∷ rest else rest

-- A popup closes with its marker.
abbrev open_if_placed : NumMap Entry → Option ℕ → Option ℕ
open_if_placed d none = none
open_if_placed d (some n) = if is_placed d n then some n else none

unfoldable pub refresh_popups : ℕ → Dir → Map → Popups → Popups
unfolding bind_placed sweep_popups draws
refresh_popups now none m p = p
refresh_popups now (some d) m p =
    if m.ready
    then (if draws d
        then record {
          contents = sweep_popups d (bind_placed now d p.contents);
          opened = open_if_placed d p.opened;
        }
        else record p { contents = bind_placed now d p.contents })
    else p

-- What the listeners of the update events do to the popups. `setLatLng` throws at a position that lacks
-- a coordinate. The table of the nodes, which the listener of a favourite draws before, does not throw.
unfoldable pub on_update : ℕ → Update → Map → Dir → Popups → Popups
unfolding refresh_if_open refresh_popups put_position put_telemetry put_signal put_info put_favorite
    lookup insert
on_update now (position u) m dir p =
    if is_some dir && (m.ready && is_full (u.latitude, u.longitude))
    then bind_popup now u.node_num (lookup u.node_num (dir_or_empty (put_position now u dir))) p
    else p
on_update now (telemetry u) m dir p =
    if is_some dir then refresh_if_open now u.node_num (put_telemetry now u dir) m p else p
on_update now (signal u) m dir p =
    if is_some dir then refresh_if_open now u.node_num (put_signal now u dir) m p else p
on_update now (info u) m dir p = refresh_if_open now u.node_num (put_info now u dir) m p
on_update now (favorite u) m dir p =
    if truthy u.node_num && is_some (lookup u.node_num (dir_or_empty dir))
    then refresh_popups now (put_favorite u dir) m p
    else p

-- A click on a marker that has a popup.
unfoldable pub open_popup : ℕ → Popups → Popups
unfolding lookup
open_popup n p = if is_some (lookup n p.contents) then record p { opened = some n } else p
