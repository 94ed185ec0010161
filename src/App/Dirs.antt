-- ===== src/App/Dirs.antt =====
-- What an event of the page writes to the directory, as the model of the directory alone says it.
pub mod Runs
use mathlib.Core.Path.{subst}
use meshtastic_proxy.App.Listed.{IsListed, apply_update-IsListed, mark_favorite-IsListed}
use meshtastic_proxy.Base.{
  ℕ, Bool, true, false, not, ◌&&◌, Option, none, some, if◌then◌else◌, ◌≡◌, refl, sym, Bool-cases,
  inl, inr, Locale, truthy, nat_truthy, text_truthy, option_truthy,
}
use meshtastic_proxy.Base.NumMap.{NumMap, lookup, insert}
use meshtastic_proxy.Directory.{
  Entry, Dir, Update, TelemetryUpdate, SignalUpdate, InfoUpdate, FavoriteUpdate, position,
  telemetry, signal, info, favorite, dir_or_empty, put_position, put_telemetry, put_signal,
  put_info, put_favorite, apply_update,
}
use meshtastic_proxy.Trace.Route.{is_some}
use meshtastic_proxy.Sse.{metrics, holds_back}
use meshtastic_proxy.Nodes.Table.{act}
use meshtastic_proxy.Nodes.Table.{
  Action, toggle_filters, check_role, set_mode, set_mqtt, set_position, sort_click, type_search,
  reset,
}
use meshtastic_proxy.Nodes.Actions.{mark_favorite, write_mark}
use meshtastic_proxy.Map.{update_map_markers, update_map_node}
use meshtastic_proxy.App.{
  App, Tab, dashboard, map_tab, chat, nodes, MapAction, type_map_search, set_status, set_battery,
  set_map_mqtt, check_role_box, check_hardware_box, set_heat, reset_map, Event, directory, snapshot,
  server, pause_pressed, show_tab, acts, acts_on_map, favorite_set, refresh_timer, is_table_shown,
  kind_of, rename_marker, redraw, rebuild_boxes, rebuild_options, with_heat, filter_map,
  nodes_changed, node_info_changed, refresh_map, on_position, on_favorite, on_update,
}
use meshtastic_proxy.App.Steps.{
  toggled_panel, on_action, on_map_action, init_map, init_nodes_tab, switch_tab, on_snapshot,
  on_directory, step,
}
use meshtastic_proxy.App.Sync.Runs.{IsOrdered}

-- What an event writes to the directory.
abbrev pub dir_after : ℕ → Bool → Event → Dir → Dir
dir_after now paused (directory d) dir = some d
dir_after now paused (snapshot none) dir = dir
dir_after now paused (snapshot (some d)) dir = if paused then dir else some d
dir_after now paused (server u) dir =
    if paused && holds_back (kind_of u) then dir else apply_update now u dir
dir_after now paused pause_pressed dir = dir
dir_after now paused (show_tab t) dir = dir
dir_after now paused (acts a) dir = dir
dir_after now paused (acts_on_map a) dir = dir
dir_after now paused (favorite_set n b) dir = mark_favorite n b dir
dir_after now paused refresh_timer dir = dir

abbrev pub paused_after : Event → Bool → Bool
paused_after pause_pressed p = not p
paused_after (directory d) p = p
paused_after (snapshot o) p = p
paused_after (server u) p = p
paused_after (show_tab t) p = p
paused_after (acts a) p = p
paused_after (acts_on_map a) p = p
paused_after (favorite_set n b) p = p
paused_after refresh_timer p = p

pub absent-favorite :
    (u : FavoriteUpdate) (dir : Dir)
    → (truthy u.node_num && is_some (lookup u.node_num (dir_or_empty dir))) ≡ false
    → put_favorite u dir ≡ dir
unfolding put_favorite
absent-favorite u none h = refl
absent-favorite u (some d) h = go (truthy u.node_num) (lookup u.node_num d) h
  where
    go :
        (b : Bool) (o : Option Entry)
        → (b && is_some o) ≡ false
        → (if b
            then elim o [
              | none ↦ some d
              | some e ↦ some (insert u.node_num (record e { is_favorite = u.is_favorite }) d)
            ]
            else some d)
          ≡ some d
    go false o h = refl
    go true none h = refl
    go true (some e) h = absurd (cc h)

pub absent-mark :
    (n : ℕ) (b : Bool) (dir : Dir)
    → is_some (lookup n (dir_or_empty dir)) ≡ false
    → mark_favorite n b dir ≡ dir
unfolding mark_favorite
absent-mark n b none h = refl
absent-mark n b (some d) h = go (lookup n d) h
  where
    go : (o : Option Entry) → is_some o ≡ false → write_mark n b d o ≡ some d
    go none h = refl
    go (some e) h = absurd (cc h)

-- Without a directory the readings write nothing.
pub missing-reading :
    (now : ℕ) (u : TelemetryUpdate) (dir : Dir)
    → is_some dir ≡ false
    → dir ≡ put_telemetry now u dir
unfolding put_telemetry
missing-reading now u none h = refl
missing-reading now u (some d) h = absurd (cc h)

pub missing-signal :
    (now : ℕ) (u : SignalUpdate) (dir : Dir) → is_some dir ≡ false → dir ≡ put_signal now u dir
unfolding put_signal
missing-signal now u none h = refl
missing-signal now u (some d) h = absurd (cc h)

IsListed-either :
    (b : Bool) (x y : Dir)
    → IsListed (dir_or_empty x)
    → IsListed (dir_or_empty y)
    → IsListed (dir_or_empty (if b then x else y))
IsListed-either true x y h k = h
IsListed-either false x y h k = k

pub dir_after-IsListed :
    (now : ℕ) (paused : Bool) (e : Event) (dir : Dir)
    → IsListed (dir_or_empty dir)
    → IsOrdered e
    → IsListed (dir_or_empty (dir_after now paused e dir))
dir_after-IsListed now paused (directory d) dir s h = h
dir_after-IsListed now paused (snapshot none) dir s h = s
dir_after-IsListed now paused (snapshot (some d)) dir s h = IsListed-either paused dir (some d) s h
dir_after-IsListed now paused (server u) dir s h =
    IsListed-either (paused && holds_back (kind_of u)) dir (apply_update now u dir) s
      (apply_update-IsListed now u dir h s)
dir_after-IsListed now paused pause_pressed dir s h = s
dir_after-IsListed now paused (show_tab t) dir s h = s
dir_after-IsListed now paused (acts a) dir s h = s
dir_after-IsListed now paused (acts_on_map a) dir s h = s
dir_after-IsListed now paused (favorite_set n b) dir s h = mark_favorite-IsListed n b dir s
dir_after-IsListed now paused refresh_timer dir s h = s
