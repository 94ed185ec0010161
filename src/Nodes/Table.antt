-- ===== src/Nodes/Table.antt =====
-- nodes.js `renderNodesTable` and `initNodesTab`: the rows that the table shows, its counter and its
-- note, and the handlers that change the filters and the order.
use meshtastic_proxy.Base.NumMap.{NumMap}
use meshtastic_proxy.Trace.Route.{draws}
use meshtastic_proxy.Base.{
  ℕ, List, [], ◌∷◌, ◌++◌, Text, Bool, true, false, not, ◌||◌, Option, none, some, ◌==◌,
  if◌then◌else◌, truthy, nat_truthy, int_truthy, bool_truthy, text_truthy, option_truthy, length,
  ◌≡◌, filter, eq_text, Locale,
}
use meshtastic_proxy.Directory.{Dir, Entry}
use meshtastic_proxy.Nodes.{
  Mode, MqttFilter, PositionFilter, SortKey, SortDir, View, Node, has_role, search_term, passes,
  compare_nodes, sort_by, all_nodes, realtime, any, direct, mqtt, anywhere, gps, asc, desc,
}

-- What `renderNodesTable` shows: the rows in order, the counter (rows shown, and all nodes if a
-- filter is on), its suffix, and the note of an empty table.
pub record Shown : Type 0 where
  pub rows : List Node
  pub shown_count : ℕ
  pub total : Option ℕ
  pub realtime_suffix : Bool
  pub empty_note : Bool

abbrev is_realtime : Mode → Bool
is_realtime all_nodes = false
is_realtime realtime = true

abbrev pub is_any : MqttFilter → Bool
is_any any = true
is_any direct = false
is_any mqtt = false

abbrev pub is_anywhere : PositionFilter → Bool
is_anywhere anywhere = true
is_anywhere gps = false

unfoldable pub has_filters : Locale → View → Bool
unfolding search_term
has_filters loc v =
    is_realtime v.mode
    || (not (is_any v.mqtt_filter)
        || (not (is_anywhere v.position_filter)
            || (truthy (length v.roles) || truthy (search_term loc v))))

-- The rows in the order of the table.
unfoldable pub table_rows : Locale → View → NumMap Entry → List Node
unfolding sort_by compare_nodes passes
table_rows loc v d = sort_by (compare_nodes loc v.sort_key v.sort_dir) (filter (passes loc v) d)

-- `renderNodesTable`. Without a directory the rows on the page stay as they are; so does all of the
-- table if a row cannot be drawn, since `buildNodeRow` throws before anything is written.
unfoldable pub render : Locale → View → Dir → Shown → Shown
unfolding table_rows has_filters draws
render loc v none before = record before {
  shown_count = 0;
  total = none;
  realtime_suffix = false;
  empty_note = true;
}
render loc v (some d) before =
    let rows = table_rows loc v d in
    if draws rows
    then record {
      rows = rows;
      shown_count = length rows;
      total = if has_filters loc v then some (length d) else none;
      realtime_suffix = is_realtime v.mode;
      empty_note = length rows == 0;
    }
    else before

-- `updateFiltersIndicator`.
unfoldable pub update_indicator : View → View
update_indicator v = record v {
  dot_shown =
      not (is_any v.mqtt_filter)
      || (not (is_anywhere v.position_filter) || truthy (length v.roles));
}

-- `Set.prototype.add` and `delete`.
unfoldable pub add_role : Text → List Text → List Text
unfolding has_role
add_role r rs = if has_role rs r then rs else rs ++ r ∷ []

unfoldable pub delete_role : Text → List Text → List Text
delete_role r rs = filter (λ x. not (eq_text x r)) rs

SortKey-discrete : Discrete SortKey
SortKey-discrete = hlevel

abbrev flip : SortDir → SortDir
flip asc = desc
flip desc = asc

abbrev clicked_dir : {k l : SortKey} → Dec (k ≡ l) → SortDir → SortDir
clicked_dir (yes e) dir = flip dir
clicked_dir (no ne) dir = asc

-- The handlers of the tab. Each is followed by a render.
pub data Action : Type 0 where
  set_mode : Mode → Action
  toggle_filters : Action
  set_mqtt : MqttFilter → Action
  set_position : PositionFilter → Action
  check_role : Text → Bool → Action
  reset : Action
  sort_click : SortKey → Action
  type_search : Text → Action

unfoldable pub act : Action → View → View
unfolding update_indicator add_role delete_role SortKey-discrete
act (set_mode m) v = record v { mode = m }
act toggle_filters v = record v { filters_open = not v.filters_open }
act (set_mqtt f) v = update_indicator (record v { mqtt_filter = f })
act (set_position f) v = update_indicator (record v { position_filter = f })
act (check_role r checked) v =
    update_indicator
      (record v { roles = if checked then add_role r v.roles else delete_role r v.roles })
act reset v =
    update_indicator (record v { mqtt_filter = any; position_filter = anywhere; roles = [] })
act (sort_click key) v = record v {
  sort_key = key;
  sort_dir = clicked_dir (SortKey-discrete v.sort_key key) v.sort_dir;
}
act (type_search s) v = record v { search = s }

unfoldable pub act_all : List Action → View → View
unfolding act
act_all [] v = v
act_all (a ∷ rest) v = act_all rest (act a v)
