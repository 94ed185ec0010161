-- ===== src/Tests/Directory.antt =====
-- Runs of the node directory: two known nodes and one event of each kind.
use meshtastic_proxy.Base.{
  bool_truthy, option_truthy, value_or, false, true, ℕ, List, pos, negsuc, [], ◌∷◌, text, none,
  some, ◌≡◌, arith, nat_truthy,
}
use meshtastic_proxy.Base.NumMap.{NumMap, lookup}
use meshtastic_proxy.Directory.{
  Entry, blank, PositionUpdate, TelemetryUpdate, SignalUpdate, InfoUpdate, Update, position,
  telemetry, apply_updates, merge_position, merge_telemetry, merge_signal, merge_info,
}
use meshtastic_proxy.Directory.Merge.{Keeps, merges_keep, merges_comm}
use meshtastic_proxy.Directory.Sessions.{
  events_of, replay, apply_updates-replay, apply_updates-reorder,
}
use meshtastic_proxy.Directory.Updates.{entry_at}

abbrev base : Entry
base = record blank {
  short_name = some (text "BASE");
  battery_level = some 80;
  latitude = some (pos 557500000);
  longitude = some (pos 376100000);
}

abbrev known : NumMap Entry
known = (7, base) ∷ (9, blank) ∷ []

abbrev moved : PositionUpdate
moved = record {
  node_num = 9;
  short_name = none;
  long_name = none;
  latitude = some (pos 559000000);
  longitude = some (pos 374000000);
  altitude = some (pos 120);
  ground_speed = none;
  ground_track = none;
  sats_in_view = some 6;
  position_time = none;
}

abbrev measured : TelemetryUpdate
measured = record {
  node_num = 7;
  short_name = none;
  long_name = none;
  battery_level = some 75;
  voltage = none;
  channel_utilization = none;
  air_util_tx = none;
  uptime_seconds = some 3600;
  temperature = none;
  relative_humidity = none;
  barometric_pressure = none;
}

abbrev heard : SignalUpdate
heard = record {
  node_num = 7;
  short_name = none;
  long_name = none;
  rx_rssi = some (negsuc 89);
  rx_snr = some (pos 20);
}

abbrev named : InfoUpdate
named = record {
  node_num = 7;
  short_name = some (text "BAS2");
  long_name = none;
  user_id = none;
  hw_model = some (text "TBEAM");
  role = none;
  is_licensed = none;
}

merges_keep_example :
    Keeps base (merge_telemetry 100 measured (some base))
    × Keeps base (merge_signal 100 heard (some base))
    × Keeps base (merge_info 100 named (some base))
    × ((merge_telemetry 100 measured (some base)).is_licensed ≡ base.is_licensed)
    × ((merge_signal 100 heard (some base)).is_licensed ≡ base.is_licensed)
    × ((merge_info 100 named (some base)).is_licensed ≡ some (value_or named.is_licensed false))
merges_keep_example = merges_keep 100 base measured heard named

merges_comm_example :
    (merge_position 100 moved (some (merge_telemetry 100 measured (some base)))
      ≡ merge_telemetry 100 measured (some (merge_position 100 moved (some base))))
    × (merge_position 100 moved (some (merge_signal 100 heard (some base)))
        ≡ merge_signal 100 heard (some (merge_position 100 moved (some base))))
    × (merge_position 100 moved (some (merge_info 100 named (some base)))
        ≡ merge_info 100 named (some (merge_position 100 moved (some base))))
    × (merge_telemetry 100 measured (some (merge_signal 100 heard (some base)))
        ≡ merge_signal 100 heard (some (merge_telemetry 100 measured (some base))))
    × (merge_signal 100 heard (some (merge_info 100 named (some base)))
        ≡ merge_info 100 named (some (merge_signal 100 heard (some base))))
    × (merge_info 100 named (some (merge_telemetry 100 measured (some base)))
        ≡ merge_telemetry 100 measured (some (merge_info 100 named (some base))))
    × (merge_position 100 moved (some (record base { is_favorite = some true }))
        ≡ record (merge_position 100 moved (some base)) { is_favorite = some true })
    × (merge_telemetry 100 measured (some (record base { is_favorite = some true }))
        ≡ record (merge_telemetry 100 measured (some base)) { is_favorite = some true })
    × (merge_signal 100 heard (some (record base { is_favorite = some true }))
        ≡ record (merge_signal 100 heard (some base)) { is_favorite = some true })
    × (merge_info 100 named (some (record base { is_favorite = some true }))
        ≡ record (merge_info 100 named (some base)) { is_favorite = some true })
merges_comm_example = merges_comm 100 base moved measured heard named (some true)

-- A position of node 9 and readings of node 7, in either order.
abbrev position_first : List (ℕ × Update)
position_first = (100, position moved) ∷ (101, telemetry measured) ∷ []

abbrev readings_first : List (ℕ × Update)
readings_first = (101, telemetry measured) ∷ (100, position moved) ∷ []

apply_updates-replay_example :
    entry_at 7 (apply_updates position_first (some known))
    ≡ replay (events_of 7 position_first) (lookup 7 known)
apply_updates-replay_example = apply_updates-replay position_first known 7

same_by_node : (j : ℕ) → events_of j position_first ≡ events_of j readings_first
same_by_node j = ground arith

apply_updates-reorder_example :
    apply_updates position_first (some known) ≡ apply_updates readings_first (some known)
apply_updates-reorder_example =
    apply_updates-reorder position_first readings_first known ((omega arith, tt), (tt, tt))
      same_by_node
