-- ===== src/Directory.antt =====
-- The node directory `nodeDir` of the dashboard (templates/dashboard.html declares it, app.js
-- updates it on server events): what each event writes into the entry of its node. Node numbers
-- are uint32; a coordinate is counted in units of 1e-7 degrees, an SNR in quarters of a dB, another
-- float reading in the unit of its last decimal; a field that an object may lack is an `Option`.
pub mod Merge
pub mod Updates
pub mod Sessions
use meshtastic_proxy.Base.{
  ℕ, ℤ, pos, List, [], ◌∷◌, Text, Bool, true, false, Option, none, some, if◌then◌else◌, truthy,
  bool_truthy, nat_truthy, int_truthy, text_truthy, option_truthy, or_else, value_or,
}
use meshtastic_proxy.Base.NumMap.{NumMap, lookup, insert}

pub record Entry : Type 0 where
  pub short_name : Option Text
  pub long_name : Option Text
  pub user_id : Option Text
  pub hw_model : Option Text
  pub role : Option Text
  pub is_licensed : Option Bool
  pub snr : Option ℤ
  pub last_heard : Option ℕ
  pub hops_away : Option ℕ
  pub via_mqtt : Option Bool
  pub is_favorite : Option Bool
  pub channel : Option ℕ
  pub latitude : Option ℤ
  pub longitude : Option ℤ
  pub altitude : Option ℤ
  pub ground_speed : Option ℕ
  pub ground_track : Option ℕ
  pub sats_in_view : Option ℕ
  pub position_time : Option ℕ
  pub battery_level : Option ℕ
  pub voltage : Option ℤ
  pub channel_utilization : Option ℤ
  pub air_util_tx : Option ℤ
  pub uptime_seconds : Option ℕ
  pub temperature : Option ℤ
  pub relative_humidity : Option ℤ
  pub barometric_pressure : Option ℤ
  pub rx_rssi : Option ℤ
  pub rx_snr : Option ℤ
  pub seen_realtime : Option Bool

-- The object `{}`.
abbrev pub blank : Entry
blank = record {
  short_name = none;
  long_name = none;
  user_id = none;
  hw_model = none;
  role = none;
  is_licensed = none;
  snr = none;
  last_heard = none;
  hops_away = none;
  via_mqtt = none;
  is_favorite = none;
  channel = none;
  latitude = none;
  longitude = none;
  altitude = none;
  ground_speed = none;
  ground_track = none;
  sats_in_view = none;
  position_time = none;
  battery_level = none;
  voltage = none;
  channel_utilization = none;
  air_util_tx = none;
  uptime_seconds = none;
  temperature = none;
  relative_humidity = none;
  barometric_pressure = none;
  rx_rssi = none;
  rx_snr = none;
  seen_realtime = none;
}

-- `nodeDir` is `null` until the first snapshot.
abbrev pub Dir : Type 0
Dir = Option (NumMap Entry)

pub record PositionUpdate : Type 0 where
  pub node_num : ℕ
  pub short_name : Option Text
  pub long_name : Option Text
  pub latitude : Option ℤ
  pub longitude : Option ℤ
  pub altitude : Option ℤ
  pub ground_speed : Option ℕ
  pub ground_track : Option ℕ
  pub sats_in_view : Option ℕ
  pub position_time : Option ℕ

pub record TelemetryUpdate : Type 0 where
  pub node_num : ℕ
  pub short_name : Option Text
  pub long_name : Option Text
  pub battery_level : Option ℕ
  pub voltage : Option ℤ
  pub channel_utilization : Option ℤ
  pub air_util_tx : Option ℤ
  pub uptime_seconds : Option ℕ
  pub temperature : Option ℤ
  pub relative_humidity : Option ℤ
  pub barometric_pressure : Option ℤ

pub record SignalUpdate : Type 0 where
  pub node_num : ℕ
  pub short_name : Option Text
  pub long_name : Option Text
  pub rx_rssi : Option ℤ
  pub rx_snr : Option ℤ

pub record InfoUpdate : Type 0 where
  pub node_num : ℕ
  pub short_name : Option Text
  pub long_name : Option Text
  pub user_id : Option Text
  pub hw_model : Option Text
  pub role : Option Text
  pub is_licensed : Option Bool

pub record FavoriteUpdate : Type 0 where
  pub node_num : ℕ
  pub is_favorite : Option Bool

-- `if (!nodeDir[numStr]) nodeDir[numStr] = fresh`.
abbrev entry_or : Option Entry → Entry → Entry
entry_or none fresh = fresh
entry_or (some e) fresh = e

-- `seen_realtime` and `last_heard`, with the time in seconds.
abbrev pub touch : ℕ → Entry → Entry
touch now e = record e { seen_realtime = some true; last_heard = some now }

-- The entry that `updateMapNode` writes, for a known and for a new node.
unfoldable pub merge_position : ℕ → PositionUpdate → Option Entry → Entry
merge_position now u (some e) = record (touch now e) {
  latitude = u.latitude;
  longitude = u.longitude;
  altitude = u.altitude;
  ground_speed = or_else u.ground_speed e.ground_speed;
  ground_track = or_else u.ground_track e.ground_track;
  sats_in_view = or_else u.sats_in_view e.sats_in_view;
  position_time = or_else u.position_time e.position_time;
}
merge_position now u none = record (touch now blank) {
  short_name = u.short_name;
  long_name = u.long_name;
  latitude = u.latitude;
  longitude = u.longitude;
  altitude = u.altitude;
  ground_speed = some (value_or u.ground_speed 0);
  ground_track = some (value_or u.ground_track 0);
  sats_in_view = some (value_or u.sats_in_view 0);
  position_time = some (value_or u.position_time 0);
}

-- The entry that `updateNodeTelemetry` writes.
unfoldable pub merge_telemetry : ℕ → TelemetryUpdate → Option Entry → Entry
merge_telemetry now u old =
    let e =
      touch now
        (entry_or old (record blank { short_name = u.short_name; long_name = u.long_name })) in
    record e {
      battery_level = or_else u.battery_level e.battery_level;
      voltage = or_else u.voltage e.voltage;
      channel_utilization = or_else u.channel_utilization e.channel_utilization;
      air_util_tx = or_else u.air_util_tx e.air_util_tx;
      uptime_seconds = or_else u.uptime_seconds e.uptime_seconds;
      temperature = or_else u.temperature e.temperature;
      relative_humidity = or_else u.relative_humidity e.relative_humidity;
      barometric_pressure = or_else u.barometric_pressure e.barometric_pressure;
    }

-- The entry that `updateNodeSignal` writes.
unfoldable pub merge_signal : ℕ → SignalUpdate → Option Entry → Entry
merge_signal now u old =
    let e =
      touch now
        (entry_or old (record blank { short_name = u.short_name; long_name = u.long_name })) in
    record e { rx_rssi = or_else u.rx_rssi e.rx_rssi; rx_snr = or_else u.rx_snr e.rx_snr }

-- The entry that `updateNodeInfo` writes.
unfoldable pub merge_info : ℕ → InfoUpdate → Option Entry → Entry
merge_info now u old =
    let e = touch now (entry_or old blank) in
    record e {
      short_name = or_else u.short_name e.short_name;
      long_name = or_else u.long_name e.long_name;
      user_id = or_else u.user_id e.user_id;
      hw_model = or_else u.hw_model e.hw_model;
      role = or_else u.role e.role;
      is_licensed = some (value_or u.is_licensed false);
    }

-- The directory after each event. `null` stays `null`, but for `updateNodeInfo`, which makes a
-- directory. The time is `Math.floor(Date.now() / 1000)`.
unfoldable pub put_position : ℕ → PositionUpdate → Dir → Dir
unfolding merge_position insert
put_position now u none = none
put_position now u (some d) =
    some (insert u.node_num (merge_position now u (lookup u.node_num d)) d)

unfoldable pub put_telemetry : ℕ → TelemetryUpdate → Dir → Dir
unfolding merge_telemetry insert
put_telemetry now u none = none
put_telemetry now u (some d) =
    some (insert u.node_num (merge_telemetry now u (lookup u.node_num d)) d)

unfoldable pub put_signal : ℕ → SignalUpdate → Dir → Dir
unfolding merge_signal insert
put_signal now u none = none
put_signal now u (some d) = some (insert u.node_num (merge_signal now u (lookup u.node_num d)) d)

abbrev pub dir_or_empty : Dir → NumMap Entry
dir_or_empty none = []
dir_or_empty (some d) = d

unfoldable pub put_info : ℕ → InfoUpdate → Dir → Dir
unfolding merge_info insert
put_info now u dir =
    let d = dir_or_empty dir in some (insert u.node_num (merge_info now u (lookup u.node_num d)) d)

-- The listener of `node_favorite`: a node that the directory does not hold is passed over.
unfoldable pub put_favorite : FavoriteUpdate → Dir → Dir
unfolding lookup insert
put_favorite u none = none
put_favorite u (some d) =
    if truthy u.node_num
    then elim (lookup u.node_num d) [
      | none ↦ some d
      | some e ↦ some (insert u.node_num (record e { is_favorite = u.is_favorite }) d)
    ]
    else some d

-- One event of the server that writes to the directory.
pub data Update : Type 0 where
  position : PositionUpdate → Update
  telemetry : TelemetryUpdate → Update
  signal : SignalUpdate → Update
  info : InfoUpdate → Update
  favorite : FavoriteUpdate → Update

unfoldable pub apply_update : ℕ → Update → Dir → Dir
unfolding put_position put_telemetry put_signal put_info put_favorite
apply_update now (position u) = put_position now u
apply_update now (telemetry u) = put_telemetry now u
apply_update now (signal u) = put_signal now u
apply_update now (info u) = put_info now u
apply_update now (favorite u) = put_favorite u

-- The events of a session, each with the time at which its listener ran.
unfoldable pub apply_updates : List (ℕ × Update) → Dir → Dir
unfolding apply_update
apply_updates [] dir = dir
apply_updates ((now, u) ∷ rest) dir = apply_updates rest (apply_update now u dir)
