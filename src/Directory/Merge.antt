-- ===== src/Directory/Merge.antt =====
-- Entries of the directory under an event: what an event keeps, that a repeated event changes
-- nothing more, and that readings of different kinds may arrive in either order.
use meshtastic_proxy.Base.{
  value_or, Option, ℕ, Bool, true, some, ◌≡◌, refl, arith, truthy, Truthy, Bool-cases, inl, inr,
  not, ◌&&◌, false, or_else, bool_truthy, nat_truthy, int_truthy, text_truthy, option_truthy,
}
use meshtastic_proxy.Directory.{
  Entry, PositionUpdate, TelemetryUpdate, SignalUpdate, InfoUpdate, merge_position, merge_telemetry,
  merge_signal, merge_info,
}

lost_nothing : (b : Bool) → (b && not b) ≡ false
lost_nothing true = refl
lost_nothing false = refl

module _ {ℓ} {A : Type ℓ} ⦃t : Truthy A⦄ where
  or_else-keeps : (x y : A) → (truthy y && not (truthy (or_else x y))) ≡ false
  or_else-keeps x y = ground arith

  or_else_idem : (x y : A) → or_else x (or_else x y) ≡ or_else x y
  or_else_idem x y = elim (Bool-cases (truthy x)) [ inl e ↦ rw e | inr e ↦ rw e ]

-- The readings of an entry that a telemetry, signal or node-info event may write.
pub record Keeps (e f : Entry) : Type 0 where
  pub short_name : (truthy e.short_name && not (truthy f.short_name)) ≡ false
  pub long_name : (truthy e.long_name && not (truthy f.long_name)) ≡ false
  pub user_id : (truthy e.user_id && not (truthy f.user_id)) ≡ false
  pub hw_model : (truthy e.hw_model && not (truthy f.hw_model)) ≡ false
  pub role : (truthy e.role && not (truthy f.role)) ≡ false
  pub battery_level : (truthy e.battery_level && not (truthy f.battery_level)) ≡ false
  pub voltage : (truthy e.voltage && not (truthy f.voltage)) ≡ false
  pub temperature : (truthy e.temperature && not (truthy f.temperature)) ≡ false
  pub channel_utilization :
      (truthy e.channel_utilization && not (truthy f.channel_utilization)) ≡ false
  pub air_util_tx : (truthy e.air_util_tx && not (truthy f.air_util_tx)) ≡ false
  pub uptime_seconds : (truthy e.uptime_seconds && not (truthy f.uptime_seconds)) ≡ false
  pub relative_humidity : (truthy e.relative_humidity && not (truthy f.relative_humidity)) ≡ false
  pub barometric_pressure :
      (truthy e.barometric_pressure && not (truthy f.barometric_pressure)) ≡ false
  pub rx_rssi : (truthy e.rx_rssi && not (truthy f.rx_rssi)) ≡ false
  pub rx_snr : (truthy e.rx_snr && not (truthy f.rx_snr)) ≡ false
  pub latitude : f.latitude ≡ e.latitude
  pub longitude : f.longitude ≡ e.longitude
  pub is_favorite : f.is_favorite ≡ e.is_favorite
  pub via_mqtt : f.via_mqtt ≡ e.via_mqtt

Keeps-telemetry :
    (now : ℕ) (u : TelemetryUpdate) (e : Entry) → Keeps e (merge_telemetry now u (some e))
unfolding merge_telemetry
Keeps-telemetry now u e = record {
  short_name = lost_nothing _;
  long_name = lost_nothing _;
  user_id = lost_nothing _;
  hw_model = lost_nothing _;
  role = lost_nothing _;
  battery_level = or_else-keeps u.battery_level e.battery_level;
  voltage = or_else-keeps u.voltage e.voltage;
  temperature = or_else-keeps u.temperature e.temperature;
  channel_utilization = or_else-keeps u.channel_utilization e.channel_utilization;
  air_util_tx = or_else-keeps u.air_util_tx e.air_util_tx;
  uptime_seconds = or_else-keeps u.uptime_seconds e.uptime_seconds;
  relative_humidity = or_else-keeps u.relative_humidity e.relative_humidity;
  barometric_pressure = or_else-keeps u.barometric_pressure e.barometric_pressure;
  rx_rssi = lost_nothing _;
  rx_snr = lost_nothing _;
  latitude = refl;
  longitude = refl;
  is_favorite = refl;
  via_mqtt = refl;
}

Keeps-signal : (now : ℕ) (u : SignalUpdate) (e : Entry) → Keeps e (merge_signal now u (some e))
unfolding merge_signal
Keeps-signal now u e = record {
  short_name = lost_nothing _;
  long_name = lost_nothing _;
  user_id = lost_nothing _;
  hw_model = lost_nothing _;
  role = lost_nothing _;
  battery_level = lost_nothing _;
  voltage = lost_nothing _;
  temperature = lost_nothing _;
  channel_utilization = lost_nothing _;
  air_util_tx = lost_nothing _;
  uptime_seconds = lost_nothing _;
  relative_humidity = lost_nothing _;
  barometric_pressure = lost_nothing _;
  rx_rssi = or_else-keeps u.rx_rssi e.rx_rssi;
  rx_snr = or_else-keeps u.rx_snr e.rx_snr;
  latitude = refl;
  longitude = refl;
  is_favorite = refl;
  via_mqtt = refl;
}

Keeps-info : (now : ℕ) (u : InfoUpdate) (e : Entry) → Keeps e (merge_info now u (some e))
unfolding merge_info
Keeps-info now u e = record {
  short_name = or_else-keeps u.short_name e.short_name;
  long_name = or_else-keeps u.long_name e.long_name;
  user_id = or_else-keeps u.user_id e.user_id;
  hw_model = or_else-keeps u.hw_model e.hw_model;
  role = or_else-keeps u.role e.role;
  battery_level = lost_nothing _;
  voltage = lost_nothing _;
  temperature = lost_nothing _;
  channel_utilization = lost_nothing _;
  air_util_tx = lost_nothing _;
  uptime_seconds = lost_nothing _;
  relative_humidity = lost_nothing _;
  barometric_pressure = lost_nothing _;
  rx_rssi = lost_nothing _;
  rx_snr = lost_nothing _;
  latitude = refl;
  longitude = refl;
  is_favorite = refl;
  via_mqtt = refl;
}

-- A telemetry, signal or node-info event on a known node: a name, user id, hardware model, role,
-- battery, device, environment or signal reading that was there is still there (perhaps renewed), and
-- coordinates, favourite and MQTT marks are unchanged. The licence mark is kept by telemetry and
-- signal events, and overwritten by a node-info event: with false if the event does not carry it.
pub merges_keep :
    (now : ℕ) (e : Entry) (t : TelemetryUpdate) (s : SignalUpdate) (i : InfoUpdate)
    → Keeps e (merge_telemetry now t (some e))
      × Keeps e (merge_signal now s (some e))
      × Keeps e (merge_info now i (some e))
      × ((merge_telemetry now t (some e)).is_licensed ≡ e.is_licensed)
      × ((merge_signal now s (some e)).is_licensed ≡ e.is_licensed)
      × ((merge_info now i (some e)).is_licensed ≡ some (value_or i.is_licensed false))
unfolding merge_telemetry merge_signal merge_info
merges_keep now e t s i =
    (Keeps-telemetry now t e, Keeps-signal now s e, Keeps-info now i e, refl, refl, refl)

telemetry_idem :
    (now : ℕ) (u : TelemetryUpdate) (e : Entry)
    → merge_telemetry now u (some (merge_telemetry now u (some e))) ≡ merge_telemetry now u (some e)
unfolding merge_telemetry
telemetry_idem now u e = λ i. record (merge_telemetry now u (some e)) {
  battery_level = or_else_idem u.battery_level e.battery_level i;
  voltage = or_else_idem u.voltage e.voltage i;
  channel_utilization = or_else_idem u.channel_utilization e.channel_utilization i;
  air_util_tx = or_else_idem u.air_util_tx e.air_util_tx i;
  uptime_seconds = or_else_idem u.uptime_seconds e.uptime_seconds i;
  temperature = or_else_idem u.temperature e.temperature i;
  relative_humidity = or_else_idem u.relative_humidity e.relative_humidity i;
  barometric_pressure = or_else_idem u.barometric_pressure e.barometric_pressure i;
}

signal_idem :
    (now : ℕ) (u : SignalUpdate) (e : Entry)
    → merge_signal now u (some (merge_signal now u (some e))) ≡ merge_signal now u (some e)
unfolding merge_signal
signal_idem now u e = λ i. record (merge_signal now u (some e)) {
  rx_rssi = or_else_idem u.rx_rssi e.rx_rssi i;
  rx_snr = or_else_idem u.rx_snr e.rx_snr i;
}

info_idem :
    (now : ℕ) (u : InfoUpdate) (e : Entry)
    → merge_info now u (some (merge_info now u (some e))) ≡ merge_info now u (some e)
unfolding merge_info
info_idem now u e = λ i. record (merge_info now u (some e)) {
  short_name = or_else_idem u.short_name e.short_name i;
  long_name = or_else_idem u.long_name e.long_name i;
  user_id = or_else_idem u.user_id e.user_id i;
  hw_model = or_else_idem u.hw_model e.hw_model i;
  role = or_else_idem u.role e.role i;
}

position_idem :
    (now : ℕ) (u : PositionUpdate) (e : Entry)
    → merge_position now u (some (merge_position now u (some e))) ≡ merge_position now u (some e)
unfolding merge_position
position_idem now u e = λ i. record (merge_position now u (some e)) {
  ground_speed = or_else_idem u.ground_speed e.ground_speed i;
  ground_track = or_else_idem u.ground_track e.ground_track i;
  sats_in_view = or_else_idem u.sats_in_view e.sats_in_view i;
  position_time = or_else_idem u.position_time e.position_time i;
}

-- On a known node, an event of any of the four kinds that is delivered a second time in the same
-- second leaves the entry as the first delivery left it.
merges_idem :
    (now : ℕ) (e : Entry) (p : PositionUpdate) (t : TelemetryUpdate) (s : SignalUpdate)
    (i : InfoUpdate)
    → (merge_position now p (some (merge_position now p (some e))) ≡ merge_position now p (some e))
      × (merge_telemetry now t (some (merge_telemetry now t (some e)))
          ≡ merge_telemetry now t (some e))
      × (merge_signal now s (some (merge_signal now s (some e))) ≡ merge_signal now s (some e))
      × (merge_info now i (some (merge_info now i (some e))) ≡ merge_info now i (some e))
merges_idem now e p t s i =
    (position_idem now p e, telemetry_idem now t e, signal_idem now s e, info_idem now i e)

-- On a known node, two events of different kinds in the same second give the same entry in either
-- order: position, telemetry, signal and node-info events with each other, and each of them with the
-- mark of a favourite.
pub merges_comm :
    (now : ℕ) (e : Entry) (p : PositionUpdate) (t : TelemetryUpdate) (s : SignalUpdate)
    (i : InfoUpdate) (mark : Option Bool)
    → (merge_position now p (some (merge_telemetry now t (some e)))
        ≡ merge_telemetry now t (some (merge_position now p (some e))))
      × (merge_position now p (some (merge_signal now s (some e)))
          ≡ merge_signal now s (some (merge_position now p (some e))))
      × (merge_position now p (some (merge_info now i (some e)))
          ≡ merge_info now i (some (merge_position now p (some e))))
      × (merge_telemetry now t (some (merge_signal now s (some e)))
          ≡ merge_signal now s (some (merge_telemetry now t (some e))))
      × (merge_signal now s (some (merge_info now i (some e)))
          ≡ merge_info now i (some (merge_signal now s (some e))))
      × (merge_info now i (some (merge_telemetry now t (some e)))
          ≡ merge_telemetry now t (some (merge_info now i (some e))))
      × (merge_position now p (some (record e { is_favorite = mark }))
          ≡ record (merge_position now p (some e)) { is_favorite = mark })
      × (merge_telemetry now t (some (record e { is_favorite = mark }))
          ≡ record (merge_telemetry now t (some e)) { is_favorite = mark })
      × (merge_signal now s (some (record e { is_favorite = mark }))
          ≡ record (merge_signal now s (some e)) { is_favorite = mark })
      × (merge_info now i (some (record e { is_favorite = mark }))
          ≡ record (merge_info now i (some e)) { is_favorite = mark })
unfolding merge_position merge_telemetry merge_signal merge_info
merges_comm now e p t s i mark = (refl, refl, refl, refl, refl, refl, refl, refl, refl, refl)
