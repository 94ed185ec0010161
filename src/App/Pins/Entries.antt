-- ===== src/App/Pins/Entries.antt =====
-- What the markers need of an entry that an event writes.
use meshtastic_proxy.Base.{
  ℕ, Text, Bool, true, Option, none, some, ◌≡◌, refl, text_truthy, option_truthy, nat_truthy,
}
use meshtastic_proxy.Base.NumMap.{NumMap, lookup, insert}
use meshtastic_proxy.Directory.{
  Entry, TelemetryUpdate, SignalUpdate, InfoUpdate, dir_or_empty, merge_telemetry, merge_signal,
  merge_info,
}
use meshtastic_proxy.Trace.Route.{has_position}
use meshtastic_proxy.Nodes.Actions.{mark_favorite, write_mark}
use meshtastic_proxy.Map.{Marker}
use meshtastic_proxy.App.{set_icon}
use meshtastic_proxy.App.Pins.{Pins, pin_of, pin_for, insert-Pins, set_icon-Pins}

pub telemetry-Pins :
    (now : ℕ) (u : TelemetryUpdate) (d : NumMap Entry) (ms : NumMap Marker)
    → Pins d ms
    → Pins (insert u.node_num (merge_telemetry now u (lookup u.node_num d)) d) ms
telemetry-Pins now u d ms pins =
    insert-Pins u.node_num _ d ms (go (lookup u.node_num d) refl)
      (λ j f other known placed. pins j f known placed)
  where
    go :
        (o : Option Entry)
        → lookup u.node_num d ≡ o
        → has_position (merge_telemetry now u o) ≡ true
        → pin_of (lookup u.node_num ms) ≡ some (pin_for (merge_telemetry now u o))
    go none at placed = unfold merge_telemetry in absurd (cc placed)
    go (some e) at placed = unfold merge_telemetry in pins u.node_num e at placed

pub signal-Pins :
    (now : ℕ) (u : SignalUpdate) (d : NumMap Entry) (ms : NumMap Marker)
    → Pins d ms
    → Pins (insert u.node_num (merge_signal now u (lookup u.node_num d)) d) ms
signal-Pins now u d ms pins =
    insert-Pins u.node_num _ d ms (go (lookup u.node_num d) refl)
      (λ j f other known placed. pins j f known placed)
  where
    go :
        (o : Option Entry)
        → lookup u.node_num d ≡ o
        → has_position (merge_signal now u o) ≡ true
        → pin_of (lookup u.node_num ms) ≡ some (pin_for (merge_signal now u o))
    go none at placed = unfold merge_signal in absurd (cc placed)
    go (some e) at placed = unfold merge_signal in pins u.node_num e at placed

pub info-Pins :
    (now : ℕ) (u : InfoUpdate) (d : NumMap Entry) (ms : NumMap Marker)
    → Pins d ms
    → let e = merge_info now u (lookup u.node_num d) in
      Pins (insert u.node_num e d) (set_icon u.node_num (some e) (lookup u.node_num ms) ms)
info-Pins now u d ms pins = set_icon-Pins u.node_num _ d ms (go (lookup u.node_num d) refl) pins
  where
    go :
        (o : Option Entry)
        → lookup u.node_num d ≡ o
        → has_position (merge_info now u o) ≡ true
        → (name : Option Text) × (pin_of (lookup u.node_num ms)
            ≡ some (((merge_info now u o).latitude, (merge_info now u o).longitude), name))
    go none at placed = unfold merge_info in absurd (cc placed)
    go (some e) at placed = unfold merge_info in (e.short_name, pins u.node_num e at placed)

pub mark-Pins :
    (n : ℕ) (b : Bool) (d : NumMap Entry) (ms : NumMap Marker)
    → Pins d ms
    → Pins (dir_or_empty (mark_favorite n b (some d))) ms
unfolding mark_favorite
mark-Pins n b d ms pins = go (lookup n d) refl
  where
    go : (o : Option Entry) → lookup n d ≡ o → Pins (dir_or_empty (write_mark n b d o)) ms
    go none at = pins
    go (some e) at =
        insert-Pins n (record e { is_favorite = some b }) d ms (λ placed. pins n e at placed)
          (λ j f other known placed. pins j f known placed)
