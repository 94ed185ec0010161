-- ===== src/Map/Filters.antt =====
-- The filters of the map panel, and which nodes the radio buttons of the status tell apart.
use meshtastic_proxy.Base.{
  ℕ, Bool, true, false, ◌&&◌, ◌||◌, not, ◌≡◌, arith, Locale, truthy, option_truthy, nat_truthy,
}
use meshtastic_proxy.Directory.{Entry}
use meshtastic_proxy.Map.{
  Panel, StatusFilter, any_status, online, offline, node_passes_filters, passes_status, is_online,
  passes_search, passes_group, passes_battery,
}
use meshtastic_proxy.Nodes.{passes_mqtt}

-- A test among others that is on, that holds, or that fails.
split_by :
    (a b c y x : Bool)
    → ((a && (b && (c && (true && x))))
        ≡ ((a && (b && (c && (y && x)))) || (a && (b && (c && (not y && x))))))
      × (((a && (b && (c && (y && x)))) && (a && (b && (c && (not y && x))))) ≡ false)
split_by a b c y x = ground arith

-- The nodes that pass with "online" and those that pass with "offline" are together those that pass
-- with "all", the other filters being the same, and no node passes with both.
status_partition :
    (loc : Locale) (now : ℕ) (p : Panel) (n : ℕ) (e : Entry)
    → let with_status =
        λ (f : StatusFilter). node_passes_filters loc now (record p { status = f }) n e in
      (with_status any_status ≡ (with_status online || with_status offline))
      × ((with_status online && with_status offline) ≡ false)
unfolding node_passes_filters passes_status
status_partition loc now p n e =
    split_by (passes_search loc p.search n e) (passes_group p.roles e.role)
      (passes_group p.hardware e.hw_model) (truthy e.last_heard && is_online now e)
      (passes_battery p.battery e && passes_mqtt p.mqtt e)
