-- ===== src/Tests/Trace.antt =====
-- Runs of a trace on a page with two buttons: a request, its result, its cooldown, its failure.
use meshtastic_proxy.Trace.Route.{all_full, coord_hops}
use meshtastic_proxy.Trace.Route.Markers.{Marks}
use meshtastic_proxy.Mesh.Names.{node_hex_name}
use meshtastic_proxy.Base.{
  All, map, ℕ, ◌+◌, ◌-◌, ◌/◌, ◌<◌, pos, List, [], ◌∷◌, ◌++◌, text, true, false, none, some, ◌≡◌,
  refl, arith, ◌⊎◌, length, count, ltb, if◌then◌else◌,
}
use meshtastic_proxy.Directory.{Dir, blank}
use meshtastic_proxy.Trace.Route.{TraceData, hops, coords_of, is_some, route_of, draw_traceroute}
use meshtastic_proxy.Trace.Route.Markers.{draw_traceroute_lem}
use meshtastic_proxy.Trace.Machine.{
  Pending, Cooldown, Button, Machine, Page, Event, start, result, timeout, failed, icon, idle, run,
  step, start_traceroute, on_result, handle_result, is_trace_active, has_request,
}
use meshtastic_proxy.Trace.Machine.Invariant.{Inv, run-Inv}
use meshtastic_proxy.Trace.Machine.Lock.{
  IsEnabled, Started, ticks, start_traceroute_lem, result_cooldown, timeout_frees, cooldown_ends,
}
use meshtastic_proxy.Trace.Machine.Others.{others, others_stay_disabled}
use meshtastic_proxy.Nodes.Row.{row_button}
use meshtastic_proxy.Trace.Machine.Faults.{stale_failure_cancels}
use meshtastic_proxy.Trace.History.{Panel, rows_of, rows_down, append}
use meshtastic_proxy.Trace.History.Rows.{append_lem}

abbrev dir : Dir
dir = some (
    (1, record blank { latitude = some (pos 557500000); longitude = some (pos 376100000) })
    ∷ (5, record blank { short_name = some (text "RLY") })
    ∷ (7, record blank { latitude = some (pos 559000000); longitude = some (pos 374000000) })
    ∷ [])

abbrev page : Page
page = record { map_ready = true; dir = dir }

abbrev answer : TraceData
answer = record {
  from = 7;
  to = 1;
  route = some (5 ∷ []);
  route_back = some (5 ∷ []);
  snr_towards = some (pos 20 ∷ pos 12 ∷ []);
  snr_back = some (pos 8 ∷ pos 24 ∷ []);
  timeout = false;
}

abbrev button : ℕ → Button
button n = record { target = n; compact = true; disabled = false; grey = false; face = icon }

abbrev buttons : List Button
buttons = button 7 ∷ button 9 ∷ []

-- The request for node 7 at 1000 ms, and its result four seconds later.
abbrev asked : List (ℕ × Event)
asked = (1000, start 7) ∷ []

abbrev answered_after : List (ℕ × Event)
answered_after = (1000, start 7) ∷ (5000, result answer) ∷ []

abbrev waiting : Machine
waiting = run page asked (idle buttons)

abbrev cooling : Machine
cooling = run page answered_after (idle buttons)

abbrev pending : Pending
pending = record { target = 7; timer = 1; started_at = 1000 }

abbrev cooldown : Cooldown
cooldown = record { target = 7; interval = 2; remaining = 26 }

run-Inv_example : Inv cooling
run-Inv_example = run-Inv page answered_after buttons

start_traceroute_example :
    (is_trace_active (start_traceroute 2000 9 waiting) ≡ true)
    × (((is_trace_active waiting ≡ true) × (start_traceroute 2000 9 waiting ≡ waiting))
        ⊎ ((is_trace_active waiting ≡ false)
            × Started 2000 9 waiting (start_traceroute 2000 9 waiting)))
start_traceroute_example = start_traceroute_lem 2000 9 waiting

waiting-pending : waiting.pending ≡ some pending
unfolding run
waiting-pending = refl

cooling-cooldown : cooling.cooldown ≡ some cooldown
unfolding run
cooling-cooldown = refl

result_cooldown_example :
    (c : Cooldown) × ((on_result page 5000 answer waiting).cooldown ≡ some c)
    × (c.target ≡ 7)
    × ((5000 - 1000) / 1000 + c.remaining ≡ 30)
    × (0 < c.remaining)
    × ((on_result page 5000 answer waiting).pending ≡ none)
result_cooldown_example =
    result_cooldown page 5000 answer pending waiting waiting-pending refl (omega arith)
      (omega arith) (omega arith)

timeout_frees_example :
    (is_trace_active (step page 31500 (timeout 1) waiting) ≡ false)
    × ((step page 31500 (timeout 1) waiting).timeouts ≡ [])
    × ((step page 31500 (timeout 1) waiting).intervals ≡ [])
    × IsEnabled 7 (step page 31500 (timeout 1) waiting).buttons
timeout_frees_example =
    timeout_frees page 31500 pending waiting (run-Inv page asked buttons) waiting-pending
      (omega arith) (omega arith)

abbrev times : List ℕ
times =
    6000 ∷ 7000 ∷ 8000 ∷ 9000 ∷ 10000 ∷ 11000 ∷ 12000 ∷ 13000 ∷ 14000 ∷ 15000 ∷ 16000 ∷ 17000
    ∷ 18000 ∷ 19000 ∷ 20000 ∷ 21000 ∷ 22000 ∷ 23000 ∷ 24000 ∷ 25000 ∷ 26000 ∷ 27000 ∷ 28000 ∷ 29000
    ∷ 30000 ∷ 31000 ∷ []

cooldown_ends_example :
    (is_trace_active (run page (ticks 2 times) cooling) ≡ false)
    × ((run page (ticks 2 times) cooling).timeouts ≡ [])
    × ((run page (ticks 2 times) cooling).intervals ≡ [])
    × IsEnabled 7 (run page (ticks 2 times) cooling).buttons
cooldown_ends_example =
    cooldown_ends page times cooldown cooling (run-Inv page answered_after buttons) cooling-cooldown
      refl

others_stay_disabled_example :
    let after = run page (ticks 2 times) cooling in
    ((row_button 9 cooling).disabled ≡ true)
    × (is_trace_active after ≡ false)
    × (others 7 after.buttons ≡ others 7 cooling.buttons)
others_stay_disabled_example =
    others_stay_disabled page times cooldown cooling 9 (run-Inv page answered_after buttons)
      cooling-cooldown refl

-- The request of node 9 fails late, when its trace has timed out and node 7 is being traced.
abbrev overtaken : List (ℕ × Event)
overtaken = (1000, start 9) ∷ (31500, timeout 1) ∷ (32000, start 7) ∷ []

abbrev second : Machine
second = run page overtaken (idle buttons)

abbrev second_pending : Pending
second_pending = record { target = 7; timer = 2; started_at = 32000 }

second-state : (second.pending ≡ some second_pending) × (has_request 9 second.requests ≡ true)
unfolding run has_request
second-state = (refl, refl)

stale_failure_cancels_example :
    let after = step page 33000 (failed 9) second in
    (after.pending ≡ none) × (after.timeouts ≡ []) × (handle_result page 34000 answer after ≡ after)
stale_failure_cancels_example =
    stale_failure_cancels page 33000 34000 9 second_pending answer second
      (run-Inv page overtaken buttons) second-state.0 second-state.1 (omega arith) refl

cooling-request : has_request 7 cooling.requests ≡ true
unfolding run has_request
cooling-request = refl

draw_traceroute_example :
    let placed = count (λ n. is_some (coords_of dir n)) (hops answer) in
    let route = route_of dir answer in
    (draw_traceroute true dir answer none ≡ (
      if ltb placed 2
      then none
      else (if all_full (coord_hops dir 0 (hops answer)) then some route else none)))
    × (map (λ s. s.name) route.stops ≡ map (node_hex_name dir) (hops answer))
    × (length (hops answer) ≡ 3)
    × (route.hop_count ≡ 2)
    × (length route.markers ≡ placed)
    × All (Marks dir (hops answer)) route.markers
    × (route.line ≡ map (λ m. m.at) route.markers)
draw_traceroute_example = draw_traceroute_lem dir answer none refl

abbrev panel : Panel
panel = record {
  expanded = false;
  entries = answer ∷ [];
  rows = [];
  empty_shown = true;
  count = none;
  shown = false;
  button_active = false;
  scroll_top = 40;
}

append_example :
    let after = append dir answer panel in
    (after.entries ≡ answer ∷ answer ∷ [])
    × (after.rows ≡ rows_of dir 1 answer ++ rows_down dir (answer ∷ []) 1)
    × (after.count ≡ some 2)
    × (after.empty_shown ≡ false)
    × (after.expanded ≡ true)
    × (after.shown ≡ true)
    × (after.button_active ≡ true)
    × (after.scroll_top ≡ 0)
append_example = append_lem dir answer panel (λ h. cc)
