-- ===== src/Trace/Machine.antt =====
-- app.js `startTraceroute`, `handleTracerouteResult`, `startCooldown` and the timers that they set:
-- the machine of a trace, from the request through its result, timeout or failure to the end of
-- the cooldown. Times are milliseconds of `Date.now()`. The calls of the event loop (a timer that
-- fires, a request that fails, an event of the server) are the events of a step function, so a
-- list of events is one interleaving.
pub mod Invariant
pub mod Layer
pub mod Lock
pub mod Faults
pub mod Others
use meshtastic_proxy.Base.{
  ℕ, zero, suc, ◌+◌, ◌-◌, ◌/◌, List, [], ◌∷◌, ◌++◌, map, Bool, true, false, not, ◌||◌, ◌&&◌, Option,
  none, some, ◌==◌, leb, if◌then◌else◌, truthy, nat_truthy, filter,
}
use meshtastic_proxy.Directory.{Dir}
use meshtastic_proxy.Trace.Route.{route_throws, TraceData, Route, is_some, draw_traceroute}

pub record Pending : Type 0 where
  pub target : ℕ
  pub timer : ℕ
  pub started_at : ℕ

pub record Cooldown : Type 0 where
  pub target : ℕ
  pub interval : ℕ
  pub remaining : ℕ

-- A timer that is set and neither cleared nor, if it fires once, has fired: its id and the
-- variables of its closure.
pub record Timeout : Type 0 where
  pub id : ℕ
  pub node : ℕ

pub record Interval : Type 0 where
  pub id : ℕ
  pub node : ℕ
  pub remaining : ℕ

-- What a trace button shows.
pub data Face : Type 0 where
  icon labelled_icon spinner : Face
  seconds : ℕ → Face

-- A button with `data-trace-target`, in the table (`na-trace-btn`, compact) or in a popup.
pub record Button : Type 0 where
  pub target : ℕ
  pub compact : Bool
  pub disabled : Bool
  pub grey : Bool
  pub face : Face

pub record Machine : Type 0 where
  pub pending : Option Pending
  pub cooldown : Option Cooldown
  pub timeouts : List Timeout
  pub intervals : List Interval
  pub next_id : ℕ
  pub requests : List ℕ
  pub buttons : List Button
  pub layer : Option Route
  pub history : List TraceData

-- What the machine reads of the rest of the page.
pub record Page : Type 0 where
  pub map_ready : Bool
  pub dir : Dir

-- `findTraceBtns(n).forEach(f)`.
unfoldable pub on_buttons : ℕ → (Button → Button) → List Button → List Button
on_buttons n f bs = map (λ b. if b.target == n then f b else b) bs

abbrev pub reset_button : Button → Button
reset_button b = record b {
  disabled = false;
  grey = false;
  face = if b.compact then icon else labelled_icon;
}

-- `resetTraceBtn`.
unfoldable pub reset_trace_button : ℕ → Machine → Machine
unfolding on_buttons
reset_trace_button n s = record s { buttons = on_buttons n reset_button s.buttons }

abbrev countdown_button : ℕ → Button → Button
countdown_button r b = record b { disabled = true; grey = true; face = seconds r }

-- `Math.max(30 - elapsed, 0)`. A clock that was set back makes the elapsed time negative, rounded
-- away from 0. A start time of 0 or `null` counts as no time elapsed.
unfoldable pub remaining_seconds : ℕ → Option ℕ → ℕ
remaining_seconds now none = 30
remaining_seconds now (some t) =
    if truthy t
    then (if leb t now then 30 - (now - t) / 1000 else 30 + (t - now + 999) / 1000)
    else 30

-- `startCooldown`.
unfoldable pub start_cooldown : ℕ → ℕ → Option ℕ → Machine → Machine
unfolding remaining_seconds reset_trace_button on_buttons
start_cooldown now n started s =
    let r = remaining_seconds now started in
    if r == 0 then reset_trace_button n s else record s {
      buttons = on_buttons n (countdown_button r) s.buttons;
      cooldown = some (record { target = n; interval = s.next_id; remaining = r });
      intervals = s.intervals ++ record { id = s.next_id; node = n; remaining = r } ∷ [];
      next_id = s.next_id + 1;
    }

abbrev pub loading_button : Button → Button
loading_button b = record b { disabled = true; face = spinner }

-- The part of `startTraceroute` behind its guards, up to the request that is sent.
unfoldable pub begin_trace : ℕ → ℕ → Machine → Machine
unfolding on_buttons
begin_trace now n s = record s {
  layer = none;
  buttons = on_buttons n loading_button s.buttons;
  timeouts = s.timeouts ++ record { id = s.next_id; node = n } ∷ [];
  pending = some (record { target = n; timer = s.next_id; started_at = now });
  next_id = s.next_id + 1;
  requests = s.requests ++ n ∷ [];
}

-- `startTraceroute`.
unfoldable pub start_traceroute : ℕ → ℕ → Machine → Machine
unfolding begin_trace
start_traceroute now n s =
    if is_some s.pending || is_some s.cooldown then s else begin_trace now n s

abbrev pub clear_timeout : ℕ → List Timeout → List Timeout
clear_timeout id ts = filter (λ t. not (t.id == id)) ts

abbrev clear_interval : ℕ → List Interval → List Interval
clear_interval id ts = filter (λ t. not (t.id == id)) ts

-- `handleTracerouteResult` on the pending request.
unfoldable pub settle : Page → ℕ → TraceData → Pending → Machine → Machine
unfolding start_cooldown draw_traceroute
settle page now t p s =
    let freed = record s { timeouts = clear_timeout p.timer s.timeouts; pending = none } in
    let cooled = start_cooldown now p.target (some p.started_at) freed in
    record cooled { layer = draw_traceroute page.map_ready page.dir t cooled.layer }

-- `handleTracerouteResult`: a result of another node than the pending one is passed over.
unfoldable pub handle_result : Page → ℕ → TraceData → Machine → Machine
unfolding settle
handle_result page now t s = elim s.pending [
  | none ↦ s
  | some p ↦ if p.target == t.from then settle page now t p s else s
]

-- A result of the pending node whose route cannot be drawn ends the listener behind `settle`.
unfoldable pub result_throws : Page → TraceData → Machine → Bool
unfolding route_throws
result_throws page t s = elim s.pending [
  | none ↦ false
  | some p ↦ p.target == t.from && route_throws page.map_ready page.dir t
]

-- The listener of `traceroute_result`: the panel gets every result, also one that nobody asked for,
-- unless the drawing of its route throws before.
unfoldable pub on_result : Page → ℕ → TraceData → Machine → Machine
unfolding handle_result result_throws
on_result page now t s =
    let h = handle_result page now t s in
    record h { history = if result_throws page t s then h.history else h.history ++ t ∷ [] }

-- The entry that a timeout leaves in the history.
abbrev pub no_response : ℕ → TraceData
no_response n = record {
  from = n;
  to = 0;
  route = some [];
  route_back = none;
  snr_towards = none;
  snr_back = none;
  timeout = true;
}

abbrev pub pending_target : ℕ → Option Pending → ℕ
pending_target n none = n
pending_target n (some p) = p.target

abbrev pub pending_start : Option Pending → Option ℕ
pending_start none = none
pending_start (some p) = some p.started_at

-- What the callback of the timeout does before `startCooldown`.
abbrev pub timed_out : Timeout → Machine → Machine
timed_out t s = record s {
  timeouts = clear_timeout t.id s.timeouts;
  history = s.history ++ no_response (pending_target t.node s.pending) ∷ [];
  pending = none;
}

-- The callback of the timeout of `startTraceroute`; a timer that fires once is no longer set.
unfoldable pub fire_timeout : ℕ → Timeout → Machine → Machine
unfolding start_cooldown
fire_timeout now t s = start_cooldown now t.node (pending_start s.pending) (timed_out t s)

abbrev count_down : ℕ → ℕ → List Interval → List Interval
count_down id r ts = map (λ t. if t.id == id then record t { remaining = r } else t) ts

abbrev pub show_seconds : ℕ → Button → Button
show_seconds r b = record b { face = seconds r }

-- The callback of the interval of `startCooldown`. It writes to `traceCooldown`, so it throws
-- behind its own count where that is `null`.
unfoldable pub tick : Interval → Machine → Machine
unfolding reset_trace_button on_buttons
tick t s =
    let r = t.remaining - 1 in
    let counted = record s { intervals = count_down t.id r s.intervals } in
    elim s.cooldown [
      | none ↦ counted
      | some c ↦
          if r == 0
          then reset_trace_button t.node (record counted {
            buttons = on_buttons t.node (show_seconds r) s.buttons;
            intervals = clear_interval c.interval counted.intervals;
            cooldown = none;
          })
          else record counted {
            buttons = on_buttons t.node (show_seconds r) s.buttons;
            cooldown = some (record c { remaining = r });
          }
    ]

abbrev clear_pending : Machine → Machine
clear_pending s = elim s.pending [
  | none ↦ s
  | some p ↦ record s { timeouts = clear_timeout p.timer s.timeouts; pending = none }
]

-- The `catch` of the request of `startTraceroute` for node `n`.
unfoldable pub request_failed : ℕ → Machine → Machine
unfolding reset_trace_button
request_failed n s = reset_trace_button n (clear_pending s)

unfoldable pub find_timeout : ℕ → List Timeout → Option Timeout
find_timeout id [] = none
find_timeout id (t ∷ ts) = if t.id == id then some t else find_timeout id ts

unfoldable pub find_interval : ℕ → List Interval → Option Interval
find_interval id [] = none
find_interval id (t ∷ ts) = if t.id == id then some t else find_interval id ts

unfoldable pub has_request : ℕ → List ℕ → Bool
has_request n [] = false
has_request n (m ∷ ms) = n == m || has_request n ms

unfoldable pub drop_request : ℕ → List ℕ → List ℕ
drop_request n [] = []
drop_request n (m ∷ ms) = let rest = drop_request n ms in if n == m then ms else m ∷ rest

-- What the event loop may call. A timer that is not set does not fire, and a request that is not
-- under way does not end.
pub data Event : Type 0 where
  start : ℕ → Event
  result : TraceData → Event
  timeout : ℕ → Event
  interval : ℕ → Event
  failed : ℕ → Event
  answered : ℕ → Event

unfoldable pub step : Page → ℕ → Event → Machine → Machine
unfolding start_traceroute on_result fire_timeout tick request_failed find_timeout find_interval
    has_request drop_request
step page now (start n) s = start_traceroute now n s
step page now (result t) s = on_result page now t s
step page now (timeout id) s = elim (find_timeout id s.timeouts) [
  | none ↦ s
  | some t ↦ fire_timeout now t s
]
step page now (interval id) s = elim (find_interval id s.intervals) [ none ↦ s | some t ↦ tick t s ]
step page now (failed n) s =
    if has_request n s.requests
    then request_failed n (record s { requests = drop_request n s.requests })
    else s
step page now (answered n) s = record s { requests = drop_request n s.requests }

-- A run: each event with the time of the clock.
unfoldable pub run : Page → List (ℕ × Event) → Machine → Machine
unfolding step
run page [] s = s
run page ((now, e) ∷ es) s = run page es (step page now e s)

-- The state when the script has loaded, with the buttons that the page shows.
abbrev pub idle : List Button → Machine
idle bs = record {
  pending = none;
  cooldown = none;
  timeouts = [];
  intervals = [];
  next_id = 1;
  requests = [];
  buttons = bs;
  layer = none;
  history = [];
}

-- `isTraceActive`.
unfoldable pub is_trace_active : Machine → Bool
is_trace_active s = is_some s.pending || is_some s.cooldown

pub record TraceState : Type 0 where
  pub active : Bool
  pub tracing_this : Bool
  pub cooling_this : Bool
  pub remaining : ℕ

-- `getTraceState`.
unfoldable pub get_trace_state : ℕ → Machine → TraceState
get_trace_state n s = record {
  active = is_some s.pending || is_some s.cooldown;
  tracing_this = elim s.pending [ none ↦ false | some p ↦ p.target == n ];
  cooling_this = elim s.cooldown [ none ↦ false | some c ↦ c.target == n ];
  remaining = elim s.cooldown [ none ↦ 0 | some c ↦ if c.target == n then c.remaining else 0 ];
}
