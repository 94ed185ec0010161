-- ===== src/Trace/Machine/Layer.antt =====
-- The layer of the route: while there is no map, none is drawn, so none is ever taken off.
use meshtastic_proxy.Base.{
  ℕ, false, ◌==◌, Option, none, some, if◌then◌else◌, ◌≡◌, refl, ◌∙◌, arith, if_both,
}
use meshtastic_proxy.Directory.{Dir}
use meshtastic_proxy.Trace.Route.{TraceData, Route, draw_traceroute}
use meshtastic_proxy.Trace.Machine.{
  Pending, Timeout, Interval, Machine, Page, Event, start, result, timeout, interval, failed,
  answered, start_cooldown, begin_trace, start_traceroute, settle, handle_result, on_result,
  fire_timeout, tick, request_failed, reset_trace_button, find_timeout, find_interval, step,
  clear_timeout, has_request, drop_request, timed_out, pending_start,
}

pub draw_traceroute-closed :
    (dir : Dir) (t : TraceData) (l : Option Route) → draw_traceroute false dir t l ≡ l
unfolding draw_traceroute
draw_traceroute-closed dir t l = refl

start_cooldown-layer :
    (now n : ℕ) (t : Option ℕ) (s : Machine) → (start_cooldown now n t s).layer ≡ s.layer
unfolding start_cooldown reset_trace_button
start_cooldown-layer now n t s = ground arith

-- The page has no map.
module _ (dir : Dir) where
  abbrev mapless : Page
  mapless = record { map_ready = false; dir = dir }

  settle-layer :
      (now : ℕ) (t : TraceData) (p : Pending) (s : Machine)
      → (settle mapless now t p s).layer ≡ s.layer
  unfolding settle
  settle-layer now t p s =
      draw_traceroute-closed dir t _
      ∙ start_cooldown-layer now p.target (some p.started_at)
          (record s { timeouts = clear_timeout p.timer s.timeouts; pending = none })

  result-layer :
      (now : ℕ) (t : TraceData) (s : Machine) → (on_result mapless now t s).layer ≡ s.layer
  unfolding on_result handle_result
  result-layer now t s = go s.pending
    where
      go :
          (o : Option Pending)
          → (elim o as (λ x. Machine) [
            | none ↦ s
            | some p ↦ if p.target == t.from then settle mapless now t p s else s
          ]).layer
            ≡ s.layer
      go none = refl
      go (some p) =
          if_both (λ (x : Machine). x.layer) (p.target == t.from) (settle mapless now t p s) s
            s.layer (settle-layer now t p s) refl

  tick-layer : (t : Interval) (s : Machine) → (tick t s).layer ≡ s.layer
  unfolding tick reset_trace_button
  tick-layer t s = ground arith

  failed-layer : (n : ℕ) (s : Machine) → (request_failed n s).layer ≡ s.layer
  unfolding request_failed reset_trace_button
  failed-layer n s = ground arith

  -- While there is no map and no route, no call draws one.
  pub step-layer :
      (now : ℕ) (e : Event) (s : Machine) → s.layer ≡ none → (step mapless now e s).layer ≡ none
  unfolding step
  step-layer now (start n) s h = unfold start_traceroute begin_trace in ground arith
  step-layer now (result t) s h = result-layer now t s ∙ h
  step-layer now (timeout id) s h = go (find_timeout id s.timeouts)
    where
      go :
          (o : Option Timeout)
          → (elim o as (λ x. Machine) [ none ↦ s | some t ↦ fire_timeout now t s ]).layer ≡ none
      go none = h
      go (some t) =
          unfold fire_timeout in
          (start_cooldown-layer now t.node (pending_start s.pending) (timed_out t s) ∙ h)
  step-layer now (interval id) s h = go (find_interval id s.intervals)
    where
      go :
          (o : Option Interval)
          → (elim o as (λ x. Machine) [ none ↦ s | some t ↦ tick t s ]).layer ≡ none
      go none = h
      go (some t) = tick-layer t s ∙ h
  step-layer now (failed n) s h =
      let s1 : Machine = record s { requests = drop_request n s.requests } in
      if_both (λ (x : Machine). x.layer) (has_request n s.requests) (request_failed n s1) s none
        (failed-layer n s1 ∙ h) h
  step-layer now (answered n) s h = h
