-- ===== src/Dashboard/Pause.antt =====
-- The pause button: the connection and the listeners see the same value, and which listeners run.
use mathlib.Core.Path.{ap₂}
use meshtastic_proxy.Base.{
  ℕ, List, [], ◌∷◌, ◌++◌, Bool, true, false, not, Option, none, some, if◌then◌else◌, ◌≡◌, refl, sym,
  ap, ◌∙◌, if_both, map, All,
}
use meshtastic_proxy.Sse
use meshtastic_proxy.Sse.{Sse, holds_back}
use meshtastic_proxy.Directory.{Update, position, telemetry, signal, info, favorite}
use meshtastic_proxy.Nodes.Actions.{
  Command, Request, ask_position, ask_nodeinfo, ask_store_forward, set_favorite, take_at,
}
use meshtastic_proxy.App
use meshtastic_proxy.App.{App}
use meshtastic_proxy.App.Steps
use meshtastic_proxy.App.Dirs.{paused_after}
use meshtastic_proxy.App.Dirs.Runs.{step-At}
use meshtastic_proxy.Dashboard.{
  Browser, Dashboard, Payload, metrics, message, node_directory, update, clients, traceroute_result,
  trace_history, chat_history, chat_message, kind, Event, stream_opens, stream_retries,
  pause_pressed, refresh_timer, arrives, show_tab, acts, acts_on_map, request_ends,
}
use meshtastic_proxy.Dashboard.Steps.{run, step, receive, seconds}
use meshtastic_proxy.Dashboard.Apps.{app_event, event_of_payload, event_of_answer, move, step-app}
use meshtastic_proxy.Dashboard.Streams.{stream_event, hear, step-wires}

abbrev flipped : Event → Bool → Bool
flipped pause_pressed p = not p
flipped _ p = p

arrives-paused : (k : Sse.Kind) (s : Sse) → (Sse.step (Sse.arrives k) s).paused ≡ s.paused
unfolding Sse.step
arrives-paused k s =
    let heard : Sse = record s { handled = s.handled ++ k ∷ [] } in
    if_both (λ (x : Sse). x.paused) s.paused (if holds_back k then s else heard) heard s.paused
      (if_both (λ (x : Sse). x.paused) (holds_back k) s heard s.paused refl refl) refl

retry-paused : (s : Sse) → (Sse.step Sse.retry s).paused ≡ s.paused
unfolding Sse.step
retry-paused s = go s.retries
  where
    go :
        (ds : List ℕ)
        → (elim ds as (λ x. Sse) [
          | [] ↦ s
          | d ∷ rest ↦ record s { retries = rest; source_open = true }
        ]).paused
          ≡ s.paused
    go [] = refl
    go (d ∷ ds) = refl

hear-paused : (e : Event) (s : Sse) → (hear (stream_event e) s).paused ≡ flipped e s.paused
unfolding Sse.step stream_event
hear-paused (arrives p) s = arrives-paused (kind p) s
hear-paused stream_retries s = retry-paused s
hear-paused pause_pressed s = refl
hear-paused _ s = refl

not-not : (p : Bool) → not (not p) ≡ p
not-not true = refl
not-not false = refl

-- The events of the stream, one after the other.
abbrev pub arrivals : List (ℕ × Payload) → List (ℕ × Event)
arrivals ps = map (λ p. (p.0, arrives p.1)) ps

-- Metrics, messages, chat messages, and the updates of a node but for a favourite.
abbrev IsReading : Update → Type 0
IsReading (position u) = Unit
IsReading (telemetry u) = Unit
IsReading (signal u) = Unit
IsReading (info u) = Unit
IsReading (favorite u) = ⊥

abbrev pub IsHeld : Payload → Type 0
IsHeld (metrics snap) = Unit
IsHeld (message m) = Unit
IsHeld (chat_message m) = Unit
IsHeld (update u) = IsReading u
IsHeld (clients addrs) = ⊥
IsHeld (node_directory d) = ⊥
IsHeld (traceroute_result t) = ⊥
IsHeld (trace_history ts) = ⊥
IsHeld (chat_history ms) = ⊥

reading-held : (u : Update) → IsReading u → holds_back (kind (update u)) ≡ true
unfolding holds_back
reading-held (position u) h = refl
reading-held (telemetry u) h = refl
reading-held (signal u) h = refl
reading-held (info u) h = refl
reading-held (favorite u) h = absurd h

-- Their listeners begin with the test of `paused`.
held-back : (p : Payload) → IsHeld p → holds_back (kind p) ≡ true
unfolding holds_back
held-back (metrics snap) h = refl
held-back (message m) h = refl
held-back (chat_message m) h = refl
held-back (update u) h = reading-held u h
held-back (clients addrs) h = absurd h
held-back (node_directory d) h = absurd h
held-back (traceroute_result t) h = absurd h
held-back (trace_history ts) h = absurd h
held-back (chat_history ms) h = absurd h

module _ {ℓ} {R : Type ℓ} (b : Browser R) where
  move-paused :
      (now : ℕ) (e : App.Event) (a : App R)
      → (move b now (some e) a).paused ≡ paused_after e a.paused
  move-paused now e a = (step-At b.locale b.curve (seconds now) e a).paused_at

  payload-paused :
      (now : ℕ) (p : Payload) (a : App R) → (move b now (event_of_payload p) a).paused ≡ a.paused
  payload-paused now (metrics snap) a = move-paused now (App.snapshot snap.node_dir) a
  payload-paused now (node_directory d) a = move-paused now (App.directory d) a
  payload-paused now (update u) a = move-paused now (App.server u) a
  payload-paused now (message m) a = refl
  payload-paused now _ a = refl

  answer-paused :
      (now : ℕ) (ok : Bool) (o : Option (Request × List Request)) (a : App R)
      → (move b now (event_of_answer ok o) a).paused ≡ a.paused
  answer-paused now ok none a = refl
  answer-paused now false (some (r, rest)) a = refl
  answer-paused now true (some (r, rest)) a = go r.command
    where
      go :
          (c : Command)
          → (move b now
              (elim c [
                | ask_position ↦ none
                | ask_nodeinfo ↦ none
                | ask_store_forward ↦ none
                | set_favorite mark ↦ some (App.favorite_set r.target mark)
              ])
              a).paused
            ≡ a.paused
      go ask_position = refl
      go ask_nodeinfo = refl
      go ask_store_forward = refl
      go (set_favorite mark) = move-paused now (App.favorite_set r.target mark) a

  event-paused :
      (now : ℕ) (e : Event) (s : Dashboard R)
      → (move b now (app_event e s) s.app).paused ≡ flipped e s.app.paused
  unfolding app_event
  event-paused now (arrives p) s = payload-paused now p s.app
  event-paused now pause_pressed s = move-paused now App.pause_pressed s.app
  event-paused now refresh_timer s = move-paused now App.refresh_timer s.app
  event-paused now (show_tab t) s = move-paused now (App.show_tab t) s.app
  event-paused now (acts a) s = move-paused now (App.acts a) s.app
  event-paused now (acts_on_map a) s = move-paused now (App.acts_on_map a) s.app
  event-paused now (request_ends i ok) s = answer-paused now ok (take_at i s.requests) s.app
  event-paused now stream_opens s = refl
  event-paused now _ s = refl

  -- The connection and the panels see the same value of `paused`.
  pub step-paused :
      (now : ℕ) (e : Event) (s : Dashboard R)
      → s.stream.paused ≡ s.app.paused
      → (step b now e s).stream.paused ≡ (step b now e s).app.paused
  step-paused now e s same =
      ap (λ w. w.0.paused) (step-wires b now e s)
      ∙ hear-paused e s.stream
      ∙ ap (flipped e) same
      ∙ sym (event-paused now e s)
      ∙ sym (ap (λ a. a.paused) (step-app b now e s))

  held_event :
      (now : ℕ) (p : Payload) (s : Dashboard R)
      → s.stream.paused ≡ true
      → s.app.paused ≡ true
      → IsHeld p
      → step b now (arrives p) s ≡ s
  unfolding step receive Sse.step
  held_event now p s off paused held = simp (off, paused, held-back p held) refl

  held_events :
      (ps : List (ℕ × Payload)) (s : Dashboard R)
      → s.stream.paused ≡ true
      → s.app.paused ≡ true
      → All (λ p. IsHeld p.1) ps
      → run b (arrivals ps) s ≡ s
  unfolding run
  held_events [] s off paused held = refl
  held_events ((now, p) ∷ ps) s off paused held =
      ap (run b (arrivals ps)) (held_event now p s off paused held.0)
      ∙ held_events ps s off paused held.1

  run-append :
      (es fs : List (ℕ × Event)) (s : Dashboard R) → run b (es ++ fs) s ≡ run b fs (run b es s)
  unfolding run
  run-append [] fs s = refl
  run-append ((now, e) ∷ es) fs s = run-append es fs (step b now e s)

  pause_twice : (t u : ℕ) (s : Dashboard R) → step b u pause_pressed (step b t pause_pressed s) ≡ s
  unfolding step Sse.step Steps.step
  pause_twice t u s =
      ap₂
        (λ (x y : Bool). record s {
          stream = record s.stream { paused = x };
          app = record s.app { paused = y };
        })
        (not-not s.stream.paused) (not-not s.app.paused)

  turned_on :
      (t : ℕ) (s : Dashboard R)
      → s.stream.paused ≡ false
      → s.app.paused ≡ false
      → ((step b t pause_pressed s).stream.paused ≡ true)
        × ((step b t pause_pressed s).app.paused ≡ true)
  unfolding step Sse.step Steps.step
  turned_on t s live running = (ap not live, ap not running)

  -- A pause loses what comes during it: on a page that is not paused, a press of the button, any
  -- events that a pause holds back (metrics, messages, chat messages, updates of nodes but for
  -- favourites), and a second press leave the page exactly as it was.
  pub pause_lem :
      (t u : ℕ) (ps : List (ℕ × Payload)) (s : Dashboard R)
      → s.stream.paused ≡ false
      → s.app.paused ≡ false
      → All (λ p. IsHeld p.1) ps
      → run b ((t, pause_pressed) ∷ (arrivals ps ++ (u, pause_pressed) ∷ [])) s ≡ s
  pause_lem t u ps s live running held =
      let s1 = step b t pause_pressed s in
      let on = turned_on t s live running in
      let es = arrivals ps in
      unfold run in
      (run-append es ((u, pause_pressed) ∷ []) s1
        ∙ ap (λ x. run b ((u, pause_pressed) ∷ []) x) (held_events ps s1 on.0 on.1 held)
        ∙ pause_twice t u s)
