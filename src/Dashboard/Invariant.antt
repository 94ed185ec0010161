-- ===== src/Dashboard/Invariant.antt =====
-- The invariants of all parts of the dashboard together, on every page that the event loop can reach
-- from the page when its scripts have loaded.
use mathlib.Core.Path.{subst}
use meshtastic_proxy.App.Listed.{IsListed}
use meshtastic_proxy.Base.{
  ℕ, suc, List, [], ◌∷◌, map, Text, false, Option, none, some, ◌≡◌, refl, sym, ap, ◌∙◌, arith,
  length, count, All, trim, Bool-cases, inl, inr,
}
use meshtastic_proxy.Directory.{Dir, dir_or_empty}
use meshtastic_proxy.Sse
use meshtastic_proxy.Sse.{holds_back}
use meshtastic_proxy.Sse.Backoff.{Bounded, step-Bounded}
use meshtastic_proxy.Clients
use meshtastic_proxy.Clients.Laws.{IsBusy, step-IsBusy}
use meshtastic_proxy.App
use meshtastic_proxy.App.{App, Tab, dashboard, map_tab, chat, nodes}
use meshtastic_proxy.App.Boxes.{Ticked, step-Ticked}
use meshtastic_proxy.App.Whole.{Right, step-Right}
use meshtastic_proxy.Dashboard.{Browser, Dashboard, Event}
use meshtastic_proxy.Dashboard.Steps.{step, seconds}
use meshtastic_proxy.Dashboard.Apps.{app_event, move, step-app}
use meshtastic_proxy.Dashboard.Streams.{stream_event, refresh_event, hear, turn, step-wires}
use meshtastic_proxy.Dashboard.Pause.{step-paused}
use meshtastic_proxy.Dashboard.Traces.{Traced, traces, step-Traced}
use meshtastic_proxy.Dashboard.Chats.{Talks, talks, step-Talks}
use meshtastic_proxy.Dashboard.Sends.{Sends, sends, step-Sends}
use meshtastic_proxy.Dashboard.Tables.{Tabled, tables, step-Tabled}
use meshtastic_proxy.Dashboard.{loaded, server_row}
use meshtastic_proxy.Dashboard.Reach.{IsOpen, IsNear, Allowed, Reach, here, later, Allowed-IsOpen}
use meshtastic_proxy.Dashboard.Routes.{step-route}
use meshtastic_proxy.App.Sync.Runs.{step-Synced}
use meshtastic_proxy.Clients.{Clients}
use meshtastic_proxy.Traffic.{Sample, Cards, first_chart}
use meshtastic_proxy.Messages.{Cells, matches}

module _ {ℓ} {R : Type ℓ} (b : Browser R) where
  -- What holds of all parts together: the directory, the map and the table (with the role boxes) are
  -- right; a delay before a new connection is from 1 to 30 seconds; the connection and the panels
  -- agree on the pause; the refresh button is disabled exactly while it waits; the trace machine and
  -- the history are right, and before there is a map no route is drawn; the chat mirrors its
  -- messages; the composer fits what is being sent; the message table and the chart are right.
  pub record Inv (s : Dashboard R) : Type ℓ where
    pub app : Right b.locale b.curve s.app
    pub ticked : Ticked b.locale b.curve s.app
    pub delays : Bounded s.stream
    pub one_pause : s.stream.paused ≡ s.app.paused
    pub button : IsBusy s.refresh
    pub traced : Traced (traces b s)
    pub no_route : s.app.map.ready ≡ false → s.trace.layer ≡ none
    pub talks_right : Talks (talks b s)
    pub sends_right : Sends (sends b s)
    pub tables_right : Tabled b.engine (tables b s)

  move-Right :
      (now : ℕ) (o : Option App.Event) (a : App R)
      → Right b.locale b.curve a
      → IsOpen o
      → IsNear o a
      → Right b.locale b.curve (move b now o a)
  move-Right now none a v whole_dir near = v
  move-Right now (some e) a v whole_dir near =
      step-Right b.locale b.curve (seconds now) e a v whole_dir near

  -- A map that is there stays.
  was_closed :
      (now : ℕ) (o : Option App.Event) (a : App R)
      → Right b.locale b.curve a
      → IsOpen o
      → (move b now o a).map.ready ≡ false
      → a.map.ready ≡ false
  was_closed now none a v whole_dir h = h
  was_closed now (some e) a v whole_dir h = elim (Bool-cases a.map.ready) [
    | inr closed ↦ closed
    | inl there ↦
        absurd (
          cc (h, (step-Synced b.locale b.curve (seconds now) e a (v.synced there) whole_dir).ready))
  ]

  move-Ticked :
      (now : ℕ) (o : Option App.Event) (a : App R)
      → Ticked b.locale b.curve a
      → Ticked b.locale b.curve (move b now o a)
  move-Ticked now none a v = v
  move-Ticked now (some e) a v = step-Ticked b.locale b.curve (seconds now) e a v

  hear-Bounded : (o : Option Sse.Event) (s : Sse.Sse) → Bounded s → Bounded (hear o s)
  hear-Bounded none s v = v
  hear-Bounded (some e) s v = step-Bounded e s v

  turn-IsBusy : (o : Option Clients.Event) (s : Clients.Refresh) → IsBusy s → IsBusy (turn o s)
  turn-IsBusy none s v = v
  turn-IsBusy (some e) s v = step-IsBusy e s v

  -- One call of the event loop keeps them.
  step-Inv : (now : ℕ) (e : Event) (s : Dashboard R) → Inv s → Allowed e s → Inv (step b now e s)
  step-Inv now e s v h =
      let (whole_dir, near) = Allowed-IsOpen e s h in
      let moved = step-app b now e s in
      let wired = step-wires b now e s in
      record {
        app =
            subst (Right b.locale b.curve) (sym moved)
              (move-Right now (app_event e s) s.app v.app whole_dir near);
        ticked =
            subst (Ticked b.locale b.curve) (sym moved)
              (move-Ticked now (app_event e s) s.app v.ticked);
        delays =
            subst Bounded (sym (ap (λ w. w.0) wired))
              (hear-Bounded (stream_event e) s.stream v.delays);
        one_pause = step-paused b now e s v.one_pause;
        button =
            subst IsBusy (sym (ap (λ w. w.1) wired))
              (turn-IsBusy (refresh_event e) s.refresh v.button);
        traced = step-Traced b now e s v.traced;
        no_route = λ closed.
            let before =
              was_closed now (app_event e s) s.app v.app whole_dir
                (ap (λ a. a.map.ready) (sym moved) ∙ closed) in
            step-route b now e s before (v.no_route before);
        talks_right = step-Talks b now e s v.talks_right;
        sends_right = step-Sends b now e s v.sends_right;
        tables_right = step-Tabled b now e s v.tables_right;
      }

  reached-Inv : {s t : Dashboard R} → Inv s → Reach b s t → Inv t
  reached-Inv v here = v
  reached-Inv v (later r now e h) = step-Inv now e _ (reached-Inv v r) h

  server_rows :
      (cells : List Cells)
      → All (λ r. r.shown ≡ matches b.engine [] r.cells) (map server_row cells)
        × (length cells ≡ count (λ r. matches b.engine [] r.cells) (map server_row cells))
  unfolding matches
  server_rows [] = (tt, refl)
  server_rows (c ∷ cs) = let (right, counted) = server_rows cs in ((refl, right), ap suc counted)

  loaded-Inv :
      (dir : Dir) (series : List Sample) (counts : List (Text × ℕ)) (cards : Cards)
      (cells : List Cells) (section : Clients)
      → IsListed (dir_or_empty dir)
      → Inv (loaded dir series counts cards cells section)
  unfolding loaded first_chart trim
  loaded-Inv dir series counts cards cells section sorted = record {
    app = record {
      sorted = sorted;
      on_tab = λ h. ground arith;
      closed = λ h. refl;
      synced = λ h. cc;
      pinned = λ h. cc;
    };
    ticked = record { boxes = tt };
    delays = record { next = omega arith; waiting = tt };
    one_pause = refl;
    button = record { one = refl; spins = refl };
    traced = (
      record { exclusive = inl refl; timeouts_match = refl; intervals_match = refl; positive = tt },
      record { shown = refl; active = refl },
    );
    no_route = λ h. refl;
    talks_right = record {
      mirror = record { in_step = refl; shown_right = tt };
      one = omega arith;
      none_before = λ h. refl;
    };
    sends_right = record { one = refl; locked = λ h. cc; button = λ h. refl; counter = refl };
    tables_right = (
      record { shown = (server_rows cells).0; counted = (server_rows cells).1 },
      (series, record { labels = refl; frames_in = refl; frames_out = refl }),
    );
  }

  -- The scripts load on a page whose directory lists each node once, in order, where a node that has a
  -- position has both coordinates; so does each directory that comes whole, a position that comes has
  -- both coordinates, and the panel of the map is used while its tab is shown. Then, after any calls of
  -- the event loop: with the map made, a shown table and the heat map are what drawing them again would
  -- give, and each node with a position has its marker; before, no heat map and no route is drawn. Every
  -- role box is checked exactly if its role filters. The invariant of the trace machine holds. The
  -- history is displayed exactly if it is expanded. The chat mirrors its messages; its channels are
  -- asked for by at most one request. One message is being sent exactly while the input is disabled,
  -- else the send button is disabled exactly for a blank text, and the counter fits it. The rows that
  -- the filter accepts are displayed and counted, the chart shows a list of samples, the refresh button
  -- is disabled exactly while it waits, a delay before a new connection is from 1 to 30 seconds, and all
  -- listeners agree on the pause.
  pub Reach-Inv :
      (dir : Dir) (series : List Sample) (counts : List (Text × ℕ)) (cards : Cards)
      (cells : List Cells) (section : Clients) {s : Dashboard R}
      → IsListed (dir_or_empty dir)
      → Reach b (loaded dir series counts cards cells section) s
      → Inv s
  Reach-Inv dir series counts cards cells section sorted r =
      reached-Inv (loaded-Inv dir series counts cards cells section sorted) r
