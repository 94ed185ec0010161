-- ===== src/Dashboard/Reach.antt =====
-- The pages that the event loop can reach from a page, and what an event must be like.
use meshtastic_proxy.App.Listed.{IsListed, IsPlaced}
use meshtastic_proxy.Base.{ℕ, List, Bool, true, false, Option, none, some, ◌≡◌}
use meshtastic_proxy.Directory.{Dir, dir_or_empty}
use meshtastic_proxy.Nodes.Actions.{
  Command, ask_position, ask_nodeinfo, ask_store_forward, set_favorite, Request, take_at,
}
use meshtastic_proxy.App
use meshtastic_proxy.App.{App, Tab, dashboard, map_tab, chat, nodes}
use meshtastic_proxy.App.Sync.Runs.{IsOrdered}
use meshtastic_proxy.App.Whole.{IsInReach}
use meshtastic_proxy.Dashboard.{
  Browser, Dashboard, Payload, metrics, message, node_directory, update, Event, pause_pressed,
  arrives, acts_on_map, request_ends,
}
use meshtastic_proxy.Dashboard.Steps.{step}
use meshtastic_proxy.Dashboard.Apps.{app_event, event_of_payload, event_of_answer}

-- A directory that comes whole lists each node once, in order, and the coordinates of a node come
-- together; the panel of the map is used only while its tab is shown.
abbrev IsWhole : Payload → Type 0
IsWhole (metrics snap) = IsListed (dir_or_empty snap.node_dir)
IsWhole (node_directory d) = IsListed d
IsWhole (update u) = IsPlaced u
IsWhole _ = Unit

abbrev pub Allowed {ℓ} : {R : Type ℓ} → Event → Dashboard R → Type 0
Allowed (arrives p) s = IsWhole p
Allowed (acts_on_map a) s = s.app.tab ≡ map_tab
Allowed _ s = Unit

abbrev pub IsOpen : Option App.Event → Type 0
IsOpen none = Unit
IsOpen (some e) = IsOrdered e

abbrev pub IsNear {ℓ} : {R : Type ℓ} → Option App.Event → App R → Type 0
IsNear none a = Unit
IsNear (some e) a = IsInReach e a

whole : (p : Payload) → IsWhole p → IsOpen (event_of_payload p)
whole (metrics snap) h = go snap.node_dir h
  where
    go : (o : Dir) → IsListed (dir_or_empty o) → IsOrdered (App.snapshot o)
    go none h = tt
    go (some d) h = h
whole (node_directory d) h = h
whole (update u) h = h
whole (message m) h = tt
whole _ h = tt

module _ {ℓ} {R : Type ℓ} where
  payload-IsNear : (p : Payload) (a : App R) → IsNear (event_of_payload p) a
  payload-IsNear (metrics snap) a = tt
  payload-IsNear (node_directory d) a = tt
  payload-IsNear (update u) a = tt
  payload-IsNear (message m) a = tt
  payload-IsNear _ a = tt

  answer-IsOpen :
      (ok : Bool) (o : Option (Request × List Request)) (a : App R)
      → IsOpen (event_of_answer ok o) × IsNear (event_of_answer ok o) a
  answer-IsOpen ok none a = (tt, tt)
  answer-IsOpen false (some (r, rest)) a = (tt, tt)
  answer-IsOpen true (some (r, rest)) a = go r.command
    where
      mark : Command → Option App.Event
      mark c = elim c [
        | ask_position ↦ none
        | ask_nodeinfo ↦ none
        | ask_store_forward ↦ none
        | set_favorite m ↦ some (App.favorite_set r.target m)
      ]

      go : (c : Command) → IsOpen (mark c) × IsNear (mark c) a
      go ask_position = (tt, tt)
      go ask_nodeinfo = (tt, tt)
      go ask_store_forward = (tt, tt)
      go (set_favorite m) = (tt, tt)

  -- An event that is allowed is allowed for the directory, the map and the table.
  pub Allowed-IsOpen :
      (e : Event) (s : Dashboard R)
      → Allowed e s
      → IsOpen (app_event e s) × IsNear (app_event e s) s.app
  unfolding app_event
  Allowed-IsOpen (arrives p) s h = (whole p h, payload-IsNear p s.app)
  Allowed-IsOpen (acts_on_map a) s h = (tt, h)
  Allowed-IsOpen (request_ends i ok) s h = answer-IsOpen ok (take_at i s.requests) s.app
  Allowed-IsOpen pause_pressed s h = (tt, tt)
  Allowed-IsOpen _ s h = (tt, tt)

module _ {ℓ} {R : Type ℓ} (b : Browser R) where
  -- The pages that come after a page.
  pub data Reach (s : Dashboard R) : Dashboard R → Type ℓ where
    here : Reach s s
    later :
        {t : Dashboard R}
        → Reach s t
        → (now : ℕ) (e : Event) → Allowed e t
        → Reach s (step b now e t)
