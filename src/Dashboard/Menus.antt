-- ===== src/Dashboard/Menus.antt =====
-- The drop-down of a node and its requests on the dashboard move as their own model.
use mathlib.Core.Path.{ap₂}
use meshtastic_proxy.Base.{
  ℕ, List, Bool, true, false, Option, none, some, ◌≡◌, refl, ap, ◌&&◌, if_both,
}
use meshtastic_proxy.Directory.{Update, apply_update}
use meshtastic_proxy.Nodes.Actions
use meshtastic_proxy.Nodes.Actions.{
  Actions, Menu, Command, Request, ask_position, ask_nodeinfo, ask_store_forward, set_favorite,
  take_at, answered, mark_favorite, settle, end_with,
}
use meshtastic_proxy.Sse
use meshtastic_proxy.Sse.{holds_back}
use meshtastic_proxy.App
use meshtastic_proxy.App.Dirs.Runs.{step-At}
use meshtastic_proxy.Dashboard.{
  Browser, Dashboard, update, kind, Event, arrives, opens_menu, click_outside, chooses,
  request_ends,
}
use meshtastic_proxy.Dashboard.Steps.{
  step, on_stream, receive, handle, actions, settle_request, end_request, seconds,
}
use meshtastic_proxy.Dashboard.Session.{update-dir}

-- The event of the dashboard that an event of the drop-down is, and the same event with the time in
-- seconds.
abbrev pub as_event : Actions.Event → Event
as_event (Actions.opens n) = opens_menu n
as_event Actions.click_outside = click_outside
as_event (Actions.chooses c n) = chooses c n
as_event (Actions.ends i ok) = request_ends i ok
as_event (Actions.server t u) = arrives (update u)

abbrev pub at_time : ℕ → Actions.Event → Actions.Event
at_time now (Actions.opens n) = Actions.opens n
at_time now Actions.click_outside = Actions.click_outside
at_time now (Actions.chooses c n) = Actions.chooses c n
at_time now (Actions.ends i ok) = Actions.ends i ok
at_time now (Actions.server t u) = Actions.server (seconds now) u

module _ {ℓ} {R : Type ℓ} (b : Browser R) where
  settled :
      (now : ℕ) (ok : Bool) (o : Option (Request × List Request)) (s : Dashboard R)
      → actions b (end_request b now ok o s) ≡ end_with ok o (actions b s)
  unfolding answered
  settled now ok none s = refl
  settled now ok (some (r, rest)) s = go ok r.command
    where
      go :
          (ok : Bool) (c : Command)
          → actions b
              (settle_request b now ok (record r { command = c }) (record s { requests = rest }))
            ≡ settle ok (record r { command = c }) rest (actions b s)
      go false c = refl
      go true ask_position = refl
      go true ask_nodeinfo = refl
      go true ask_store_forward = refl
      go true (set_favorite mark) =
          ap (λ d. record { dropdown = s.dropdown; pending = rest; dir = d })
            (step-At b.locale b.curve (seconds now) (App.favorite_set r.target mark) s.app).dir_at

  menu : Dashboard R → Option Menu × List Request
  menu s = (s.dropdown, s.requests)

  menu_kept :
      (now : ℕ) (u : Update) (s : Dashboard R) → menu (step b now (arrives (update u)) s) ≡ menu s
  unfolding step receive handle menu
  menu_kept now u s =
      let s1 : Dashboard R = on_stream b (Sse.arrives (kind (update u))) s in
      if_both menu (s.app.paused && holds_back (kind (update u))) s1 (handle b now (update u) s1)
        (menu s) refl refl

  updated :
      (now : ℕ) (u : Update) (s : Dashboard R)
      → s.app.paused ≡ false
      → actions b (step b now (arrives (update u)) s)
        ≡ record (actions b s) { dir = apply_update (seconds now) u s.app.dir }
  unfolding menu
  updated now u s free =
      ap₂ (λ (m : Option Menu × List Request) d. record { dropdown = m.0; pending = m.1; dir = d })
        (menu_kept now u s) (update-dir b now u s free)

  -- On a page that is not paused, the drop-down, its requests and the directory move together as in
  -- their own model: what is opened, chosen and answered, and what updates of the server write.
  pub step-actions :
      (now : ℕ) (e : Actions.Event) (s : Dashboard R)
      → s.app.paused ≡ false
      → actions b (step b now (as_event e) s) ≡ Actions.step (at_time now e) (actions b s)
  unfolding step Actions.step
  step-actions now (Actions.opens n) s free = unfold Actions.toggle_node_actions in refl
  step-actions now Actions.click_outside s free = refl
  step-actions now (Actions.chooses c n) s free = unfold Actions.node_action in refl
  step-actions now (Actions.ends i ok) s free = settled now ok (take_at i s.requests) s
  step-actions now (Actions.server t u) s free = updated now u s free
