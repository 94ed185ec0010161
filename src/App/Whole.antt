-- ===== src/App/Whole.antt =====
-- The page from the start: what holds of the directory, the map and the table before and after the map
-- is opened.
use mathlib.Core.Path.{subst}
use meshtastic_proxy.App.Listed.{IsListed, empty-IsListed}
use meshtastic_proxy.Base.{
  ℕ, [], Bool, true, false, ◌&&◌, arith, none, some, ◌≡◌, ◌≢◌, refl, sym, ap, ◌∙◌, Bool-cases, inl,
  inr, Locale,
}
use meshtastic_proxy.Base.NumMap.{NumMap, lookup}
use meshtastic_proxy.Directory.{Entry, Dir, dir_or_empty}
use meshtastic_proxy.Trace.Route.{is_some}
use meshtastic_proxy.Map.{Marker}
use meshtastic_proxy.App.Pins.{Pins}
use meshtastic_proxy.Map.Heat.{Heat, off, update_heatmap, draw_heat}
use meshtastic_proxy.App.{
  App, Tab, dashboard, map_tab, chat, nodes, Event, directory, snapshot, server, pause_pressed,
  show_tab, acts, acts_on_map, favorite_set, refresh_timer, refresh_map,
}
use meshtastic_proxy.App.Steps.{init_map, switch_tab, step, run}
use meshtastic_proxy.App.Dirs.Runs.{step-IsListed}
use meshtastic_proxy.App.Closed.{Kept, IsElsewhere, switch_tab-Kept, step-Kept}
use meshtastic_proxy.App.Sync.{Synced}
use meshtastic_proxy.App.Sync.Runs.{IsOrdered, step-Synced, opened_run-Synced}
use meshtastic_proxy.App.Pins.Listeners.{Pinned}
use meshtastic_proxy.App.Pins.Runs.{step-Pinned, opened_run-Pinned}

-- No heat map.
abbrev no_heat {ℓ} : {R : Type ℓ} → Heat R
no_heat = record { mode = off; layer = none; legend = none }

-- The panel of the map can be used only while its tab is shown.
abbrev pub IsInReach {ℓ} : {R : Type ℓ} → Event → App R → Type 0
IsInReach (acts_on_map a) s = s.tab ≡ map_tab
IsInReach (directory d) s = Unit
IsInReach (snapshot o) s = Unit
IsInReach (server u) s = Unit
IsInReach pause_pressed s = Unit
IsInReach (show_tab t) s = Unit
IsInReach (acts a) s = Unit
IsInReach (favorite_set n b) s = Unit
IsInReach refresh_timer s = Unit

no_pins : (ms : NumMap Marker) → Pins [] ms
unfolding lookup
no_pins ms j e known placed = absurd (cc known)

hidden : (b : Bool) → (b && false) ≡ true → ⊥
hidden true h = cc h
hidden false h = cc h

module _ {ℓ} {R : Type ℓ} (loc : Locale) (curve : ℕ → ℕ → R) where
  -- The directory is in order; the map is there where its tab is shown; there is no heat map before
  -- the map, and with the map the page is in step with the directory.
  pub record Right (s : App R) : Type ℓ where
    pub sorted : IsListed (dir_or_empty s.dir)
    pub on_tab : s.tab ≡ map_tab → s.map.ready ≡ true
    pub closed : s.map.ready ≡ false → s.heat ≡ no_heat
    pub synced : s.map.ready ≡ true → Synced loc curve s
    pub pinned : s.map.ready ≡ true → Pinned loc curve s

  opened-Right : (s : App R) → Synced loc curve s → Pinned loc curve s → Right s
  opened-Right s v w = record {
    sorted = v.sorted;
    on_tab = λ h. v.ready;
    closed = λ h. absurd (cc (v.ready, h));
    synced = λ h. v;
    pinned = λ h. w;
  }

  -- A page that keeps a map that is not there.
  Kept-Right :
      (s t : App R)
      → s.map.ready ≡ false
      → s.heat ≡ no_heat
      → s.tab ≢ map_tab
      → IsListed (dir_or_empty t.dir)
      → Kept loc curve s t
      → Right t
  Kept-Right s t closed heat tab sorted k = record {
    sorted = sorted;
    on_tab = λ h. absurd (tab (sym k.tab ∙ h));
    closed = λ h. k.heat ∙ heat;
    synced = λ h. absurd (cc (h, k.ready, closed));
    pinned = λ h. absurd (cc (h, k.ready, closed));
  }

  -- The first visit of the map: with a directory the map is filled.
  filled-Right :
      (now : ℕ) (s : App R) (d : NumMap Entry)
      → s.dir ≡ some d
      → IsListed d
      → s.map.ready ≡ false
      → Right (step loc curve now (show_tab map_tab) s)
  filled-Right now s d known sorted closed =
      opened-Right (step loc curve now (show_tab map_tab) s)
        (unfold run in opened_run-Synced loc curve now [] s d known sorted closed tt)
        (unfold run in opened_run-Pinned loc curve now [] s d known sorted closed tt)

  empty_heat : (h : Heat R) → h ≡ no_heat → update_heatmap curve true none h ≡ h
  unfolding update_heatmap draw_heat
  empty_heat h e = subst (λ x. update_heatmap curve true none x ≡ x) (sym e) refl

  -- Without one it stays empty.
  bare-Right :
      (now : ℕ) (s : App R)
      → s.dir ≡ none
      → s.heat ≡ no_heat
      → s.map.ready ≡ false
      → Right (step loc curve now (show_tab map_tab) s)
  unfolding step switch_tab init_map refresh_map
  bare-Right now s missing heat closed =
      let s1 : App R = record s { tab = map_tab; map = record s.map { ready = true } } in
      let empty : is_some s.dir ≡ false = ap is_some missing in
      simp (closed, empty)
        (opened-Right s1
          (record {
            ready = refl;
            sorted = subst (λ d. IsListed (dir_or_empty d)) (sym missing) empty-IsListed;
            heat = ap (λ d. update_heatmap curve true d s.heat) missing ∙ empty_heat s.heat heat;
            table = λ shown. absurd (hidden s.nodes_ready shown);
          })
          (record {
            ready = refl;
            sorted = subst (λ d. IsListed (dir_or_empty d)) (sym missing) empty-IsListed;
            pins =
                subst (λ d. Pins (dir_or_empty d) s.map.markers) (sym missing)
                  (no_pins s.map.markers);
          }))

  first_visit-Right :
      (now : ℕ) (dir : Dir) (s : App R)
      → s.dir ≡ dir
      → s.map.ready ≡ false
      → Right s
      → Right (step loc curve now (show_tab map_tab) s)
  first_visit-Right now none s known closed v = bare-Right now s known (v.closed closed) closed
  first_visit-Right now (some d) s known closed v =
      filled-Right now s d known (subst (λ x. IsListed (dir_or_empty x)) known v.sorted) closed

  elsewhere-Right :
      (now : ℕ) (e : Event) (s : App R)
      → s.map.ready ≡ false
      → Right s
      → IsOrdered e
      → IsElsewhere e
      → Right (step loc curve now e s)
  elsewhere-Right now e s closed v ordered h =
      Kept-Right s (step loc curve now e s) closed (v.closed closed)
        (λ at. cc (v.on_tab at, closed)) (step-IsListed loc curve now e s v.sorted ordered)
        (step-Kept loc curve now e s closed h)

  visit-Right :
      (now : ℕ) (t : Tab) (s : App R)
      → s.map.ready ≡ false
      → Right s
      → t ≢ map_tab
      → Right (step loc curve now (show_tab t) s)
  visit-Right now t s closed v other =
      Kept-Right (record s { tab = t }) (step loc curve now (show_tab t) s) closed (v.closed closed)
        other (step-IsListed loc curve now (show_tab t) s v.sorted tt)
        (unfold step in switch_tab-Kept loc curve now t s other)

  closed-Right :
      (now : ℕ) (e : Event) (s : App R)
      → s.map.ready ≡ false
      → Right s
      → IsOrdered e
      → IsInReach e s
      → Right (step loc curve now e s)
  closed-Right now (show_tab map_tab) s closed v h r = first_visit-Right now s.dir s refl closed v
  closed-Right now (show_tab dashboard) s closed v h r =
      visit-Right now dashboard s closed v (ground arith)
  closed-Right now (show_tab chat) s closed v h r = visit-Right now chat s closed v (ground arith)
  closed-Right now (show_tab nodes) s closed v h r = visit-Right now nodes s closed v (ground arith)
  closed-Right now (acts_on_map a) s closed v h r = absurd (cc (v.on_tab r, closed))
  closed-Right now (directory d) s closed v h r = elsewhere-Right now (directory d) s closed v h tt
  closed-Right now (snapshot o) s closed v h r = elsewhere-Right now (snapshot o) s closed v h tt
  closed-Right now (server u) s closed v h r = elsewhere-Right now (server u) s closed v h tt
  closed-Right now pause_pressed s closed v h r = elsewhere-Right now pause_pressed s closed v h tt
  closed-Right now (acts a) s closed v h r = elsewhere-Right now (acts a) s closed v h tt
  closed-Right now (favorite_set n b) s closed v h r =
      elsewhere-Right now (favorite_set n b) s closed v h tt
  closed-Right now refresh_timer s closed v h r = elsewhere-Right now refresh_timer s closed v h tt

  -- One event, before or after the map is opened.
  pub step-Right :
      (now : ℕ) (e : Event) (s : App R)
      → Right s
      → IsOrdered e
      → IsInReach e s
      → Right (step loc curve now e s)
  step-Right now e s v ordered reach = elim (Bool-cases s.map.ready) [
    | inr closed ↦ closed-Right now e s closed v ordered reach
    | inl there ↦
        opened-Right (step loc curve now e s)
          (step-Synced loc curve now e s (v.synced there) ordered)
          (step-Pinned loc curve now e s (v.pinned there) ordered)
  ]
