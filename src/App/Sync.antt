-- ===== src/App/Sync.antt =====
-- What the page shows and the directory: the rows of the visible table and the heat map are those of
-- the directory as it is now.
pub mod Listeners
pub mod Handlers
pub mod Runs
pub mod Faults
use meshtastic_proxy.App.Listed.{IsListed}
use meshtastic_proxy.Trace.Route.{draws, is_full}
use meshtastic_proxy.Base.{
  if_both, ℕ, List, [], ◌∷◌, Text, Bool, true, false, not, ◌&&◌, Option, none, some, if◌then◌else◌,
  ◌≡◌, refl, sym, ap, ◌∙◌, arith, Bool-cases, inl, inr, All, Locale, truthy, text_truthy,
  option_truthy, value_or,
}
use meshtastic_proxy.Base.NumMap.{NumMap}
use meshtastic_proxy.Directory.{Dir, PositionUpdate, put_position, InfoUpdate, dir_or_empty}
use meshtastic_proxy.Nodes.{View}
use meshtastic_proxy.Nodes.Drawn.{draws-rows}
use meshtastic_proxy.Nodes.Table.{Shown, render, table_rows}
use meshtastic_proxy.Map.{Map, Panel, apply_map_filters, update_map_markers, update_map_node}
use meshtastic_proxy.Map.Heat.{update_heatmap}
use meshtastic_proxy.Map.Heat.Stable.{update_heatmap_again}
use meshtastic_proxy.App.{
  App, is_drawn, is_table_shown, redraw, rebuild_boxes, with_heat, nodes_changed, node_info_changed,
}

pub apply_map_filters-ready :
    (loc : Locale) (now : ℕ) (p : Panel) (dir : Dir) (m : Map)
    → (apply_map_filters loc now p dir m).ready ≡ m.ready
unfolding apply_map_filters
apply_map_filters-ready loc now p none m = refl
apply_map_filters-ready loc now p (some d) m = elim (Bool-cases m.ready) [
  | inl h ↦ rw h
  | inr h ↦ rw h
]

pub update_map_markers-ready :
    (loc : Locale) (now : ℕ) (p : Panel) (dir : Dir) (m : Map)
    → (update_map_markers loc now p dir m).ready ≡ m.ready
unfolding update_map_markers
update_map_markers-ready loc now p none m = refl
update_map_markers-ready loc now p (some d) m =
    if_both (λ (x : Map). x.ready) m.ready _ m m.ready
      (if_both (λ (x : Map). x.ready) (draws d) _ _ m.ready
        (apply_map_filters-ready loc now p (some d) _) refl)
      refl

pub update_map_node-ready :
    (loc : Locale) (now : ℕ) (p : Panel) (u : PositionUpdate) (dir : Dir) (m : Map)
    → (update_map_node loc now p u dir m).ready ≡ m.ready
unfolding update_map_node
update_map_node-ready loc now p u none m = refl
update_map_node-ready loc now p u (some d) m =
    if_both (λ (x : Map). x.ready) (m.ready && is_full (u.latitude, u.longitude)) _ m m.ready
      (apply_map_filters-ready loc now p (put_position now u (some d)) _) refl

render_again :
    (loc : Locale) (v : View) (dir : Dir) (t : Shown)
    → render loc v dir (render loc v dir t) ≡ render loc v dir t
unfolding render
render_again loc v none t = refl
render_again loc v (some d) t = elim (Bool-cases (draws (table_rows loc v d))) [
  | inl h ↦ simp h
  | inr h ↦ simp h
]

module _ {ℓ} {R : Type ℓ} (loc : Locale) (curve : ℕ → ℕ → R) where
  pub IsListed-drawn : (s : App R) → IsListed (dir_or_empty s.dir) → is_drawn loc curve s ≡ true
  unfolding is_drawn
  IsListed-drawn s v = draws-rows loc s.view (dir_or_empty s.dir) v.drawn

  -- A page on which the map has been opened, and on which the table, where it is shown, and the heat
  -- map are what drawing them again would give.
  pub record Synced (s : App R) : Type ℓ where
    pub ready : s.map.ready ≡ true
    pub sorted : IsListed (dir_or_empty s.dir)
    pub heat : update_heatmap curve true s.dir s.heat ≡ s.heat
    pub table : is_table_shown s ≡ true → render loc s.view s.dir s.table ≡ s.table

  -- The same without the table.
  pub record Drawn (s : App R) : Type ℓ where
    pub ready : s.map.ready ≡ true
    pub sorted : IsListed (dir_or_empty s.dir)
    pub heat : update_heatmap curve true s.dir s.heat ≡ s.heat

  pub redraw-Synced : (s : App R) → Drawn s → Synced (redraw loc curve s)
  redraw-Synced s v = record {
    ready = v.ready;
    sorted = v.sorted;
    heat = v.heat;
    table = λ shown. render_again loc s.view s.dir s.table;
  }

  hidden-Synced : (s : App R) → is_table_shown s ≡ false → Drawn s → Synced s
  hidden-Synced s hidden v = record {
    ready = v.ready;
    sorted = v.sorted;
    heat = v.heat;
    table = λ shown. absurd (cc (shown, hidden));
  }

  pub rebuilt_if :
      (b : Bool) (s : App R) → Drawn s → Drawn (if b then rebuild_boxes loc curve s else s)
  rebuilt_if true s v = record { ready = v.ready; sorted = v.sorted; heat = v.heat }
  rebuilt_if false s v = v

  -- After a signal on the bus the table is in step.
  pub nodes_changed-Synced : (s : App R) → Drawn s → Synced (nodes_changed loc curve s)
  unfolding nodes_changed
  nodes_changed-Synced s v = elim (Bool-cases (is_table_shown s)) [
    | inl shown ↦ rw shown (redraw-Synced _ (rebuilt_if s.view.filters_open s v))
    | inr hidden ↦ rw hidden (hidden-Synced s hidden v)
  ]

  pub node_info_changed-Synced :
      (u : InfoUpdate) (s : App R) → Drawn s → Synced (node_info_changed loc curve u s)
  unfolding node_info_changed
  node_info_changed-Synced u s v = elim (Bool-cases (is_table_shown s)) [
    | inl shown ↦ rw shown (redraw-Synced _ (rebuilt_if (s.view.filters_open && truthy u.role) s v))
    | inr hidden ↦ rw hidden (hidden-Synced s hidden v)
  ]

  pub with_heat-Drawn :
      (s : App R)
      → s.map.ready ≡ true
      → IsListed (dir_or_empty s.dir)
      → Drawn (with_heat loc curve s)
  with_heat-Drawn s ready sorted = record {
    ready = ready;
    sorted = sorted;
    heat =
        ap (λ b. update_heatmap curve true s.dir (update_heatmap curve b s.dir s.heat)) ready
        ∙ update_heatmap_again curve s.dir s.heat
        ∙ ap (λ b. update_heatmap curve b s.dir s.heat) (sym ready);
  }
