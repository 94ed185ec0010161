-- ===== src/Tests/Rows.antt =====
-- Runs of the rows, the role boxes, the favourite toggle, the popups and the map panel's check boxes.
use meshtastic_proxy.Base.{
  pos, List, [], ◌∷◌, text, true, false, not, ◌||◌, none, some, ◌≡◌, refl, ◌==◌, ◌↔◌, count,
  bool_truthy, option_truthy, Locale,
}
use meshtastic_proxy.Base.NumMap.{lookup}
use meshtastic_proxy.Directory.{Entry, blank}
use meshtastic_proxy.Directory.Updates.{entry_at}
use meshtastic_proxy.Trace.Route.{is_some}
use meshtastic_proxy.Trace.Machine.{Machine, idle}
use meshtastic_proxy.Nodes.{Node, any}
use meshtastic_proxy.Nodes.Row.{Printer, build_node_row, build_rows, row_with, coord_cell}
use meshtastic_proxy.Nodes.Row.Laws.{IsSafe, is_drawable, build_node_row-IsSafe, build_rows_lem}
use meshtastic_proxy.Nodes.Actions.{
  Actions, toggle_favorite, set_favorite, toggle_node_actions, node_action,
}
use meshtastic_proxy.Nodes.Actions.Toggle.{toggled, toggled_lem}
use meshtastic_proxy.Map.{Panel, any_status, any_battery, passes_group}
use meshtastic_proxy.Map.Options.{Options, with_options, sync_checked_state}
use meshtastic_proxy.Map.Options.Choice.{is_chosen, sync_checked_state_lem}
use meshtastic_proxy.Map.Popup.{Line, line, identity_section}
use meshtastic_proxy.Map.Popup.Sections.{PlainLines, IsCleanIdentity, identity_section-Plain}

abbrev locale : Locale
locale = record { lower = λ t. t; upper = λ t. t; compare = λ s t. pos 0 }

-- The digits of a reading are left out here.
abbrev printer : Printer
printer = record {
  degrees = λ d v. text "55";
  decibels = λ d v. text "5";
  reading = λ d v. text "4";
}

abbrev machine : Machine
machine = idle []

-- A node whose names and id are markup.
abbrev evil : Entry
evil = record blank {
  short_name = some (text "<b>");
  long_name = some (text "<script>");
  user_id = some (text "<i>");
  role = some (text "ROUTER");
}

evil_row :
    build_node_row locale printer 10000 machine (7, evil)
    ≡ some (row_with locale printer 10000 machine (7, evil) none)
unfolding build_node_row coord_cell
evil_row = refl

build_node_row-IsSafe_example : IsSafe (row_with locale printer 10000 machine (7, evil) none)
build_node_row-IsSafe_example =
    build_node_row-IsSafe locale printer 10000 machine (7, evil)
      (row_with locale printer 10000 machine (7, evil) none) evil_row

-- A node on the equator: the server leaves a latitude of 0 out.
abbrev equator : Entry
equator = record blank { longitude = some (pos 376100000) }

abbrev nodes : List Node
nodes = (7, evil) ∷ (9, equator) ∷ []

build_rows_example :
    is_some (build_rows locale printer 10000 machine nodes)
    ≡ (count (λ x. not (is_drawable x)) nodes == 0)
build_rows_example = build_rows_lem locale printer 10000 machine nodes

abbrev at_start : Actions
at_start = record { dropdown = none; pending = []; dir = some nodes }

toggled_example :
    let after = toggled 7 true at_start in
    ((toggle_node_actions 7 at_start).dropdown ≡ some (record { node = 7; removes = false }))
    × ((node_action toggle_favorite 7 at_start).pending
        ≡ record { command = set_favorite true; target = 7 } ∷ [])
    × (entry_at 7 after.dir ≡ some (record evil { is_favorite = some true }))
    × (after.pending ≡ [])
    × (after.dropdown ≡ none)
toggled_example = toggled_lem 7 true at_start nodes evil refl (unfold lookup in refl)

-- Two role boxes, of which one is checked.
abbrev options : Options
options = record {
  roles = (text "CLIENT", false) ∷ (text "ROUTER", true) ∷ [];
  hardware = [];
  checked_roles = none;
  checked_hw = none;
}

abbrev panel : Panel
panel = record {
  search = [];
  roles = record { checked = none; boxes = 2 };
  hardware = record { checked = none; boxes = 0 };
  status = any_status;
  battery = any_battery;
  mqtt = any;
}

sync_checked_state_example :
    passes_group (with_options (sync_checked_state options) panel).roles (some (text "ROUTER"))
    ≡ (count (λ box. box.1) options.roles == 0 || is_chosen (text "ROUTER") options.roles)
sync_checked_state_example = sync_checked_state_lem options panel (text "ROUTER") refl

abbrev evil_lines : List Line
evil_lines = line "ID" (text "<i>")

identity_section-Plain_example :
    PlainLines evil_lines ↔ IsCleanIdentity locale (record blank { user_id = some (text "<i>") })
identity_section-Plain_example =
    identity_section-Plain locale (record blank { user_id = some (text "<i>") }) evil_lines
      (unfold identity_section in refl)
