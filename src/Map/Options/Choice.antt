-- ===== src/Map/Options/Choice.antt =====
-- Which nodes a choice of check boxes lets through.
use meshtastic_proxy.Base.{
  ℕ, List, [], ◌∷◌, Text, Bool, true, false, ◌&&◌, ◌||◌, some, ◌==◌, ◌≡◌, refl, arith, count,
  length, truthy, text_truthy, eq_text, Locale, trim,
}
use meshtastic_proxy.Directory.{Entry}
use meshtastic_proxy.Nodes.{has_role, passes_mqtt}
use meshtastic_proxy.Map.{
  Panel, passes_group, passes_search, passes_status, passes_battery, node_passes_filters,
}
use meshtastic_proxy.Map.Options.{
  Box, Options, checked_values, sync_checked_state, with_options, reset_panel, reset_options,
}

-- A box of that value is checked.
abbrev pub is_chosen : Text → List Box → Bool
is_chosen v [] = false
is_chosen v ((w, b) ∷ boxes) = b && eq_text w v || is_chosen v boxes

has_role-checked_values :
    (v : Text) (boxes : List Box) → has_role (checked_values boxes) v ≡ is_chosen v boxes
unfolding has_role checked_values
has_role-checked_values v [] = refl
has_role-checked_values v ((w, true) ∷ boxes) = ground (arith, has_role-checked_values v boxes)
has_role-checked_values v ((w, false) ∷ boxes) = has_role-checked_values v boxes

length-checked_values :
    (boxes : List Box) → length (checked_values boxes) ≡ count (λ box. box.1) boxes
unfolding checked_values
length-checked_values [] = refl
length-checked_values ((w, true) ∷ boxes) = ground (arith, length-checked_values boxes)
length-checked_values ((w, false) ∷ boxes) = length-checked_values boxes

chosen :
    (set : List Text) (n : ℕ) (v : Text)
    → truthy v ≡ true
    → passes_group (record { checked = some set; boxes = n }) (some v)
      ≡ (length set == 0 || has_role set v)
unfolding passes_group
chosen [] n v t = refl
chosen (c ∷ cs) n v t =
    let some_there : (length (c ∷ cs) == 0) ≡ false = ground arith in rw (t, some_there)

-- After a click on a box: a node with a role passes the role filter exactly if a checked box has
-- that role, or if no box is checked at all. So a role that has no box yet does not pass, unless
-- nothing is checked.
pub sync_checked_state_lem :
    (o : Options) (p : Panel) (v : Text)
    → truthy v ≡ true
    → passes_group (with_options (sync_checked_state o) p).roles (some v)
      ≡ (count (λ box. box.1) o.roles == 0 || is_chosen v o.roles)
unfolding with_options sync_checked_state
sync_checked_state_lem o p v t = ground (
  arith,
  chosen (checked_values o.roles) (length o.roles) v t,
  has_role-checked_values v o.roles,
  length-checked_values o.roles,
)

-- The empty search has no text in lower case either: then, after a reset, every node passes.
reset_panel_lem :
    (loc : Locale) (now : ℕ) (o : Options) (p : Panel) (n : ℕ) (e : Entry)
    → loc.lower [] ≡ []
    → node_passes_filters loc now (reset_panel o p) n e ≡ true
unfolding node_passes_filters reset_panel reset_options with_options passes_group passes_status
    passes_battery passes_mqtt
reset_panel_lem loc now o p n e h = unfold passes_search trim in rw h
