-- ===== src/Map/Options.antt =====
-- app.js: the check boxes of the map panel, which are built from the directory, and the reset button.
pub mod Choice
use meshtastic_proxy.Base.{
  ℕ, ℤ, pos, negsuc, List, [], ◌∷◌, map, filter, Text, Bool, true, false, Option, none, some, ltb,
  if◌then◌else◌, truthy, text_truthy, option_truthy, text_or, length, eq_text,
}
use meshtastic_proxy.Base.NumMap.{NumMap}
use meshtastic_proxy.Directory.{Entry, Dir}
use meshtastic_proxy.Nodes.{any, has_role, sort_by}
use meshtastic_proxy.Nodes.Table.{add_role}
use meshtastic_proxy.Map.{Group, Panel, any_status, any_battery}

-- The order of `sort()` on strings, by code units.
unfoldable pub compare_text : Text → Text → ℤ
compare_text [] [] = pos 0
compare_text [] (d ∷ t) = negsuc 0
compare_text (c ∷ s) [] = pos 1
compare_text (c ∷ s) (d ∷ t) =
    let rest = compare_text s t in if ltb c d then negsuc 0 else if ltb d c then pos 1 else rest

-- A check box: its value and whether it is checked.
abbrev pub Box : Type 0
Box = Text × Bool

-- `existing[val]`, where a box of that value was there.
unfoldable find_box : List Box → Text → Option Bool
find_box [] v = none
find_box ((w, b) ∷ boxes) v = if eq_text w v then some b else find_box boxes v

abbrev checked_or : Option Bool → Bool
checked_or none = true
checked_or (some b) = b

-- Whether the new box of a value is checked.
unfoldable is_checked : Option (List Text) → List Box → Text → Bool
unfolding find_box has_role
is_checked none existing v = checked_or (find_box existing v)
is_checked (some set) existing v = has_role set v

-- `rebuildCheckboxGroup`.
unfoldable rebuild_group : Option (List Text) → List Text → List Box → List Box
unfolding sort_by compare_text is_checked
rebuild_group checked values existing =
    map (λ v. (v, is_checked checked existing v)) (sort_by compare_text values)

-- The sets of values that `rebuildFilterOptions` collects.
unfoldable values_of : (Entry → Option Text) → NumMap Entry → List Text → List Text
unfolding add_role
values_of field [] seen = seen
values_of field ((n, e) ∷ d) seen =
    values_of field d (if truthy (field e) then add_role (text_or (field e)) seen else seen)

-- The two groups of boxes, with `checkedRoles` and `checkedHw`.
pub record Options : Type 0 where
  pub roles : List Box
  pub hardware : List Box
  pub checked_roles : Option (List Text)
  pub checked_hw : Option (List Text)

-- `rebuildFilterOptions`.
unfoldable pub rebuild_filter_options : Dir → Options → Options
unfolding values_of rebuild_group
rebuild_filter_options none o = o
rebuild_filter_options (some d) o = record o {
  roles = rebuild_group o.checked_roles (values_of (λ e. e.role) d []) o.roles;
  hardware = rebuild_group o.checked_hw (values_of (λ e. e.hw_model) d []) o.hardware;
}

-- The values of the boxes that are checked, as `syncCheckedState` reads them.
unfoldable pub checked_values : List Box → List Text
checked_values [] = []
checked_values ((v, b) ∷ boxes) = let rest = checked_values boxes in if b then v ∷ rest else rest

-- `syncCheckedState`.
unfoldable pub sync_checked_state : Options → Options
unfolding checked_values
sync_checked_state o = record o {
  checked_roles = some (checked_values o.roles);
  checked_hw = some (checked_values o.hardware);
}

-- What the filters read of the boxes.
unfoldable pub with_options : Options → Panel → Panel
with_options o p = record p {
  roles = record { checked = o.checked_roles; boxes = length o.roles };
  hardware = record { checked = o.checked_hw; boxes = length o.hardware };
}

abbrev check_all : List Box → List Box
check_all boxes = map (λ box. (box.0, true)) boxes

-- The listener of the reset button, on the boxes and on the panel.
unfoldable pub reset_options : Options → Options
reset_options o = record {
  roles = check_all o.roles;
  hardware = check_all o.hardware;
  checked_roles = none;
  checked_hw = none;
}

unfoldable pub reset_panel : Options → Panel → Panel
unfolding reset_options with_options
reset_panel o p =
    with_options (reset_options o)
      (record p { search = []; status = any_status; battery = any_battery; mqtt = any })
