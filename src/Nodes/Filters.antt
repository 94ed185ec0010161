-- ===== src/Nodes/Filters.antt =====
-- The filters of the table: when the counter leaves the total out, the mark of active filters, and
-- the set of roles.
use meshtastic_proxy.Base.{
  List, [], ◌∷◌, ◌++◌, Text, Bool, true, false, not, ◌&&◌, ◌||◌, if◌then◌else◌, truthy, nat_truthy,
  text_truthy, ◌≡◌, refl, ap, arith, length, filter, Locale, eq_text, eq_text_sound,
}
use meshtastic_proxy.Base.NumMap.{NumMap}
use meshtastic_proxy.Directory.{Entry}
use meshtastic_proxy.Nodes.{
  Node, View, first_view, passes, passes_mode, passes_mqtt, passes_position, passes_roles,
  passes_search, search_term, has_role,
}
use meshtastic_proxy.Nodes.Table.{
  has_filters, is_any, is_anywhere, add_role, delete_role, update_indicator, Action, set_mode,
  toggle_filters, set_mqtt, set_position, check_role, reset, sort_click, type_search, act, act_all,
}

passes_all :
    (loc : Locale) (v : View) (node : Node) → has_filters loc v ≡ false → passes loc v node ≡ true
unfolding passes has_filters passes_mode passes_mqtt passes_position passes_roles passes_search
passes_all loc v node h = ground arith

-- The counter leaves the total out only when no filter is on, and then every node of the directory
-- passes.
filter-unfiltered :
    (loc : Locale) (v : View) (d : NumMap Entry)
    → has_filters loc v ≡ false
    → filter (passes loc v) d ≡ d
filter-unfiltered loc v [] h = refl
filter-unfiltered loc v (node ∷ d) h =
    rw (passes_all loc v node h) (ap (node ∷◌) (filter-unfiltered loc v d h))

-- Whether a filter of the panel is on.
abbrev panel_active : View → Bool
panel_active v =
    not (is_any v.mqtt_filter) || (not (is_anywhere v.position_filter) || truthy (length v.roles))

act-indicated :
    (a : Action) (v : View)
    → v.dot_shown ≡ panel_active v
    → (act a v).dot_shown ≡ panel_active (act a v)
unfolding act update_indicator
act-indicated (set_mode m) v h = h
act-indicated toggle_filters v h = h
act-indicated (set_mqtt f) v h = refl
act-indicated (set_position f) v h = refl
act-indicated (check_role r c) v h = refl
act-indicated reset v h = refl
act-indicated (sort_click k) v h = h
act-indicated (type_search s) v h = h

act_all-indicated_from :
    (actions : List Action) (v : View)
    → v.dot_shown ≡ panel_active v
    → (act_all actions v).dot_shown ≡ panel_active (act_all actions v)
unfolding act_all
act_all-indicated_from [] v h = h
act_all-indicated_from (a ∷ actions) v h =
    act_all-indicated_from actions (act a v) (act-indicated a v h)

-- After any actions of the tab, the dot on the filter button is shown exactly when a filter of the
-- panel is on.
act_all-indicated :
    (actions : List Action)
    → (act_all actions first_view).dot_shown ≡ panel_active (act_all actions first_view)
act_all-indicated actions = act_all-indicated_from actions first_view refl

has_role-append :
    (rs : List Text) (r x : Text) → has_role (rs ++ r ∷ []) x ≡ (has_role rs x || eq_text r x)
unfolding has_role
has_role-append [] r x = ground arith
has_role-append (y ∷ rs) r x = ground (arith, has_role-append rs r x)

eq_text_left : (y x r : Text) → eq_text y x ≡ true → eq_text y r ≡ eq_text x r
eq_text_left y x r h = ap (λ t. eq_text t r) (eq_text_sound y x h)

has_role-delete :
    (rs : List Text) (r x : Text)
    → has_role (delete_role r rs) x ≡ (has_role rs x && not (eq_text x r))
unfolding has_role delete_role
has_role-delete [] r x = refl
has_role-delete (y ∷ rs) r x = ground (arith, has_role-delete rs r x, eq_text_left y x r)

eq_text_comm : (s t : Text) → eq_text s t ≡ eq_text t s
eq_text_comm [] [] = refl
eq_text_comm [] (_ ∷ _) = refl
eq_text_comm (_ ∷ _) [] = refl
eq_text_comm (a ∷ s) (b ∷ t) = ground (arith, eq_text_comm s t)

has_role-same : (rs : List Text) (r x : Text) → eq_text r x ≡ true → has_role rs r ≡ has_role rs x
has_role-same rs r x h = ap (has_role rs) (eq_text_sound r x h)

has_role-add :
    (rs : List Text) (r x : Text) → has_role (add_role r rs) x ≡ (eq_text r x || has_role rs x)
unfolding add_role
has_role-add rs r x = ground (arith, has_role-append rs r x, has_role-same rs r x)

-- A role checkbox puts its role into the set or takes it out, whatever was there, and leaves every
-- other role as it was; the mark of active filters follows.
pub check_role_lem :
    (r x : Text) (checked : Bool) (v : View)
    → let after = act (check_role r checked) v in
      (has_role after.roles x ≡ (if eq_text r x then checked else has_role v.roles x))
      × (after.dot_shown ≡ panel_active after)
unfolding act update_indicator
check_role_lem r x true v = (ground (arith, has_role-add v.roles r x), refl)
check_role_lem r x false v = (ground (arith, has_role-delete v.roles r x, eq_text_comm x r), refl)

-- After a reset only the mode and the search still choose rows, and the dot is hidden.
reset_lem :
    (loc : Locale) (v : View) (node : Node)
    → let after = act reset v in
      (passes loc after node
        ≡ (passes_mode v.mode node.1 && passes_search loc (search_term loc v) node))
      × (after.dot_shown ≡ false)
unfolding act update_indicator passes passes_mqtt passes_position passes_roles search_term
reset_lem loc v node = (refl, refl)
