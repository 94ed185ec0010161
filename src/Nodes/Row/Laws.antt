-- ===== src/Nodes/Row/Laws.antt =====
-- Rows of the nodes table: the texts of the network are escaped, and when a table can be drawn.
use meshtastic_proxy.Base.{
  ℕ, ℤ, List, [], ◌∷◌, Text, Bool, true, false, not, ◌&&◌, ◌||◌, Option, none, some, if◌then◌else◌,
  ◌≡◌, refl, ◌∙◌, arith, All, Bool-cases, inl, inr, Locale, truthy, option_truthy, text_truthy,
  int_truthy, text_or, count, ◌==◌,
}
use mathlib.Core.Path.{subst}
use meshtastic_proxy.Mesh.Hex.{sliced_hex}
use meshtastic_proxy.Mesh.Labels.{format_hw_model, format_role}
use meshtastic_proxy.Mesh.Escape.{esc}
use meshtastic_proxy.Mesh.Escape.Laws.{IsPlain, esc-IsPlain}
use meshtastic_proxy.Directory.{Entry}
use meshtastic_proxy.Trace.Route.{has_position, is_some}
use meshtastic_proxy.Trace.Machine.{Machine}
use meshtastic_proxy.Nodes.{Node}
use meshtastic_proxy.Nodes.Row.{
  Printer, Row, NameCell, CoordCell, row_with, fixed_coords, name_cell, label_cell, coord_cell,
  build_node_row, build_rows,
}

abbrev pub PlainText : Text → Type 0
PlainText t = All IsPlain t

abbrev PlainOption : Option Text → Type 0
PlainOption none = Unit
PlainOption (some t) = PlainText t

-- The texts of a row that come from the network hold neither `<` nor `>`.
pub record IsSafe (r : Row) : Type 0 where
  pub shown : PlainText r.name.shown
  pub title : PlainOption r.name.title
  pub long : PlainOption r.name.long
  pub id_html : PlainText r.id_html
  pub hardware : PlainOption r.hardware
  pub role : PlainOption r.role

label_cell-Plain : (f : Text → Text) (o : Option Text) → PlainOption (label_cell f o)
unfolding label_cell
label_cell-Plain f o = elim (Bool-cases (truthy o)) [
  | inl h ↦ rw h (esc-IsPlain (f (text_or o)))
  | inr h ↦ rw h tt
]

plain_if : (b : Bool) (t : Text) → PlainOption (if b then some (esc t) else none)
plain_if true t = esc-IsPlain t
plain_if false t = tt

abbrev SafeName : NameCell → Type 0
SafeName c = PlainText c.shown × PlainOption c.title × PlainOption c.long

name_cell-Safe : (node : Node) → SafeName (name_cell node)
unfolding name_cell
name_cell-Safe (n, e) = elim (Bool-cases (truthy e.short_name)) [
  | inl h ↦ rw h (
    esc-IsPlain (text_or e.short_name),
    esc-IsPlain (text_or e.long_name),
    plain_if _ (text_or e.long_name),
  )
  | inr h ↦ rw h (esc-IsPlain (sliced_hex n), tt, tt)
]

row_with-IsSafe :
    (loc : Locale) (pr : Printer) (now : ℕ) (s : Machine) (node : Node) (c : Option CoordCell)
    → IsSafe (row_with loc pr now s node c)
unfolding row_with
row_with-IsSafe loc pr now s (n, e) c =
    let (shown, title, long) = name_cell-Safe (n, e) in
    record {
      shown = shown;
      title = title;
      long = long;
      id_html = esc-IsPlain (if truthy e.user_id then text_or e.user_id else sliced_hex n);
      hardware = label_cell-Plain (format_hw_model loc) e.hw_model;
      role = label_cell-Plain (format_role loc) e.role;
    }

-- In every row that is drawn, the name, its title, the long name, the id, the model and the role
-- are escaped: whatever the network sent, they hold neither `<` nor `>`.
pub build_node_row-IsSafe :
    (loc : Locale) (pr : Printer) (now : ℕ) (s : Machine) (node : Node) (r : Row)
    → build_node_row loc pr now s node ≡ some r
    → IsSafe r
unfolding build_node_row
build_node_row-IsSafe loc pr now s (n, e) r h = go (coord_cell pr e) h
  where
    go :
        (o : Option (Option CoordCell))
        → elim o [ none ↦ none | some c ↦ some (row_with loc pr now s (n, e) c) ] ≡ some r
        → IsSafe r
    go none h = absurd (cc h)
    go (some c) h =
        let same : row_with loc pr now s (n, e) c ≡ r = cc in
        subst IsSafe same (row_with-IsSafe loc pr now s (n, e) c)

-- A node can be drawn: it has both coordinates, or neither has a value that counts.
abbrev pub is_drawable : Node → Bool
is_drawable (n, e) = not (has_position e) || (is_some e.latitude && is_some e.longitude)

some_coords :
    (pr : Printer) (la lo alt : Option ℤ)
    → is_some (fixed_coords pr la lo alt) ≡ (is_some la && is_some lo)
unfolding fixed_coords
some_coords pr none lo alt = refl
some_coords pr (some a) none alt = refl
some_coords pr (some a) (some o) alt = refl

some_cell : (pr : Printer) (n : ℕ) (e : Entry) → is_some (coord_cell pr e) ≡ is_drawable (n, e)
unfolding coord_cell
some_cell pr n e = elim (Bool-cases (has_position e)) [
  | inr none_there ↦ rw none_there
  | inl there ↦ rw there (some_coords pr e.latitude e.longitude e.altitude)
]

some_row :
    (loc : Locale) (pr : Printer) (now : ℕ) (s : Machine) (node : Node)
    → is_some (build_node_row loc pr now s node) ≡ is_drawable node
unfolding build_node_row
some_row loc pr now s (n, e) = go (coord_cell pr e) ∙ some_cell pr n e
  where
    go :
        (o : Option (Option CoordCell))
        → is_some {A = Row}
            (elim o [ none ↦ none | some c ↦ some (row_with loc pr now s (n, e) c) ])
          ≡ is_some o
    go none = refl
    go (some c) = refl

-- The rows of a table are drawn exactly if no node among them has one coordinate and misses the
-- other; with one such node the whole table throws.
pub build_rows_lem :
    (loc : Locale) (pr : Printer) (now : ℕ) (s : Machine) (nodes : List Node)
    → is_some (build_rows loc pr now s nodes) ≡ (count (λ x. not (is_drawable x)) nodes == 0)
unfolding build_rows
build_rows_lem loc pr now s [] = refl
build_rows_lem loc pr now s (node ∷ nodes) =
    step (build_node_row loc pr now s node) (build_rows loc pr now s nodes)
      (some_row loc pr now s node) (build_rows_lem loc pr now s nodes)
  where
    step :
        (r : Option Row) (rs : Option (List Row))
        → is_some r ≡ is_drawable node
        → is_some rs ≡ (count (λ x. not (is_drawable x)) nodes == 0)
        → is_some
            (elim r [ none ↦ none | some r ↦ elim rs [ none ↦ none | some rs ↦ some (r ∷ rs) ] ])
          ≡ (count (λ x. not (is_drawable x)) (node ∷ nodes) == 0)
    step none rs e f = ground arith
    step (some r) none e f = ground arith
    step (some r) (some rs) e f = ground arith
