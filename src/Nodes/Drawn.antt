-- ===== src/Nodes/Drawn.antt =====
-- nodes.js: which rows of the table can be drawn. The order of the rows does not matter, and a filter
-- only takes rows away.
use meshtastic_proxy.Base.{
  List, [], ◌∷◌, Bool, true, ◌&&◌, ◌≡◌, refl, ap, ◌∙◌, arith, filter, Locale, ℤ, pos, leb_ℤ,
  Bool-cases, inl, inr, &&-true,
}
use meshtastic_proxy.Base.NumMap.{NumMap}
use meshtastic_proxy.Directory.{Entry}
use meshtastic_proxy.Trace.Route.{is_drawable, draws}
use meshtastic_proxy.Nodes.{Node, View, insert_by, sort_by, passes, compare_nodes}
use meshtastic_proxy.Nodes.Table.{table_rows}

swap : (a b c : Bool) → (a && (b && c)) ≡ (b && (a && c))
swap a b c = ground arith

module _ (cmp : Node → Node → ℤ) where
  draws-insert_by :
      (x : Node) (xs : List Node) → draws (insert_by cmp x xs) ≡ (is_drawable x.1 && draws xs)
  unfolding insert_by draws
  draws-insert_by x [] = refl
  draws-insert_by x (y ∷ ys) = elim (Bool-cases (leb_ℤ (cmp x y) (pos 0))) [
    | inl before ↦ rw before
    | inr after ↦ rw after (
        ap (λ b. is_drawable y.1 && b) (draws-insert_by x ys)
        ∙ swap (is_drawable y.1) (is_drawable x.1) (draws ys))
  ]

  draws-sort_by : (xs : List Node) → draws (sort_by cmp xs) ≡ draws xs
  unfolding sort_by
  draws-sort_by [] = refl
  draws-sort_by (x ∷ xs) =
      draws-insert_by x (sort_by cmp xs)
      ∙ ap (λ b. is_drawable x.1 && b) (draws-sort_by xs)
      ∙ unfold draws in refl

pub draws-table_rows :
    (loc : Locale) (v : View) (d : NumMap Entry)
    → draws (table_rows loc v d) ≡ draws (filter (passes loc v) d)
unfolding table_rows
draws-table_rows loc v d =
    draws-sort_by (compare_nodes loc v.sort_key v.sort_dir) (filter (passes loc v) d)

draws-filter : (p : Node → Bool) (d : NumMap Entry) → draws d ≡ true → draws (filter p d) ≡ true
unfolding draws
draws-filter p [] h = h
draws-filter p (x ∷ d) h =
    let (here, there) = &&-true (is_drawable x.1) (draws d) h in
    elim (Bool-cases (p x)) [
      | inl kept ↦ rw kept (rw here (draws-filter p d there))
      | inr gone ↦ rw gone (draws-filter p d there)
    ]

-- With no entry that lacks a coordinate every row can be drawn.
pub draws-rows :
    (loc : Locale) (v : View) (d : NumMap Entry)
    → draws d ≡ true
    → draws (table_rows loc v d) ≡ true
draws-rows loc v d h = draws-table_rows loc v d ∙ draws-filter (passes loc v) d h
