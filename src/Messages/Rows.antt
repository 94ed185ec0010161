-- ===== src/Messages/Rows.antt =====
-- The table keeps the newest 200 messages, newest first, and displays and counts those that the
-- filter accepts.
use meshtastic_proxy.Base.{
  ℕ, zero, suc, ◌+◌, ◌-◌, ◌≤◌, ◌<◌, List, [], ◌∷◌, map, Text, true, ltb, if◌then◌else◌, ◌≡◌, refl,
  sym, ap, ◌∙◌, arith, length, take, map-take, count, All, Bool-cases, inl, inr, ltb→lt, truthy,
  text_truthy, includes,
}
use meshtastic_proxy.Directory.{Dir}
use meshtastic_proxy.Messages.{
  Record, Cells, Row, Table, Engine, cells_of, matches, show_row, apply_filter, drop_last,
  trim_rows, prepend_message, on_filter_input,
}

module _ {ℓ} {A : Type ℓ} where
  length-drop_last : (xs : List A) → length (drop_last xs) ≡ length xs - 1
  unfolding drop_last
  length-drop_last [] = omega arith
  length-drop_last (x ∷ []) = omega arith
  length-drop_last (x ∷ y ∷ xs) = omega (arith, length-drop_last (y ∷ xs))

  take-drop_last : (n : ℕ) (xs : List A) → n < length xs → take n (drop_last xs) ≡ take n xs
  unfolding drop_last
  take-drop_last zero xs h = refl
  take-drop_last (suc n) [] h = refl
  take-drop_last (suc n) (x ∷ []) h = absurd (omega arith)
  take-drop_last (suc n) (x ∷ y ∷ xs) h = ap (x ∷◌) (take-drop_last n (y ∷ xs) (omega arith))

  take_all : (n : ℕ) (xs : List A) → length xs ≤ n → take n xs ≡ xs
  take_all zero [] h = refl
  take_all zero (x ∷ xs) h = elim h [ ]
  take_all (suc n) [] h = refl
  take_all (suc n) (x ∷ xs) h = ap (x ∷◌) (take_all n xs (omega arith))

  trim_rows_fuel :
      (fuel : ℕ) (xs : List A) → length xs ≤ fuel + 200 → trim_rows fuel xs ≡ take 200 xs
  unfolding trim_rows
  trim_rows_fuel zero xs h = sym (take_all 200 xs (omega arith))
  trim_rows_fuel (suc fuel) xs h = elim (Bool-cases (ltb 200 (length xs))) [
    | inl more ↦ rw more (
        trim_rows_fuel fuel (drop_last xs) (omega (arith, length-drop_last xs))
        ∙ take-drop_last 200 xs (ltb→lt 200 (length xs) more))
    | inr fits ↦ rw fits (sym (take_all 200 xs (ground arith)))
  ]

  length-take : (n : ℕ) (xs : List A) → length (take n xs) ≤ n
  length-take zero xs = omega arith
  length-take (suc n) [] = omega arith
  length-take (suc n) (x ∷ xs) = omega (arith, length-take n xs)

  -- The loop leaves the first 200 rows: it takes no more rows off than there are.
  trim_rows_lem : (xs : List A) → trim_rows (length xs) xs ≡ take 200 xs
  trim_rows_lem xs = trim_rows_fuel (length xs) xs (omega arith)

module _ (engine : Engine) where
  -- Every row is displayed exactly if the filter accepts it, and the count is that of the rows
  -- displayed.
  pub record InStep (t : Table) : Type 0 where
    pub shown : All (λ r. r.shown ≡ matches engine t.filter_term r.cells) t.rows
    pub counted : t.visible ≡ count (λ r. matches engine t.filter_term r.cells) t.rows

  shown-filter :
      (term : Text) (rs : List Row)
      → All (λ r. r.shown ≡ matches engine term r.cells) (map (show_row engine term) rs)
  shown-filter term [] = tt
  shown-filter term (r ∷ rs) = (refl, shown-filter term rs)

  count-filter :
      (term : Text) (rs : List Row)
      → count (λ r. r.shown) (map (show_row engine term) rs)
        ≡ count (λ r. matches engine term r.cells) (map (show_row engine term) rs)
  count-filter term [] = refl
  count-filter term (r ∷ rs) = ground (arith, count-filter term rs)

  cells-filter :
      (term : Text) (rs : List Row)
      → map (λ r. r.cells) (map (show_row engine term) rs) ≡ map (λ r. r.cells) rs
  cells-filter term [] = refl
  cells-filter term (r ∷ rs) = ap (r.cells ∷◌) (cells-filter term rs)

  apply_filter-InStep : (t : Table) → InStep (apply_filter engine t)
  unfolding apply_filter
  apply_filter-InStep t = record {
    shown = shown-filter t.filter_term t.rows;
    counted = count-filter t.filter_term t.rows;
  }

  cells-apply_filter :
      (t : Table) → map (λ r. r.cells) (apply_filter engine t).rows ≡ map (λ r. r.cells) t.rows
  unfolding apply_filter
  cells-apply_filter t = cells-filter t.filter_term t.rows

  -- A change of the filter.
  pub on_filter_input-InStep : (value : Text) (t : Table) → InStep (on_filter_input engine value t)
  unfolding on_filter_input
  on_filter_input-InStep value t =
      apply_filter-InStep (record t { filter_term = engine.lower value })

  -- After a message the table holds the first 200 of the new row and the old ones, and the filter
  -- is unchanged; after that and after a change of the filter each row is displayed exactly if the
  -- filter accepts it, and the count is right; a change of the filter keeps the rows.
  pub table_lem :
      (dir : Dir) (m : Record) (value : Text) (t : Table)
      → let after = prepend_message engine dir m t in
        let refiltered = on_filter_input engine value t in
        (map (λ r. r.cells) after.rows ≡ take 200 (cells_of dir m ∷ map (λ r. r.cells) t.rows))
        × InStep after
        × (after.filter_term ≡ t.filter_term)
        × (map (λ r. r.cells) refiltered.rows ≡ map (λ r. r.cells) t.rows)
        × InStep refiltered
        × (refiltered.filter_term ≡ engine.lower value)
  unfolding prepend_message on_filter_input
  table_lem dir m value t =
      let cells : Cells = cells_of dir m in
      let row : Row = record {
        cells = cells;
        shown =
            if truthy t.filter_term
            then includes (engine.lower (engine.text_content cells)) t.filter_term
            else true;
      } in
      let kept : List Row = trim_rows (length (row ∷ t.rows)) (row ∷ t.rows) in
      let grown : Table = record t { rows = kept } in
      let refiltered : Table = record t { filter_term = engine.lower value } in
      (
        cells-apply_filter grown
            ∙ ap (map (λ r. r.cells)) (trim_rows_lem (row ∷ t.rows))
            ∙ map-take (λ r. r.cells) 200 (row ∷ t.rows),
        apply_filter-InStep grown,
        unfold apply_filter in refl,
        cells-apply_filter refiltered,
        on_filter_input-InStep value t,
        unfold apply_filter in refl,
      )
