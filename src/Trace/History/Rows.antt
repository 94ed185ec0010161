-- ===== src/Trace/History/Rows.antt =====
-- The rows of the history panel: what a click on a row draws, and the order of the rows.
use mathlib.Core.List.{reverse}
use meshtastic_proxy.Base.{
  ℕ, zero, suc, ◌+◌, ◌-◌, ◌≤◌, ◌<◌, List, [], ◌∷◌, ◌++◌, Bool, true, false, Option, none, some, ◌≡◌,
  refl, arith, All, All-append, length, length-append, get_elem?, inl, inr, ◌⊎◌, if◌then◌else◌,
}
use meshtastic_proxy.Directory.{Dir}
use meshtastic_proxy.Mesh.Escape.{esc}
use meshtastic_proxy.Mesh.Names.{node_hex_name}
use meshtastic_proxy.Trace.Route.{TraceData, list_or_empty, hops}
use meshtastic_proxy.Trace.History.{
  Row, no_answer, forward, back, Panel, forward_hops, back_chain, back_hops, return_rows, rows_of,
  rows_down, render, append,
}

-- The entry that a row passes to the map when it is clicked (a row of a timeout passes none).
abbrev clicks_to : Row → Option ℕ
clicks_to (no_answer n) = none
clicks_to (forward i hs c) = some i
clicks_to (back i hs) = some i

-- A row belongs to an entry: it is a row of that entry at its index, and the entry has an answer
-- if the row can be clicked.
abbrev IsRowOf : Dir → List TraceData → Row → Type 0
IsRowOf dir ts r =
    (i : ℕ) × (t : TraceData) × (get_elem? ts i ≡ some t)
    × ((clicks_to r ≡ none) ⊎ ((clicks_to r ≡ some i) × (t.timeout ≡ false)))

rows_of-IsRowOf :
    (dir : Dir) (ts : List TraceData) (i : ℕ) (t : TraceData)
    → get_elem? ts i ≡ some t
    → All (IsRowOf dir ts) (rows_of dir i t)
rows_of-IsRowOf dir ts i t e = unfold rows_of in go t.timeout refl
  where
    returns :
        t.timeout ≡ false
        → (l : List ℕ)
        → All (IsRowOf dir ts) (elim l [
          | [] ↦ []
          | n ∷ ns ↦
              back i (
                reverse (
                  back_hops dir
                    (list_or_empty t.snr_back)
                    (length (n ∷ ns))
                    (length (back_chain t))
                    0
                    (back_chain t)))
              ∷ []
        ])
    returns h [] = tt
    returns h (n ∷ ns) = ((i, t, e, inr (refl, h)), tt)

    go :
        (b : Bool)
        → t.timeout ≡ b
        → All (IsRowOf dir ts) (
            if b
            then no_answer (esc (node_hex_name dir t.from)) ∷ []
            else forward i
                (forward_hops dir (list_or_empty t.snr_towards) (length (hops t)) 0 (hops t))
                (length (hops t) - 1)
              ∷ return_rows dir i t)
    go true h = ((i, t, e, inl refl), tt)
    go false h =
        ((i, t, e, inr (refl, h)), unfold return_rows in returns h (list_or_empty t.route_back))

rows_down-IsRowOf :
    (dir : Dir) (ts : List TraceData) (n : ℕ) → All (IsRowOf dir ts) (rows_down dir ts n)
unfolding rows_down
rows_down-IsRowOf dir ts zero = tt
rows_down-IsRowOf dir ts (suc i) =
    All-append (IsRowOf dir ts) (elim (get_elem? ts i) [ none ↦ [] | some t ↦ rows_of dir i t ])
      (rows_down dir ts i) (top (get_elem? ts i) refl) (rows_down-IsRowOf dir ts i)
  where
    top :
        (o : Option TraceData)
        → get_elem? ts i ≡ o
        → All (IsRowOf dir ts) (elim o [ none ↦ [] | some t ↦ rows_of dir i t ])
    top none e = tt
    top (some t) e = rows_of-IsRowOf dir ts i t e

get_elem?-append_left :
    (ts : List TraceData) (t : TraceData) (i : ℕ)
    → i < length ts
    → get_elem? (ts ++ t ∷ []) i ≡ get_elem? ts i
get_elem?-append_left [] t i h = elim h [ ]
get_elem?-append_left (x ∷ ts) t zero h = refl
get_elem?-append_left (x ∷ ts) t (suc i) h = get_elem?-append_left ts t i (omega arith)

get_elem?-append_end :
    (ts : List TraceData) (t : TraceData) → get_elem? (ts ++ t ∷ []) (length ts) ≡ some t
get_elem?-append_end [] t = refl
get_elem?-append_end (x ∷ ts) t = get_elem?-append_end ts t

rows_down-append :
    (dir : Dir) (ts : List TraceData) (t : TraceData) (n : ℕ)
    → n ≤ length ts
    → rows_down dir (ts ++ t ∷ []) n ≡ rows_down dir ts n
unfolding rows_down
rows_down-append dir ts t zero h = refl
rows_down-append dir ts t (suc i) h =
    rw (get_elem?-append_left ts t i h, rows_down-append dir ts t i (omega arith))

rows_down-zero : (dir : Dir) (ts : List TraceData) (n : ℕ) → n ≡ 0 → rows_down dir ts n ≡ []
unfolding rows_down
rows_down-zero dir ts zero e = refl
rows_down-zero dir ts (suc n) e = absurd (omega arith)

pub rows-render :
    (dir : Dir) (p : Panel) → (render dir p).rows ≡ rows_down dir p.entries (length p.entries)
unfolding render
rows-render dir p = ground (arith, rows_down-zero dir p.entries (length p.entries))

-- After a render, every row that can be clicked passes on the index of an answered entry, the one
-- that the row shows.
render-IsRowOf : (dir : Dir) (p : Panel) → All (IsRowOf dir p.entries) (render dir p).rows
render-IsRowOf dir p = rw rows-render (rows_down-IsRowOf dir p.entries (length p.entries))

rows-appended :
    (dir : Dir) (t : TraceData) (p : Panel)
    → (append dir t p).rows ≡ rows_down dir (p.entries ++ t ∷ []) (length (p.entries ++ t ∷ []))
unfolding append
rows-appended dir t p = ground (arith, rows-render dir (record p { entries = p.entries ++ t ∷ [] }))

stacked :
    (dir : Dir) (t : TraceData) (p : Panel)
    → rows_down dir (p.entries ++ t ∷ []) (suc (length p.entries))
      ≡ rows_of dir (length p.entries) t ++ rows_down dir p.entries (length p.entries)
unfolding rows_down
stacked dir t p =
    rw (
      get_elem?-append_end p.entries t,
      rows_down-append dir p.entries t (length p.entries) le_self,
    )
  where
    le_self : length p.entries ≤ length p.entries
    le_self = omega arith

-- If an open panel is displayed with its button active: after a new result, it is the last entry
-- and its rows come first, and the rows under them are those that the older entries have by
-- themselves. The panel is open, displayed, with its button active and scrolled to the top, and the
-- note of an empty history is hidden.
pub append_lem :
    (dir : Dir) (t : TraceData) (p : Panel)
    → (p.expanded ≡ true → (p.shown ≡ true) × (p.button_active ≡ true))
    → let after = append dir t p in
      (after.entries ≡ p.entries ++ t ∷ [])
      × (after.rows
          ≡ rows_of dir (length p.entries) t ++ rows_down dir p.entries (length p.entries))
      × (after.count ≡ some (length p.entries + 1))
      × (after.empty_shown ≡ false)
      × (after.expanded ≡ true)
      × (after.shown ≡ true)
      × (after.button_active ≡ true)
      × (after.scroll_top ≡ 0)
append_lem dir t p h =
    let grown : length (p.entries ++ t ∷ []) ≡ suc (length p.entries) =
      omega (arith, length-append p.entries (t ∷ [])) in
    (
      unfold append render in ground arith,
      rw (rows-appended, grown) (stacked dir t p),
      unfold append render in ground arith,
      unfold append render in ground arith,
      unfold append render in ground arith,
      unfold append render in ground arith,
      unfold append render in ground arith,
      unfold append render in ground arith,
    )
