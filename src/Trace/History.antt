-- ===== src/Trace/History.antt =====
-- nodes.js: the panel of the trace history. The time stamp of an entry is formatted by the browser
-- and is left out; the rows are kept as data, one constructor for each kind of row.
pub mod Rows
pub mod Return
use mathlib.Core.List.{reverse}
use meshtastic_proxy.Base.{
  ℕ, zero, suc, ◌+◌, ◌-◌, ℤ, List, [], ◌∷◌, ◌++◌, Text, Bool, true, false, not, ◌&&◌, Option, none,
  some, ◌==◌, ltb, leb, if◌then◌else◌, length, get_elem?,
}
use meshtastic_proxy.Directory.{Dir}
use meshtastic_proxy.Mesh.Escape.{esc}
use meshtastic_proxy.Mesh.Names.{node_hex_name}
use meshtastic_proxy.Trace.Route.{
  TraceData, Route, Place, start, middle, end, list_or_empty, hops, snr_tag, place, draw_traceroute,
}

-- A hop of a row: the SNR of its tooltip, its class and its escaped name. An arrow stands before
-- every hop but the first of the row.
pub record Hop : Type 0 where
  pub title : Option ℤ
  pub class : Place
  pub name : Text

-- The forward chain, from index `k` on; `snr_towards[k - 1]` belongs to the hop `k`.
unfoldable pub forward_hops : Dir → List ℤ → ℕ → ℕ → List ℕ → List Hop
unfolding snr_tag place node_hex_name esc
forward_hops dir snr total k [] = []
forward_hops dir snr total k (n ∷ ns) =
    record {
      title = if ltb 0 k then snr_tag snr (k - 1) else none;
      class = place total k;
      name = esc (node_hex_name dir n);
    }
    ∷ forward_hops dir snr total (k + 1) ns

-- `backHops`: the target, the hops back, our node.
unfoldable pub back_chain : TraceData → List ℕ
back_chain t = t.from ∷ (list_or_empty t.route_back ++ t.to ∷ [])

-- The class of a hop of the return row, which is shown from the last index to the first.
unfoldable back_place : ℕ → ℕ → Place
back_place total k = if k == total - 1 then start else if k == 0 then end else middle

unfoldable pub back_hops : Dir → List ℤ → ℕ → ℕ → ℕ → List ℕ → List Hop
unfolding snr_tag back_place node_hex_name esc
back_hops dir snr inner total k [] = []
back_hops dir snr inner total k (n ∷ ns) =
    record {
      title = if leb 1 k && leb k inner then snr_tag snr (k - 1) else none;
      class = back_place total k;
      name = esc (node_hex_name dir n);
    }
    ∷ back_hops dir snr inner total (k + 1) ns

pub data Row : Type 0 where
  no_answer : Text → Row
  forward : ℕ → List Hop → ℕ → Row
  back : ℕ → List Hop → Row

unfoldable pub return_rows : Dir → ℕ → TraceData → List Row
unfolding back_hops back_chain
return_rows dir i t = elim (list_or_empty t.route_back) [
  | [] ↦ []
  | n ∷ ns ↦
      back i (
        reverse (
          back_hops dir (list_or_empty t.snr_back) (length (n ∷ ns)) (length (back_chain t)) 0
            (back_chain t)))
      ∷ []
]

-- The rows of the entry at index `i`, with the index that a click on them passes on.
unfoldable pub rows_of : Dir → ℕ → TraceData → List Row
unfolding forward_hops return_rows hops node_hex_name esc
rows_of dir i t =
    if t.timeout
    then no_answer (esc (node_hex_name dir t.from)) ∷ []
    else forward i (forward_hops dir (list_or_empty t.snr_towards) (length (hops t)) 0 (hops t))
        (length (hops t) - 1)
      ∷ return_rows dir i t

-- The loop from the newest entry to the oldest: `n` entries are left.
unfoldable pub rows_down : Dir → List TraceData → ℕ → List Row
unfolding rows_of
rows_down dir ts zero = []
rows_down dir ts (suc i) =
    elim (get_elem? ts i) [ none ↦ [] | some t ↦ rows_of dir i t ] ++ rows_down dir ts i

pub record Panel : Type 0 where
  pub expanded : Bool
  pub entries : List TraceData
  pub rows : List Row
  pub empty_shown : Bool
  pub count : Option ℕ
  pub shown : Bool
  pub button_active : Bool
  pub scroll_top : ℕ

-- `renderTraceHistory`.
unfoldable pub render : Dir → Panel → Panel
unfolding rows_down
render dir p =
    if length p.entries == 0
    then record p { rows = []; empty_shown = true; count = none }
    else record p {
      rows = rows_down dir p.entries (length p.entries);
      empty_shown = false;
      count = some (length p.entries);
    }

-- `toggleTraceHistory`.
unfoldable pub toggle : Panel → Panel
toggle p =
    let now_open = not p.expanded in
    record p { expanded = now_open; shown = now_open; button_active = now_open }

-- `loadTraceHistory`: what is no array is passed over.
unfoldable pub load : Dir → Option (List TraceData) → Panel → Panel
unfolding render
load dir none p = p
load dir (some ts) p = render dir (record p { entries = ts })

-- `appendTraceHistory`.
unfoldable pub append : Dir → TraceData → Panel → Panel
unfolding render
append dir t p =
    let r = render dir (record p { entries = p.entries ++ t ∷ [] }) in
    let opened =
      if r.expanded then r else record r { expanded = true; shown = true; button_active = true } in
    record opened { scroll_top = 0 }

-- `showTraceOnMap`.
unfoldable pub show_on_map : Bool → Dir → Panel → ℕ → Option Route → Option Route
unfolding draw_traceroute
show_on_map map_ready dir p i layer = elim (get_elem? p.entries i) [
  | none ↦ layer
  | some t ↦ draw_traceroute map_ready dir t layer
]
