-- ===== src/Messages.antt =====
-- app.js: the table of proxied messages, its filter and its limit of 200 rows. A cell is the
-- content that the template puts in it. `textContent` of a row and `toLowerCase` are the browser's:
-- `Engine` holds them as functions.
pub mod Rows
use meshtastic_proxy.Base.{
  ℕ, zero, suc, ◌+◌, ◌%◌, ◌||◌, ℤ, List, [], ◌∷◌, ◌++◌, map, Text, text, Bool, true, false, not,
  Option, none, some, ◌==◌, ltb, if◌then◌else◌, truthy, nat_truthy, int_truthy, text_truthy, length,
  count, includes, pad_start,
}
use meshtastic_proxy.Mesh.Hex.{to_string}
use meshtastic_proxy.Mesh.Escape.{esc}
use meshtastic_proxy.Mesh.Names.{node_name}
use meshtastic_proxy.Directory.{Dir}

pub record Record : Type 0 where
  pub from_node : Bool
  pub type_name : Text
  pub size : ℕ
  pub port_num : Text
  pub from : ℕ
  pub to : ℕ
  pub hop_limit : ℕ
  pub hop_start : ℕ
  pub rx_rssi : ℤ
  pub rx_snr : ℤ
  pub via_mqtt : Bool
  pub relay_node : ℕ
  pub payload : Text

-- `relayNameJS`: the last byte of the node that relayed, in two digits.
unfoldable relay_name : ℕ → Text
unfolding to_string
relay_name n =
    if truthy n
    then text "<span class=\"font-mono text-xs text-cyan-400\">!"
      ++ (pad_start 2 b'0' (to_string 16 (n % 256)) ++ text "</span>")
    else []

-- The cells of a row; `none` is a dash. The time is left out.
pub record Cells : Type 0 where
  pub is_in : Bool
  pub type_html : Text
  pub port_html : Text
  pub from_html : Text
  pub to_html : Text
  pub hops : Option (ℕ × ℕ)
  pub rssi : Option ℤ
  pub snr : Option ℤ
  pub mqtt_badge : Bool
  pub relay : Text
  pub size : ℕ
  pub payload_html : Text

-- The row that `prependMessage` makes.
unfoldable pub cells_of : Dir → Record → Cells
unfolding relay_name node_name esc
cells_of dir m = record {
  is_in = m.from_node;
  type_html = esc m.type_name;
  port_html = esc m.port_num;
  from_html = node_name dir m.from;
  to_html = node_name dir m.to;
  hops = if truthy m.hop_limit || truthy m.hop_start then some (m.hop_limit, m.hop_start) else none;
  rssi = if truthy m.rx_rssi then some m.rx_rssi else none;
  snr = if truthy m.rx_snr then some m.rx_snr else none;
  mqtt_badge = m.via_mqtt;
  relay = relay_name m.relay_node;
  size = m.size;
  payload_html = esc m.payload;
}

pub record Row : Type 0 where
  pub cells : Cells
  pub shown : Bool

pub record Table : Type 0 where
  pub rows : List Row
  pub filter_term : Text
  pub visible : ℕ
  pub filtered_note : Bool

pub record Engine : Type 0 where
  pub lower : Text → Text
  pub text_content : Cells → Text

module _ (engine : Engine) where
  -- `!filterTerm || row.textContent.toLowerCase().includes(filterTerm)`.
  unfoldable pub matches : Text → Cells → Bool
  matches term c = not (truthy term) || includes (engine.lower (engine.text_content c)) term

  abbrev pub show_row : Text → Row → Row
  show_row term r = record r { shown = matches term r.cells }

  -- `applyMessageFilter`.
  unfoldable pub apply_filter : Table → Table
  unfolding matches
  apply_filter t =
      let rows = map (show_row t.filter_term) t.rows in
      record t {
        rows = rows;
        visible = count (λ r. r.shown) rows;
        filtered_note = truthy t.filter_term;
      }

-- The rounds of `tbody.removeChild(tbody.lastChild)` up to the one that takes a row off: behind a row
-- that the server wrote stands white space, a child that is no element and goes first. `length` counts
-- the rows, as `tbody.children` does.
unfoldable pub drop_last {ℓ} : {A : Type ℓ} → List A → List A
drop_last [] = []
drop_last (x ∷ []) = []
drop_last (x ∷ y ∷ xs) = x ∷ drop_last (y ∷ xs)

-- The loop `while (children.length > 200)`, by the rows that it takes off.
unfoldable pub trim_rows {ℓ} : {A : Type ℓ} → ℕ → List A → List A
unfolding drop_last
trim_rows zero rows = rows
trim_rows (suc fuel) rows =
    let rest = trim_rows fuel (drop_last rows) in if ltb 200 (length rows) then rest else rows

module _ (engine : Engine) where
  -- `prependMessage`: the new row is displayed unless the filter hides it.
  unfoldable pub prepend_message : Dir → Record → Table → Table
  unfolding cells_of trim_rows apply_filter matches
  prepend_message dir m t =
      let cells : Cells = cells_of dir m in
      let row : Row = record {
        cells = cells;
        shown =
            if truthy t.filter_term
            then includes (engine.lower (engine.text_content cells)) t.filter_term
            else true;
      } in
      let grown : List Row = row ∷ t.rows in
      apply_filter engine (record t { rows = trim_rows (length grown) grown })

  -- The listener of the filter input.
  unfoldable pub on_filter_input : Text → Table → Table
  unfolding apply_filter
  on_filter_input value t = apply_filter engine (record t { filter_term = engine.lower value })
