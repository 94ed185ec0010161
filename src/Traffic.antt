-- ===== src/Traffic.antt =====
-- app.js `updateMetricsUI`, `formatBytes`, `generateColors` and `updateTypesLegend`: the cards, the
-- traffic chart with its sliding window, and the chart of message types. A time stamp stands for
-- the label that the browser formats from it.
pub mod Window
pub mod Legend
use meshtastic_proxy.Base.{
  ℕ, zero, suc, ◌+◌, ◌*◌, ◌%◌, ◌^◌, min, List, [], ◌∷◌, ◌++◌, map, Text, text, Bool, true, false,
  Option, none, some, ◌==◌, ltb, if◌then◌else◌, truthy, nat_truthy, text_truthy, option_truthy,
  length, drop, get_elem?,
}
use meshtastic_proxy.Mesh.Hex.{to_string}
use meshtastic_proxy.Directory.{Dir}

pub record Sample : Type 0 where
  pub ts : ℕ
  pub fi : ℕ
  pub fo : ℕ

-- `trafficData`, `maxTrafficPoints` and how often the chart was drawn.
pub record Chart : Type 0 where
  pub labels : List ℕ
  pub frames_in : List ℕ
  pub frames_out : List ℕ
  pub max_points : ℕ
  pub draws : ℕ

-- The chart of the page that the server rendered: `initialTrafficSeries.length || 300`.
unfoldable pub first_chart : List Sample → Chart
first_chart series = record {
  labels = map (λ s. s.ts) series;
  frames_in = map (λ s. s.fi) series;
  frames_out = map (λ s. s.fo) series;
  max_points = if truthy (length series) then length series else 300;
  draws = 0;
}

-- A full snapshot replaces the series, and the limit if it names one.
unfoldable pub replace_series : Option ℕ → List Sample → Chart → Chart
replace_series limit series c = record {
  labels = map (λ s. s.ts) series;
  frames_in = map (λ s. s.fi) series;
  frames_out = map (λ s. s.fo) series;
  max_points = elim limit [ none ↦ c.max_points | some n ↦ if truthy n then n else c.max_points ];
  draws = c.draws + 1;
}

-- The loop `while (labels.length > max) shift()` over the three lists.
unfoldable pub shift_loop : ℕ → List ℕ → List ℕ → List ℕ → List ℕ × List ℕ × List ℕ
shift_loop max_points [] ins outs = ([], ins, outs)
shift_loop max_points (l ∷ ls) ins outs =
    let rest = shift_loop max_points ls (drop 1 ins) (drop 1 outs) in
    if ltb max_points (length (l ∷ ls)) then rest else (l ∷ ls, ins, outs)

-- A delta appends one sample.
unfoldable pub push_sample : Sample → Chart → Chart
unfolding shift_loop
push_sample s c =
    let (labels, ins, outs) =
      shift_loop c.max_points (c.labels ++ s.ts ∷ []) (c.frames_in ++ s.fi ∷ [])
        (c.frames_out ++ s.fo ∷ []) in
    record c { labels = labels; frames_in = ins; frames_out = outs; draws = c.draws + 1 }

-- The part of a snapshot or a delta that the page reads.
pub record Snapshot : Type 0 where
  pub node_connected : Bool
  pub node_address : Text
  pub active_clients : ℕ
  pub uptime_str : Text
  pub node_reconnects : ℕ
  pub config_cache_frames : ℕ
  pub config_cache_age : Text
  pub frames_from_node : ℕ
  pub bytes_from_node : ℕ
  pub frames_to_node : ℕ
  pub bytes_to_node : ℕ
  pub traffic_series : Option (List Sample)
  pub max_traffic_samples : Option ℕ
  pub latest_sample : Option Sample
  pub message_type_counts : Option (List (Text × ℕ))
  pub node_dir : Dir

abbrev pub series_of : Option (List Sample) → List Sample
series_of none = []
series_of (some ss) = ss

abbrev pub latest : Option Sample → Chart → Chart
latest none c = c
latest (some s) c = push_sample s c

-- The traffic part of `updateMetricsUI`.
unfoldable pub update_chart : Snapshot → Chart → Chart
unfolding replace_series push_sample
update_chart snap c = elim (series_of snap.traffic_series) [
  | [] ↦ latest snap.latest_sample c
  | s ∷ ss ↦ replace_series snap.max_traffic_samples (s ∷ ss) c
]

abbrev pub palette : List Text
palette =
    text "#60a5fa"
    ∷ text "#f472b6"
    ∷ text "#34d399"
    ∷ text "#fbbf24"
    ∷ text "#a78bfa"
    ∷ text "#fb923c"
    ∷ text "#22d3ee"
    ∷ text "#e879f9"
    ∷ text "#4ade80"
    ∷ text "#f87171"
    ∷ text "#818cf8"
    ∷ text "#2dd4bf"
    ∷ text "#facc15"
    ∷ text "#c084fc"
    ∷ text "#fb7185"
    ∷ []

abbrev pub colour_or_blank : Option Text → Text
colour_or_blank none = []
colour_or_blank (some c) = c

abbrev pub colour_at : List Text → ℕ → Text
colour_at cs i = colour_or_blank (get_elem? cs i)

-- The loop of `generateColors`, from index `i` with `left` rounds to go.
unfoldable pub colours_from : ℕ → ℕ → List Text
colours_from i zero = []
colours_from i (suc left) = colour_at palette (i % 15) ∷ colours_from (i + 1) left

unfoldable pub generate_colours : ℕ → List Text
unfolding colours_from
generate_colours n = colours_from 0 n

-- The chart of the types and its legend, a colour and a label for each row.
pub record Types : Type 0 where
  pub labels : List Text
  pub values : List ℕ
  pub colours : List Text
  pub legend : List (Text × Text)

-- `updateTypesLegend`: a row without a colour is grey.
unfoldable pub legend_from : List Text → ℕ → List Text → List (Text × Text)
legend_from colours i [] = []
legend_from colours i (l ∷ ls) =
    let c = colour_at colours i in
    ((if truthy c then c else text "#6b7280"), l) ∷ legend_from colours (i + 1) ls

-- The types part of `updateMetricsUI`.
unfoldable pub update_types : Snapshot → Types → Types
unfolding generate_colours legend_from
update_types snap t = elim snap.message_type_counts [
  | none ↦ t
  | some counts ↦
      let labels = map (λ p. p.0) counts in
      let colours = generate_colours (length labels) in
      record {
        labels = labels;
        values = map (λ p. p.1) counts;
        colours = colours;
        legend = legend_from colours 0 labels;
      }
]

-- The floating arithmetic of `formatBytes`, which the engine does: `Math.floor(Math.log(a) /
-- Math.log(b))`, and `(a / b).toFixed(1)`.
pub record Floats : Type 0 where
  pub floor_log : ℕ → ℕ → ℕ
  pub fixed_ratio : ℕ → ℕ → Text

abbrev pub unit : ℕ → Text
unit zero = text "B"
unit (suc zero) = text "KB"
unit (suc (suc zero)) = text "MB"
unit (suc (suc (suc _))) = text "GB"

-- `formatBytes`.
unfoldable format_bytes : Floats → ℕ → Text
unfolding to_string
format_bytes fl bytes =
    let i = min (fl.floor_log bytes 1024) 3 in
    if bytes == 0
    then text "0 B"
    else (if i == 0 then to_string 10 bytes else fl.fixed_ratio bytes (1024 ^ i))
      ++ (text " " ++ unit i)

pub record Cards : Type 0 where
  pub badge : Text
  pub node : Text
  pub status : Text
  pub clients : ℕ
  pub uptime : Text
  pub reconnects : Text
  pub cache_frames : Text
  pub cache_age : Text
  pub frames_in : ℕ
  pub bytes_in : Text
  pub frames_out : ℕ
  pub bytes_out : Text

-- The badge and the cards of `updateMetricsUI`; the marks of the connected state are left out.
unfoldable pub cards_of : Floats → Snapshot → Cards
unfolding to_string format_bytes
cards_of fl snap =
    let state = if snap.node_connected then text "Connected" else text "Disconnected" in
    record {
      badge = state;
      node = snap.node_address;
      status = state;
      clients = snap.active_clients;
      uptime = snap.uptime_str;
      reconnects = to_string 10 snap.node_reconnects ++ text " reconnects";
      cache_frames = to_string 10 snap.config_cache_frames ++ text " frames";
      cache_age =
          if truthy snap.config_cache_age
          then text "updated " ++ (snap.config_cache_age ++ text " ago")
          else text "not cached";
      frames_in = snap.frames_from_node;
      bytes_in = format_bytes fl snap.bytes_from_node;
      frames_out = snap.frames_to_node;
      bytes_out = format_bytes fl snap.bytes_to_node;
    }

-- The directory part: a snapshot with a directory replaces it.
unfoldable update_dir : Snapshot → Dir → Dir
update_dir snap dir = elim snap.node_dir [ none ↦ dir | some d ↦ some d ]
