-- ===== src/Nodes.antt =====
-- nodes.js: the filters of the nodes tab and the order of its rows.
pub mod Table
pub mod Drawn
pub mod Sort
pub mod Filters
pub mod Row
pub mod Actions
pub mod Boxes
use meshtastic_proxy.Base.{
  ℕ, zero, suc, ◌+◌, ◌-◌, ◌/◌, ℤ, pos, negsuc, ◌-ℤ◌, leb_ℤ, List, [], ◌∷◌, ◌++◌, map, Text, text,
  Bool, true, false, not, ◌&&◌, ◌||◌, Option, none, some, ◌==◌, ltb, if◌then◌else◌, truthy,
  nat_truthy, int_truthy, bool_truthy, text_truthy, option_truthy, text_or, value_or, length, ◌≡◌,
  filter, includes, trim, eq_text, Locale,
}
use meshtastic_proxy.Base.NumMap.{NumMap}
use meshtastic_proxy.Mesh.Hex.{to_string, sliced_hex}
use meshtastic_proxy.Directory.{Entry, Dir, dir_or_empty}

pub data Mode : Type 0 where
  all_nodes realtime : Mode

pub data MqttFilter : Type 0 where
  any direct mqtt : MqttFilter

pub data PositionFilter : Type 0 where
  anywhere gps : PositionFilter

pub data SortKey : Type 0 where
  short_name user_id hw_model role last_heard hops_away rx_rssi rx_snr battery_level other : SortKey

pub data SortDir : Type 0 where
  asc desc : SortDir

-- The variables of the script that choose and order the rows, and the text of the search field.
pub record View : Type 0 where
  pub mode : Mode
  pub mqtt_filter : MqttFilter
  pub position_filter : PositionFilter
  pub roles : List Text
  pub filters_open : Bool
  pub sort_key : SortKey
  pub sort_dir : SortDir
  pub search : Text
  pub dot_shown : Bool

abbrev pub first_view : View
first_view = record {
  mode = all_nodes;
  mqtt_filter = any;
  position_filter = anywhere;
  roles = [];
  filters_open = false;
  sort_key = short_name;
  sort_dir = asc;
  search = [];
  dot_shown = false;
}

-- A row of the table: `num` and `entry`.
abbrev pub Node : Type 0
Node = ℕ × Entry

-- `Set.prototype.has`.
unfoldable pub has_role : List Text → Text → Bool
has_role [] r = false
has_role (x ∷ xs) r = eq_text x r || has_role xs r

-- The tests of the loop of `renderNodesTable`, one for each `continue`.
unfoldable pub passes_mode : Mode → Entry → Bool
passes_mode all_nodes e = true
passes_mode realtime e = truthy e.seen_realtime

unfoldable pub passes_mqtt : MqttFilter → Entry → Bool
passes_mqtt any e = true
passes_mqtt direct e = not (truthy e.via_mqtt)
passes_mqtt mqtt e = truthy e.via_mqtt

unfoldable pub passes_position : PositionFilter → Entry → Bool
passes_position anywhere e = true
passes_position gps e = truthy e.latitude || truthy e.longitude

unfoldable pub passes_roles : List Text → Entry → Bool
unfolding has_role
passes_roles [] e = true
passes_roles (r ∷ rs) e = has_role (r ∷ rs) (text_or e.role)

abbrev pub space : Text
space = text " "

unfoldable pub haystack : Locale → Node → Text
unfolding sliced_hex
haystack loc (n, e) = loc.lower (
    text_or e.short_name
    ++ (space
        ++ (text_or e.long_name
            ++ (space
                ++ (sliced_hex n
                    ++ (space
                        ++ (text_or e.user_id
                            ++ (space ++ (text_or e.hw_model ++ (space ++ text_or e.role))))))))))

unfoldable pub search_term : Locale → View → Text
unfolding trim
search_term loc v = trim (loc.lower v.search)

unfoldable pub passes_search : Locale → Text → Node → Bool
unfolding haystack
passes_search loc term node = not (truthy term) || includes (haystack loc node) term

unfoldable pub passes : Locale → View → Node → Bool
unfolding passes_mode passes_mqtt passes_position passes_roles passes_search search_term
passes loc v node =
    passes_mode v.mode node.1
    && (passes_mqtt v.mqtt_filter node.1
        && (passes_position v.position_filter node.1
            && (passes_roles v.roles node.1 && passes_search loc (search_term loc v) node)))

-- The values by which rows are ordered: text or number.
pub data SortValue : Type 0 where
  word : Text → SortValue
  number : ℤ → SortValue

abbrev or_number : Option ℤ → ℤ → SortValue
or_number o d = number (value_or o d)

abbrev or_count : Option ℕ → ℤ → SortValue
or_count none d = number d
or_count (some n) d = if truthy n then number (pos n) else number d

abbrev word_or : Text → Text → SortValue
word_or s t = if truthy s then word s else word t

-- `getSortValue`. An SNR counts quarters of a dB, so -999 is -3996.
unfoldable pub get_sort_value : Locale → SortKey → Node → SortValue
unfolding to_string sliced_hex
get_sort_value loc short_name (n, e) =
    word_or (loc.lower (text_or e.short_name)) (b'!' ∷ to_string 16 n)
get_sort_value loc user_id (n, e) = word_or (text_or e.user_id) (sliced_hex n)
get_sort_value loc hw_model (n, e) = word (loc.lower (text_or e.hw_model))
get_sort_value loc role (n, e) = word (loc.lower (text_or e.role))
get_sort_value loc last_heard (n, e) = or_count e.last_heard (pos 0)
get_sort_value loc hops_away (n, e) = or_count e.hops_away (pos 9999)
get_sort_value loc rx_rssi (n, e) = or_number e.rx_rssi (negsuc 998)
get_sort_value loc rx_snr (n, e) =
    if truthy e.rx_snr then or_number e.rx_snr (negsuc 3995) else or_number e.snr (negsuc 3995)
get_sort_value loc battery_level (n, e) = or_count e.battery_level (negsuc 0)
get_sort_value loc other (n, e) = word []

-- `String(v)`.
unfoldable pub as_text : SortValue → Text
unfolding to_string
as_text (word s) = s
as_text (number (pos n)) = to_string 10 n
as_text (number (negsuc n)) = b'-' ∷ to_string 10 (suc n)

unfoldable pub compare_values : Locale → SortValue → SortValue → ℤ
unfolding as_text ◌-ℤ◌
compare_values loc (number a) (number b) = a -ℤ b
compare_values loc (number a) (word t) = loc.compare (as_text (number a)) t
compare_values loc (word s) (number b) = loc.compare s (as_text (number b))
compare_values loc (word s) (word t) = loc.compare s t

abbrev pub is_favorite : Node → Bool
is_favorite node = truthy node.1.is_favorite

unfoldable pub directed : SortDir → ℤ → ℤ
unfolding ◌-ℤ◌
directed asc c = c
directed desc c = pos 0 -ℤ c

-- The comparison of `entries.sort`: favourites are pinned to the top.
unfoldable pub compare_nodes : Locale → SortKey → SortDir → Node → Node → ℤ
unfolding get_sort_value compare_values directed
compare_nodes loc key dir a b =
    if is_favorite a
    then (if is_favorite b
        then directed dir (compare_values loc (get_sort_value loc key a) (get_sort_value loc key b))
        else negsuc 0)
    else (if is_favorite b
        then pos 1
        else directed dir
            (compare_values loc (get_sort_value loc key a) (get_sort_value loc key b)))

-- `Array.prototype.sort` by a comparison, which is stable.
unfoldable pub insert_by {ℓ} : {A : Type ℓ} → (A → A → ℤ) → A → List A → List A
insert_by cmp x [] = x ∷ []
insert_by cmp x (y ∷ ys) =
    let rest = insert_by cmp x ys in if leb_ℤ (cmp x y) (pos 0) then x ∷ y ∷ ys else y ∷ rest

unfoldable pub sort_by {ℓ} : {A : Type ℓ} → (A → A → ℤ) → List A → List A
unfolding insert_by
sort_by cmp [] = []
sort_by cmp (x ∷ xs) = insert_by cmp x (sort_by cmp xs)
