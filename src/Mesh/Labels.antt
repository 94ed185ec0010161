-- ===== src/Mesh/Labels.antt =====
-- utils.js and app.js: the hardware model, the role and the uptime of a node as labels.
pub mod Uptime
use meshtastic_proxy.Base.{
  ℕ, ◌/◌, ◌%◌, ◌<◌, [], ◌∷◌, ◌++◌, map, Text, text, Bool, true, false, ◌&&◌, ◌||◌, Option, none,
  some, ◌==◌, leb, ltb, if◌then◌else◌, truthy, nat_truthy, text_truthy, is_space, Locale,
}
use meshtastic_proxy.Mesh.Hex.{to_string}

-- `replace(/_/g, ' ')`.
abbrev blank_underscore : ℕ → ℕ
blank_underscore c = if c == b'_' then b' ' else c

abbrev is_word_char : ℕ → Bool
is_word_char c =
    leb b'a' c && leb c b'z' || leb b'A' c && leb c b'Z' || leb b'0' c && leb c b'9' || c == b'_'

-- `t.charAt(0).toUpperCase() + t.substr(1).toLowerCase()`, the same for `slice(1)`.
unfoldable capitalised : Locale → Text → Text
capitalised loc [] = []
capitalised loc (c ∷ t) = loc.upper (c ∷ []) ++ loc.lower t

-- `replace(/\w\S*/g, …)`: `word` is the part of a match that is read, if one is open.
unfoldable replace_words : Locale → Option Text → Text → Text
unfolding capitalised
replace_words loc none [] = []
replace_words loc (some word) [] = capitalised loc word
replace_words loc none (c ∷ t) =
    let opened = replace_words loc (some (c ∷ [])) t in
    let skipped = replace_words loc none t in if is_word_char c then opened else c ∷ skipped
replace_words loc (some word) (c ∷ t) =
    let closed = replace_words loc none t in
    let longer = replace_words loc (some (word ++ c ∷ [])) t in
    if is_space c then capitalised loc word ++ c ∷ closed else longer

-- `Mesh.formatHwModel`.
unfoldable pub format_hw_model : Locale → Text → Text
unfolding replace_words
format_hw_model loc m = if truthy m then replace_words loc none (map blank_underscore m) else []

-- `Mesh.formatRole`.
unfoldable pub format_role : Locale → Text → Text
format_role loc [] = []
format_role loc (c ∷ r) = loc.upper (c ∷ []) ++ map blank_underscore (loc.lower r)

-- `formatUptime`.
unfoldable pub format_uptime : ℕ → Text
format_uptime secs =
    let d = secs / 86400 in
    let h = secs % 86400 / 3600 in
    let m = secs % 3600 / 60 in
    if truthy secs
    then (if ltb 0 d
        then to_string 10 d ++ (text "d " ++ (to_string 10 h ++ text "h"))
        else if ltb 0 h
        then to_string 10 h ++ (text "h " ++ (to_string 10 m ++ text "m"))
        else to_string 10 m ++ text "m")
    else []
