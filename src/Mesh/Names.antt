-- ===== src/Mesh/Names.antt =====
-- utils.js: the name of a node as HTML and as plain text, and the age of a time stamp.
pub mod Age
use meshtastic_proxy.Base.{
  ℕ, ◌+◌, ◌-◌, ◌/◌, List, [], ◌∷◌, ◌++◌, Text, text, Option, none, some, ◌==◌, ltb, if◌then◌else◌,
  truthy, nat_truthy, text_truthy, option_truthy, text_or,
}
use meshtastic_proxy.Base.NumMap.{lookup}
use meshtastic_proxy.Mesh.Hex.{to_string, node_hex, plain_hex}
use meshtastic_proxy.Mesh.Escape.{esc}
use meshtastic_proxy.Directory.{Entry, Dir, dir_or_empty}

-- `nodeDir[n].short_name`, where the directory, the entry and the field are there.
unfoldable short_name_of : ℕ → Dir → Option Text
unfolding lookup
short_name_of n dir = elim (lookup n (dir_or_empty dir)) [ none ↦ none | some e ↦ e.short_name ]

unfoldable long_name_of : ℕ → Dir → Option Text
unfolding lookup
long_name_of n dir = elim (lookup n (dir_or_empty dir)) [ none ↦ none | some e ↦ e.long_name ]

-- `Mesh.nodeName`.
unfoldable pub node_name : Dir → ℕ → Text
unfolding node_hex esc short_name_of long_name_of
node_name dir n =
    if truthy n
    then (if truthy (short_name_of n dir)
        then text "<span title=\""
          ++ (esc (node_hex n)
              ++ (text " ("
                  ++ (esc (text_or (long_name_of n dir))
                      ++ (text ")\" class=\"cursor-help\">"
                          ++ (esc (text_or (short_name_of n dir)) ++ text "</span>")))))
        else text "<code class=\"font-mono text-xs text-gray-400\">"
          ++ (esc (node_hex n) ++ text "</code>"))
    else []

-- `Mesh.nodeNameText`.
unfoldable pub node_name_text : Dir → ℕ → Text
unfolding node_hex short_name_of
node_name_text dir n =
    if n == 0xffff_ffff
    then text "Broadcast"
    else if truthy (short_name_of n dir)
    then text_or (short_name_of n dir)
    else node_hex n

-- `Mesh.nodeHexName`.
unfoldable pub node_hex_name : Dir → ℕ → Text
unfolding plain_hex short_name_of
node_hex_name dir n =
    if truthy n
    then (if truthy (short_name_of n dir) then text_or (short_name_of n dir) else plain_hex n)
    else text "?"

-- `Mesh.formatUnixAge`, with the time of the clock in seconds.
unfoldable pub format_unix_age : ℕ → ℕ → Text
format_unix_age now ts =
    let diff = now - ts in
    if truthy ts
    then (if ltb now ts
        then text "just now"
        else if ltb diff 60
        then to_string 10 diff ++ text "s ago"
        else if ltb diff 3600
        then to_string 10 (diff / 60) ++ text "m ago"
        else if ltb diff 86400
        then to_string 10 (diff / 3600) ++ text "h ago"
        else to_string 10 (diff / 86400) ++ text "d ago")
    else []
