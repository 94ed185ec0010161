-- ===== src/Tests/Mesh.antt =====
-- Runs of utils.js: escaped texts, node numbers as text, ages.
use meshtastic_proxy.Base.{ℕ, ◌+◌, ◌*◌, ◌≤◌, ◌<◌, ◌∷◌, ◌++◌, Text, text, ◌≡◌, arith, ◌↔◌, count}
use meshtastic_proxy.Mesh.Hex.{to_string}
use meshtastic_proxy.Mesh.Escape.{esc}
use meshtastic_proxy.Mesh.Escape.Laws.{
  decode, attribute_value, is_quote, decode-esc, esc-attribute_iff,
}
use meshtastic_proxy.Mesh.Names.{format_unix_age}
use meshtastic_proxy.Mesh.Names.Age.{AgeUnit, seconds_of, suffix, Fits, format_unix_age_lem}

abbrev tag : Text
tag = text "<b title=\"x\">R&D</b>"

decode-esc_example : decode (esc tag) ≡ tag
decode-esc_example = decode-esc tag

esc-attribute_iff_example :
    (count is_quote tag ≡ 0) ↔ (attribute_value (esc tag ++ b'"' ∷ text " class") ≡ esc tag)
esc-attribute_iff_example = esc-attribute_iff tag (text " class")

format_unix_age_example :
    (u : AgeUnit) × (k : ℕ) × (format_unix_age 10000 2000 ≡ to_string 10 k ++ suffix u)
    × Fits u k
    × (k * seconds_of u ≤ 8000)
    × (8000 < (k + 1) * seconds_of u)
format_unix_age_example = format_unix_age_lem 10000 2000 (omega arith) (omega arith)
