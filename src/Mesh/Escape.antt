-- ===== src/Mesh/Escape.antt =====
-- utils.js `esc`: the text is written to `textContent` of a fresh element and read back from
-- `innerHTML`, which escapes a text node by the rules of the HTML standard.
pub mod Laws
use meshtastic_proxy.Base.{
  ℕ, List, [], ◌∷◌, ◌++◌, Text, text, ◌==◌, if◌then◌else◌, truthy, text_truthy,
}

-- One code unit of a text node, serialised.
unfoldable pub escape_char : ℕ → Text
escape_char c =
    if c == b'&'
    then text "&amp;"
    else if c == b'<'
    then text "&lt;"
    else if c == b'>'
    then text "&gt;"
    else if c == 0xa0
    then text "&nbsp;"
    else c ∷ []

unfoldable pub inner_html : Text → Text
unfolding escape_char
inner_html [] = []
inner_html (c ∷ s) = escape_char c ++ inner_html s

unfoldable pub esc : Text → Text
unfolding inner_html
esc s = if truthy s then inner_html s else []
