-- ===== src/Mesh/Hex.antt =====
-- Node numbers as text (utils.js `nodeHex`, and the two other spellings of the same format in
-- nodes.js and app.js). Node numbers are uint32, so `n >>> 0` is `n % 2 ^ 32`.
pub mod Digits
pub mod Format
use meshtastic_proxy.Base.{
  ℕ, zero, suc, ◌+◌, ◌-◌, ◌*◌, ◌/◌, ◌%◌, ◌^◌, List, [], ◌∷◌, ◌++◌, map, Text, text, ltb, leb,
  if◌then◌else◌, truthy, nat_truthy, pad_start, slice_last,
}

-- `n.toString(b)`: the digits are pushed from the last one. The fuel `n + 1` is enough, since
-- every round divides by the base.
unfoldable pub digits : ℕ → ℕ → ℕ → List ℕ → List ℕ
digits b zero n acc = acc
digits b (suc fuel) n acc =
    let rest = digits b fuel (n / b) ((n % b) ∷ acc) in if ltb n b then n ∷ acc else rest

unfoldable pub digit_char : ℕ → ℕ
digit_char d = if ltb d 10 then 48 + d else 87 + d

unfoldable pub to_string : ℕ → ℕ → Text
unfolding digits digit_char
to_string b n = map digit_char (digits b (suc n) n [])

-- `parseInt(t, b)` of a text that holds digits alone.
unfoldable pub char_digit : ℕ → ℕ
char_digit c = if leb 97 c then c - 87 else c - 48

unfoldable pub parse_from : ℕ → ℕ → Text → ℕ
unfolding char_digit
parse_from b acc [] = acc
parse_from b acc (c ∷ t) = parse_from b (acc * b + char_digit c) t

unfoldable pub parse_int : ℕ → Text → ℕ
unfolding parse_from
parse_int b t = parse_from b 0 t

abbrev to_uint32 : ℕ → ℕ
to_uint32 n = n % 2 ^ 32

-- utils.js `nodeHex`.
unfoldable pub node_hex : ℕ → Text
unfolding to_string
node_hex n = if truthy n then b'!' ∷ pad_start 8 b'0' (to_string 16 (to_uint32 n)) else []

-- app.js `nodePopupHTML`, `nodePassesFilters` and utils.js `nodeHexName`: no `>>> 0`.
unfoldable pub plain_hex : ℕ → Text
unfolding to_string
plain_hex n = b'!' ∷ pad_start 8 b'0' (to_string 16 n)

-- nodes.js: `'!' + ('00000000' + (num >>> 0).toString(16)).slice(-8)`.
unfoldable pub sliced_hex : ℕ → Text
unfolding to_string
sliced_hex n = b'!' ∷ slice_last 8 (text "00000000" ++ to_string 16 (to_uint32 n))
