-- ===== src/Mesh/Hex/Format.antt =====
-- The identifier `!xxxxxxxx` of a node: its length, that it determines the node, and that the
-- three spellings of the format in utils.js, nodes.js and app.js agree on uint32.
use native.Mathlib.Nat.{mod-eq_of_lt}
use meshtastic_proxy.Base.{
  ℕ, zero, suc, ◌+◌, ◌-◌, ◌^◌, ◌≤◌, ◌<◌, [], ◌∷◌, ◌++◌, Text, text, ◌≡◌, sym, ap, ◌∙◌, arith,
  length, length-append, length-replicate, replicate, drop, pad_start, slice_last, nat_truthy,
}
use meshtastic_proxy.Mesh.Hex.{to_string, parse_int, node_hex, plain_hex, sliced_hex}
use meshtastic_proxy.Mesh.Hex.Digits.{parse_int-to_string, length-to_string, parse_int-pad_start}

hex_digits-le : (n : ℕ) → n < 2 ^ 32 → length (to_string 16 n) ≤ 8
hex_digits-le n h = length-to_string n 7 h

-- Of a number that fits, `>>> 0` is the number itself.
node_hex-plain : (n : ℕ) → 0 < n → n < 2 ^ 32 → node_hex n ≡ plain_hex n
unfolding node_hex plain_hex
node_hex-plain zero p h = elim p [ ]
node_hex-plain (suc n) p h = rw (mod-eq_of_lt h)

length-plain_hex : (n : ℕ) → n < 2 ^ 32 → length (plain_hex n) ≡ 9
unfolding plain_hex
length-plain_hex n h = omega (
  arith,
  length-append (replicate (8 - length (to_string 16 n)) b'0') (to_string 16 n),
  length-replicate {A = ℕ} (8 - length (to_string 16 n)) b'0',
  hex_digits-le n h,
)

-- For a node number of 32 bits that is not 0, `nodeHex` has 9 characters.
length-node_hex : (n : ℕ) → 0 < n → n < 2 ^ 32 → length (node_hex n) ≡ 9
length-node_hex n p h = rw (node_hex-plain n p h) (length-plain_hex n h)

abbrev tail_of : Text → Text
tail_of [] = []
tail_of (_ ∷ t) = t

parse-plain_hex : (n : ℕ) → parse_int 16 (tail_of (plain_hex n)) ≡ n
unfolding plain_hex
parse-plain_hex n =
    parse_int-pad_start 16 8 (to_string 16 n) ∙ parse_int-to_string 16 n (omega arith) (omega arith)

-- Two node numbers of 32 bits, neither of them 0, with the same `nodeHex` are the same number.
node_hex_inj : (n m : ℕ) → 0 < n → n < 2 ^ 32 → 0 < m → m < 2 ^ 32 → node_hex n ≡ node_hex m → n ≡ m
node_hex_inj n m pn hn pm hm e =
    let same : plain_hex n ≡ plain_hex m =
      sym (node_hex-plain n pn hn) ∙ e ∙ node_hex-plain m pm hm in
    sym (parse-plain_hex n) ∙ ap (λ t. parse_int 16 (tail_of t)) same ∙ parse-plain_hex m

drop_padding :
    (k l j : ℕ) (t : Text) → k ≡ l + j → drop l (replicate k b'0' ++ t) ≡ replicate j b'0' ++ t
drop_padding k zero j t e = let same : k ≡ j = omega arith in ap (λ i. replicate i b'0' ++ t) same
drop_padding zero (suc l) j t e = absurd (omega arith)
drop_padding (suc k) (suc l) j t e = drop_padding k l j t (omega arith)

-- The last eight characters of eight zeros and at most eight characters: the text, padded.
slice_last-zeros :
    (t : Text) → length t ≤ 8 → slice_last 8 (text "00000000" ++ t) ≡ pad_start 8 b'0' t
slice_last-zeros t h =
    let cut : length (text "00000000" ++ t) - 8 ≡ length t =
      omega (arith, length-append (text "00000000") t) in
    ap (λ i. drop i (text "00000000" ++ t)) cut
    ∙ drop_padding 8 (length t) (8 - length t) t (omega arith)

-- On node numbers of 32 bits, not 0, the three spellings of the format give the same text.
hex_spellings_agree :
    (n : ℕ) → 0 < n → n < 2 ^ 32 → (node_hex n ≡ plain_hex n) × (sliced_hex n ≡ plain_hex n)
hex_spellings_agree n p h = (node_hex-plain n p h, sliced)
  where
    sliced : sliced_hex n ≡ plain_hex n
    sliced =
        unfold sliced_hex plain_hex in
        rw (mod-eq_of_lt h) (ap (b'!' ∷◌) (slice_last-zeros (to_string 16 n) (hex_digits-le n h)))
