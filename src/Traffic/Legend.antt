-- ===== src/Traffic/Legend.antt =====
-- The colours and the legend of the message types.
use meshtastic_proxy.Base.{
  ℕ, zero, suc, ◌+◌, ◌%◌, ◌<◌, List, [], ◌∷◌, map, Text, true, some, truthy, text_truthy, ◌≡◌, refl,
  ap, ◌∙◌, arith, length, get_elem?, length-map, All,
}
use meshtastic_proxy.Traffic.{
  Types, Snapshot, palette, colour_at, colour_or_blank, colours_from, generate_colours, legend_from,
  update_types,
}

length-colours_from : (i n : ℕ) → length (colours_from i n) ≡ n
unfolding colours_from
length-colours_from i zero = refl
length-colours_from i (suc n) = ap suc (length-colours_from (i + 1) n)

get_elem?-colours_from :
    (i n k : ℕ) → k < n → get_elem? (colours_from i n) k ≡ some (colour_at palette ((i + k) % 15))
unfolding colours_from
get_elem?-colours_from i zero k h = elim h [ ]
get_elem?-colours_from i (suc n) zero h =
    let same : i ≡ i + 0 = omega arith in ap (λ j. some (colour_at palette (j % 15))) same
get_elem?-colours_from i (suc n) (suc k) h =
    let same : i + 1 + k ≡ i + suc k = omega arith in
    get_elem?-colours_from (i + 1) n k (omega arith)
    ∙ ap (λ j. some (colour_at palette (j % 15))) same

colour_at-colours :
    (n k : ℕ) → k < n → colour_at (generate_colours n) k ≡ colour_at palette (k % 15)
unfolding generate_colours
colour_at-colours n k h =
    let start : 0 + k ≡ k = omega arith in
    ap colour_or_blank (get_elem?-colours_from 0 n k h) ∙ ap (λ j. colour_at palette (j % 15)) start

colour_at-All :
    (P : Text → Type 0) (cs : List Text) (k : ℕ) → All P cs → k < length cs → P (colour_at cs k)
colour_at-All P [] k a h = elim h [ ]
colour_at-All P (c ∷ cs) zero a h = a.0
colour_at-All P (c ∷ cs) (suc k) a h = colour_at-All P cs k a.1 (omega arith)

palette-truthy : (k : ℕ) → truthy (colour_at palette (k % 15)) ≡ true
palette-truthy k =
    colour_at-All (λ c. truthy c ≡ true) palette (k % 15) (ground arith) (omega arith)

get_elem?-legend_from :
    (colours : List Text) (i k : ℕ) (ls : List Text) {l : Text}
    → truthy (colour_at colours (i + k)) ≡ true
    → get_elem? ls k ≡ some l
    → get_elem? (legend_from colours i ls) k ≡ some (colour_at colours (i + k), l)
unfolding legend_from
get_elem?-legend_from colours i k [] t h = cc
get_elem?-legend_from colours i zero (l ∷ ls) t h =
    let same : i + 0 ≡ i = omega arith in
    let lit : truthy (colour_at colours i) ≡ true = rw same at t in rw (same, lit) (cc)
get_elem?-legend_from colours i (suc k) (l ∷ ls) t h =
    let same : i + suc k ≡ i + 1 + k = omega arith in
    rw same (get_elem?-legend_from colours (i + 1) k ls (rw same at t) h)

-- After a snapshot with counts, the row of the k-th type in the legend has that type as its label
-- and the colour of the palette at k modulo 15, which is the colour of its slice.
legend_lem :
    (snap : Snapshot) (t : Types) (counts : List (Text × ℕ)) (k : ℕ) {l : Text}
    → snap.message_type_counts ≡ some counts
    → k < length counts
    → get_elem? (map (λ p. p.0) counts) k ≡ some l
    → let after = update_types snap t in
      (get_elem? after.legend k ≡ some (colour_at palette (k % 15), l))
      × (colour_at after.colours k ≡ colour_at palette (k % 15))
      × (after.values ≡ map (λ p. p.1) counts)
unfolding update_types
legend_lem snap t counts k {l} e h at_k =
    let n : ℕ = length (map (λ p. p.0) counts) in
    let same : n ≡ length counts = length-map (λ p. p.0) counts in
    let start : 0 + k ≡ k = omega arith in
    let colour : colour_at (generate_colours n) k ≡ colour_at palette (k % 15) =
      colour_at-colours n k (omega arith) in
    let colour' : colour_at (generate_colours n) (0 + k) ≡ colour_at palette (k % 15) =
      ap (colour_at (generate_colours n)) start ∙ colour in
    let row : get_elem? (legend_from (generate_colours n) 0 (map (λ p. p.0) counts)) k
        ≡ some (colour_at (generate_colours n) (0 + k), l) =
      get_elem?-legend_from (generate_colours n) 0 k (map (λ p. p.0) counts)
        (ap (λ c. truthy c) colour' ∙ palette-truthy k) at_k in
    rw e (row ∙ ap (λ c. some (c, l)) colour', colour, refl)
