-- ===== src/Trace/History/Return.antt =====
-- The return row of a trace in the history, which stands under the forward row.
use mathlib.Core.List.{reverse, reverse-append, reverse-cons, reverse-reverse, map-append}
use meshtastic_proxy.Base.{ℕ, ◌+◌, ℤ, List, [], ◌∷◌, ◌++◌, ◌≡◌, refl, sym, ap, ◌∙◌, length, map}
use meshtastic_proxy.Directory.{Dir}
use meshtastic_proxy.Mesh.Escape.{esc}
use meshtastic_proxy.Mesh.Names.{node_hex_name}
use meshtastic_proxy.Trace.Route.{TraceData, list_or_empty, hops}
use meshtastic_proxy.Trace.History.{forward_hops, back_chain, back_hops}

map-reverse {ℓ κ} :
    {A : Type ℓ} {B : Type κ} (f : A → B) (xs : List A) → map f (reverse xs) ≡ reverse (map f xs)
map-reverse f [] = refl
map-reverse f (x ∷ xs) =
    rw (reverse-cons x xs, map-append, map-reverse f xs, reverse-cons (f x) (map f xs))

names-forward_hops :
    (dir : Dir) (snr : List ℤ) (total k : ℕ) (ns : List ℕ)
    → map (λ h. h.name) (forward_hops dir snr total k ns) ≡ map (λ n. esc (node_hex_name dir n)) ns
unfolding forward_hops
names-forward_hops dir snr total k [] = refl
names-forward_hops dir snr total k (n ∷ ns) =
    ap (esc (node_hex_name dir n) ∷◌) (names-forward_hops dir snr total (k + 1) ns)

names-back_hops :
    (dir : Dir) (snr : List ℤ) (inner total k : ℕ) (ns : List ℕ)
    → map (λ h. h.name) (back_hops dir snr inner total k ns)
      ≡ map (λ n. esc (node_hex_name dir n)) ns
unfolding back_hops
names-back_hops dir snr inner total k [] = refl
names-back_hops dir snr inner total k (n ∷ ns) =
    ap (esc (node_hex_name dir n) ∷◌) (names-back_hops dir snr inner total (k + 1) ns)

reverse-back_chain :
    (t : TraceData)
    → list_or_empty t.route_back ≡ reverse (list_or_empty t.route)
    → reverse (back_chain t) ≡ hops t
unfolding back_chain hops
reverse-back_chain t e = rw (
  e,
  reverse-cons t.from (reverse (list_or_empty t.route) ++ t.to ∷ []),
  reverse-append (reverse (list_or_empty t.route)) (t.to ∷ []),
  reverse-reverse (list_or_empty t.route),
)

-- If the hops back are the forward hops in reverse, the return row names the same nodes as the
-- forward row, in the same order from our node to the target, so the two rows can be compared hop
-- by hop.
return_row_aligns :
    (dir : Dir) (t : TraceData)
    → list_or_empty t.route_back ≡ reverse (list_or_empty t.route)
    → map
        (λ h. h.name)
        (reverse (
          back_hops dir
            (list_or_empty t.snr_back)
            (length (list_or_empty t.route_back))
            (length (back_chain t))
            0
            (back_chain t)))
      ≡ map
          (λ h. h.name)
          (forward_hops dir (list_or_empty t.snr_towards) (length (hops t)) 0 (hops t))
return_row_aligns dir t e =
    map-reverse (λ h. h.name)
      (back_hops dir (list_or_empty t.snr_back) (length (list_or_empty t.route_back))
        (length (back_chain t)) 0 (back_chain t))
    ∙ ap reverse (
        names-back_hops dir (list_or_empty t.snr_back) (length (list_or_empty t.route_back))
          (length (back_chain t)) 0 (back_chain t))
    ∙ sym (map-reverse (λ n. esc (node_hex_name dir n)) (back_chain t))
    ∙ ap (map (λ n. esc (node_hex_name dir n))) (reverse-back_chain t e)
    ∙ sym (names-forward_hops dir (list_or_empty t.snr_towards) (length (hops t)) 0 (hops t))
