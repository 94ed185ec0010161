-- ===== src/Map/Bound/Fresh.antt =====
-- Which popups tell what the directory holds.
use meshtastic_proxy.Base.{
  &&-true, ℕ, [], ◌∷◌, Bool, true, false, Option, none, some, if◌then◌else◌, ◌≡◌, refl, sym, ap,
  ◌∙◌, arith, ◌==◌, ==_iff, Bool-cases, inl, inr, nat_truthy,
}
use meshtastic_proxy.Base.NumMap.{NumMap, lookup, insert, IsSorted, lookup-insert, lookup-above}
use meshtastic_proxy.Directory.{Entry, Dir}
use meshtastic_proxy.Directory.Updates.{entry_at}
use meshtastic_proxy.Trace.Route.{has_position, is_drawable, draws}
use meshtastic_proxy.Map.{Map, is_placed}
use meshtastic_proxy.Map.Bound.{
  Content, Popups, write_popup, bind_popup, bind_placed, sweep_popups, refresh_popups,
}

-- The entry that the popup of a node was made from.
abbrev pub entry_of : Option Content → Option Entry
entry_of none = none
entry_of (some c) = some c.entry

abbrev pub told : ℕ → Popups → Option Entry
told n p = entry_of (lookup n p.contents)

told-write_popup :
    (now k n : ℕ) (e : Entry) (p : Popups)
    → told n (write_popup now k e p) ≡ (if k == n then some e else told n p)
told-write_popup now k n e p = elim (Bool-cases (k == n)) [
  | inl same ↦ rw (lookup-insert, same)
  | inr other ↦ rw (lookup-insert, other)
]

eq_of : (k n : ℕ) → (k == n) ≡ true → k ≡ n
eq_of k n h = (==_iff k n).0 h

if_true {ℓ} : {A : Type ℓ} (b : Bool) (x y : A) → b ≡ true → (if b then x else y) ≡ x
if_true b x y h = rw h

-- A popup that is bound again, of whatever node, tells the entry of the directory if it did before.
pub told-bound :
    (now k n : ℕ) (dir : Dir) (p : Popups)
    → ((k == n) ≡ false → told n p ≡ entry_at n dir)
    → (e : Entry) → entry_at k dir ≡ some e
    → is_drawable e ≡ true
    → told n (bind_popup now k (entry_at k dir) p) ≡ entry_at n dir
told-bound now k n dir p before e there drawable =
    ap (λ o. told n (bind_popup now k o p)) there
    ∙ ap (told n) (if_true (is_drawable e) (write_popup now k e p) p drawable)
    ∙ told-write_popup now k n e p
    ∙ elim (Bool-cases (k == n)) [
      | inl same ↦ rw same (sym there ∙ ap (λ x. entry_at x dir) (eq_of k n same))
      | inr other ↦ rw other (before other)
    ]

-- What a pass over the directory leaves as the entry told of a node.
abbrev placed_entry : Option Entry → Option Entry → Option Entry
placed_entry none o = o
placed_entry (some e) o = if has_position e then some e else o

told-insert_if :
    (b : Bool) (now k j : ℕ) (e : Entry) (cs : NumMap Content)
    → entry_of (lookup j (if b then insert k (record { entry = e; made_at = now }) cs else cs))
      ≡ (if k == j then (if b then some e else entry_of (lookup j cs)) else entry_of (lookup j cs))
told-insert_if false now k j e cs = elim (Bool-cases (k == j)) [ inl h ↦ rw h | inr h ↦ rw h ]
told-insert_if true now k j e cs = elim (Bool-cases (k == j)) [
  | inl h ↦ rw (lookup-insert, h)
  | inr h ↦ rw (lookup-insert, h)
]

told-bind_placed :
    (now j : ℕ) (d : NumMap Entry) (cs : NumMap Content)
    → IsSorted d
    → draws d ≡ true
    → entry_of (lookup j (bind_placed now d cs))
      ≡ placed_entry (lookup j d) (entry_of (lookup j cs))
unfolding bind_placed draws
told-bind_placed now j [] cs s a = unfold lookup in refl
told-bind_placed now j ((k, e) ∷ d) cs s a =
    let (here, there) = &&-true (is_drawable e) (draws d) a in
    let next = if has_position e then insert k (record { entry = e; made_at = now }) cs else cs in
    ap (λ x. entry_of (lookup j x)) (if_true (is_drawable e) (bind_placed now d next) cs here)
    ∙ told-bind_placed now j d next s.1 there
    ∙ ap (placed_entry (lookup j d)) (told-insert_if (has_position e) now k j e cs)
    ∙ elim (Bool-cases (k == j)) [
      | inl same ↦
          let gone : lookup j d ≡ none =
            ap (λ x. lookup x d) (sym (eq_of k j same)) ∙ lookup-above k k d (omega arith) s.0 in
          rw (same, gone) (unfold lookup in rw same)
      | inr other ↦ rw other (unfold lookup in rw other)
    ]

lookup-sweep_popups :
    (d : NumMap Entry) (cs : NumMap Content) (j : ℕ)
    → is_placed d j ≡ true
    → lookup j (sweep_popups d cs) ≡ lookup j cs
unfolding sweep_popups lookup
lookup-sweep_popups d [] j h = refl
lookup-sweep_popups d ((k, c) ∷ cs) j h = elim (Bool-cases (k == j)) [
  | inl same ↦
      let kept : is_placed d k ≡ true = ap (is_placed d) (eq_of k j same) ∙ h in rw (kept, same)
  | inr other ↦ ground (arith, lookup-sweep_popups d cs j h)
]

placed_told :
    (d : NumMap Entry) (n : ℕ) (o : Option Entry)
    → is_placed d n ≡ true
    → placed_entry (lookup n d) o ≡ lookup n d
unfolding is_placed
placed_told d n o h = go (lookup n d) h
  where
    go :
        (r : Option Entry)
        → elim r [ none ↦ false | some e ↦ has_position e ] ≡ true
        → placed_entry r o ≡ r
    go none h = absurd (cc h)
    go (some e) h = rw h

-- After `updateMapMarkers`, where it does not throw, the popup of every node with a position tells its entry.
pub told-refresh_popups :
    (now n : ℕ) (d : NumMap Entry) (m : Map) (p : Popups)
    → m.ready ≡ true
    → IsSorted d
    → draws d ≡ true
    → is_placed d n ≡ true
    → told n (refresh_popups now (some d) m p) ≡ lookup n d
unfolding refresh_popups
told-refresh_popups now n d m p ready sorted drawn placed =
    rw (ready, drawn)
      (ap entry_of (lookup-sweep_popups d (bind_placed now d p.contents) n placed)
        ∙ told-bind_placed now n d p.contents sorted drawn
        ∙ placed_told d n (told n p) placed)
