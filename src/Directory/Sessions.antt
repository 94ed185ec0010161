-- ===== src/Directory/Sessions.antt =====
-- A session of update events, node by node: what a node's entry is after it, and that the order of
-- events for different nodes does not count.
pub mod Quotient
use mathlib.Core.Path.{subst}
use meshtastic_proxy.Base.{
  ℕ, ◌<◌, List, [], ◌∷◌, filter, Bool, true, false, Option, none, some, if◌then◌else◌, ◌≡◌, ◌≢◌,
  refl, sym, ap, ◌∙◌, arith, truthy, nat_truthy, ◌==◌, ==_iff, Bool-cases, inl, inr,
}
use meshtastic_proxy.Base.NumMap.{NumMap, lookup, insert, IsSorted}
use meshtastic_proxy.Base.NumMap.Ext.{NumMap-ext}
use meshtastic_proxy.Directory.{
  Entry, Dir, Update, position, telemetry, signal, info, favorite, FavoriteUpdate, put_favorite,
  put_position, put_telemetry, put_signal, put_info, dir_or_empty, apply_update, apply_updates,
}
use meshtastic_proxy.Directory.Updates.{
  target, entry_at, entry_after, apply_update-other, apply_update_self, favorite_self,
  lookup-insert_self, apply_update-IsSorted, apply_updates-IsSorted,
}

-- What an event makes of the entry of its node; the listener of a favourite mark passes over node 0.
abbrev effect : ℕ → Update → Option Entry → Option Entry
effect now (favorite u) o = if truthy u.node_num then entry_after now (favorite u) o else o
effect now (position u) o = entry_after now (position u) o
effect now (telemetry u) o = entry_after now (telemetry u) o
effect now (signal u) o = entry_after now (signal u) o
effect now (info u) o = entry_after now (info u) o

-- The events of a session that name a node, and the entry that they leave.
abbrev pub events_of : ℕ → List (ℕ × Update) → List (ℕ × Update)
events_of j us = filter (λ x. target x.1 == j) us

abbrev pub replay : List (ℕ × Update) → Option Entry → Option Entry
replay [] o = o
replay ((now, u) ∷ us) o = replay us (effect now u o)

favorite-effect :
    (now : ℕ) (u : FavoriteUpdate) (d : NumMap Entry)
    → entry_at u.node_num (put_favorite u (some d)) ≡ effect now (favorite u) (lookup u.node_num d)
favorite-effect now u d = elim (Bool-cases (truthy u.node_num)) [
  | inl h ↦ rw h (favorite_self now u d h)
  | inr h ↦ unfold put_favorite in simp (h) refl
]

apply_update-effect :
    (now : ℕ) (u : Update) (d : NumMap Entry)
    → entry_at (target u) (apply_update now u (some d)) ≡ effect now u (lookup (target u) d)
unfolding apply_update put_position put_telemetry put_signal put_info
apply_update-effect now (position u) d = lookup-insert_self u.node_num _ d
apply_update-effect now (telemetry u) d = lookup-insert_self u.node_num _ d
apply_update-effect now (signal u) d = lookup-insert_self u.node_num _ d
apply_update-effect now (info u) d = lookup-insert_self u.node_num _ d
apply_update-effect now (favorite u) d = favorite-effect now u d

favorite_there :
    (u : FavoriteUpdate) (d : NumMap Entry)
    → (e : NumMap Entry) × (put_favorite u (some d) ≡ some e)
favorite_there u d = unfold put_favorite in go (truthy u.node_num) (lookup u.node_num d)
  where
    go :
        (b : Bool) (o : Option Entry)
        → (e : NumMap Entry) × ((if b
              then elim o [
                | none ↦ some d
                | some e ↦ some (insert u.node_num (record e { is_favorite = u.is_favorite }) d)
              ]
              else some d)
            ≡ some e)
    go false o = (d, refl)
    go true none = (d, refl)
    go true (some e) = (_, refl)

-- A directory that is there stays there.
apply_update_there :
    (now : ℕ) (u : Update) (d : NumMap Entry)
    → (e : NumMap Entry) × (apply_update now u (some d) ≡ some e)
unfolding apply_update put_position put_telemetry put_signal put_info
apply_update_there now (position u) d = (_, refl)
apply_update_there now (telemetry u) d = (_, refl)
apply_update_there now (signal u) d = (_, refl)
apply_update_there now (info u) d = (_, refl)
apply_update_there now (favorite u) d = favorite_there u d

apply_updates_there :
    (us : List (ℕ × Update)) (d : NumMap Entry)
    → (e : NumMap Entry) × (apply_updates us (some d) ≡ some e)
unfolding apply_updates
apply_updates_there [] d = (d, refl)
apply_updates_there ((now, u) ∷ us) d =
    let (e, h) = apply_update_there now u d in
    let (f, k) = apply_updates_there us e in (f, ap (apply_updates us) h ∙ k)

replay-mine :
    (now : ℕ) (u : Update) (us : List (ℕ × Update)) (j : ℕ) (o : Option Entry)
    → target u ≡ j
    → replay (events_of j ((now, u) ∷ us)) o ≡ replay (events_of j us) (effect now u o)
replay-mine now u us j o h =
    let t : (target u == j) ≡ true = (==_iff (target u) j).1 h in simp (t) refl

replay-other :
    (now : ℕ) (u : Update) (us : List (ℕ × Update)) (j : ℕ) (o : Option Entry)
    → target u ≢ j
    → replay (events_of j ((now, u) ∷ us)) o ≡ replay (events_of j us) o
replay-other now u us j o h = ground arith

-- The directory is one register for each node: what a session leaves at a node of a directory that
-- is there is what the events of that node alone, in their order, make of its entry.
pub apply_updates-replay :
    (us : List (ℕ × Update)) (d : NumMap Entry) (j : ℕ)
    → entry_at j (apply_updates us (some d)) ≡ replay (events_of j us) (lookup j d)
unfolding apply_updates
apply_updates-replay [] d j = refl
apply_updates-replay ((now, u) ∷ us) d j =
    let (e, there) = apply_update_there now u d in
    let later : entry_at j (apply_updates us (apply_update now u (some d)))
        ≡ replay (events_of j us) (entry_at j (apply_update now u (some d))) =
      rw there (apply_updates-replay us e j) in
    elim (Bool-cases (target u == j)) [
      | inl h ↦
          let mine : target u ≡ j = (==_iff (target u) j).0 h in
          later
          ∙ ap (replay (events_of j us)) (
              subst (λ k. entry_at k (apply_update now u (some d)) ≡ effect now u (lookup k d)) mine
                (apply_update-effect now u d))
          ∙ sym (replay-mine now u us j (lookup j d) mine)
      | inr h ↦
          let other : target u ≢ j = ground arith in
          later
          ∙ ap (replay (events_of j us)) (apply_update-other now u (some d) j other)
          ∙ sym (replay-other now u us j (lookup j d) other)
    ]

-- The order of events for different nodes does not count: on a directory that is there with its keys
-- in order, two sessions that hold for each node the same events in the same order leave the same
-- directory.
pub apply_updates-reorder :
    (us vs : List (ℕ × Update)) (d : NumMap Entry)
    → IsSorted d
    → ((j : ℕ) → events_of j us ≡ events_of j vs)
    → apply_updates us (some d) ≡ apply_updates vs (some d)
apply_updates-reorder us vs d s same =
    let (a, left) = apply_updates_there us d in
    let (b, right) = apply_updates_there vs d in
    let agree : (j : ℕ) → lookup j a ≡ lookup j b = λ j.
      ap (entry_at j) (sym left)
      ∙ apply_updates-replay us d j
      ∙ ap (λ es. replay es (lookup j d)) (same j)
      ∙ sym (apply_updates-replay vs d j)
      ∙ ap (entry_at j) right in
    let sorted_a : IsSorted a =
      subst (λ x. IsSorted (dir_or_empty x)) left (apply_updates-IsSorted us (some d) s) in
    let sorted_b : IsSorted b =
      subst (λ x. IsSorted (dir_or_empty x)) right (apply_updates-IsSorted vs (some d) s) in
    left ∙ ap some (NumMap-ext a b sorted_a sorted_b agree) ∙ sym right
