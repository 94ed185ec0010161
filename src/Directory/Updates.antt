-- ===== src/Directory/Updates.antt =====
-- The directory under a sequence of events: which entry an event touches, the order of the keys,
-- and that no node is lost.
use meshtastic_proxy.Base.{
  ℕ, List, [], ◌∷◌, Bool, true, false, Option, none, some, if◌then◌else◌, ◌≡◌, refl, sym, ap, ◌∙◌,
  ◌≢◌, ◌⊎◌, arith, truthy, nat_truthy, ◌==◌, ==_iff, Bool-cases, inl, inr,
}
use meshtastic_proxy.Base.NumMap.{NumMap, lookup, insert, IsSorted, lookup-insert, insert-IsSorted}
use meshtastic_proxy.Directory.{
  Entry, Dir, Update, position, telemetry, signal, info, favorite, FavoriteUpdate, merge_position,
  merge_telemetry, merge_signal, merge_info, put_position, put_telemetry, put_signal, put_info,
  put_favorite, dir_or_empty, apply_update, apply_updates,
}

-- The node that an event names.
abbrev pub target : Update → ℕ
target (position u) = u.node_num
target (telemetry u) = u.node_num
target (signal u) = u.node_num
target (info u) = u.node_num
target (favorite u) = u.node_num

-- `nodeDir[j]`.
abbrev pub entry_at : ℕ → Dir → Option Entry
entry_at j dir = lookup j (dir_or_empty dir)

lookup-insert_ne :
    (k j : ℕ) (v : Entry) (m : NumMap Entry) → k ≢ j → lookup j (insert k v m) ≡ lookup j m
lookup-insert_ne k j v m ne = rw lookup-insert (ground arith)

pub lookup-insert_self : (k : ℕ) (v : Entry) (m : NumMap Entry) → lookup k (insert k v m) ≡ some v
lookup-insert_self k v m = rw lookup-insert (ground arith)

favorite-other :
    (u : FavoriteUpdate) (d : NumMap Entry) (j : ℕ)
    → u.node_num ≢ j
    → entry_at j (put_favorite u (some d)) ≡ lookup j d
favorite-other u d j ne = unfold put_favorite in go (truthy u.node_num) (lookup u.node_num d)
  where
    go :
        (b : Bool) (o : Option Entry)
        → entry_at j (
            if b
            then elim o [
              | none ↦ some d
              | some e ↦ some (insert u.node_num (record e { is_favorite = u.is_favorite }) d)
            ]
            else some d)
          ≡ lookup j d
    go false o = refl
    go true none = refl
    go true (some e) = lookup-insert_ne u.node_num j _ d ne

-- An event leaves the entry of every node but the one that it names as it was.
pub apply_update-other :
    (now : ℕ) (u : Update) (dir : Dir) (j : ℕ)
    → target u ≢ j
    → entry_at j (apply_update now u dir) ≡ entry_at j dir
unfolding apply_update put_position put_telemetry put_signal put_info
apply_update-other now (position u) none j ne = refl
apply_update-other now (position u) (some d) j ne = lookup-insert_ne u.node_num j _ d ne
apply_update-other now (telemetry u) none j ne = refl
apply_update-other now (telemetry u) (some d) j ne = lookup-insert_ne u.node_num j _ d ne
apply_update-other now (signal u) none j ne = refl
apply_update-other now (signal u) (some d) j ne = lookup-insert_ne u.node_num j _ d ne
apply_update-other now (info u) none j ne = lookup-insert_ne u.node_num j _ [] ne
apply_update-other now (info u) (some d) j ne = lookup-insert_ne u.node_num j _ d ne
apply_update-other now (favorite u) none j ne = unfold put_favorite in refl
apply_update-other now (favorite u) (some d) j ne = favorite-other u d j ne

favorite-IsSorted :
    (u : FavoriteUpdate) (d : NumMap Entry)
    → IsSorted d
    → IsSorted (dir_or_empty (put_favorite u (some d)))
favorite-IsSorted u d s = unfold put_favorite in go (truthy u.node_num) (lookup u.node_num d)
  where
    go :
        (b : Bool) (o : Option Entry)
        → IsSorted (
            dir_or_empty (
              if b
              then elim o [
                | none ↦ some d
                | some e ↦ some (insert u.node_num (record e { is_favorite = u.is_favorite }) d)
              ]
              else some d))
    go false o = s
    go true none = s
    go true (some e) = insert-IsSorted u.node_num _ d s

pub apply_update-IsSorted :
    (now : ℕ) (u : Update) (dir : Dir)
    → IsSorted (dir_or_empty dir)
    → IsSorted (dir_or_empty (apply_update now u dir))
unfolding apply_update put_position put_telemetry put_signal put_info
apply_update-IsSorted now (position u) none s = tt
apply_update-IsSorted now (position u) (some d) s = insert-IsSorted u.node_num _ d s
apply_update-IsSorted now (telemetry u) none s = tt
apply_update-IsSorted now (telemetry u) (some d) s = insert-IsSorted u.node_num _ d s
apply_update-IsSorted now (signal u) none s = tt
apply_update-IsSorted now (signal u) (some d) s = insert-IsSorted u.node_num _ d s
apply_update-IsSorted now (info u) none s = unfold insert in (tt, tt)
apply_update-IsSorted now (info u) (some d) s = insert-IsSorted u.node_num _ d s
apply_update-IsSorted now (favorite u) none s = unfold put_favorite in tt
apply_update-IsSorted now (favorite u) (some d) s = favorite-IsSorted u d s

-- Through any events the nodes of the directory stay in ascending order, each listed once.
pub apply_updates-IsSorted :
    (us : List (ℕ × Update)) (dir : Dir)
    → IsSorted (dir_or_empty dir)
    → IsSorted (dir_or_empty (apply_updates us dir))
unfolding apply_updates
apply_updates-IsSorted [] dir s = s
apply_updates-IsSorted ((now, u) ∷ us) dir s =
    apply_updates-IsSorted us (apply_update now u dir) (apply_update-IsSorted now u dir s)

-- The entry that an event gives to its node in a directory that is there. A favourite mark makes
-- no entry.
abbrev pub entry_after : ℕ → Update → Option Entry → Option Entry
entry_after now (position u) o = some (merge_position now u o)
entry_after now (telemetry u) o = some (merge_telemetry now u o)
entry_after now (signal u) o = some (merge_signal now u o)
entry_after now (info u) o = some (merge_info now u o)
entry_after now (favorite u) none = none
entry_after now (favorite u) (some e) = some (record e { is_favorite = u.is_favorite })

pub favorite_self :
    (now : ℕ) (u : FavoriteUpdate) (d : NumMap Entry)
    → truthy u.node_num ≡ true
    → entry_at u.node_num (put_favorite u (some d))
      ≡ entry_after now (favorite u) (lookup u.node_num d)
favorite_self now u d h = unfold put_favorite in rw h (go (lookup u.node_num d) refl)
  where
    go :
        (o : Option Entry)
        → lookup u.node_num d ≡ o
        → entry_at u.node_num (elim o [
          | none ↦ some d
          | some e ↦ some (insert u.node_num (record e { is_favorite = u.is_favorite }) d)
        ])
          ≡ entry_after now (favorite u) o
    go none e = e
    go (some x) e = lookup-insert_self u.node_num _ d

-- In a directory that is there, the node that an event names (not 0, where the event is a
-- favourite mark) has after it the entry that its merge gives.
pub apply_update_self :
    (now : ℕ) (u : Update) (d : NumMap Entry)
    → truthy (target u) ≡ true
    → entry_at (target u) (apply_update now u (some d)) ≡ entry_after now u (lookup (target u) d)
unfolding apply_update put_position put_telemetry put_signal put_info
apply_update_self now (position u) d h = lookup-insert_self u.node_num _ d
apply_update_self now (telemetry u) d h = lookup-insert_self u.node_num _ d
apply_update_self now (signal u) d h = lookup-insert_self u.node_num _ d
apply_update_self now (info u) d h = lookup-insert_self u.node_num _ d
apply_update_self now (favorite u) d h = favorite_self now u d h

self_or_same :
    (now : ℕ) (u : Update) (d : NumMap Entry)
    → (entry_at (target u) (apply_update now u (some d)) ≡ entry_after now u (lookup (target u) d))
      ⊎ (apply_update now u (some d) ≡ some d)
unfolding apply_update put_position put_telemetry put_signal put_info
self_or_same now (position u) d = inl (lookup-insert_self u.node_num _ d)
self_or_same now (telemetry u) d = inl (lookup-insert_self u.node_num _ d)
self_or_same now (signal u) d = inl (lookup-insert_self u.node_num _ d)
self_or_same now (info u) d = inl (lookup-insert_self u.node_num _ d)
self_or_same now (favorite u) d = elim (Bool-cases (truthy u.node_num)) [
  | inl h ↦ inl (favorite_self now u d h)
  | inr h ↦ inr (unfold put_favorite in rw h)
]

abbrev IsKnown : ℕ → Dir → Type 0
IsKnown j dir = (e : Entry) × (entry_at j dir ≡ some e)

entry_after-known :
    (now : ℕ) (u : Update) (e : Entry) → (f : Entry) × (entry_after now u (some e) ≡ some f)
entry_after-known now (position u) e = (_, refl)
entry_after-known now (telemetry u) e = (_, refl)
entry_after-known now (signal u) e = (_, refl)
entry_after-known now (info u) e = (_, refl)
entry_after-known now (favorite u) e = (_, refl)

apply_update-IsKnown :
    (now : ℕ) (u : Update) (dir : Dir) (j : ℕ) → IsKnown j dir → IsKnown j (apply_update now u dir)
apply_update-IsKnown now u none j (e, h) = unfold lookup in cc
apply_update-IsKnown now u (some d) j (e, h) = elim (Bool-cases (target u == j)) [
  | inr ne ↦ (e, apply_update-other now u (some d) j (ground arith) ∙ h)
  | inl eq ↦
      let same : target u ≡ j = (==_iff (target u) j).0 eq in
      elim (self_or_same now u d) [
        | inr kept ↦ (e, ap (entry_at j) kept ∙ h)
        | inl self ↦
            let (f, known) = entry_after-known now u e in
            let old : lookup (target u) d ≡ some e = ap (λ k. lookup k d) same ∙ h in
            (
              f,
              ap (λ k. entry_at k (apply_update now u (some d))) (sym same)
                  ∙ self
                  ∙ ap (entry_after now u) old
                  ∙ known,
            )
      ]
]

-- No event removes a node: through any events, a node that the directory knows stays known.
apply_updates-IsKnown :
    (us : List (ℕ × Update)) (dir : Dir) (j : ℕ) → IsKnown j dir → IsKnown j (apply_updates us dir)
unfolding apply_updates
apply_updates-IsKnown [] dir j k = k
apply_updates-IsKnown ((now, u) ∷ us) dir j k =
    apply_updates-IsKnown us (apply_update now u dir) j (apply_update-IsKnown now u dir j k)
