-- ===== src/Map/Bound/Opened.antt =====
-- An open popup follows the directory; a closed one does not.
use meshtastic_proxy.Base.{
  ℕ, Bool, true, false, ◌&&◌, Option, none, some, if◌then◌else◌, ◌≡◌, ◌≢◌, refl, sym, ap, ◌∙◌,
  arith, ◌==◌, ==_iff, ==_refl, Bool-cases, inl, inr, truthy, nat_truthy,
}
use meshtastic_proxy.App.Listed.{
  IsListed, IsPlaced, apply_update-IsListed, position-drawable, telemetry-drawable, signal-drawable,
  info-drawable, draws-lookup,
}
use meshtastic_proxy.Base.NumMap.{NumMap, lookup, insert}
use meshtastic_proxy.Directory.{
  Entry, Dir, Update, TelemetryUpdate, FavoriteUpdate, position, telemetry, signal, info, favorite,
  dir_or_empty, merge_position, merge_telemetry, merge_signal, merge_info, put_position,
  put_telemetry, put_signal, put_info, put_favorite, apply_update,
}
use meshtastic_proxy.Directory.Updates.{entry_at, apply_update-other, lookup-insert_self}
use meshtastic_proxy.Trace.Route.{is_some, is_drawable}
use meshtastic_proxy.Map.{Map, is_placed}
use meshtastic_proxy.Map.Bound.{
  Content, Popups, is_open, refresh_if_open, refresh_popups, on_update, open_popup,
}
use meshtastic_proxy.Map.Bound.Fresh.{told, entry_of, told-bound, told-refresh_popups}

-- The popup of a marker is open.
pub record IsOpened (n : ℕ) (m : Map) (p : Popups) : Type 0 where
  pub ready : m.ready ≡ true
  pub marker : is_some (lookup n m.markers) ≡ true
  pub opened : is_open n p ≡ true

told-refresh_if_open :
    (now k n : ℕ) (dir : Dir) (m : Map) (p : Popups) (e : Entry)
    → IsOpened n m p
    → ((k == n) ≡ false → told n p ≡ entry_at n dir)
    → entry_at k dir ≡ some e
    → is_drawable e ≡ true
    → told n (refresh_if_open now k dir m p) ≡ entry_at n dir
unfolding refresh_if_open
told-refresh_if_open now k n dir m p e v before there drawable =
    elim (Bool-cases (m.ready && (is_some (lookup k m.markers) && is_open k p))) [
      | inl again ↦ simp again (told-bound now k n dir p before e there drawable)
      | inr kept ↦ simp kept (before (elsewhere kept))
    ]
  where
    elsewhere :
        (m.ready && (is_some (lookup k m.markers) && is_open k p)) ≡ false → (k == n) ≡ false
    elsewhere kept = elim (Bool-cases (k == n)) [
      | inr other ↦ other
      | inl same ↦
          let here : n ≡ k = sym ((==_iff k n).0 same) in
          let marker = sym (ap (λ x. is_some (lookup x m.markers)) here) ∙ v.marker in
          let opened = sym (ap (λ x. is_open x p) here) ∙ v.opened in
          absurd (ground (arith, v.ready, marker, opened, kept))
    ]

put_favorite-missing :
    (u : FavoriteUpdate) (dir : Dir)
    → (truthy u.node_num && is_some (lookup u.node_num (dir_or_empty dir))) ≡ false
    → put_favorite u dir ≡ dir
unfolding put_favorite
put_favorite-missing u none h = refl
put_favorite-missing u (some d) h = go (truthy u.node_num) (lookup u.node_num d) h
  where
    go :
        (b : Bool) (o : Option Entry)
        → (b && is_some o) ≡ false
        → (if b
            then elim o [
              | none ↦ some d
              | some e ↦ some (insert u.node_num (record e { is_favorite = u.is_favorite }) d)
            ]
            else some d)
          ≡ some d
    go false o h = refl
    go true none h = refl
    go true (some e) h = absurd (cc h)

apart : (k n : ℕ) → (k == n) ≡ false → k ≢ n
apart k n ne = λ e. ground arith

favorite_told :
    (now : ℕ) (u : FavoriteUpdate) (m : Map) (d : NumMap Entry) (p : Popups) (n : ℕ)
    → m.ready ≡ true
    → IsListed d
    → told n p ≡ lookup n d
    → is_placed (dir_or_empty (put_favorite u (some d))) n ≡ true
    → told n (on_update now (favorite u) m (some d) p) ≡ entry_at n (put_favorite u (some d))
unfolding on_update
favorite_told now u m d p n ready sorted fresh placed =
    elim (Bool-cases (truthy u.node_num && is_some (lookup u.node_num d))) [
      | inr missing ↦
          simp missing (fresh ∙ sym (ap (entry_at n) (put_favorite-missing u (some d) missing)))
      | inl found ↦ simp found (
          refreshed (put_favorite u (some d)) placed
            (unfold apply_update in apply_update-IsListed now (favorite u) (some d) tt sorted))
    ]
  where
    refreshed :
        (dir : Dir)
        → is_placed (dir_or_empty dir) n ≡ true
        → IsListed (dir_or_empty dir)
        → told n (refresh_popups now dir m p) ≡ entry_at n dir
    refreshed none placed sorted = unfold is_placed in absurd (cc placed)
    refreshed (some d) placed sorted =
        told-refresh_popups now n d m p ready sorted.sorted sorted.drawn placed

-- An event of the server, on a page where a popup is open that tells the entry of its node. The
-- directory lists each node once, in order; no node with a position lacks a coordinate, nor does a
-- position that the event brings (`nodePopupHTML` throws there). Then: if the node has a position after the event, the
-- popup tells its entry after the event.
pub opened_popup_lem :
    (now : ℕ) (u : Update) (m : Map) (d : NumMap Entry) (p : Popups) (n : ℕ)
    → IsOpened n m p
    → IsListed d
    → IsPlaced u
    → told n p ≡ lookup n d
    → is_placed (dir_or_empty (apply_update now u (some d))) n ≡ true
    → told n (on_update now u m (some d) p) ≡ entry_at n (apply_update now u (some d))
unfolding on_update apply_update put_position put_telemetry put_signal put_info
opened_popup_lem now (position u) m d p n v sorted full fresh placed =
    let k = u.node_num in
    let e = merge_position now u (lookup k d) in
    let other = apply_update-other now (position u) (some d) n in
    simp (v.ready, full)
      (told-bound now k n (some (insert k e d)) p (λ ne. fresh ∙ sym (other (apart k n ne))) e
        (lookup-insert_self k e d) (position-drawable now u (lookup k d) full))
opened_popup_lem now (telemetry u) m d p n v sorted full fresh placed =
    let k = u.node_num in
    let e = merge_telemetry now u (lookup k d) in
    let other = apply_update-other now (telemetry u) (some d) n in
    told-refresh_if_open now k n (some (insert k e d)) m p e v
      (λ ne. fresh ∙ sym (other (apart k n ne))) (lookup-insert_self k e d)
      (telemetry-drawable now u (lookup k d) (draws-lookup k d sorted.drawn))
opened_popup_lem now (signal u) m d p n v sorted full fresh placed =
    let k = u.node_num in
    let e = merge_signal now u (lookup k d) in
    let other = apply_update-other now (signal u) (some d) n in
    told-refresh_if_open now k n (some (insert k e d)) m p e v
      (λ ne. fresh ∙ sym (other (apart k n ne))) (lookup-insert_self k e d)
      (signal-drawable now u (lookup k d) (draws-lookup k d sorted.drawn))
opened_popup_lem now (info u) m d p n v sorted full fresh placed =
    let k = u.node_num in
    let e = merge_info now u (lookup k d) in
    let other = apply_update-other now (info u) (some d) n in
    told-refresh_if_open now k n (some (insert k e d)) m p e v
      (λ ne. fresh ∙ sym (other (apart k n ne))) (lookup-insert_self k e d)
      (info-drawable now u (lookup k d) (draws-lookup k d sorted.drawn))
opened_popup_lem now (favorite u) m d p n v sorted full fresh placed =
    favorite_told now u m d p n v.ready sorted fresh placed

refresh_if_open-closed :
    (now n : ℕ) (dir : Dir) (m : Map) (p : Popups)
    → is_open n p ≡ false
    → refresh_if_open now n dir m p ≡ p
unfolding refresh_if_open
refresh_if_open-closed now n dir m p closed =
    let cond : (m.ready && (is_some (lookup n m.markers) && is_open n p)) ≡ false =
      ground (arith, closed) in
    simp cond

is_bound : (e : Entry) (o : Option Content) → entry_of o ≡ some e → is_some o ≡ true
is_bound e none h = absurd (cc h)
is_bound e (some c) h = refl

open_popup_lem :
    (n : ℕ) (e : Entry) (p : Popups)
    → told n p ≡ some e
    → (is_open n (open_popup n p) ≡ true) × (told n (open_popup n p) ≡ some e)
unfolding open_popup is_open
open_popup_lem n e p bound =
    let there = is_bound e (lookup n p.contents) bound in (simp there (==_refl n), simp there bound)

-- A telemetry event of a known node whose popup is closed changes the entry of the node, but not what
-- its popup tells: opened afterwards, it still tells the entry from before.
pub closed_popup_stale :
    (now : ℕ) (u : TelemetryUpdate) (m : Map) (d : NumMap Entry) (p : Popups) (e : Entry)
    → lookup u.node_num d ≡ some e
    → told u.node_num p ≡ some e
    → is_open u.node_num p ≡ false
    → let after = open_popup u.node_num (on_update now (telemetry u) m (some d) p) in
      (is_open u.node_num after ≡ true)
      × (told u.node_num after ≡ some e)
      × (entry_at u.node_num (apply_update now (telemetry u) (some d))
          ≡ some (merge_telemetry now u (some e)))
unfolding on_update apply_update put_telemetry
closed_popup_stale now u m d p e known bound closed =
    let n = u.node_num in
    let same = refresh_if_open-closed now n (put_telemetry now u (some d)) m p closed in
    (
      ap (λ q. is_open n (open_popup n q)) same ∙ (open_popup_lem n e p bound).0,
      ap (λ q. told n (open_popup n q)) same ∙ (open_popup_lem n e p bound).1,
      lookup-insert_self n _ d ∙ ap (λ o. some (merge_telemetry now u o)) known,
    )
