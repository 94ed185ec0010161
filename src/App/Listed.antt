-- ===== src/App/Listed.antt =====
-- The directories on which no drawing throws: each lists every node once, in order, and a node that
-- has a position has both coordinates. Which events of the server keep a directory so.
use meshtastic_proxy.Base.{
  Bool-cases, inl, inr, sym, ap, ◌∙◌, ℕ, [], ◌∷◌, Bool, true, false, not, ◌&&◌, ◌||◌, Option, none,
  some, if◌then◌else◌, ◌≡◌, refl, ltb, ◌==◌, truthy, nat_truthy, text_truthy, option_truthy,
  int_truthy,
}
use meshtastic_proxy.Base.NumMap.{NumMap, lookup, insert, IsSorted}
use meshtastic_proxy.Directory.{
  Entry, Dir, Update, PositionUpdate, TelemetryUpdate, SignalUpdate, InfoUpdate, FavoriteUpdate,
  position, telemetry, signal, info, favorite, dir_or_empty, merge_position, merge_telemetry,
  merge_signal, merge_info, put_position, put_telemetry, put_signal, put_info, put_favorite,
  apply_update,
}
use meshtastic_proxy.Directory.Updates.{apply_update-IsSorted}
use meshtastic_proxy.Trace.Route.{is_full, is_drawable, draws}
use meshtastic_proxy.Nodes.Actions.{mark_favorite, write_mark}
use meshtastic_proxy.App.Points.{mark_favorite-IsSorted}

pub record IsListed (d : NumMap Entry) : Type 0 where
  pub sorted : IsSorted d
  pub drawn : draws d ≡ true

-- A position that the server sends has both coordinates.
abbrev pub IsPlaced : Update → Type 0
IsPlaced (position u) = is_full (u.latitude, u.longitude) ≡ true
IsPlaced (telemetry u) = Unit
IsPlaced (signal u) = Unit
IsPlaced (info u) = Unit
IsPlaced (favorite u) = Unit

pub empty-IsListed : IsListed []
empty-IsListed = record { sorted = tt; drawn = unfold draws in refl }

both : (a b : Bool) → a ≡ true → b ≡ true → (a && b) ≡ true
both a b p q = rw (p, q)

first : (a b : Bool) → (a && b) ≡ true → a ≡ true
first true b h = refl
first false b h = h

second : (a b : Bool) → (a && b) ≡ true → b ≡ true
second true b h = h
second false b h = absurd (cc h)

or_true : (a b : Bool) → b ≡ true → (not a || b) ≡ true
or_true true b h = h
or_true false b h = refl

distinct : (b : Bool) → b ≡ true → b ≡ false → ⊥
distinct b h k = cc (h, k)

draws-insert :
    (k : ℕ) (e : Entry) (d : NumMap Entry)
    → is_drawable e ≡ true
    → draws d ≡ true
    → draws (insert k e d) ≡ true
unfolding draws insert
draws-insert k e [] h a = both (is_drawable e) true h refl
draws-insert k e ((j, f) ∷ d) h a =
    go (k == j) (ltb k j) (draws-insert k e d h (second (is_drawable f) (draws d) a))
  where
    go :
        (b c : Bool)
        → draws (insert k e d) ≡ true
        → draws
            (if b then (k, e) ∷ d else (if c then (k, e) ∷ (j, f) ∷ d else (j, f) ∷ insert k e d))
          ≡ true
    go true c ih = both (is_drawable e) (draws d) h (second (is_drawable f) (draws d) a)
    go false true ih = both (is_drawable e) (is_drawable f && draws d) h a
    go false false ih =
        both (is_drawable f) (draws (insert k e d)) (first (is_drawable f) (draws d) a) ih

abbrev drawable_if : Option Entry → Bool
drawable_if none = true
drawable_if (some e) = is_drawable e

pub draws-lookup : (k : ℕ) (d : NumMap Entry) → draws d ≡ true → drawable_if (lookup k d) ≡ true
unfolding draws lookup
draws-lookup k [] a = refl
draws-lookup k ((j, e) ∷ d) a = go (j == k) (draws-lookup k d (second (is_drawable e) (draws d) a))
  where
    go :
        (b : Bool)
        → drawable_if (lookup k d) ≡ true
        → drawable_if (if b then some e else lookup k d) ≡ true
    go true ih = first (is_drawable e) (draws d) a
    go false ih = ih

pub draws-missing :
    (k : ℕ) (d : NumMap Entry) (e : Entry)
    → lookup k d ≡ some e
    → is_drawable e ≡ false
    → draws d ≡ false
draws-missing k d e known bad = elim (Bool-cases (draws d)) [
  | inr h ↦ h
  | inl h ↦
      let drawable : is_drawable e ≡ true = sym (ap drawable_if known) ∙ draws-lookup k d h in
      absurd (distinct (is_drawable e) drawable bad)
]

-- What an event writes can be drawn if what it finds can be.
pub position-drawable :
    (now : ℕ) (u : PositionUpdate) (o : Option Entry)
    → is_full (u.latitude, u.longitude) ≡ true
    → is_drawable (merge_position now u o) ≡ true
unfolding merge_position
position-drawable now u none h = or_true (truthy u.latitude || truthy u.longitude) _ h
position-drawable now u (some e) h = or_true (truthy u.latitude || truthy u.longitude) _ h

pub telemetry-drawable :
    (now : ℕ) (u : TelemetryUpdate) (o : Option Entry)
    → drawable_if o ≡ true
    → is_drawable (merge_telemetry now u o) ≡ true
unfolding merge_telemetry
telemetry-drawable now u none h = refl
telemetry-drawable now u (some e) h = h

pub signal-drawable :
    (now : ℕ) (u : SignalUpdate) (o : Option Entry)
    → drawable_if o ≡ true
    → is_drawable (merge_signal now u o) ≡ true
unfolding merge_signal
signal-drawable now u none h = refl
signal-drawable now u (some e) h = h

pub info-drawable :
    (now : ℕ) (u : InfoUpdate) (o : Option Entry)
    → drawable_if o ≡ true
    → is_drawable (merge_info now u o) ≡ true
unfolding merge_info
info-drawable now u none h = refl
info-drawable now u (some e) h = h

favorite-draws :
    (u : FavoriteUpdate) (d : NumMap Entry)
    → draws d ≡ true
    → draws (dir_or_empty (put_favorite u (some d))) ≡ true
favorite-draws u d a =
    unfold put_favorite in
    go (truthy u.node_num) (lookup u.node_num d) (draws-lookup u.node_num d a)
  where
    go :
        (b : Bool) (o : Option Entry)
        → drawable_if o ≡ true
        → draws (
            dir_or_empty (
              if b
              then elim o [
                | none ↦ some d
                | some e ↦ some (insert u.node_num (record e { is_favorite = u.is_favorite }) d)
              ]
              else some d))
          ≡ true
    go false o h = a
    go true none h = a
    go true (some e) h = draws-insert u.node_num (record e { is_favorite = u.is_favorite }) d h a

apply_update-draws :
    (now : ℕ) (u : Update) (dir : Dir)
    → IsPlaced u
    → draws (dir_or_empty dir) ≡ true
    → draws (dir_or_empty (apply_update now u dir)) ≡ true
unfolding apply_update put_position put_telemetry put_signal put_info
apply_update-draws now (position u) none p a = a
apply_update-draws now (position u) (some d) p a =
    draws-insert u.node_num _ d (position-drawable now u (lookup u.node_num d) p) a
apply_update-draws now (telemetry u) none p a = a
apply_update-draws now (telemetry u) (some d) p a =
    draws-insert u.node_num _ d
      (telemetry-drawable now u (lookup u.node_num d) (draws-lookup u.node_num d a)) a
apply_update-draws now (signal u) none p a = a
apply_update-draws now (signal u) (some d) p a =
    draws-insert u.node_num _ d
      (signal-drawable now u (lookup u.node_num d) (draws-lookup u.node_num d a)) a
apply_update-draws now (info u) dir p a =
    let d = dir_or_empty dir in
    draws-insert u.node_num _ d
      (info-drawable now u (lookup u.node_num d) (draws-lookup u.node_num d a)) a
apply_update-draws now (favorite u) none p a = unfold put_favorite in a
apply_update-draws now (favorite u) (some d) p a = favorite-draws u d a

pub apply_update-IsListed :
    (now : ℕ) (u : Update) (dir : Dir)
    → IsPlaced u
    → IsListed (dir_or_empty dir)
    → IsListed (dir_or_empty (apply_update now u dir))
apply_update-IsListed now u dir p v = record {
  sorted = apply_update-IsSorted now u dir v.sorted;
  drawn = apply_update-draws now u dir p v.drawn;
}

mark_favorite-draws :
    (n : ℕ) (b : Bool) (dir : Dir)
    → draws (dir_or_empty dir) ≡ true
    → draws (dir_or_empty (mark_favorite n b dir)) ≡ true
unfolding mark_favorite
mark_favorite-draws n b none a = a
mark_favorite-draws n b (some d) a = go (lookup n d) (draws-lookup n d a)
  where
    go :
        (o : Option Entry) → drawable_if o ≡ true → draws (dir_or_empty (write_mark n b d o)) ≡ true
    go none h = a
    go (some e) h = draws-insert n (record e { is_favorite = some b }) d h a

pub mark_favorite-IsListed :
    (n : ℕ) (b : Bool) (dir : Dir)
    → IsListed (dir_or_empty dir)
    → IsListed (dir_or_empty (mark_favorite n b dir))
mark_favorite-IsListed n b dir v = record {
  sorted = mark_favorite-IsSorted n b dir v.sorted;
  drawn = mark_favorite-draws n b dir v.drawn;
}
