-- ===== src/Nodes/Sort.antt =====
-- The order of the rows: favourites first, each kind in order, and nothing lost.
use mathlib.Core.List.{Perm}
use mathlib.Core.List.Perm
use meshtastic_proxy.Base.{
  ◌⊎◌, sym, ◌∙◌, ℤ, pos, negsuc, ◌≤ℤ◌, leb_ℤ, List, [], ◌∷◌, true, false, some, ◌≡◌, refl, ap,
  arith, All, Bool-cases, inl, inr, leb→le, filter, length, Locale, Text,
}
use meshtastic_proxy.Nodes.{
  Node, SortKey, SortDir, asc, desc, View, is_favorite, compare_nodes, compare_values,
  get_sort_value, directed, insert_by, sort_by, passes, SortValue, word, number, as_text,
}
use meshtastic_proxy.Nodes.Table.{Shown, render, table_rows}
use meshtastic_proxy.Nodes.Drawn.{draws-table_rows}
use meshtastic_proxy.Trace.Route.{draws}
use meshtastic_proxy.Directory.{Entry}
use meshtastic_proxy.Base.NumMap.{NumMap}

module _ {ℓ} {A : Type ℓ} (cmp : A → A → ℤ) where
  insert_by-perm : (x : A) (xs : List A) → Perm (insert_by cmp x xs) (x ∷ xs)
  unfolding insert_by
  insert_by-perm x [] = Perm.refl (x ∷ [])
  insert_by-perm x (y ∷ ys) = elim (Bool-cases (leb_ℤ (cmp x y) (pos 0))) [
    | inl before ↦ rw before (Perm.refl (x ∷ y ∷ ys))
    | inr after ↦ rw after (Perm.trans (Perm.cons y (insert_by-perm x ys)) (Perm.swap x y ys))
  ]

  sort_by-perm : (xs : List A) → Perm (sort_by cmp xs) xs
  unfolding sort_by
  sort_by-perm [] = Perm.refl []
  sort_by-perm (x ∷ xs) =
      Perm.trans (insert_by-perm x (sort_by cmp xs)) (Perm.cons x (sort_by-perm xs))

  -- Each row stands in order with the one after it.
  abbrev pub InOrder : List A → Type 0
  InOrder [] = Unit
  InOrder (x ∷ []) = Unit
  InOrder (x ∷ y ∷ ys) = (cmp x y ≤ℤ pos 0) × InOrder (y ∷ ys)

-- Two results of a comparison, one for each order of its arguments, do not both say "greater" nor
-- both "less".
abbrev Anti : ℤ → ℤ → Type 0
Anti c d = (leb_ℤ c (pos 0) ≡ false → d ≤ℤ pos 0) × (leb_ℤ (pos 0) c ≡ false → pos 0 ≤ℤ d)

module _ {ℓ} {A : Type ℓ} (cmp : A → A → ℤ) (anti : (x y : A) → Anti (cmp x y) (cmp y x)) where
  le_of_test : (x y : A) → leb_ℤ (cmp x y) (pos 0) ≡ true → cmp x y ≤ℤ pos 0
  le_of_test x y h = leb→le _ _ h

  insert_by-after :
      (y x : A) (ys : List A)
      → InOrder cmp (y ∷ ys)
      → cmp y x ≤ℤ pos 0
      → InOrder cmp (y ∷ insert_by cmp x ys)
  unfolding insert_by
  insert_by-after y x [] o h = (h, tt)
  insert_by-after y x (z ∷ zs) o h = elim (Bool-cases (leb_ℤ (cmp x z) (pos 0))) [
    | inl before ↦ rw before (h, (le_of_test x z before, o.1))
    | inr after ↦ rw after (o.0, insert_by-after z x zs o.1 ((anti x z).0 after))
  ]

  insert_by-InOrder : (x : A) (xs : List A) → InOrder cmp xs → InOrder cmp (insert_by cmp x xs)
  unfolding insert_by
  insert_by-InOrder x [] o = tt
  insert_by-InOrder x (y ∷ ys) o = elim (Bool-cases (leb_ℤ (cmp x y) (pos 0))) [
    | inl before ↦ rw before (le_of_test x y before, o)
    | inr after ↦ rw after (insert_by-after y x ys o ((anti x y).0 after))
  ]

  sort_by-InOrder : (xs : List A) → InOrder cmp (sort_by cmp xs)
  unfolding sort_by
  sort_by-InOrder [] = tt
  sort_by-InOrder (x ∷ xs) = insert_by-InOrder x (sort_by cmp xs) (sort_by-InOrder xs)

-- No row that is no favourite stands before one that is.
abbrev pub FavoritesFirst : List Node → Type 0
FavoritesFirst [] = Unit
FavoritesFirst (x ∷ xs) =
    (is_favorite x ≡ false → All (λ y. is_favorite y ≡ false) xs) × FavoritesFirst xs

module _ (loc : Locale) (key : SortKey) (dir : SortDir) where
  pinned :
      (x y : Node)
      → is_favorite x ≡ true
      → is_favorite y ≡ false
      → compare_nodes loc key dir x y ≡ negsuc 0
  unfolding compare_nodes
  pinned x y p q = rw (p, q)

  unpinned :
      (x y : Node)
      → is_favorite x ≡ false
      → is_favorite y ≡ true
      → compare_nodes loc key dir x y ≡ pos 1
  unfolding compare_nodes
  unpinned x y p q = rw (p, q)

  All-insert_by :
      (x : Node) (xs : List Node)
      → is_favorite x ≡ false
      → All (λ y. is_favorite y ≡ false) xs
      → All (λ y. is_favorite y ≡ false) (insert_by (compare_nodes loc key dir) x xs)
  unfolding insert_by
  All-insert_by x [] p a = (p, tt)
  All-insert_by x (y ∷ ys) p a = elim (Bool-cases (leb_ℤ (compare_nodes loc key dir x y) (pos 0))) [
    | inl before ↦ rw before (p, a)
    | inr after ↦ rw after (a.0, All-insert_by x ys p a.1)
  ]

  insert_by-FavoritesFirst :
      (x : Node) (xs : List Node)
      → FavoritesFirst xs
      → FavoritesFirst (insert_by (compare_nodes loc key dir) x xs)
  unfolding insert_by
  insert_by-FavoritesFirst x [] f = (λ _. tt, tt)
  insert_by-FavoritesFirst x (y ∷ ys) f =
      elim (Bool-cases (leb_ℤ (compare_nodes loc key dir x y) (pos 0))) [
        | inl before ↦ rw before (
          (λ p. elim (Bool-cases (is_favorite y)) [
            | inr q ↦ (q, f.0 q)
            | inl q ↦ absurd (cc (before, ap (λ c. leb_ℤ c (pos 0)) (unpinned x y p q)))
          ]),
          f,
        )
        | inr after ↦ rw after (
          (λ q. elim (Bool-cases (is_favorite x)) [
            | inr p ↦ All-insert_by x ys p (f.0 q)
            | inl p ↦ absurd (cc (after, ap (λ c. leb_ℤ c (pos 0)) (pinned x y p q)))
          ]),
          insert_by-FavoritesFirst x ys f.1,
        )
      ]

  sort_by-FavoritesFirst :
      (xs : List Node) → FavoritesFirst (sort_by (compare_nodes loc key dir) xs)
  unfolding sort_by
  sort_by-FavoritesFirst [] = tt
  sort_by-FavoritesFirst (x ∷ xs) =
      insert_by-FavoritesFirst x (sort_by (compare_nodes loc key dir) xs)
        (sort_by-FavoritesFirst xs)

-- `localeCompare` never says of two texts both that each is greater, or both that each is less.
abbrev pub IsAntisymmetric : Locale → Type 0
IsAntisymmetric loc = (s t : Text) → Anti (loc.compare s t) (loc.compare t s)

module _ (loc : Locale) (anti : IsAntisymmetric loc) where
  compare_values-Anti : (a b : SortValue) → Anti (compare_values loc a b) (compare_values loc b a)
  unfolding compare_values
  compare_values-Anti (number a) (number b) = (λ h. ground arith, λ h. ground arith)
  compare_values-Anti (number a) (word t) = anti (as_text (number a)) t
  compare_values-Anti (word s) (number b) = anti s (as_text (number b))
  compare_values-Anti (word s) (word t) = anti s t

  directed-Anti : (dir : SortDir) (c d : ℤ) → Anti c d → Anti (directed dir c) (directed dir d)
  unfolding directed
  directed-Anti asc c d a = a
  directed-Anti desc c d a = (λ h. ground arith, λ h. ground arith)

  compare_nodes-Anti :
      (key : SortKey) (dir : SortDir) (x y : Node)
      → Anti (compare_nodes loc key dir x y) (compare_nodes loc key dir y x)
  unfolding compare_nodes
  compare_nodes-Anti key dir x y =
      let values =
        directed-Anti dir _ _
          (compare_values-Anti (get_sort_value loc key x) (get_sort_value loc key y)) in
      elim (Bool-cases (is_favorite x)) [
        | inl p ↦ elim (Bool-cases (is_favorite y)) [
          | inl q ↦ rw (p, q) values
          | inr q ↦ rw (p, q) (λ h. cc, λ h. omega arith)
        ]
        | inr p ↦ elim (Bool-cases (is_favorite y)) [
          | inl q ↦ rw (p, q) (λ h. omega arith, λ h. cc)
          | inr q ↦ rw (p, q) values
        ]
      ]

  -- With a comparison of texts that is antisymmetric: if every node of the directory that passes the
  -- filters has both coordinates or no position, the rows of the table are these nodes, each as often;
  -- favourites come first; each row is in order with the next one by the chosen column and direction;
  -- and the counter counts them. If one lacks a coordinate, the table stays as it was.
  pub render_lem :
      (v : View) (d : NumMap Entry) (before : Shown)
      → let after = render loc v (some d) before in
        let shown = filter (passes loc v) d in
        ((draws shown ≡ true)
          × Perm after.rows shown
          × FavoritesFirst after.rows
          × InOrder (compare_nodes loc v.sort_key v.sort_dir) after.rows
          × (after.shown_count ≡ length after.rows))
        ⊎ ((draws shown ≡ false) × (after ≡ before))
  unfolding render
  render_lem v d before = elim (Bool-cases (draws (table_rows loc v d))) [
    | inl drawn ↦ inl (
        simp drawn (
          sym (draws-table_rows loc v d) ∙ drawn,
          unfold table_rows in
              sort_by-perm (compare_nodes loc v.sort_key v.sort_dir) (filter (passes loc v) d),
          unfold table_rows in
              sort_by-FavoritesFirst loc v.sort_key v.sort_dir (filter (passes loc v) d),
          unfold table_rows in
              sort_by-InOrder (compare_nodes loc v.sort_key v.sort_dir)
                (compare_nodes-Anti v.sort_key v.sort_dir) (filter (passes loc v) d),
          refl,
        ))
    | inr missing ↦ inr (sym (draws-table_rows loc v d) ∙ missing, simp missing)
  ]
