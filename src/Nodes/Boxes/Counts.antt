-- ===== src/Nodes/Boxes/Counts.antt =====
-- The counts beside the role check boxes.
use meshtastic_proxy.Base.{
  ℕ, ◌+◌, List, [], ◌∷◌, Text, Bool, true, ◌&&◌, if◌then◌else◌, ◌≡◌, ap, arith, truthy, text_truthy,
  text_or, eq_text, eq_text_sound, count, Bool-cases, inl, inr,
}
use meshtastic_proxy.Base.NumMap.{NumMap}
use meshtastic_proxy.Directory.{Entry}
use meshtastic_proxy.Nodes.Boxes.{bump, count_roles}

-- `roles[r]`, 0 where it is missing.
abbrev count_at : Text → List (Text × ℕ) → ℕ
count_at r [] = 0
count_at r ((x, n) ∷ counts) = let rest = count_at r counts in if eq_text x r then n else rest

eq_text_left : (y x r : Text) → eq_text y x ≡ true → eq_text y r ≡ eq_text x r
eq_text_left y x r h = ap (λ t. eq_text t r) (eq_text_sound y x h)

count_at-bump :
    (q r : Text) (counts : List (Text × ℕ))
    → count_at r (bump q counts) ≡ count_at r counts + (if eq_text q r then 1 else 0)
unfolding bump
count_at-bump q r [] = ground arith
count_at-bump q r ((x, n) ∷ counts) = elim (Bool-cases (eq_text x q)) [
  | inl same ↦ rw same (ground (arith, eq_text_left x q r same))
  | inr other ↦
      rw other (ground (arith, count_at-bump q r counts, eq_text_sound x r, eq_text_sound q r))
]

-- The node has that role.
abbrev has_this_role : Text → ℕ × Entry → Bool
has_this_role r (n, e) = truthy (text_or e.role) && eq_text (text_or e.role) r

-- The count of every role is that of the nodes of the directory that have it.
count_roles_lem :
    (r : Text) (d : NumMap Entry) (counts : List (Text × ℕ))
    → count_at r (count_roles d counts) ≡ count_at r counts + count (has_this_role r) d
unfolding count_roles
count_roles_lem r [] counts = ground arith
count_roles_lem r ((n, e) ∷ d) counts = elim (Bool-cases (truthy (text_or e.role))) [
  | inl h ↦ rw h (
      ground (
        arith,
        count_roles_lem r d (bump (text_or e.role) counts),
        count_at-bump (text_or e.role) r counts,
      ))
  | inr h ↦ rw h (ground (arith, count_roles_lem r d counts))
]
