-- ===== src/Nodes/Boxes.antt =====
-- nodes.js `buildRoleCheckboxes`: the check boxes of the roles, with how many nodes have each.
pub mod Counts
use meshtastic_proxy.Base.{
  ℕ, ◌+◌, List, [], ◌∷◌, map, Text, Bool, true, false, Option, none, some, if◌then◌else◌, truthy,
  text_truthy, option_truthy, text_or, eq_text, Locale,
}
use meshtastic_proxy.Base.NumMap.{NumMap}
use meshtastic_proxy.Mesh.Labels.{format_role}
use meshtastic_proxy.Directory.{Entry, Dir}
use meshtastic_proxy.Nodes.{has_role, sort_by}
use meshtastic_proxy.Map.Options.{compare_text}

-- `roles[r] = (roles[r] || 0) + 1`.
unfoldable pub bump : Text → List (Text × ℕ) → List (Text × ℕ)
bump r [] = (r, 1) ∷ []
bump r ((x, n) ∷ counts) =
    let rest = bump r counts in if eq_text x r then (x, n + 1) ∷ counts else (x, n) ∷ rest

-- The object `roles` after the loop over the directory.
unfoldable pub count_roles : NumMap Entry → List (Text × ℕ) → List (Text × ℕ)
unfolding bump
count_roles [] counts = counts
count_roles ((n, e) ∷ d) counts =
    count_roles d (if truthy (text_or e.role) then bump (text_or e.role) counts else counts)

pub record RoleBox : Type 0 where
  pub value : Text
  pub checked : Bool
  pub label : Text
  pub nodes : ℕ

abbrev pub role_box : Locale → List Text → Text × ℕ → RoleBox
role_box loc chosen (r, n) = record {
  value = r;
  checked = has_role chosen r;
  label = format_role loc r;
  nodes = n;
}

-- `buildRoleCheckboxes`; no box at all is the note that there are no roles.
unfoldable pub build_role_checkboxes : Locale → List Text → Dir → List RoleBox → List RoleBox
unfolding count_roles sort_by compare_text has_role format_role
build_role_checkboxes loc chosen none before = before
build_role_checkboxes loc chosen (some d) before =
    map (role_box loc chosen) (sort_by (λ x y. compare_text x.0 y.0) (count_roles d []))
