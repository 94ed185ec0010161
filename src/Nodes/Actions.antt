-- ===== src/Nodes/Actions.antt =====
-- nodes.js: the drop-down of a node and its actions, with the directory that they read and write.
-- A request that has been sent waits in `pending` until the server answers it or it fails.
pub mod Toggle
use meshtastic_proxy.Base.{
  ℕ, zero, suc, List, [], ◌∷◌, ◌++◌, Bool, true, false, not, Option, none, some, if◌then◌else◌,
  truthy, bool_truthy, option_truthy,
}
use meshtastic_proxy.Base.NumMap.{NumMap, lookup, insert}
use meshtastic_proxy.Directory.{Entry, Dir, Update, dir_or_empty, apply_update}

-- The drop-down: its node, and whether it offers to remove the favourite.
pub record Menu : Type 0 where
  pub node : ℕ
  pub removes : Bool

pub data Choice : Type 0 where
  request_position request_nodeinfo store_forward toggle_favorite : Choice

-- A request: its path with what the body holds beside the node.
pub data Command : Type 0 where
  ask_position ask_nodeinfo ask_store_forward : Command
  set_favorite : Bool → Command

pub record Request : Type 0 where
  pub command : Command
  pub target : ℕ

pub record Actions : Type 0 where
  pub dropdown : Option Menu
  pub pending : List Request
  pub dir : Dir

-- `entry && entry.is_favorite`.
abbrev pub mark_of : Option Entry → Bool
mark_of none = false
mark_of (some e) = truthy e.is_favorite

unfoldable pub is_marked : ℕ → Dir → Bool
is_marked n dir = mark_of (lookup n (dir_or_empty dir))

-- `toggleNodeActions`: an open drop-down is closed before.
unfoldable pub toggle_node_actions : ℕ → Actions → Actions
unfolding is_marked
toggle_node_actions n s = record s {
  dropdown = some (record { node = n; removes = is_marked n s.dir });
}

-- `closeNodeActions`.
abbrev pub close_node_actions : Actions → Actions
close_node_actions s = record s { dropdown = none }

unfoldable pub command_of : Choice → ℕ → Dir → Command
unfolding is_marked
command_of request_position n dir = ask_position
command_of request_nodeinfo n dir = ask_nodeinfo
command_of store_forward n dir = ask_store_forward
command_of toggle_favorite n dir = set_favorite (not (is_marked n dir))

-- `nodeAction`.
unfoldable pub node_action : Choice → ℕ → Actions → Actions
unfolding command_of
node_action c n s = record s {
  dropdown = none;
  pending = s.pending ++ record { command = command_of c n s.dir; target = n } ∷ [];
}

abbrev pub write_mark : ℕ → Bool → NumMap Entry → Option Entry → Dir
write_mark n b d none = some d
write_mark n b d (some e) = some (insert n (record e { is_favorite = some b }) d)

-- The update of a favourite behind an answer that is ok.
unfoldable pub mark_favorite : ℕ → Bool → Dir → Dir
mark_favorite n b none = none
mark_favorite n b (some d) = write_mark n b d (lookup n d)

unfoldable pub answered : Request → Dir → Dir
unfolding mark_favorite
answered r dir = elim r.command [
  | ask_position ↦ dir
  | ask_nodeinfo ↦ dir
  | ask_store_forward ↦ dir
  | set_favorite b ↦ mark_favorite r.target b dir
]

-- The request at an index, and the others.
unfoldable pub take_at : ℕ → List Request → Option (Request × List Request)
take_at i [] = none
take_at zero (r ∷ rs) = some (r, rs)
take_at (suc i) (r ∷ rs) = elim (take_at i rs) [
  | none ↦ none
  | some found ↦ some (found.0, r ∷ found.1)
]

-- A click outside closes the drop-down. A request ends with `r.ok`, or with `false` for a refusal
-- or an error of the network; the server may send an update at any time.
pub data Event : Type 0 where
  opens : ℕ → Event
  click_outside : Event
  chooses : Choice → ℕ → Event
  ends : ℕ → Bool → Event
  server : ℕ → Update → Event

abbrev pub settle : Bool → Request → List Request → Actions → Actions
settle ok r rest s = record s { pending = rest; dir = if ok then answered r s.dir else s.dir }

abbrev pub end_with : Bool → Option (Request × List Request) → Actions → Actions
end_with ok none s = s
end_with ok (some (r, rest)) s = settle ok r rest s

unfoldable pub step : Event → Actions → Actions
unfolding toggle_node_actions node_action answered apply_update
step (opens n) s = toggle_node_actions n s
step click_outside s = close_node_actions s
step (chooses c n) s = node_action c n s
step (ends i ok) s = end_with ok (take_at i s.pending) s
step (server now u) s = record s { dir = apply_update now u s.dir }

unfoldable pub run : List Event → Actions → Actions
unfolding step
run [] s = s
run (e ∷ es) s = run es (step e s)
