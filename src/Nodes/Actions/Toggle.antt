-- ===== src/Nodes/Actions/Toggle.antt =====
-- The favourite toggle: from the drop-down through the request to the mark in the directory.
use meshtastic_proxy.Base.{
  ℕ, List, [], ◌∷◌, ◌++◌, Bool, true, false, not, none, some, if◌then◌else◌, ◌≡◌, refl, ap, ◌∙◌,
  truthy, bool_truthy, option_truthy, ◌==◌, ==_refl, length,
}
use meshtastic_proxy.Base.NumMap.{NumMap, lookup, lookup-insert}
use meshtastic_proxy.Directory.{Entry, dir_or_empty}
use meshtastic_proxy.Directory.Updates.{entry_at}
use meshtastic_proxy.Nodes.Actions.{
  Request, Actions, toggle_favorite, set_favorite, is_marked, toggle_node_actions, node_action,
  command_of, mark_favorite, write_mark, mark_of, answered, take_at, opens, chooses, ends, settle,
  end_with, step, run,
}

entry_at-mark_favorite :
    (n : ℕ) (b : Bool) (d : NumMap Entry) (e : Entry)
    → lookup n d ≡ some e
    → (j : ℕ)
    → entry_at j (mark_favorite n b (some d))
      ≡ (if n == j then some (record e { is_favorite = some b }) else lookup j d)
unfolding mark_favorite
entry_at-mark_favorite n b d e h j =
    ap (λ o. entry_at j (write_mark n b d o)) h ∙ lookup-insert n j _ d

take_at-last : (rs : List Request) (r : Request) → take_at (length rs) (rs ++ r ∷ []) ≡ some (r, rs)
unfolding take_at
take_at-last [] r = refl
take_at-last (x ∷ rs) r = rw (take_at-last rs r)

-- A known node is opened in the table, its favourite toggle is chosen, and the request ends.
abbrev pub toggled : ℕ → Bool → Actions → Actions
toggled n ok s = run (opens n ∷ chooses toggle_favorite n ∷ ends (length s.pending) ok ∷ []) s

step_ends :
    (i : ℕ) (ok : Bool) (s : Actions) (r : Request) (rest : List Request)
    → take_at i s.pending ≡ some (r, rest)
    → step (ends i ok) s ≡ settle ok r rest s
unfolding step
step_ends i ok s r rest h = ap (λ o. end_with ok o s) h

-- The state in which the request has been sent.
abbrev sent : ℕ → Bool → Actions → Actions
sent n b s = record s {
  dropdown = none;
  pending = s.pending ++ record { command = set_favorite (not b); target = n } ∷ [];
}

sent_lem :
    (n : ℕ) (b : Bool) (s : Actions)
    → is_marked n s.dir ≡ b
    → step (chooses toggle_favorite n) (step (opens n) s) ≡ sent n b s
unfolding step toggle_node_actions node_action command_of
sent_lem n b s h = rw h

ended_lem :
    (n : ℕ) (ok b : Bool) (s : Actions)
    → is_marked n s.dir ≡ b
    → toggled n ok s
      ≡ record s { dropdown = none; dir = if ok then mark_favorite n (not b) s.dir else s.dir }
unfolding run answered
ended_lem n ok b s h =
    let r : Request = record { command = set_favorite (not b); target = n } in
    ap (step (ends (length s.pending) ok)) (sent_lem n b s h)
    ∙ step_ends (length s.pending) ok (sent n b s) r s.pending (take_at-last s.pending r)

-- The drop-down offers to remove the favourite exactly if the node is one, and the request asks for
-- the opposite of the mark. After an answer that is ok the node is a favourite exactly if it was
-- none; after any other end its entry is as it was. The other requests are as they were, and the
-- drop-down is closed.
pub toggled_lem :
    (n : ℕ) (ok : Bool) (s : Actions) (d : NumMap Entry) (e : Entry)
    → s.dir ≡ some d
    → lookup n d ≡ some e
    → let marked = truthy e.is_favorite in
      let after = toggled n ok s in
      ((toggle_node_actions n s).dropdown ≡ some (record { node = n; removes = marked }))
      × ((node_action toggle_favorite n s).pending
          ≡ s.pending ++ record { command = set_favorite (not marked); target = n } ∷ [])
      × (entry_at n after.dir
          ≡ some (if ok then record e { is_favorite = some (not marked) } else e))
      × (after.pending ≡ s.pending)
      × (after.dropdown ≡ none)
toggled_lem n ok s d e known there = (
  unfold toggle_node_actions in rw marked,
  unfold node_action command_of in rw marked,
  rw (ended, known) (go ok),
  ap (λ x. x.pending) ended,
  ap (λ x. x.dropdown) ended,
)
  where
    marked : is_marked n s.dir ≡ truthy e.is_favorite
    marked =
        unfold is_marked in ap (λ x. mark_of (lookup n (dir_or_empty x))) known ∙ ap mark_of there

    ended : toggled n ok s ≡ record s {
      dropdown = none;
      dir = if ok then mark_favorite n (not (truthy e.is_favorite)) s.dir else s.dir;
    }
    ended = ended_lem n ok (truthy e.is_favorite) s marked

    go :
        (ok : Bool)
        → entry_at n (if ok then mark_favorite n (not (truthy e.is_favorite)) (some d) else some d)
          ≡ some (if ok then record e { is_favorite = some (not (truthy e.is_favorite)) } else e)
    go true = entry_at-mark_favorite n (not (truthy e.is_favorite)) d e there n ∙ rw (==_refl n)
    go false = there
