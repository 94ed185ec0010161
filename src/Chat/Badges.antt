-- ===== src/Chat/Badges.antt =====
-- The badges of the sidebar, the limit of 500 messages and the note of an empty chat.
use meshtastic_proxy.Base.{
  ℕ, ◌+◌, ◌-◌, ◌≤◌, ◌<◌, List, [], ◌∷◌, ◌++◌, map, Bool, false, ◌&&◌, none, some, ◌==◌, ltb,
  if◌then◌else◌, ◌≡◌, ◌≢◌, refl, ap, ◌∙◌, arith, length, length-append, drop, length-drop, count,
  count-append, All, Bool-cases, ◌⊎◌, inl, inr, min,
}
use mathlib.Core.Path.{subst}
use meshtastic_proxy.Directory.{Dir}
use meshtastic_proxy.Chat.Mirror.{
  Mirror, IsShownRight, sources, select_channel-Mirror, append_message-Mirror, append_lists,
}
use meshtastic_proxy.Chat.{
  Message, Channel, ChannelButton, Element, Chat, apply_filter, select_channel, channels_loaded,
  update_badges, append_message, render_sidebar, badge_of, set_badge, mark_active, in_channel,
  too_many,
}

-- A badge tells how many of the kept messages belong to its channel, and is blank for none.
abbrev pub HasBadge : List Message → ChannelButton → Type 0
HasBadge ms b =
    ((count (in_channel b.channel) ms ≡ 0) × (b.badge ≡ none))
    ⊎ ((0 < count (in_channel b.channel) ms) × (b.badge ≡ some (count (in_channel b.channel) ms)))

HasBadge-set_badge :
    (ms : List Message) (bs : List ChannelButton) → All (HasBadge ms) (map (set_badge ms) bs)
unfolding badge_of
HasBadge-set_badge ms [] = tt
HasBadge-set_badge ms (b ∷ bs) = (ground arith, HasBadge-set_badge ms bs)

append_fields :
    (dir : Dir) (m : Message) (s : Chat)
    → let full = too_many (s.messages ++ m ∷ []) in
      let kept = if full then drop 1 (s.messages ++ m ∷ []) else s.messages ++ m ∷ [] in
      ((append_message dir m s).messages ≡ kept)
      × ((append_message dir m s).buttons ≡ map (set_badge kept) s.buttons)
      × ((append_message dir m s).empty_shown ≡ false)
unfolding append_message update_badges
append_fields dir m s = elim (Bool-cases (s.auto_scroll && m.channel == s.active)) [
  | inl b ↦ rw b (refl, refl, refl)
  | inr b ↦ rw b (refl, refl, refl)
]

kept_last :
    (ms : List Message) (n : ℕ)
    → length ms ≡ n + 1
    → n ≤ 500
    → (if too_many ms then drop 1 ms else ms) ≡ drop (n + 1 - 500) ms
kept_last ms n e h = elim (Bool-cases (ltb 500 (length ms))) [
  | inl over ↦ let one : n + 1 - 500 ≡ 1 = ground arith in rw (over, one)
  | inr fits ↦ let none_over : n + 1 - 500 ≡ 0 = ground arith in rw (fits, none_over)
]

-- If at most 500 messages are kept, then after a message is appended the last 500 of the old ones
-- and it are kept, every badge is right for them, and the view scrolls down exactly if it was at the
-- bottom and shows the channel.
pub append_message_lem :
    (dir : Dir) (m : Message) (s : Chat)
    → length s.messages ≤ 500
    → let after = append_message dir m s in
      All (HasBadge after.messages) after.buttons
      × (after.messages ≡ drop (length s.messages + 1 - 500) (s.messages ++ m ∷ []))
      × (length after.messages ≡ min (length s.messages + 1) 500)
      × (after.scrolls
          ≡ (if s.auto_scroll && m.channel == s.active then s.scrolls + 1 else s.scrolls))
append_message_lem dir m s h =
    let (messages, buttons, hidden) = append_fields dir m s in
    let grown = length-append s.messages (m ∷ []) in
    let kept : List Message =
      if too_many (s.messages ++ m ∷ [])
      then drop 1 (s.messages ++ m ∷ [])
      else s.messages ++ m ∷ [] in
    (
      rw (messages, buttons) (HasBadge-set_badge kept s.buttons),
      rw messages (kept_last (s.messages ++ m ∷ []) (length s.messages) grown h),
      rw messages (ground (arith, grown, length-drop 1 (s.messages ++ m ∷ []))),
      unfold append_message update_badges in ground arith,
    )

render_sidebar-blank : (cs : List Channel) → All (λ b. b.badge ≡ none) (render_sidebar cs)
unfolding render_sidebar
render_sidebar-blank [] = tt
render_sidebar-blank (c ∷ cs) = (refl, render_sidebar-blank cs)

mark_active-blank :
    (i : ℕ) (bs : List ChannelButton)
    → All (λ b. b.badge ≡ none) bs
    → All (λ b. b.badge ≡ none) (map (mark_active i) bs)
mark_active-blank i [] a = tt
mark_active-blank i (b ∷ bs) a = (a.0, mark_active-blank i bs a.1)

-- When the channel list arrives, every badge is blank, whatever messages are already there.
channels_loaded-blank :
    (cs : List Channel) (s : Chat)
    → All (λ b. b.badge ≡ none) (channels_loaded cs s).buttons
      × ((channels_loaded cs s).messages ≡ s.messages)
unfolding channels_loaded select_channel apply_filter
channels_loaded-blank [] s = (render_sidebar-blank [], refl)
channels_loaded-blank (c ∷ cs) s =
    (mark_active-blank c.index (render_sidebar (c ∷ cs)) (render_sidebar-blank (c ∷ cs)), refl)

shown-count :
    (i : ℕ) (es : List Element)
    → All (IsShownRight i) es
    → count (λ e. e.shown) es ≡ count (in_channel i) (sources es)
shown-count i [] a = refl
shown-count i (e ∷ es) a = ground (arith, shown-count i es a.1, a.0.0, a.0.1)

-- In a state where elements and messages are in step: selecting a channel makes it the active one,
-- displays as many elements as the channel has messages, and shows the note of an empty chat
-- exactly when there are none.
select_channel_lem :
    (i : ℕ) (s : Chat)
    → Mirror s
    → let after = select_channel i s in
      (after.active ≡ i)
      × (count (λ e. e.shown) after.elements ≡ count (in_channel i) s.messages)
      × (after.empty_shown ≡ (count (in_channel i) s.messages == 0))
select_channel_lem i s v =
    let w = select_channel-Mirror i s v in
    let active : (select_channel i s).active ≡ i = unfold select_channel apply_filter in refl in
    let messages : (select_channel i s).messages ≡ s.messages =
      unfold select_channel apply_filter in refl in
    let note : (select_channel i s).empty_shown
        ≡ (count (λ e. e.shown) (select_channel i s).elements == 0) =
      unfold select_channel apply_filter in refl in
    let shown : count (λ e. e.shown) (select_channel i s).elements
        ≡ count (in_channel i) s.messages =
      shown-count i (select_channel i s).elements
        (subst (λ a. All (IsShownRight a) (select_channel i s).elements) active w.shown_right)
      ∙ ap (count (in_channel i)) (w.in_step ∙ messages) in
    (active, shown, note ∙ ap (λ n. n == 0) shown)

count-drop_one : (p : Message → Bool) (ms : List Message) → count p (drop 1 ms) ≤ count p ms
count-drop_one p [] = omega arith
count-drop_one p (m ∷ ms) = ground arith

-- In a state where elements and messages are in step and the active channel has no message, a
-- message of another channel hides the note of an empty chat, although no element is displayed.
append_message-hides_note :
    (dir : Dir) (m : Message) (s : Chat)
    → Mirror s
    → count (in_channel s.active) s.messages ≡ 0
    → m.channel ≢ s.active
    → let after = append_message dir m s in
      (after.empty_shown ≡ false) × (count (λ e. e.shown) after.elements ≡ 0)
append_message-hides_note dir m s v none_here other =
    let w = append_message-Mirror dir m s v in
    let (messages, buttons, hidden) = append_fields dir m s in
    let active : (append_message dir m s).active ≡ s.active = (append_lists dir m s).2 in
    let shown : count (λ e. e.shown) (append_message dir m s).elements
        ≡ count (in_channel s.active) (append_message dir m s).messages =
      shown-count s.active (append_message dir m s).elements
        (subst (λ a. All (IsShownRight a) (append_message dir m s).elements) active w.shown_right)
      ∙ ap (count (in_channel s.active)) w.in_step in
    let pushed : count (in_channel s.active) (s.messages ++ m ∷ []) ≡ 0 =
      ground (arith, count-append (in_channel s.active) s.messages (m ∷ [])) in
    let kept : count (in_channel s.active) (append_message dir m s).messages ≡ 0 =
      rw messages
        (ground (arith, pushed, count-drop_one (in_channel s.active) (s.messages ++ m ∷ []))) in
    (hidden, shown ∙ kept)
