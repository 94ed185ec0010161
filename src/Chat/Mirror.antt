-- ===== src/Chat/Mirror.antt =====
-- The list of elements and the list of messages stay in step, and what is displayed is what belongs
-- to the active channel.
use meshtastic_proxy.Base.{
  ℕ, ◌<◌, List, [], ◌∷◌, ◌++◌, map, Bool, true, false, ◌&&◌, ◌==◌, if◌then◌else◌, ◌≡◌, refl, sym,
  ap, ◌∙◌, arith, length, length-append, drop, map-drop, All, All-append, Bool-cases, inl, inr,
  ltb→lt,
}
use mathlib.Core.List.{map-append}
use meshtastic_proxy.Directory.{Dir}
use meshtastic_proxy.Chat.{
  Message, Channel, Element, Chat, fresh_chat, create_element, apply_filter, select_channel,
  channels_loaded, update_badges, load_history, append_message, on_scroll, init_chat, Event, init,
  channels, select, history, message, scroll, step, run, show_for, too_many, render_sidebar,
}

abbrev pub sources : List Element → List Message
sources es = map (λ e. e.source) es

-- An element is displayed exactly when its message belongs to the active channel.
abbrev pub IsShownRight : ℕ → Element → Type 0
IsShownRight active e = (e.channel ≡ e.source.channel) × (e.shown ≡ (e.channel == active))

pub record Mirror (s : Chat) : Type 0 where
  pub in_step : sources s.elements ≡ s.messages
  pub shown_right : All (IsShownRight s.active) s.elements

-- Elements whose channel is that of their message.
abbrev HasChannel : Element → Type 0
HasChannel e = e.channel ≡ e.source.channel

HasChannel-of : (i : ℕ) (es : List Element) → All (IsShownRight i) es → All HasChannel es
HasChannel-of i [] a = tt
HasChannel-of i (e ∷ es) a = (a.0.0, HasChannel-of i es a.1)

IsShownRight-filter :
    (i : ℕ) (es : List Element) → All HasChannel es → All (IsShownRight i) (map (show_for i) es)
IsShownRight-filter i [] a = tt
IsShownRight-filter i (e ∷ es) a = ((a.0, refl), IsShownRight-filter i es a.1)

sources-filter : (i : ℕ) (es : List Element) → sources (map (show_for i) es) ≡ sources es
sources-filter i [] = refl
sources-filter i (e ∷ es) = ap (e.source ∷◌) (sources-filter i es)

apply_filter-Mirror :
    (s : Chat)
    → sources s.elements ≡ s.messages
    → All HasChannel s.elements
    → Mirror (apply_filter s)
unfolding apply_filter
apply_filter-Mirror s e a = record {
  in_step = sources-filter s.active s.elements ∙ e;
  shown_right = IsShownRight-filter s.active s.elements a;
}

sources-created :
    (dir : Dir) (ms : List Message)
    → (sources (map (create_element dir) ms) ≡ ms) × All HasChannel (map (create_element dir) ms)
unfolding create_element
sources-created dir [] = (refl, tt)
sources-created dir (m ∷ ms) =
    let (same, right) = sources-created dir ms in (ap (m ∷◌) same, (refl, right))

All-drop_one :
    (i : ℕ) (es : List Element) → All (IsShownRight i) es → All (IsShownRight i) (drop 1 es)
All-drop_one i [] a = tt
All-drop_one i (e ∷ es) a = a.1

drop_one-append :
    (ms : List Message) (m : Message) → 0 < length ms → drop 1 (ms ++ m ∷ []) ≡ drop 1 ms ++ m ∷ []
drop_one-append [] m h = elim h [ ]
drop_one-append (x ∷ ms) m h = refl

sources-append :
    (es : List Element) (e : Element) (ms : List Message)
    → sources es ≡ ms
    → sources (es ++ e ∷ []) ≡ ms ++ e.source ∷ []
sources-append es e ms h = map-append (λ x. x.source) es (e ∷ []) ∙ ap (λ l. l ++ e.source ∷ []) h

-- The element that `appendChatMessage` adds.
abbrev pub added : Dir → Message → ℕ → Element
added dir m active =
    let element = create_element dir m in
    if m.channel == active then element else record element { shown = false }

added_right :
    (dir : Dir) (m : Message) (i : ℕ)
    → ((added dir m i).source ≡ m) × IsShownRight i (added dir m i)
unfolding create_element
added_right dir m i = elim (Bool-cases (m.channel == i)) [
  | inl here ↦ rw here (refl, (refl, sym here))
  | inr away ↦ rw away (refl, (refl, sym away))
]

-- The two lists of `appendChatMessage`, by whether the limit is passed.
abbrev pub trimmed {ℓ} : {A : Type ℓ} → Bool → List A → List A
trimmed full xs = if full then drop 1 xs else xs

trimmed-append :
    (full : Bool) (ms : List Message) (m : Message)
    → (full ≡ true → 0 < length ms)
    → trimmed full (ms ++ m ∷ []) ≡ trimmed full ms ++ m ∷ []
trimmed-append false ms m h = refl
trimmed-append true ms m h = drop_one-append ms m (h refl)

sources-trimmed :
    (full : Bool) (es : List Element) → sources (trimmed full es) ≡ trimmed full (sources es)
sources-trimmed false es = refl
sources-trimmed true es = map-drop (λ e. e.source) 1 es

IsShownRight-trimmed :
    (full : Bool) (i : ℕ) (es : List Element)
    → All (IsShownRight i) es
    → All (IsShownRight i) (trimmed full es)
IsShownRight-trimmed false i es a = a
IsShownRight-trimmed true i es a = All-drop_one i es a

pub append_lists :
    (dir : Dir) (m : Message) (s : Chat)
    → let full = too_many (s.messages ++ m ∷ []) in
      ((append_message dir m s).messages ≡ trimmed full (s.messages ++ m ∷ []))
      × ((append_message dir m s).elements ≡ trimmed full s.elements ++ added dir m s.active ∷ [])
      × ((append_message dir m s).active ≡ s.active)
unfolding append_message update_badges
append_lists dir m s = elim (Bool-cases (s.auto_scroll && m.channel == s.active)) [
  | inl b ↦ rw b (refl, refl, refl)
  | inr b ↦ rw b (refl, refl, refl)
]

full_pos : (ms : List Message) (m : Message) → too_many (ms ++ m ∷ []) ≡ true → 0 < length ms
full_pos ms m h = omega (arith, ltb→lt 500 (length (ms ++ m ∷ [])) h, length-append ms (m ∷ []))

pub append_message-Mirror :
    (dir : Dir) (m : Message) (s : Chat) → Mirror s → Mirror (append_message dir m s)
append_message-Mirror dir m s v =
    let full : Bool = too_many (s.messages ++ m ∷ []) in
    let (messages, elements, active) = append_lists dir m s in
    let (source, right) = added_right dir m s.active in
    record {
      in_step =
          rw (messages, elements)
            (sources-append (trimmed full s.elements) (added dir m s.active)
                (trimmed full s.messages)
                (sources-trimmed full s.elements ∙ ap (trimmed full) v.in_step)
              ∙ ap (λ x. trimmed full s.messages ++ x ∷ []) source
              ∙ sym (trimmed-append full s.messages m (full_pos s.messages m)));
      shown_right =
          rw (elements, active)
            (All-append (IsShownRight s.active) (trimmed full s.elements)
              (added dir m s.active ∷ [])
              (IsShownRight-trimmed full s.active s.elements v.shown_right) (right, tt));
    }

pub select_channel-Mirror : (i : ℕ) (s : Chat) → Mirror s → Mirror (select_channel i s)
unfolding select_channel
select_channel-Mirror i s v =
    let w =
      apply_filter-Mirror (record s { active = i }) v.in_step
        (HasChannel-of s.active s.elements v.shown_right) in
    record {
      in_step = unfold apply_filter in w.in_step;
      shown_right = unfold apply_filter in w.shown_right;
    }

channels_loaded-Mirror : (cs : List Channel) (s : Chat) → Mirror s → Mirror (channels_loaded cs s)
unfolding channels_loaded
channels_loaded-Mirror [] s v = record { in_step = v.in_step; shown_right = v.shown_right }
channels_loaded-Mirror (c ∷ cs) s v =
    select_channel-Mirror c.index
      (record s { channels = c ∷ cs; buttons = render_sidebar (c ∷ cs) })
      (record { in_step = v.in_step; shown_right = v.shown_right })

load_history-Mirror :
    (dir : Dir) (ms : List Message) (s : Chat) → Mirror s → Mirror (load_history dir ms s)
unfolding load_history
load_history-Mirror dir [] s v = v
load_history-Mirror dir (m ∷ ms) s v =
    let (same, right) = sources-created dir (m ∷ ms) in
    let w =
      apply_filter-Mirror
        (record s { messages = m ∷ ms; elements = map (create_element dir) (m ∷ ms) }) same right in
    record {
      in_step = unfold apply_filter update_badges in w.in_step;
      shown_right = unfold apply_filter update_badges in w.shown_right;
    }

init_chat-Mirror : (s : Chat) → Mirror s → Mirror (init_chat s).0
unfolding init_chat
init_chat-Mirror s v = ground arith

pub step-Mirror : (dir : Dir) (e : Event) (s : Chat) → Mirror s → Mirror (step dir e s)
unfolding step
step-Mirror dir init s v = init_chat-Mirror s v
step-Mirror dir (channels cs) s v = channels_loaded-Mirror cs s v
step-Mirror dir (select i) s v = select_channel-Mirror i s v
step-Mirror dir (history ms) s v = load_history-Mirror dir ms s v
step-Mirror dir (message m) s v = append_message-Mirror dir m s v
step-Mirror dir (scroll a b c) s v =
    unfold on_scroll in record { in_step = v.in_step; shown_right = v.shown_right }

run_from-Mirror : (es : List (Dir × Event)) (s : Chat) → Mirror s → Mirror (run es s)
unfolding run
run_from-Mirror [] s v = v
run_from-Mirror ((dir, e) ∷ es) s v = run_from-Mirror es (step dir e s) (step-Mirror dir e s v)

-- After any events of the panel the displayed list has one element for each kept message, in the
-- same order, and an element is displayed exactly when its message belongs to the active channel.
pub run-Mirror : (es : List (Dir × Event)) → Mirror (run es fresh_chat)
run-Mirror es = run_from-Mirror es fresh_chat (record { in_step = refl; shown_right = tt })
