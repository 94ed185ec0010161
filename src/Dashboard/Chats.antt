-- ===== src/Dashboard/Chats.antt =====
-- The chat and its composer on the dashboard: the list mirrors the kept messages, the channels are
-- asked for once, and at most one message is being sent.
use mathlib.Core.Path.{subst}
use meshtastic_proxy.Base.{
  ℕ, zero, suc, ◌≤◌, List, [], ◌∷◌, false, ◌&&◌, ◌==◌, Option, none, some, ◌≡◌, refl, sym, ◌∙◌,
  arith, if_both, if_keeps, text_truthy, Bool-cases, inl, inr,
}
use meshtastic_proxy.Directory.{Dir}
use meshtastic_proxy.Sse
use meshtastic_proxy.Sse.{holds_back}
use meshtastic_proxy.Chat
use meshtastic_proxy.Chat.{
  Channel, init_chat, channels_loaded, select_channel, load_history, append_message, on_scroll,
  scroll_to_bottom, apply_filter, update_badges,
}
use meshtastic_proxy.Chat.Mirror.{Mirror, step-Mirror}
use meshtastic_proxy.App
use meshtastic_proxy.App.{Tab, dashboard, map_tab, chat, nodes}
use meshtastic_proxy.Nodes.Actions.{take_at}
use meshtastic_proxy.Dashboard.{
  Browser, Dashboard, Payload, metrics, chat_history, chat_message, kind, Event, pause_pressed,
  arrives, show_tab, request_ends, channels_end, selects, scrolls, types_in, presses_key,
  presses_send, send_ends,
}
use meshtastic_proxy.Dashboard.Steps.{
  step, receive, handle, on_trace, on_chat, on_stream, on_app, switch_tab, open_chat, end_channels,
}
use meshtastic_proxy.Dashboard.Untouched.{same-end_request, composed-keeps}

-- The chat with the number of its requests for the channels that are under way: none before it is
-- initialised, and at most one.
pub record Talks (x : Chat.Chat × ℕ) : Type 0 where
  pub mirror : Mirror x.0
  pub one : x.1 ≤ 1
  pub none_before : x.0.initialized ≡ false → x.1 ≡ 0

abbrev IsCallback : Chat.Event → Type 0
IsCallback Chat.init = ⊥
IsCallback (Chat.channels cs) = Unit
IsCallback (Chat.select i) = Unit
IsCallback (Chat.history ms) = Unit
IsCallback (Chat.message m) = Unit
IsCallback (Chat.scroll x y z) = Unit

step-initialized :
    (dir : Dir) (e : Chat.Event) (s : Chat.Chat)
    → IsCallback e
    → (Chat.step dir e s).initialized ≡ s.initialized
unfolding Chat.step channels_loaded select_channel load_history append_message on_scroll
    apply_filter update_badges
step-initialized dir Chat.init s h = absurd h
step-initialized dir (Chat.channels []) s h = refl
step-initialized dir (Chat.channels (c ∷ cs)) s h = refl
step-initialized dir (Chat.select i) s h = refl
step-initialized dir (Chat.history []) s h = refl
step-initialized dir (Chat.history (m ∷ ms)) s h = refl
step-initialized dir (Chat.message m) s h =
    if_both (λ (x : Chat.Chat). x.initialized) (s.auto_scroll && m.channel == s.active) _ _
      s.initialized refl refl
step-initialized dir (Chat.scroll x y z) s h = refl

callback-Talks :
    (dir : Dir) (e : Chat.Event) (s : Chat.Chat) (n k : ℕ)
    → IsCallback e
    → k ≤ n
    → Talks (s, n)
    → Talks (Chat.step dir e s, k)
callback-Talks dir e s n k h less v = record {
  mirror = step-Mirror dir e s v.mirror;
  one = omega (arith, v.one);
  none_before =
      λ not_yet. omega (arith, v.none_before (sym (step-initialized dir e s h) ∙ not_yet));
}

module _ {ℓ} {R : Type ℓ} (b : Browser R) where
  abbrev pub talks : Dashboard R → Chat.Chat × ℕ
  talks s = (s.chat, s.channel_requests)

  open_chat-Talks : (s : Dashboard R) → Talks (talks s) → Talks (talks (open_chat b s))
  unfolding open_chat init_chat
  open_chat-Talks s v = elim (Bool-cases s.chat.initialized) [
    | inl before ↦ simp before (record {
      mirror = record { in_step = v.mirror.in_step; shown_right = v.mirror.shown_right };
      one = v.one;
      none_before = λ h. absurd (cc h);
    })
    | inr first ↦ simp first (record {
      mirror = record { in_step = v.mirror.in_step; shown_right = v.mirror.shown_right };
      one = omega (arith, v.none_before first);
      none_before = λ h. absurd (cc h);
    })
  ]

  channels-Talks :
      (n : ℕ) (o : Option (List Channel)) (s : Dashboard R)
      → s.channel_requests ≡ n
      → Talks (talks s)
      → Talks (talks (end_channels b n o s))
  unfolding on_chat
  channels-Talks zero o s at v = v
  channels-Talks (suc n) none s at v = record {
    mirror = v.mirror;
    one = omega (arith, v.one);
    none_before = λ h. omega (arith, v.none_before h);
  }
  channels-Talks (suc n) (some cs) s at v =
      callback-Talks s.app.dir (Chat.channels cs) s.chat s.channel_requests n tt (omega arith) v

  handle-Talks :
      (now : ℕ) (p : Payload) (s : Dashboard R) → Talks (talks s) → Talks (talks (handle b now p s))
  unfolding handle on_chat on_trace
  handle-Talks now (chat_history ms) s v =
      callback-Talks s.app.dir (Chat.history ms) s.chat s.channel_requests s.channel_requests tt
        (omega arith) v
  handle-Talks now (chat_message m) s v =
      callback-Talks s.app.dir (Chat.message m) s.chat s.channel_requests s.channel_requests tt
        (omega arith) v
  handle-Talks now (metrics snap) s v = v
  handle-Talks now _ s v = v

  -- One event of the dashboard keeps the chat in step and asks for the channels at most once.
  pub step-Talks :
      (now : ℕ) (e : Event) (s : Dashboard R) → Talks (talks s) → Talks (talks (step b now e s))
  unfolding step receive switch_tab on_trace on_chat
  step-Talks now (arrives p) s v =
      let s1 : Dashboard R = on_stream b (Sse.arrives (kind p)) s in
      if_keeps talks Talks (s.app.paused && holds_back (kind p)) s1 (handle b now p s1) v
        (handle-Talks now p s1 v)
  step-Talks now (show_tab dashboard) s v = v
  step-Talks now (show_tab map_tab) s v = v
  step-Talks now (show_tab chat) s v = open_chat-Talks (on_app b now (App.show_tab chat) s) v
  step-Talks now (show_tab nodes) s v = v
  step-Talks now (channels_end o) s v = channels-Talks s.channel_requests o s refl v
  step-Talks now (selects i) s v =
      callback-Talks s.app.dir (Chat.select i) s.chat s.channel_requests s.channel_requests tt
        (omega arith) v
  step-Talks now (scrolls x y z) s v =
      callback-Talks s.app.dir (Chat.scroll x y z) s.chat s.channel_requests s.channel_requests tt
        (omega arith) v
  step-Talks now (request_ends i ok) s v =
      subst Talks
        (sym (
          same-end_request b talks (λ s rs. refl) (λ now e rs s. refl) now ok (take_at i s.requests)
            s))
        v
  step-Talks now (types_in t) s v =
      composed-keeps b talks Talks (λ s c rs. refl) now (types_in t) refl s v
  step-Talks now (presses_key enter shift) s v =
      composed-keeps b talks Talks (λ s c rs. refl) now (presses_key enter shift) refl s v
  step-Talks now presses_send s v =
      composed-keeps b talks Talks (λ s c rs. refl) now presses_send refl s v
  step-Talks now (send_ends o) s v =
      composed-keeps b talks Talks (λ s c rs. refl) now (send_ends o) refl s v
  step-Talks now pause_pressed s v = v
  step-Talks now _ s v = v
