-- ===== src/Dashboard/Sends.antt =====
-- The composer on the dashboard with the messages that are being sent.
use mathlib.Core.Path.{subst}
use meshtastic_proxy.Base.{
  ℕ, sub_ℕ, List, [], ◌∷◌, Text, Bool, true, false, not, ◌&&◌, ◌==◌, none, if◌then◌else◌, ◌≡◌, refl,
  sym, ap, ◌∙◌, arith, if_keeps, length, length-append, trim, truthy, text_truthy, Bool-cases, inl,
  inr,
}
use meshtastic_proxy.Sse
use meshtastic_proxy.Sse.{holds_back}
use meshtastic_proxy.Chat
use meshtastic_proxy.Chat.Send
use meshtastic_proxy.Chat.Send.{
  Composer, Outcome, answer, broken, send_message, on_key, on_input, update_send_button, finish,
  settle,
}
use meshtastic_proxy.App.{dashboard, map_tab, chat, nodes}
use meshtastic_proxy.Nodes.Actions.{take_at}
use meshtastic_proxy.Dashboard.{
  Browser, Dashboard, Payload, metrics, kind, Event, pause_pressed, arrives, show_tab, request_ends,
  channels_end, types_in, presses_key, presses_send, send_ends,
}
use meshtastic_proxy.Dashboard.Steps.{
  step, receive, handle, on_trace, on_chat, on_stream, switch_tab, open_chat, post, end_send,
}
use meshtastic_proxy.Dashboard.Untouched.{same-end_request, same-end_channels}

-- One message is being sent while the input is disabled, and else none; the button is disabled
-- meanwhile, and else exactly for a blank text; the counter fits the text.
pub record Sends (x : Composer × List Send.Request) : Type 0 where
  pub one : length x.1 ≡ (if x.0.input_disabled then 1 else 0)
  pub locked : x.0.input_disabled ≡ true → x.0.send_disabled ≡ true
  pub button : x.0.input_disabled ≡ false → x.0.send_disabled ≡ (length (trim x.0.value) == 0)
  pub counter : x.0.remaining ≡ sub_ℕ 237 (length x.0.value)

input-Sends :
    (t : Text) (c : Composer) (rs : List Send.Request)
    → c.input_disabled ≡ false
    → Sends (c, rs)
    → Sends (on_input t c, rs)
unfolding on_input update_send_button
input-Sends t c rs free v = record {
  one = v.one;
  locked = λ h. absurd (cc (free, h));
  button = λ h. refl;
  counter = refl;
}

settled-Sends :
    (o : Outcome) (c : Composer) (r : Send.Request) (rs : List Send.Request)
    → Sends (c, r ∷ rs)
    → Sends (settle o c, rs)
unfolding settle finish update_send_button
settled-Sends (answer true) c r rs v = record {
  one = ground (arith, v.one);
  locked = λ h. absurd (cc h);
  button = λ h. refl;
  counter = refl;
}
settled-Sends (answer false) c r rs v = record {
  one = ground (arith, v.one);
  locked = λ h. absurd (cc h);
  button = λ h. refl;
  counter = refl;
}
settled-Sends broken c r rs v = record {
  one = ground (arith, v.one);
  locked = λ h. absurd (cc h);
  button = λ h. refl;
  counter = refl;
}

module _ {ℓ} {R : Type ℓ} (b : Browser R) where
  abbrev pub sends : Dashboard R → Composer × List Send.Request
  sends s = (s.composer, s.outbox)

  post-Sends :
      (active : ℕ) (s : Dashboard R)
      → s.composer.input_disabled ≡ false
      → Sends (sends s)
      → Sends (sends (post (send_message active s.composer) s))
  unfolding send_message
  post-Sends active s free v =
      let empty : length s.outbox ≡ 0 = v.one ∙ ap (λ x. if x then 1 else 0) free in
      let sent : Send.Request = record {
        body = trim s.composer.value;
        to = Chat.broadcast;
        channel = active;
      } in
      elim (Bool-cases (truthy (trim s.composer.value))) [
        | inr blank ↦ simp blank v
        | inl filled ↦ simp filled (record {
          one = omega (arith, empty, length-append s.outbox (sent ∷ []));
          locked = λ h. refl;
          button = λ h. absurd (cc h);
          counter = v.counter;
        })
      ]

  handle-Sends : (now : ℕ) (p : Payload) (s : Dashboard R) → sends (handle b now p s) ≡ sends s
  unfolding handle on_chat on_trace
  handle-Sends now (metrics snap) s = refl
  handle-Sends now _ s = refl

  key-Sends :
      (active : ℕ) (enter shift : Bool) (s : Dashboard R)
      → s.composer.input_disabled ≡ false
      → Sends (sends s)
      → Sends (sends (post (on_key active enter shift s.composer) s))
  unfolding on_key
  key-Sends active enter shift s free v =
      if_keeps (λ p. sends (post p s)) Sends (enter && not shift && truthy (trim s.composer.value))
        (send_message active s.composer) (s.composer, none) (post-Sends active s free v) v

  ends-Sends :
      (o : Outcome) (rs : List Send.Request) (s : Dashboard R)
      → s.outbox ≡ rs
      → Sends (sends s)
      → Sends (sends (end_send b o rs s))
  ends-Sends o [] s at v = v
  ends-Sends o (r ∷ rs) s at v =
      settled-Sends o s.composer r rs (subst (λ l. Sends (s.composer, l)) at v)

  unless_disabled :
      (off : Bool) (s t : Dashboard R)
      → Sends (sends s)
      → (off ≡ false → Sends (sends t))
      → Sends (sends (if off then s else t))
  unless_disabled true s t v w = v
  unless_disabled false s t v w = w refl

  unlocked :
      (s : Dashboard R)
      → Sends (sends s)
      → s.composer.send_disabled ≡ false
      → s.composer.input_disabled ≡ false
  unlocked s v h = elim (Bool-cases s.composer.input_disabled) [
    | inl off ↦ absurd (cc (v.locked off, h))
    | inr on ↦ on
  ]

  -- One event of the dashboard keeps the composer and what is being sent in step.
  pub step-Sends :
      (now : ℕ) (e : Event) (s : Dashboard R) → Sends (sends s) → Sends (sends (step b now e s))
  unfolding step receive switch_tab open_chat on_trace on_chat
  step-Sends now (arrives p) s v =
      let s1 : Dashboard R = on_stream b (Sse.arrives (kind p)) s in
      if_keeps sends Sends (s.app.paused && holds_back (kind p)) s1 (handle b now p s1) v
        (subst Sends (sym (handle-Sends now p s1)) v)
  step-Sends now (types_in t) s v =
      unless_disabled s.composer.input_disabled s (record s { composer = on_input t s.composer }) v
        (λ free. input-Sends t s.composer s.outbox free v)
  step-Sends now (presses_key enter shift) s v =
      unless_disabled s.composer.input_disabled s
        (post (on_key s.chat.active enter shift s.composer) s) v
        (λ free. key-Sends s.chat.active enter shift s free v)
  step-Sends now presses_send s v =
      unless_disabled s.composer.send_disabled s (post (send_message s.chat.active s.composer) s) v
        (λ on. post-Sends s.chat.active s (unlocked s v on) v)
  step-Sends now (send_ends o) s v = ends-Sends o s.outbox s refl v
  step-Sends now (show_tab dashboard) s v = v
  step-Sends now (show_tab map_tab) s v = v
  step-Sends now (show_tab chat) s v = v
  step-Sends now (show_tab nodes) s v = v
  step-Sends now (channels_end o) s v =
      subst Sends
        (sym (same-end_channels b sends (λ s n. refl) (λ e n s. refl) s.channel_requests o s)) v
  step-Sends now (request_ends i ok) s v =
      subst Sends
        (sym (
          same-end_request b sends (λ s rs. refl) (λ now e rs s. refl) now ok (take_at i s.requests)
            s))
        v
  step-Sends now pause_pressed s v = v
  step-Sends now _ s v = v
