-- ===== src/Dashboard/Untouched.antt =====
-- What the dispatch leaves alone: a part of the page that no write of a helper, or of an event,
-- changes is the same after it. A proof gives the writes as equations, which mostly compute.
use mathlib.Core.Path.{subst}
use meshtastic_proxy.Base.{
  ℕ, zero, suc, List, [], ◌∷◌, ◌++◌, Bool, true, false, Option, none, some, ◌≡◌, refl, sym, ◌∙◌,
  if_both,
}
use meshtastic_proxy.Chat
use meshtastic_proxy.Chat.{Channel}
use meshtastic_proxy.Chat.Send
use meshtastic_proxy.Chat.Send.{Composer, on_input}
use meshtastic_proxy.Nodes.Actions.{
  Command, Request, ask_position, ask_nodeinfo, ask_store_forward, set_favorite, take_at,
}
use meshtastic_proxy.App
use meshtastic_proxy.App.{Tab, dashboard, map_tab, chat, nodes}
use meshtastic_proxy.Dashboard.{
  Browser, Dashboard, Event, show_tab, request_ends, channels_end, types_in, presses_key,
  presses_send, send_ends,
}
use meshtastic_proxy.Dashboard.Steps.{
  step, switch_tab, open_chat, on_app, on_chat, post, settle_request, end_request, end_channels,
  end_send,
}

module _ {ℓ κ} {R : Type ℓ} {B : Type κ} (b : Browser R) (f : Dashboard R → B) where
  pub same-end_request :
      ((s : Dashboard R) (rs : List Request) → f (record s { requests = rs }) ≡ f s)
      → ((now : ℕ) (e : App.Event) (rs : List Request) (s : Dashboard R)
          → f (on_app b now e (record s { requests = rs })) ≡ f s)
      → (now : ℕ) (ok : Bool) (o : Option (Request × List Request)) (s : Dashboard R)
      → f (end_request b now ok o s) ≡ f s
  same-end_request freed moved now ok none s = refl
  same-end_request freed moved now ok (some (r, rest)) s = go ok r.command
    where
      go :
          (ok : Bool) (c : Command)
          → f (settle_request b now ok (record r { command = c }) (record s { requests = rest }))
            ≡ f s
      go false c = freed s rest
      go true ask_position = freed s rest
      go true ask_nodeinfo = freed s rest
      go true ask_store_forward = freed s rest
      go true (set_favorite mark) = moved now (App.favorite_set r.target mark) rest s

  pub same-end_channels :
      ((s : Dashboard R) (n : ℕ) → f (record s { channel_requests = n }) ≡ f s)
      → ((e : Chat.Event) (n : ℕ) (s : Dashboard R)
          → f (on_chat b e (record s { channel_requests = n })) ≡ f s)
      → (n : ℕ) (o : Option (List Channel)) (s : Dashboard R) → f (end_channels b n o s) ≡ f s
  same-end_channels freed moved zero o s = refl
  same-end_channels freed moved (suc n) none s = freed s n
  same-end_channels freed moved (suc n) (some cs) s = moved (Chat.channels cs) n s

  same-end_send :
      ((s : Dashboard R) (c : Composer) (rs : List Send.Request)
        → f (record s { outbox = rs; composer = c }) ≡ f s)
      → (o : Send.Outcome) (rs : List Send.Request) (s : Dashboard R) → f (end_send b o rs s) ≡ f s
  same-end_send freed o [] s = refl
  same-end_send freed o (r ∷ rs) s = freed s (Send.settle o s.composer) rs

  same-post :
      ((s : Dashboard R) (c : Composer) (rs : List Send.Request)
        → f (record s { outbox = rs; composer = c }) ≡ f s)
      → (p : Composer × Option Send.Request) (s : Dashboard R) → f (post p s) ≡ f s
  same-post freed (c, none) s = freed s c s.outbox
  same-post freed (c, some r) s = freed s c (s.outbox ++ r ∷ [])

-- The events of the composer.
abbrev is_composed : Event → Bool
is_composed (types_in t) = true
is_composed (presses_key enter shift) = true
is_composed presses_send = true
is_composed (send_ends o) = true
is_composed _ = false

-- The events that touch only the directory, the map, the table, the chat, the open requests and the
-- composer.
abbrev is_outside : Event → Bool
is_outside (show_tab t) = true
is_outside (request_ends i ok) = true
is_outside (channels_end o) = true
is_outside e = is_composed e

module _ {ℓ κ} {R : Type ℓ} {B : Type κ} (b : Browser R) (f : Dashboard R → B) where
  pub same-composed :
      ((s : Dashboard R) (c : Composer) (rs : List Send.Request)
        → f (record s { outbox = rs; composer = c }) ≡ f s)
      → (now : ℕ) (e : Event) → is_composed e ≡ true
      → (s : Dashboard R) → f (step b now e s) ≡ f s
  unfolding step
  same-composed freed now (types_in t) h s =
      if_both f s.composer.input_disabled s _ (f s) refl (freed s (on_input t s.composer) s.outbox)
  same-composed freed now (presses_key enter shift) h s =
      if_both f s.composer.input_disabled s _ (f s) refl (same-post b f freed _ s)
  same-composed freed now presses_send h s =
      if_both f s.composer.send_disabled s _ (f s) refl (same-post b f freed _ s)
  same-composed freed now (send_ends o) h s = same-end_send b f freed o s.outbox s
  same-composed freed now _ h s = absurd (cc h)

  pub composed-keeps :
      (P : B → Type 0)
      → ((s : Dashboard R) (c : Composer) (rs : List Send.Request)
          → f (record s { outbox = rs; composer = c }) ≡ f s)
      → (now : ℕ) (e : Event) → is_composed e ≡ true
      → (s : Dashboard R) → P (f s)
      → P (f (step b now e s))
  composed-keeps P freed now e h s = subst P (sym (same-composed freed now e h s))

  -- A part of the page that the writes of these events leave alone.
  pub record IsApart : Type (ℓ ⊔ κ) where
    pub of_app : (s : Dashboard R) (a : App.App R) → f (record s { app = a }) ≡ f s
    pub of_chat : (s : Dashboard R) (c : Chat.Chat) → f (record s { chat = c }) ≡ f s
    pub of_requests : (s : Dashboard R) (rs : List Request) → f (record s { requests = rs }) ≡ f s
    pub of_channels : (s : Dashboard R) (n : ℕ) → f (record s { channel_requests = n }) ≡ f s
    pub of_composer :
        (s : Dashboard R) (c : Composer) (rs : List Send.Request)
        → f (record s { outbox = rs; composer = c }) ≡ f s

  same-open_chat : IsApart → (s : Dashboard R) → f (open_chat b s) ≡ f s
  unfolding open_chat
  same-open_chat v s = v.of_channels _ _ ∙ v.of_chat s _

  same-switch_tab : IsApart → (now : ℕ) (t : Tab) (s : Dashboard R) → f (switch_tab b now t s) ≡ f s
  unfolding switch_tab
  same-switch_tab v now dashboard s = v.of_app s _
  same-switch_tab v now map_tab s = v.of_app s _
  same-switch_tab v now chat s = same-open_chat v _ ∙ v.of_app s _
  same-switch_tab v now nodes s = v.of_app s _

  pub same-outside :
      IsApart
      → (now : ℕ) (e : Event) → is_outside e ≡ true
      → (s : Dashboard R) → f (step b now e s) ≡ f s
  unfolding step on_chat
  same-outside v now (show_tab t) h s = same-switch_tab v now t s
  same-outside v now (request_ends i ok) h s =
      same-end_request b f v.of_requests (λ now e rs s. v.of_app _ _ ∙ v.of_requests s rs) now ok
        (take_at i s.requests) s
  same-outside v now (channels_end o) h s =
      same-end_channels b f v.of_channels (λ e n s. v.of_chat _ _ ∙ v.of_channels s n)
        s.channel_requests o s
  same-outside v now e h s = same-composed v.of_composer now e h s

  pub outside-keeps :
      (P : B → Type 0)
      → IsApart
      → (now : ℕ) (e : Event) → is_outside e ≡ true
      → (s : Dashboard R) → P (f s)
      → P (f (step b now e s))
  outside-keeps P v now e h s = subst P (sym (same-outside v now e h s))
