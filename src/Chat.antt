-- ===== src/Chat.antt =====
-- chat.js: the chat panel. The elements of the message list are kept as records: the message that
-- an element was made of, what it shows, and its `display`. The styles and the time stamp (which
-- the browser formats) are left out.
pub mod Mirror
pub mod Badges
pub mod Send
use mathlib.Core.List.{reverse}
use meshtastic_proxy.Base.{
  ℕ, zero, suc, ◌+◌, ◌-◌, ℤ, sub_ℕ, List, [], ◌∷◌, ◌++◌, map, Text, text, Bool, true, false, not,
  ◌&&◌, ◌||◌, Option, none, some, ◌==◌, ltb, leb, if◌then◌else◌, truthy, nat_truthy, int_truthy,
  text_truthy, option_truthy, text_or, length, count, drop, trim, eq_text,
}
use meshtastic_proxy.Mesh.Hex.{to_string, node_hex}
use meshtastic_proxy.Mesh.Escape.{esc}
use meshtastic_proxy.Mesh.Names.{node_name_text}
use meshtastic_proxy.Directory.{Dir}

pub data Direction : Type 0 where
  incoming outgoing : Direction

pub record Message : Type 0 where
  pub from : ℕ
  pub to : ℕ
  pub channel : ℕ
  pub body : Text
  pub from_name : Option Text
  pub to_name : Option Text
  pub direction : Direction
  pub via_mqtt : Bool
  pub rx_rssi : ℤ
  pub rx_snr : ℤ

pub record Channel : Type 0 where
  pub index : ℕ
  pub name : Option Text

-- The colours of an element.
pub data Tone : Type 0 where
  indigo amber blue : Tone

abbrev is_outgoing : Direction → Bool
is_outgoing incoming = false
is_outgoing outgoing = true

-- An element `.chat-msg`.
pub record Element : Type 0 where
  pub source : Message
  pub channel : ℕ
  pub tone : Tone
  pub from_title : Text
  pub from_html : Text
  pub to_html : Option (Text × Text)
  pub mqtt_badge : Bool
  pub dm_badge : Bool
  pub signal : Option (ℤ × Option ℤ)
  pub body_html : Text
  pub shown : Bool

abbrev pub broadcast : ℕ
broadcast = 0xffff_ffff

-- `x || y` on names.
abbrev name_or : Option Text → Text → Text
name_or o y = if truthy o then text_or o else y

-- `createMessageEl`; a fresh element is displayed.
unfoldable pub create_element : Dir → Message → Element
unfolding esc node_hex node_name_text
create_element dir m =
    let dm = not (m.to == broadcast) in
    record {
      source = m;
      channel = m.channel;
      tone = if is_outgoing m.direction then indigo else if dm then amber else blue;
      from_title = node_hex m.from;
      from_html = esc (name_or m.from_name (node_name_text dir m.from));
      to_html =
          if dm
          then some (node_hex m.to, esc (name_or m.to_name (node_name_text dir m.to)))
          else none;
      mqtt_badge = m.via_mqtt;
      dm_badge = dm;
      signal =
          if truthy m.rx_rssi
          then some (m.rx_rssi, if truthy m.rx_snr then some m.rx_snr else none)
          else none;
      body_html = esc m.body;
      shown = true;
    }

-- A button of the sidebar.
pub record ChannelButton : Type 0 where
  pub channel : ℕ
  pub label : Text
  pub active : Bool
  pub badge : Option ℕ

pub record Chat : Type 0 where
  pub initialized : Bool
  pub messages : List Message
  pub channels : List Channel
  pub auto_scroll : Bool
  pub active : ℕ
  pub elements : List Element
  pub buttons : List ChannelButton
  pub header : Text
  pub empty_shown : Bool
  pub scrolls : ℕ

-- The state when the script has loaded, with the note of an empty chat shown or not.
abbrev pub fresh_chat : Chat
fresh_chat = record {
  initialized = false;
  messages = [];
  channels = [];
  auto_scroll = true;
  active = 0;
  elements = [];
  buttons = [];
  header = [];
  empty_shown = true;
  scrolls = 0;
}

abbrev label_of : ℕ → Option Text → Text
label_of i name = name_or name (text "Ch " ++ to_string 10 i)

-- `renderSidebar`.
unfoldable pub render_sidebar : List Channel → List ChannelButton
unfolding esc to_string
render_sidebar [] = []
render_sidebar (c ∷ cs) =
    record {
      channel = c.index;
      label = esc (label_of c.index c.name);
      active = false;
      badge = none;
    }
    ∷ render_sidebar cs

abbrev pub show_for : ℕ → Element → Element
show_for active e = record e { shown = e.channel == active }

-- `applyChatFilter`.
unfoldable pub apply_filter : Chat → Chat
apply_filter s =
    let filtered = map (show_for s.active) s.elements in
    record s { elements = filtered; empty_shown = count (λ e. e.shown) filtered == 0 }

unfoldable find_channel : ℕ → List Channel → Option Channel
find_channel i [] = none
find_channel i (c ∷ cs) = if c.index == i then some c else find_channel i cs

abbrev channel_name : Option Channel → Option Text
channel_name none = none
channel_name (some c) = c.name

abbrev pub mark_active : ℕ → ChannelButton → ChannelButton
mark_active i b = record b { active = b.channel == i }

-- `selectChannel`.
unfoldable pub select_channel : ℕ → Chat → Chat
unfolding apply_filter find_channel to_string
select_channel i s = apply_filter (record s {
  active = i;
  buttons = map (mark_active i) s.buttons;
  header = label_of i (channel_name (find_channel i s.channels));
})

-- The first callback of `loadChannels`, with the channels that the server sent.
unfoldable pub channels_loaded : List Channel → Chat → Chat
unfolding render_sidebar select_channel
channels_loaded cs s =
    let drawn = record s { channels = cs; buttons = render_sidebar cs } in
    elim cs [ [] ↦ drawn | c ∷ rest ↦ select_channel c.index drawn ]

-- `updateBadges`: the messages of each channel, or nothing where there are none.
abbrev pub in_channel : ℕ → Message → Bool
in_channel i m = m.channel == i

unfoldable pub badge_of : List Message → ℕ → Option ℕ
badge_of ms i = let n = count (in_channel i) ms in if ltb 0 n then some n else none

abbrev pub set_badge : List Message → ChannelButton → ChannelButton
set_badge ms b = record b { badge = badge_of ms b.channel }

unfoldable pub update_badges : Chat → Chat
unfolding badge_of
update_badges s = record s { buttons = map (set_badge s.messages) s.buttons }

-- `scrollChatToBottom`, counted.
abbrev pub scroll_to_bottom : Chat → Chat
scroll_to_bottom s = record s { scrolls = s.scrolls + 1 }

-- `loadChatHistory`: an empty history is passed over.
unfoldable pub load_history : Dir → List Message → Chat → Chat
unfolding create_element update_badges apply_filter
load_history dir [] s = s
load_history dir (m ∷ ms) s = scroll_to_bottom (
    apply_filter (
      update_badges (record s {
        messages = m ∷ ms;
        elements = map (create_element dir) (m ∷ ms);
        empty_shown = false;
      })))

-- `push` and the trim to 500: the first message goes, and the first element with it.
abbrev pub too_many : List Message → Bool
too_many ms = ltb 500 (length ms)

-- `appendChatMessage`.
unfoldable pub append_message : Dir → Message → Chat → Chat
unfolding create_element update_badges
append_message dir m s =
    let pushed = s.messages ++ m ∷ [] in
    let here = m.channel == s.active in
    let full = too_many pushed in
    let element = create_element dir m in
    let added = update_badges (record s {
      messages = if full then drop 1 pushed else pushed;
      elements =
          (if full then drop 1 s.elements else s.elements)
          ++ (if here then element else record element { shown = false }) ∷ [];
      empty_shown = false;
    }) in
    if s.auto_scroll && here then scroll_to_bottom added else added

-- The listener of `scroll`, with the distance to the bottom.
unfoldable pub on_scroll : ℕ → ℕ → ℕ → Chat → Chat
on_scroll scroll_height scroll_top client_height s = record s {
  auto_scroll = ltb scroll_height (scroll_top + client_height + 40);
}

-- `initChat`: the channels are asked for once. The result says whether they are.
unfoldable pub init_chat : Chat → Chat × Bool
init_chat s = if s.initialized then (s, false) else (record s { initialized = true }, true)

-- The callbacks of the panel. The channels arrive after `initChat` asked for them.
pub data Event : Type 0 where
  init : Event
  channels : List Channel → Event
  select : ℕ → Event
  history : List Message → Event
  message : Message → Event
  scroll : ℕ → ℕ → ℕ → Event

unfoldable pub step : Dir → Event → Chat → Chat
unfolding init_chat channels_loaded select_channel load_history append_message on_scroll
step dir init s = (init_chat s).0
step dir (channels cs) s = channels_loaded cs s
step dir (select i) s = select_channel i s
step dir (history ms) s = load_history dir ms s
step dir (message m) s = append_message dir m s
step dir (scroll a b c) s = on_scroll a b c s

-- A run; the directory may change from one event to the next.
unfoldable pub run : List (Dir × Event) → Chat → Chat
unfolding step
run [] s = s
run ((dir, e) ∷ es) s = run es (step dir e s)
