-- ===== src/Tests/Chat.antt =====
-- Runs of the chat panel: two channels, a few messages, and a text to send.
use meshtastic_proxy.Base.{
  ℕ, ◌+◌, ◌-◌, ◌≤◌, ◌++◌, List, [], ◌∷◌, pos, text, false, true, none, some, ◌≡◌, ◌↔◌, refl, arith,
  ◌&&◌, ◌||◌, ◌==◌, if◌then◌else◌, length, count, All, drop, min, trim, truthy, text_truthy,
}
use meshtastic_proxy.Directory.{Dir}
use meshtastic_proxy.Chat.{
  Message, Channel, Chat, Event, incoming, broadcast, fresh_chat, run, channels, message, select,
  append_message, in_channel,
}
use meshtastic_proxy.Chat.Mirror.{Mirror, run-Mirror}
use meshtastic_proxy.Chat.Badges.{HasBadge, append_message_lem}
use meshtastic_proxy.Chat.Send.{Composer, grey, answer, is_answered, send_message, settle, send_lem}

abbrev on_channel : ℕ → Message
on_channel i = record {
  from = 7;
  to = broadcast;
  channel = i;
  body = text "ping";
  from_name = none;
  to_name = none;
  direction = incoming;
  via_mqtt = false;
  rx_rssi = pos 0;
  rx_snr = pos 0;
}

abbrev two : List Channel
two = record { index = 0; name = some (text "Main") } ∷ record { index = 1; name = none } ∷ []

-- The channels arrive, then two messages on channel 0 and one on channel 1.
abbrev day : List (Dir × Event)
day =
    (none, channels two)
    ∷ (none, message (on_channel 0))
    ∷ (none, message (on_channel 0))
    ∷ (none, message (on_channel 1))
    ∷ []

abbrev evening : Chat
evening = run day fresh_chat

run-Mirror_example : Mirror evening
run-Mirror_example = run-Mirror day

evening-size : length evening.messages ≤ 500
unfolding run
evening-size = omega arith

append_message_example :
    let after = append_message none (on_channel 1) evening in
    All (HasBadge after.messages) after.buttons
    × (after.messages
        ≡ drop (length evening.messages + 1 - 500) (evening.messages ++ on_channel 1 ∷ []))
    × (length after.messages ≡ min (length evening.messages + 1) 500)
    × (after.scrolls ≡ (
        if evening.auto_scroll && 1 == evening.active
        then evening.scrolls + 1
        else evening.scrolls))
append_message_example = append_message_lem none (on_channel 1) evening evening-size

-- Channel 2 is selected, on which nobody has written.
abbrev quiet_day : List (Dir × Event)
quiet_day = (none, message (on_channel 0)) ∷ (none, select 2) ∷ []

abbrev quiet : Chat
quiet = run quiet_day fresh_chat

quiet-active : quiet.active ≡ 2
unfolding run
quiet-active = refl

quiet-empty : count (in_channel quiet.active) quiet.messages ≡ 0
unfolding run
quiet-empty = refl

abbrev composer : Composer
composer = record {
  value = text " hello ";
  send_disabled = false;
  input_disabled = false;
  remaining = pos 230;
  tone = grey;
}

send_example :
    let sent = send_message 1 composer in
    let done = settle (answer true) sent.0 in
    ((sent.1 ≡ some (record { body = trim composer.value; to = broadcast; channel = 1 }))
      ↔ (truthy (trim composer.value) ≡ true))
    × ((sent.1 ≡ none) ↔ (truthy (trim composer.value) ≡ false))
    × (sent.0.input_disabled ≡ (composer.input_disabled || truthy (trim composer.value)))
    × (done.input_disabled ≡ false)
    × (done.send_disabled ≡ (length (trim done.value) == 0))
    × (done.value ≡ (if is_answered (answer true) then [] else composer.value))
send_example = send_lem 1 composer (answer true)
