-- ===== src/Chat/Send.antt =====
-- chat.js: the composer, with the send button, the character counter, the size of the text area and
-- the request that a press of Enter or of the button makes.
use meshtastic_proxy.Base.{
  ℕ, ◌+◌, ◌*◌, ◌≤◌, min, ℤ, pos, sub_ℕ, ◌+ℤ◌, [], Text, Bool, true, false, not, ◌&&◌, ◌||◌, Option,
  none, some, ◌==◌, ltb, leb, if◌then◌else◌, truthy, text_truthy, trim, length, ◌≡◌, arith, ◌↔◌,
}
use meshtastic_proxy.Chat.{broadcast}

pub data Tone : Type 0 where
  grey amber red : Tone

pub record Composer : Type 0 where
  pub value : Text
  pub send_disabled : Bool
  pub input_disabled : Bool
  pub remaining : ℤ
  pub tone : Tone

-- `updateSendButton`: the counter shows `237 - len`.
unfoldable pub update_send_button : Composer → Composer
update_send_button c =
    let len = length c.value in
    record c {
      send_disabled = length (trim c.value) == 0;
      remaining = sub_ℕ 237 len;
      tone = if leb 237 len then red else if ltb 200 len then amber else grey;
    }

-- `autoResizeTextarea`: the height in pixels and whether the area scrolls, from the line height and
-- the height of the content.
unfoldable auto_resize : ℕ → ℕ → ℕ × Bool
auto_resize line_height scroll_height =
    let max_height = line_height * 4 + 16 in
    (min scroll_height max_height, ltb max_height scroll_height)

-- The body of the request.
pub record Request : Type 0 where
  pub body : Text
  pub to : ℕ
  pub channel : ℕ

-- `sendMessage` up to the request, with the active channel.
unfoldable pub send_message : ℕ → Composer → Composer × Option Request
send_message active c =
    if truthy (trim c.value)
    then (
      record c { send_disabled = true; input_disabled = true },
      some (record { body = trim c.value; to = broadcast; channel = active }),
    )
    else (c, none)

-- The last callback of the request, `finally`.
unfoldable pub finish : Composer → Composer
unfolding update_send_button
finish c = update_send_button (record c { send_disabled = false; input_disabled = false })

-- How a request ends: by an answer, with `r.ok`, or by an error of the network.
pub data Outcome : Type 0 where
  answer : Bool → Outcome
  broken : Outcome

unfoldable pub settle : Outcome → Composer → Composer
unfolding update_send_button finish
settle (answer true) c = finish (update_send_button (record c { value = [] }))
settle (answer false) c = finish c
settle broken c = finish c

-- The listeners of `input`, `keydown` (whether the key is Enter, and Shift is held) and `click`.
unfoldable pub on_input : Text → Composer → Composer
unfolding update_send_button
on_input t c = update_send_button (record c { value = t })

unfoldable pub on_key : ℕ → Bool → Bool → Composer → Composer × Option Request
unfolding send_message
on_key active enter shift c =
    if enter && not shift && truthy (trim c.value) then send_message active c else (c, none)

abbrev pub is_answered : Outcome → Bool
is_answered (answer ok) = ok
is_answered broken = false

-- A press of the button sends exactly when the text is not blank: the trimmed text, to everybody,
-- on the active channel, with the input disabled meanwhile. When the request has
-- ended the input is enabled, the button is enabled exactly for a text that is not blank, and the
-- typed text is cleared exactly after an answer that is ok.
pub send_lem :
    (active : ℕ) (c : Composer) (o : Outcome)
    → let sent = send_message active c in
      let done = settle o sent.0 in
      ((sent.1 ≡ some (record { body = trim c.value; to = broadcast; channel = active }))
        ↔ (truthy (trim c.value) ≡ true))
      × ((sent.1 ≡ none) ↔ (truthy (trim c.value) ≡ false))
      × (sent.0.input_disabled ≡ (c.input_disabled || truthy (trim c.value)))
      × (done.input_disabled ≡ false)
      × (done.send_disabled ≡ (length (trim done.value) == 0))
      × (done.value ≡ (if is_answered o then [] else c.value))
unfolding send_message settle
send_lem active c (answer true) =
    (ground arith, ground arith, ground arith, ground arith, ground arith, ground arith)
send_lem active c (answer false) =
    (ground arith, ground arith, ground arith, ground arith, ground arith, ground arith)
send_lem active c broken =
    (ground arith, ground arith, ground arith, ground arith, ground arith, ground arith)

-- The counter is what is left of 237 code units, negative beyond; it is red from 237 on, amber from
-- 201 to 236 and grey below.
counter_lem :
    (t : Text) (c : Composer)
    → let after = on_input t c in
      (after.remaining +ℤ pos (length t) ≡ pos 237)
      × ((after.tone ≡ red) ↔ (237 ≤ length t))
      × ((after.tone ≡ grey) ↔ (length t ≤ 200))
unfolding on_input ◌+ℤ◌
counter_lem t c =
    (ground arith, (λ h. ground arith, λ h. ground arith), (λ h. ground arith, λ h. ground arith))
