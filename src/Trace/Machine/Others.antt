-- ===== src/Trace/Machine/Others.antt =====
-- The trace buttons of the nodes that are not being traced, through a cooldown.
use meshtastic_proxy.Base.{
  ℕ, ◌-◌, List, [], ◌∷◌, true, false, not, some, ◌≡◌, refl, ◌∙◌, arith, ◌==◌, ==_refl, Bool-cases,
  inl, inr, length, filter,
}
use meshtastic_proxy.Trace.Machine.{
  Cooldown, Button, Machine, Page, interval, tick, on_buttons, reset_trace_button, step, run,
  is_trace_active, reset_button, show_seconds, get_trace_state,
}
use meshtastic_proxy.Nodes.Row.{row_button}
use meshtastic_proxy.Trace.Machine.Invariant.{Inv, step-Inv}
use meshtastic_proxy.Trace.Machine.Lock.{ticks, tick_lem, cooldown_ends}

-- The buttons of the other nodes.
abbrev pub others : ℕ → List Button → List Button
others n bs = filter (λ b. not (b.target == n)) bs

others-on_buttons :
    (n : ℕ) (f : Button → Button) (bs : List Button)
    → ((b : Button) → (f b).target ≡ b.target)
    → others n (on_buttons n f bs) ≡ others n bs
unfolding on_buttons
others-on_buttons n f [] keep = refl
others-on_buttons n f (b ∷ bs) keep = ground (arith, keep b, others-on_buttons n f bs keep)

tick_buttons :
    (page : Page) (now : ℕ) (c : Cooldown) (s : Machine)
    → Inv s
    → s.cooldown ≡ some c
    → others c.target (step page now (interval c.interval) s).buttons ≡ others c.target s.buttons
unfolding step tick reset_trace_button
tick_buttons page now c s v e = elim (Bool-cases (c.remaining - 1 == 0)) [
  | inl last ↦
      let self = ==_refl c.interval in
      let shown : (step page now (interval c.interval) s).buttons
          ≡ on_buttons c.target reset_button (on_buttons c.target (show_seconds 0) s.buttons) =
        ground arith in
      rw shown (
        others-on_buttons c.target reset_button (on_buttons c.target (show_seconds 0) s.buttons)
          (λ b. refl)
        ∙ others-on_buttons c.target (show_seconds 0) s.buttons (λ b. refl))
  | inr more ↦
      let self = ==_refl c.interval in
      let shown : (step page now (interval c.interval) s).buttons
          ≡ on_buttons c.target (show_seconds (c.remaining - 1)) s.buttons =
        ground arith in
      rw shown (others-on_buttons c.target (show_seconds (c.remaining - 1)) s.buttons (λ b. refl))
]

ticks_buttons :
    (page : Page) (times : List ℕ) (c : Cooldown) (s : Machine)
    → Inv s
    → s.cooldown ≡ some c
    → length times ≡ c.remaining
    → others c.target (run page (ticks c.interval times) s).buttons ≡ others c.target s.buttons
unfolding run
ticks_buttons page [] c s v e h = refl
ticks_buttons page (now ∷ []) c s v e h = tick_buttons page now c s v e
ticks_buttons page (now ∷ later ∷ times) c s v e h =
    ticks_buttons page (later ∷ times) (record c { remaining = c.remaining - 1 })
      (step page now (interval c.interval) s) (step-Inv page now (interval c.interval) s v)
      (tick_lem page now c s v e (omega arith)) (omega arith)
    ∙ tick_buttons page now c s v e

-- A row that is drawn while a trace is active gets a disabled button, of whatever node. When the
-- cooldown is over no trace is active, but only the buttons of its own node are reset: those of all
-- other nodes are as they were, so a disabled one stays disabled until the table is drawn again.
pub others_stay_disabled :
    (page : Page) (times : List ℕ) (c : Cooldown) (s : Machine) (m : ℕ)
    → Inv s
    → s.cooldown ≡ some c
    → length times ≡ c.remaining
    → let after = run page (ticks c.interval times) s in
      ((row_button m s).disabled ≡ true)
      × (is_trace_active after ≡ false)
      × (others c.target after.buttons ≡ others c.target s.buttons)
unfolding row_button get_trace_state
others_stay_disabled page times c s m v e h =
    (ground arith, (cooldown_ends page times c s v e h).0, ticks_buttons page times c s v e h)
