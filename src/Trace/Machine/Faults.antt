-- ===== src/Trace/Machine/Faults.antt =====
-- What a failure that comes late does: the `catch` of a request does not ask whether the pending
-- trace is its own.
use meshtastic_proxy.Base.{ℕ, [], true, none, some, ◌≡◌, arith, ◌≢◌, ==_refl}
use meshtastic_proxy.Trace.Route.{TraceData}
use meshtastic_proxy.Trace.Machine.{
  Pending, Cooldown, Machine, Page, failed, request_failed, reset_trace_button, on_buttons,
  reset_button, step, has_request, is_trace_active, handle_result,
}
use meshtastic_proxy.Trace.Machine.Invariant.{Inv}
use meshtastic_proxy.Trace.Machine.Lock.{IsEnabled, IsEnabled-on_buttons}

-- If the request of a node fails while the trace of another node is pending, that trace is
-- cancelled with its timer, and its result, when it comes, is passed over.
pub stale_failure_cancels :
    (page : Page) (now later n : ℕ) (p : Pending) (t : TraceData) (s : Machine)
    → Inv s
    → s.pending ≡ some p
    → has_request n s.requests ≡ true
    → n ≢ p.target
    → t.from ≡ p.target
    → let after = step page now (failed n) s in
      (after.pending ≡ none) × (after.timeouts ≡ []) × (handle_result page later t after ≡ after)
unfolding step request_failed reset_trace_button handle_result
stale_failure_cancels page now later n p t s v e sent ne same =
    let self = ==_refl p.timer in (ground arith, ground arith, ground arith)

-- If the request of a node fails during the cooldown of that node, its buttons are enabled although
-- the trace is still active, so that a press is passed over.
failure_unlocks_early :
    (page : Page) (now : ℕ) (c : Cooldown) (s : Machine)
    → Inv s
    → s.cooldown ≡ some c
    → has_request c.target s.requests ≡ true
    → let after = step page now (failed c.target) s in
      (is_trace_active after ≡ true) × IsEnabled c.target after.buttons
unfolding step request_failed reset_trace_button is_trace_active
failure_unlocks_early page now c s v e sent =
    let free : s.pending ≡ none = ground arith in
    let shown : (step page now (failed c.target) s).buttons
        ≡ on_buttons c.target reset_button s.buttons =
      ground arith in
    (ground arith, rw shown (IsEnabled-on_buttons c.target s.buttons))
