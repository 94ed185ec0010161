-- ===== src/Clients.antt =====
-- app.js: the list of the clients of the proxy, and the button that asks the node for its
-- configuration again.
pub mod Laws
use meshtastic_proxy.Base.{
  ℕ, zero, suc, ◌+◌, List, [], ◌∷◌, Text, Bool, true, false, Option, none, some, if◌then◌else◌, ltb,
  length,
}
use meshtastic_proxy.Mesh.Escape.{esc}

-- The section with its rows: the index and the markup of the address.
pub record Clients : Type 0 where
  pub hidden : Bool
  pub rows : List (ℕ × Text)

unfoldable pub rows_from : ℕ → List Text → List (ℕ × Text)
unfolding esc
rows_from i [] = []
rows_from i (addr ∷ addrs) = (i, esc addr) ∷ rows_from (suc i) addrs

-- `updateClientsUI`; `none` is `null`. Without clients the rows stay behind the hidden section.
unfoldable pub update_clients : Option (List Text) → Clients → Clients
unfolding rows_from
update_clients none s = record s { hidden = true }
update_clients (some []) s = record s { hidden = true }
update_clients (some (addr ∷ addrs)) s = record {
  hidden = false;
  rows = rows_from 0 (addr ∷ addrs);
}

-- The refresh button: the requests that are not answered yet, and the timers of two seconds.
pub record Refresh : Type 0 where
  pub disabled : Bool
  pub spinning : Bool
  pub requests : ℕ
  pub timers : ℕ

abbrev pub ready : Refresh
ready = record { disabled = false; spinning = false; requests = 0; timers = 0 }

-- A press, the end of a request in whatever way (`finally`), and a timer that fires.
pub data Event : Type 0 where
  pressed ended fired : Event

-- A press of a disabled button does not reach the listener.
unfoldable pub step : Event → Refresh → Refresh
step pressed s =
    if s.disabled
    then s
    else record s { disabled = true; spinning = true; requests = s.requests + 1 }
step ended s = elim s.requests [
  | zero ↦ s
  | suc n ↦ record s { requests = n; timers = s.timers + 1 }
]
step fired s = elim s.timers [
  | zero ↦ s
  | suc n ↦ record s { disabled = false; spinning = false; timers = n }
]

unfoldable pub run : List Event → Refresh → Refresh
unfolding step
run [] s = s
run (e ∷ es) s = run es (step e s)
