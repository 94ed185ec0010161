-- ===== src/Clients/Laws.antt =====
-- The rows of the client list, and the refresh button through any events.
use meshtastic_proxy.Base.{
  ℕ, zero, suc, ◌+◌, List, [], ◌∷◌, Text, Bool, true, false, none, some, if◌then◌else◌, ◌≡◌, refl,
  ap, ◌∙◌, arith, get_elem?,
}
use meshtastic_proxy.Mesh.Escape.{esc}
use meshtastic_proxy.Clients.{rows_from, Refresh, Event, pressed, ended, fired, step, run}

-- At most one request or timer waits, and the button is disabled and spins exactly while one does.
pub record IsBusy (s : Refresh) : Type 0 where
  pub one : s.requests + s.timers ≡ (if s.disabled then 1 else 0)
  pub spins : s.spinning ≡ s.disabled

pub step-IsBusy : (e : Event) (s : Refresh) → IsBusy s → IsBusy (step e s)
unfolding step
step-IsBusy pressed s v = go s.disabled refl
  where
    go :
        (b : Bool)
        → s.disabled ≡ b
        → IsBusy (
            if b
            then s
            else record s { disabled = true; spinning = true; requests = s.requests + 1 })
    go true at = v
    go false at = record { one = ground (arith, v.one, at); spins = refl }
step-IsBusy ended s v = go s.requests refl
  where
    go :
        (n : ℕ)
        → s.requests ≡ n
        → IsBusy (elim n [ zero ↦ s | suc n ↦ record s { requests = n; timers = s.timers + 1 } ])
    go zero at = v
    go (suc n) at = record { one = ground (arith, v.one, at); spins = v.spins }
step-IsBusy fired s v = go s.timers refl
  where
    go :
        (n : ℕ)
        → s.timers ≡ n
        → IsBusy (elim n [
          | zero ↦ s
          | suc n ↦ record s { disabled = false; spinning = false; timers = n }
        ])
    go zero at = v
    go (suc n) at = record { one = ground (arith, v.one, at); spins = refl }

-- Through any presses, answers and timers, from the loaded page: at most one request or timer waits,
-- and the button is disabled and spins exactly while one does.
run-IsBusy : (es : List Event) (s : Refresh) → IsBusy s → IsBusy (run es s)
unfolding run
run-IsBusy [] s v = v
run-IsBusy (e ∷ es) s v = run-IsBusy es (step e s) (step-IsBusy e s v)

-- The row at an index shows that index and the address there, escaped.
get_elem?-rows_from :
    (i k : ℕ) (addrs : List Text)
    → get_elem? (rows_from i addrs) k
      ≡ elim (get_elem? addrs k) [ none ↦ none | some addr ↦ some (i + k, esc addr) ]
unfolding rows_from
get_elem?-rows_from i k [] = refl
get_elem?-rows_from i zero (addr ∷ addrs) = ground arith
get_elem?-rows_from i (suc k) (addr ∷ addrs) =
    let next : suc i + k ≡ i + suc k = omega arith in
    get_elem?-rows_from (suc i) k addrs
    ∙ ap (λ m. elim (get_elem? addrs k) [ none ↦ none | some a ↦ some (m, esc a) ]) next
