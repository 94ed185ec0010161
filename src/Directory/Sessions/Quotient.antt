-- ===== src/Directory/Sessions/Quotient.antt =====
-- Sessions up to the order of events for different nodes, and the directory that such a class of
-- sessions leaves.
use mathlib.Core.Quot
use mathlib.Core.Quot.{Quot, Quot-set}
use meshtastic_proxy.Base.{ℕ, List, ◌∷◌, some, ◌≡◌, ◌≢◌, refl, arith, ap}
use meshtastic_proxy.Base.NumMap.{NumMap, IsSorted}
use meshtastic_proxy.Directory.{Entry, Dir, Update, apply_updates}
use meshtastic_proxy.Directory.Updates.{target}
use meshtastic_proxy.Directory.Sessions.{events_of, apply_updates-reorder}

Dir-set : IsSet Dir
Dir-set = hlevel

-- Two sessions hold for each node the same events, in the same order.
abbrev SameByNode : List (ℕ × Update) → List (ℕ × Update) → Type 0
SameByNode us vs = (j : ℕ) → events_of j us ≡ events_of j vs

abbrev pub Session : Type 0
Session = Quot SameByNode

SameByNode-cons :
    (e : ℕ × Update) (us vs : List (ℕ × Update)) → SameByNode us vs → SameByNode (e ∷ us) (e ∷ vs)
SameByNode-cons e us vs h j = simp (h j) refl

SameByNode-swap :
    (e f : ℕ × Update) (us : List (ℕ × Update))
    → target e.1 ≢ target f.1
    → SameByNode (e ∷ f ∷ us) (f ∷ e ∷ us)
SameByNode-swap e f us ne j = ground arith

-- The directory that a class of sessions leaves.
outcome : (d : NumMap Entry) → IsSorted d → Session → Dir
outcome d s =
    Quot.lift Dir-set (λ us. apply_updates us (some d))
      (λ us vs same. apply_updates-reorder us vs d s same)

-- An event before a session.
pub before : ℕ × Update → Session → Session
before e =
    Quot.lift Quot-set (λ us. Quot.mk (e ∷ us))
      (λ us vs same. Quot.sound (SameByNode-cons e us vs same))

before_comm :
    (e f : ℕ × Update) (q : Session)
    → target e.1 ≢ target f.1
    → before e (before f q) ≡ before f (before e q)
unfolding before
before_comm e f q ne =
    Quot.ind (λ x. Quot-set {r = SameByNode} (before e (before f x)) (before f (before e x)))
      (λ us. Quot.sound {a = e ∷ f ∷ us} {b = f ∷ e ∷ us} (SameByNode-swap e f us ne)) q

-- Two events for different nodes may come in either order before any session, and the directory
-- that is left is the same.
outcome-before_comm :
    (d : NumMap Entry) (s : IsSorted d) (e f : ℕ × Update) (q : Session)
    → target e.1 ≢ target f.1
    → outcome d s (before e (before f q)) ≡ outcome d s (before f (before e q))
outcome-before_comm d s e f q ne = ap (outcome d s) (before_comm e f q ne)

-- The class of a session leaves what the session leaves.
outcome-mk :
    (d : NumMap Entry) (s : IsSorted d) (us : List (ℕ × Update))
    → outcome d s (Quot.mk us) ≡ apply_updates us (some d)
unfolding outcome
outcome-mk d s us = refl
