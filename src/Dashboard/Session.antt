-- ===== src/Dashboard/Session.antt =====
-- The directory of the dashboard through a session of updates: it moves as its own model, whatever the
-- map, the table and the other panels are doing.
use meshtastic_proxy.Base.{
  ℕ, List, [], ◌∷◌, map, Bool, false, ◌&&◌, if◌then◌else◌, ◌≡◌, refl, ap, ◌∙◌,
}
use meshtastic_proxy.Directory.{Update, apply_update, apply_updates}
use meshtastic_proxy.Sse.{holds_back}
use meshtastic_proxy.App
use meshtastic_proxy.App.{App, kind_of}
use meshtastic_proxy.App.Dirs.Runs.{step-At}
use meshtastic_proxy.Dashboard.{Browser, Dashboard, update, Event, arrives}
use meshtastic_proxy.Dashboard.Steps.{step, run, seconds}
use meshtastic_proxy.Dashboard.Apps.{app_event, step-app}

if_free {ℓ} :
    {A : Type ℓ} (b : Bool) (x y : A) (paused : Bool)
    → paused ≡ false
    → (if paused && b then x else y) ≡ y
if_free b x y paused h = rw h

-- The listeners of a session of updates, each with the time of the clock.
abbrev pub session : List (ℕ × Update) → List (ℕ × Event)
session us = map (λ u. (u.0, arrives (update u.1))) us

-- The same updates with the seconds that they write.
abbrev pub timed : List (ℕ × Update) → List (ℕ × Update)
timed us = map (λ u. (seconds u.0, u.1)) us

module _ {ℓ} {R : Type ℓ} (b : Browser R) where
  pub update-dir :
      (now : ℕ) (u : Update) (s : Dashboard R)
      → s.app.paused ≡ false
      → (step b now (arrives (update u)) s).app.dir ≡ apply_update (seconds now) u s.app.dir
  unfolding app_event
  update-dir now u s free =
      ap (λ a. a.dir) (step-app b now (arrives (update u)) s)
      ∙ (step-At b.locale b.curve (seconds now) (App.server u) s.app).dir_at
      ∙ if_free (holds_back (kind_of u)) s.app.dir (apply_update (seconds now) u s.app.dir)
          s.app.paused free

  update-paused :
      (now : ℕ) (u : Update) (s : Dashboard R)
      → (step b now (arrives (update u)) s).app.paused ≡ s.app.paused
  unfolding app_event
  update-paused now u s =
      ap (λ a. a.paused) (step-app b now (arrives (update u)) s)
      ∙ (step-At b.locale b.curve (seconds now) (App.server u) s.app).paused_at

  -- On a page that is not paused, a session of updates leaves the directory that the model of the
  -- directory gives, with the map open or not, and whatever the panels show.
  pub session-dir :
      (us : List (ℕ × Update)) (s : Dashboard R)
      → s.app.paused ≡ false
      → (run b (session us) s).app.dir ≡ apply_updates (timed us) s.app.dir
  unfolding run apply_updates
  session-dir [] s free = refl
  session-dir ((now, u) ∷ us) s free =
      session-dir us (step b now (arrives (update u)) s) (update-paused now u s ∙ free)
      ∙ ap (apply_updates (timed us)) (update-dir now u s free)
