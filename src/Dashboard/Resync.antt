-- ===== src/Dashboard/Resync.antt =====
-- What a new connection brings: the server begins each one with the node directory, the kept chat
-- messages and the trace history (internal/web/server.go), and a page takes them over whole.
use meshtastic_proxy.Base.{
  ℕ, List, [], ◌∷◌, ◌==◌, Bool, true, false, ◌&&◌, Option, some, if◌then◌else◌, ◌≡◌, refl, ap, ◌∙◌,
  if_both, length, map,
}
use meshtastic_proxy.Base.NumMap.{NumMap}
use meshtastic_proxy.Directory.{Entry, Dir}
use meshtastic_proxy.Sse
use meshtastic_proxy.Sse.{holds_back}
use meshtastic_proxy.Trace.Route.{TraceData}
use meshtastic_proxy.Trace.History.{Panel, render, load, rows_down}
use meshtastic_proxy.Trace.History.Rows.{rows-render}
use meshtastic_proxy.Chat
use meshtastic_proxy.Chat.{show_for, load_history, apply_filter, update_badges, create_element}
use meshtastic_proxy.App
use meshtastic_proxy.App.Steps
use meshtastic_proxy.App.Dirs.Runs.{step-At}
use meshtastic_proxy.Dashboard.{
  Browser, Dashboard, Payload, node_directory, chat_history, trace_history, kind, Event, arrives,
}
use meshtastic_proxy.Dashboard.Steps.{step, run, receive, handle, on_chat, on_stream, seconds}

render-entries : (dir : Dir) (p : Panel) → (render dir p).entries ≡ p.entries
unfolding render
render-entries dir p =
    if_both (λ (x : Panel). x.entries) (length p.entries == 0) _ _ p.entries refl refl

-- What the server sends on a new connection.
abbrev pub connection : ℕ → NumMap Entry → List Chat.Message → List TraceData → List (ℕ × Event)
connection now d ms ts =
    (now, arrives (node_directory d))
    ∷ (now, arrives (chat_history ms))
    ∷ (now, arrives (trace_history (some ts)))
    ∷ []

module _ {ℓ} {R : Type ℓ} (b : Browser R) where
  free : (paused : Bool) (s t : Dashboard R) → (if paused && false then s else t) ≡ t
  free true s t = refl
  free false s t = refl

  abbrev heard : Payload → Dashboard R → Dashboard R
  heard p s = on_stream b (Sse.arrives (kind p)) s

  directory_arrives :
      (now : ℕ) (d : NumMap Entry) (s : Dashboard R)
      → step b now (arrives (node_directory d)) s
        ≡ handle b now (node_directory d) (heard (node_directory d) s)
  unfolding step receive holds_back
  directory_arrives now d s =
      free s.app.paused (heard (node_directory d) s)
        (handle b now (node_directory d) (heard (node_directory d) s))

  history_arrives :
      (now : ℕ) (ms : List Chat.Message) (s : Dashboard R)
      → step b now (arrives (chat_history ms)) s
        ≡ handle b now (chat_history ms) (heard (chat_history ms) s)
  unfolding step receive holds_back
  history_arrives now ms s =
      free s.app.paused (heard (chat_history ms) s)
        (handle b now (chat_history ms) (heard (chat_history ms) s))

  traces_arrive :
      (now : ℕ) (ts : Option (List TraceData)) (s : Dashboard R)
      → step b now (arrives (trace_history ts)) s
        ≡ handle b now (trace_history ts) (heard (trace_history ts) s)
  unfolding step receive holds_back
  traces_arrive now ts s =
      free s.app.paused (heard (trace_history ts) s)
        (handle b now (trace_history ts) (heard (trace_history ts) s))

  taken_over : ℕ → NumMap Entry → List Chat.Message → List TraceData → Dashboard R → Dashboard R
  taken_over now d ms ts s =
      let s1 = handle b now (node_directory d) (heard (node_directory d) s) in
      let s2 = handle b now (chat_history ms) (heard (chat_history ms) s1) in
      handle b now (trace_history (some ts)) (heard (trace_history (some ts)) s2)

  run-connection :
      (now : ℕ) (d : NumMap Entry) (ms : List Chat.Message) (ts : List TraceData) (s : Dashboard R)
      → run b (connection now d ms ts) s ≡ taken_over now d ms ts s
  unfolding run taken_over
  run-connection now d ms ts s =
      let s1 = handle b now (node_directory d) (heard (node_directory d) s) in
      let s2 = handle b now (chat_history ms) (heard (chat_history ms) s1) in
      ap
        (λ x.
          step b now (arrives (trace_history (some ts))) (step b now (arrives (chat_history ms)) x))
        (directory_arrives now d s)
      ∙ ap (step b now (arrives (trace_history (some ts)))) (history_arrives now ms s1)
      ∙ traces_arrive now (some ts) s2

  -- The directory, the chat and the history after them.
  taken_dir :
      (now : ℕ) (d : NumMap Entry) (ms : List Chat.Message) (ts : List TraceData) (s : Dashboard R)
      → (taken_over now d ms ts s).app.dir ≡ some d
  unfolding taken_over handle on_chat Steps.step
  taken_dir now d ms ts s = (step-At b.locale b.curve (seconds now) (App.directory d) s.app).dir_at

  taken_chat :
      (now : ℕ) (d : NumMap Entry) (ms : List Chat.Message) (ts : List TraceData) (s : Dashboard R)
      → (taken_over now d ms ts s).chat ≡ load_history (some d) ms s.chat
  unfolding taken_over handle on_chat Chat.step Steps.step
  taken_chat now d ms ts s =
      ap (λ x. load_history x ms s.chat)
        (step-At b.locale b.curve (seconds now) (App.directory d) s.app).dir_at

  taken_history :
      (now : ℕ) (d : NumMap Entry) (ms : List Chat.Message) (ts : List TraceData) (s : Dashboard R)
      → (taken_over now d ms ts s).history ≡ load (some d) (some ts) s.history
  unfolding taken_over handle on_chat Steps.step
  taken_history now d ms ts s =
      ap (λ x. load x (some ts) s.history)
        (step-At b.locale b.curve (seconds now) (App.directory d) s.app).dir_at

  -- Whatever a page missed while it had no connection, paused or not: a new one brings the directory,
  -- the chat messages (at least one) and the traces of the server, in the place of those that it had.
  -- The messages and the traces are drawn with the names of the new directory, and a message is
  -- displayed exactly if it belongs to the active channel.
  pub connection_lem :
      (now : ℕ) (d : NumMap Entry) (m : Chat.Message) (ms : List Chat.Message) (ts : List TraceData)
      (s : Dashboard R)
      → let after = run b (connection now d (m ∷ ms) ts) s in
        (after.app.dir ≡ some d)
        × (after.chat.messages ≡ m ∷ ms)
        × (after.chat.elements
            ≡ map (show_for s.chat.active) (map (create_element (some d)) (m ∷ ms)))
        × (after.history.entries ≡ ts)
        × (after.history.rows ≡ rows_down (some d) ts (length ts))
  unfolding load_history apply_filter update_badges load
  connection_lem now d m ms ts s =
      let arrived = run-connection now d (m ∷ ms) ts s in
      let chat_after = ap (λ x. x.chat) arrived ∙ taken_chat now d (m ∷ ms) ts s in
      let history_after = ap (λ x. x.history) arrived ∙ taken_history now d (m ∷ ms) ts s in
      let loaded : Panel = record s.history { entries = ts } in
      (
        ap (λ x. x.app.dir) arrived ∙ taken_dir now d (m ∷ ms) ts s,
        ap (λ c. c.messages) chat_after,
        ap (λ c. c.elements) chat_after,
        ap (λ p. p.entries) history_after ∙ render-entries (some d) loaded,
        ap (λ p. p.rows) history_after ∙ rows-render (some d) loaded,
      )
