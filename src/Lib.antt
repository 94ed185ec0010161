-- ===== src/Lib.antt =====
-- The dashboard of meshtastic-proxy: a model of the JavaScript that runs in the browser
-- (internal/web/templates/static), with theorems about it.
--
-- The server sends events (SSE) to the page; app.js listens to them, keeps the node directory
-- `nodeDir`, the charts, the message table, the map and the state of a trace, and calls chat.js for
-- the chat panel and nodes.js for the table of nodes and the trace history; utils.js formats names.
-- Each part is a state record with a function for each handler. Handlers that the event loop calls
-- in any order are the steps of a machine, and a run is a list of events.
--
--   Base         natural numbers, lists, texts (UTF-16 units), truthiness, objects keyed by numbers
--   Mesh         utils.js: `esc` (Escape), `nodeHex` and its other spellings (Hex), `nodeName`,
--                `nodeNameText`, `nodeHexName`, `formatUnixAge` (Names), `formatHwModel`,
--                `formatRole` and app.js `formatUptime` (Labels)
--   Directory    app.js: what updateMapNode, updateNodeTelemetry, updateNodeSignal, updateNodeInfo
--                and the node_favorite listener write to `nodeDir`
--   Trace        app.js: drawTraceroute (Route); startTraceroute, handleTracerouteResult,
--                startCooldown and their timers (Machine); nodes.js: the trace history (History)
--   Chat         chat.js: the panel; the composer of messages (Send)
--   Sse          app.js connectSSE: reconnects and the pause button
--   Traffic      app.js updateMetricsUI: the traffic chart, the types chart, the cards
--   Messages     app.js prependMessage, applyMessageFilter
--   Nodes        nodes.js: filters, search and order of the table; what it shows and its
--                handlers (Table), its rows (Row), the role boxes (Boxes), the drop-down and its
--                requests (Actions)
--   Map          app.js: the markers and the filters of the panel (Map), its check boxes and the reset
--                (Options), the heat map (Heat), nodePopupHTML (Popup), when a popup is built (Bound)
--   App          what one event does to the directory, the map, the heat map, the table and the role
--                boxes together: the listeners of app.js, the bus, switchTab, the 30 s timer
--   Clients      app.js: updateClientsUI and the refresh button
--   Dashboard    the whole page: all panels under the dispatch of the stream, with the listeners, timers
--                and ends of requests (Steps), and the pages that can be reached (Reach)
--   Tests        concrete runs
--
-- The DOM is kept as the data that the code puts there. Numbers are natural numbers or integers; a
-- coordinate counts units of 1e-7 degrees and an SNR quarters of a dB, as the protocol sends them.
-- Loops are structural recursion over the list they walk; `digits` has the fuel n + 1, enough since
-- every round divides by a base of 2 or more, and `trim_rows` takes off at most as many rows as there are. Parts of
-- the engine that rest on Unicode tables or floats (toLowerCase, localeCompare, toFixed, textContent)
-- are parameters, as is the power curve of the heat map. Markup is kept as the texts that the code puts
-- into it, cell by cell and line by line. Not modelled: the tags and styles around these texts, the
-- formatting of clock times, animation, the moves of the map's view but for the flight to a single
-- match, the libraries Leaflet and Chart.js, and the Go server.
-- App holds what shares the node directory; the chat, the charts, the messages and the trace are
-- machines of their own, which Dashboard composes. Leaflet (`L.marker`, `setLatLng`,
-- `L.polyline`) and `toFixed` throw at a node that has a position and lacks a coordinate, which the
-- server leaves out where it is 0. There the loop of the markers, of the popups and the drawing of the
-- table end where the code does, and what comes after them in the listener is not reached
-- (Map.Abort, Nodes.Drawn); App.Listed has the directories on which nothing throws. The heat layer is
-- taken to draw every point that it is given. The trace machine keeps the trace
-- buttons of the page that it started on; that a table drawn anew brings new ones is not modelled.
pub mod Base
pub mod Mesh
pub mod Directory
pub mod Trace
pub mod Chat
pub mod Sse
pub mod Traffic
pub mod Messages
pub mod Nodes
pub mod Map
pub mod App
pub mod Clients
pub mod Dashboard
pub mod Tests
