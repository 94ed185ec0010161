-- ===== src/Trace.antt =====
-- Trace route of the dashboard: the route that is drawn (app.js), the machine of the pending
-- request, its timeout and the cooldown (app.js), and the history panel (nodes.js).
pub mod Route
pub mod Machine
pub mod History
