-- ===== src/Tests.antt =====
-- Concrete runs of the dashboard: each applies a theorem of the development to data of a small mesh.
mod Mesh
mod Directory
mod Trace
mod Chat
mod Panels
mod Places
mod Rows
mod App
mod Dashboard
