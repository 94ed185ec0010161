-- ===== src/Mesh.antt =====
-- The namespace `Mesh` of internal/web/templates/static/utils.js: formatting of numbers, escaping,
-- names of nodes, models, roles and ages.
pub mod Hex
pub mod Escape
pub mod Names
pub mod Labels
