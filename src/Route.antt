-- ===== src/Route.antt =====
-- Which requests a route takes, and how it rewrites them.
pub mod Request
pub mod Query
pub mod Path
pub mod Match
