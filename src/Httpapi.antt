-- ===== src/Httpapi.antt =====
-- internal/httpapi: the HTTP handlers.
pub mod Events
pub mod Resources
pub mod Queries
pub mod Api
pub mod History
