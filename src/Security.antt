-- ===== src/Security.antt =====
-- Who may do what, and the signed identity of a request (packages/security, and the middleware of
-- apps/api that uses it).
pub mod Actors
pub mod Permissions
pub mod Context
pub mod Requests
