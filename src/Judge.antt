-- ===== src/Judge.antt =====
-- The login of judges (apps/web/lib).
pub mod Limiter
