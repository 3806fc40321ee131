-- ===== src/Session.antt =====
-- redis_kit/session
pub mod Methods
pub mod Lifetime
