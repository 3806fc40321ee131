-- ===== src/Stream.antt =====
-- redis_kit/stream
pub mod Client
pub mod Consumer
pub mod Pending
