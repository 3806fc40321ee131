-- ===== src/RateLimit.antt =====
-- redis_kit/ratelimit
pub mod SlidingWindow
pub mod Window
