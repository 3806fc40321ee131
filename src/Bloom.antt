-- ===== src/Bloom.antt =====
-- redis_kit/bloom
pub mod Methods
pub mod Membership
