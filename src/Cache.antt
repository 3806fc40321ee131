-- ===== src/Cache.antt =====
-- redis_kit/cache
pub mod Local
pub mod Pipeline
pub mod Policy
pub mod Client
pub mod Reads
pub mod Failures
pub mod Tiered
pub mod Coherence
pub mod Ttl
pub mod Durations
pub mod Parsed
pub mod Bulk
pub mod Bound
pub mod TieredBulk
pub mod Patterns
pub mod Many
