-- ===== src/Redis.antt =====
-- The Redis server that the library talks to. It is not part of the repository: `Redis` is the
-- parameter that stands for it, and `Follows` the hypothesis that it does what the Redis
-- documentation says of the commands that the library sends.
pub mod Keyspace
pub mod Fields
pub mod Documented
pub mod Server
