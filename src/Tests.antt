-- ===== src/Tests.antt =====
-- Each theorem at a concrete input, against the documented server.
mod Samples
mod Locks
mod Caches
mod Entities
mod Services
mod Coroutines
mod Streams
