-- ===== src/Redis/Documented.antt =====
-- The replies and the effects that the Redis documentation gives for the commands in use. A command
-- on a key of another type fails with WRONGTYPE, which the client raises as `ResponseError`.
pub mod Strings
pub mod Hashes
pub mod Lists
pub mod SortedSets
pub mod Sets
