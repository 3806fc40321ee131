-- ===== src/Lock.antt =====
-- redis_kit/lock: the scripts of _lua.py, the base class of _base.py and the methods of lock.py.
pub mod Scripts
pub mod Exclusion
pub mod Methods
pub mod Reentrant
pub mod Nested
pub mod Blocks
pub mod ReadWrite
pub mod Overlap
pub mod Watchdog
