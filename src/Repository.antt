-- ===== src/Repository.antt =====
-- redis_kit/repository
pub mod Model
pub mod Scripts
pub mod Methods
pub mod Listing
pub mod Locking
pub mod Stored
pub mod Updates
pub mod Shown
pub mod Deletion
