-- ===== src/Queue.antt =====
-- redis_kit/queue
pub mod Methods
pub mod Moves
pub mod Delivery
pub mod Delay
pub mod Machine
pub mod Refinement
