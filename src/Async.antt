-- ===== src/Async.antt =====
-- The classes whose methods are coroutines.
pub mod Task
pub mod CachingLoops
pub mod CachingLoopsRun
pub mod Caching
pub mod DeadlinesRun
pub mod CachingSteps
pub mod CachingRuns
pub mod Tiered
pub mod TieredValid
pub mod TieredRace
pub mod TieredSteps
pub mod TieredRuns
pub mod Locks
pub mod LocksRun
pub mod Repositories
pub mod RepositoriesRun
pub mod Services
pub mod Queues
pub mod ServicesRun
pub mod Streams
pub mod StreamsRun
