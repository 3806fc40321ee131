-- ===== src/Lib.antt =====
-- redis-kit: the Python package redis_kit/, a toolkit of locks, caches, queues, sessions, rate
-- limiters, Bloom filters and repositories on a Redis server.
--
-- How the parts work together. Every component is a client of one server: it sends commands and
-- Lua scripts and keeps no state of its own, but for the local tier of the cache. What the server
-- holds is therefore the shared state, and a command or a script is one step of it. Other clients
-- act between two steps; where a property depends on that, the interleaving is an explicit list
-- of steps. The cache (redis_kit/cache) runs values through a pipeline of a serializer and a
-- compressor, asks the fallback policy (redis_kit/policy.py) when the server fails, and notes
-- rounds over the hooks; the tiered cache puts an in-process LRU cache before it. Locks
-- (redis_kit/lock), queues (redis_kit/queue), sessions (redis_kit/session), rate limiters
-- (redis_kit/ratelimit), Bloom filters (redis_kit/bloom) and repositories (redis_kit/repository)
-- are independent of one another.
--
-- The files.
--   Common          names passed on from the libraries, Boolean tests, lists, results, integers.
--                   Common/Results: redis_kit/exceptions.py, and `Exec`, a method that changes a
--                   state and may raise. What was written before an exception stays written.
--   Redis           the server, which is third-party code. Redis/Server: the record `Redis` of the
--                   commands in use is a parameter of every component; the record `Follows` names
--                   one hypothesis for each command, that it does what its documentation says;
--                   `documented` is a server that follows it. Redis/Keyspace: what a client can
--                   observe, values with deadlines and a clock in milliseconds. Redis/Documented:
--                   the documented behaviour of the commands.
--   Lock            Lock/Scripts: redis_kit/lock/_lua.py. Lock/Methods: redis_kit/lock/_base.py and
--                   redis_kit/lock/lock.py (`call` is `Lock.__call__`). Lock/Exclusion,
--                   Lock/Reentrant, Lock/Nested, Lock/ReadWrite, Lock/Overlap, Lock/Blocks: proofs.
--                   Lock/Watchdog: the chain of timers of `_start_watchdog`, with its proofs.
--   Cache           Cache/Local: redis_kit/cache/local.py, with proofs in Cache/Local/Order and
--                   Cache/Local/Laws. Cache/Pipeline: redis_kit/cache/_logic.py, of which Cache/Ttl
--                   has `parse_ttl`, with proofs in Cache/Durations and Cache/Parsed.
--                   Cache/Policy: redis_kit/policy.py and the hooks of redis_kit/cache/_base.py. Cache/Client:
--                   redis_kit/cache/_base.py and redis_kit/cache/cache.py, with proofs in
--                   Cache/Reads and Cache/Failures. Cache/Bulk: the methods of redis_kit/cache/cache.py
--                   on several keys, with proofs in Cache/Patterns and Cache/Many. Cache/Bound: its
--                   `BoundCache`.
--                   Cache/Tiered: redis_kit/cache/_tiered_base.py and redis_kit/cache/tiered.py, with
--                   proofs in Cache/Coherence; Cache/TieredBulk: its other methods.
--   Repository      Repository/Model: redis_kit/repository/model.py and
--                   redis_kit/repository/_hash.py. Repository/Scripts: redis_kit/repository/_lua.py.
--                   Repository/Methods: redis_kit/repository/_base_repo.py and
--                   redis_kit/repository/repository.py. Repository/Locking, Repository/Stored,
--                   Repository/Shown, Repository/Updates, Repository/Deletion: proofs.
--                   Repository/Listing: `find_all` of redis_kit/repository/repository.py, with proofs.
--   Queue           Queue/Methods: redis_kit/queue/_lua.py, redis_kit/queue/_base.py,
--                   redis_kit/queue/reliable_queue.py and redis_kit/queue/delay_queue.py.
--                   Queue/Moves, Queue/Delivery, Queue/Delay: proofs. Queue/Machine: the machine on
--                   two lists that the reliable queue implements, by Queue/Refinement.
--   Session         Session/Methods: redis_kit/session. Session/Lifetime: proofs.
--   RateLimit       RateLimit/SlidingWindow: redis_kit/ratelimit/sliding_window.py, with its parts of
--                   redis_kit/ratelimit/_lua.py and redis_kit/ratelimit/_base.py, and
--                   redis_kit/ratelimit/_result.py. RateLimit/Window: proofs.
--   Bloom           Bloom/Methods: redis_kit/bloom/bloom.py, redis_kit/bloom/_base.py and
--                   redis_kit/bloom/_math.py. Bloom/Membership: proofs.
--   Counter         redis_kit/counter/counter.py and redis_kit/counter/_base.py, of which
--                   Counter/Ids has `IDGenerator`.
--   Stream          Stream/Client: redis_kit/stream/_base.py, redis_kit/stream/message.py and
--                   redis_kit/stream/producer.py, with the client's commands for streams, which are
--                   parameters. Stream/Consumer: redis_kit/stream/consumer.py, with generators and
--                   the `for` loop over one. Stream/Pending: proofs.
--   Async           the classes for asyncio. Async/Task: coroutines, which are suspended at each
--                   `await`, run alone (`run`) or two of them on one event loop under a schedule
--                   (`interleave`). Async/Caching: redis_kit/cache/async_cache.py. Async/Tiered:
--                   redis_kit/cache/async_tiered.py. Async/Locks: redis_kit/lock/async_lock.py.
--                   Async/Repositories: redis_kit/repository/async_repository.py. Async/Queues:
--                   redis_kit/queue/async_reliable_queue.py and redis_kit/queue/async_delay_queue.py.
--                   Async/Services: redis_kit/bloom/async_bloom.py,
--                   redis_kit/counter/async_counter.py, redis_kit/session/async_session.py and
--                   redis_kit/ratelimit/async_sliding_window.py. Async/Streams:
--                   redis_kit/stream/async_consumer.py and redis_kit/stream/async_producer.py.
--                   Async/CachingLoops: the loops of redis_kit/cache/async_cache.py.
--                   Async/CachingLoopsRun, Async/DeadlinesRun, Async/CachingSteps,
--                   Async/CachingRuns, Async/TieredSteps, Async/TieredRuns, Async/LocksRun,
--                   Async/RepositoriesRun, Async/ServicesRun and Async/StreamsRun compare them with
--                   the synchronous classes; Async/TieredValid and Async/TieredRace are about two
--                   coroutines at once.
--   Tests           the theorems at concrete inputs.
--
-- Conventions. A method of a class is a function of the record of the object's fields (`self`)
-- and keeps its name without a leading underscore. A clock reading, a random draw and a generated
-- id are arguments. Strings that the server holds are texts or the decimal text of an integer
-- (`Datum`). Times are whole milliseconds, times to live whole seconds.
--
-- A coroutine's awaited commands are single steps of the server, and between two of them the other
-- coroutine may take any number of turns. What `scan_iter` yields for a pattern is an argument.
--
-- Bounds and fuel. `spin_loop` runs on a number of rounds; `spin_acquire` gives it one more than
-- the timeout holds sleeps of 50 ms, which is enough when each sleep takes that long.
-- `recover_loop` runs on what is left of `max_items`, as its source does. `watchdog` runs for a
-- given number of intervals, since its source has no end of its own. Every other function is
-- structural.
--
-- Where the model stands apart from Python: numbers have no limit on their digits (`int` refuses
-- texts of more than 4300); exceptions are told apart by class and not by the class hierarchy; what
-- timers and tasks of `auto_renew` do while the body of a block runs is an argument of the block; a
-- watchdog's interval is a third of the timeout in whole milliseconds.
--
-- Not modelled: publish and subscribe, the decorators, the token bucket and
-- `StreamMessage.async_ack`, which are left for later; serializers and compressors, which are
-- parameters of the pipeline; connections, configuration and observability, which only hand calls
-- on to third-party libraries.
pub mod Common
pub mod Redis
pub mod Lock
pub mod Async
pub mod Cache
pub mod Repository
pub mod Queue
pub mod Session
pub mod Stream
pub mod RateLimit
pub mod Bloom
pub mod Counter
pub mod Tests
