-- ===== src/Async/ServicesRun.antt =====
-- The coroutines of the smaller asynchronous classes, run alone, against the methods of the
-- synchronous classes.
use redis_kit.Common.{
  ℕ, zero, suc, String, Option, none, some, List, Result, ok, err, Exec, continue, ◌≡◌, refl, arith,
}
use redis_kit.Common.Integers.{ℤ}
use redis_kit.Redis.Keyspace.{Datum, Keyspace}
use redis_kit.Async.Task.{Task, done, pure, run, ◌>>=◌}
use redis_kit.Async.Services
use redis_kit.Async.Queues
use redis_kit.Bloom.Methods.{BloomFilter}
use redis_kit.Bloom.Methods
use redis_kit.Counter.{Counter}
use redis_kit.Counter
use redis_kit.Session
use redis_kit.Session.Methods.{SessionManager}
use redis_kit.RateLimit.SlidingWindow.{SlidingWindow}
use redis_kit.RateLimit.SlidingWindow
use redis_kit.Queue
use redis_kit.Queue.Methods.{ReliableQueue, Message, DelayQueue, queue_key, processing_key}

-- Each method of `AsyncBloomFilter`, run alone, is the method of `BloomFilter`.
pub run-bloom :
    (self : BloomFilter) (item : String) (items : List String) (s : Keyspace)
    → (run (Services.add self item) s ≡ Methods.add self item s)
      × (run (Services.is_there self item) s ≡ Methods.exists self item s)
      × (run (Services.add_many self items) s ≡ Methods.add_many self items s)
      × (run (Services.exists_many self items) s ≡ Methods.exists_many self items s)
      × (run (Services.reset_filter self) s ≡ Methods.reset self s)
unfolding run Services.add Services.is_there Services.add_many Services.exists_many
    Services.reset_filter Methods.add Methods.exists Methods.add_many Methods.exists_many
    Methods.reset
run-bloom self item items s = (refl, ground arith, refl, ground arith, refl)

-- Each method of `AsyncCounter`, run alone, is the method of `Counter`.
pub run-counter :
    (self : Counter) (name : String) (amount : ℤ) (s : Keyspace)
    → (run (Services.incr self name amount) s ≡ Counter.incr self name amount s)
      × (run (Services.decr self name amount) s ≡ Counter.decr self name amount s)
      × (run (Services.get_count self name) s ≡ Counter.get self name s)
      × (run (Services.reset_count self name) s ≡ Counter.reset self name s)
unfolding run Services.incr Services.decr Services.get_count Services.reset_count Counter.incr
    Counter.decr Counter.get Counter.reset
run-counter self name amount s = (refl, refl, ground arith, ground arith)

-- Each method of `AsyncSessionManager`, run alone, is the method of `SessionManager`.
pub run-session {ℓ} :
    {A : Type ℓ} (self : SessionManager A) (session_id : String) (content : List (String × A))
    (s : Keyspace)
    → (run (Services.create self session_id content) s
        ≡ Session.Methods.create self session_id content s)
      × (run (Services.get_session self session_id) s ≡ Session.Methods.get self session_id s)
      × (run (Services.update self session_id content) s
          ≡ Session.Methods.update self session_id content s)
      × (run (Services.delete_session self session_id) s ≡ Session.Methods.delete self session_id s)
      × (run (Services.refresh self session_id) s ≡ Session.Methods.refresh self session_id s)
      × (run (Services.has_session self session_id) s ≡ Session.Methods.exists self session_id s)
unfolding run Services.create Services.get_session Services.update Services.delete_session
    Services.refresh Services.has_session Session.Methods.create Session.Methods.get
    Session.Methods.update Session.Methods.delete Session.Methods.refresh Session.Methods.exists
run-session self session_id content s =
    (ground arith, ground arith, ground arith, ground arith, ground arith, refl)

-- Each method of `AsyncSlidingWindowLimiter`, run alone, is the method of `SlidingWindowLimiter`.
pub run-window :
    (self : SlidingWindow) (member : Datum) (key : String) (s : Keyspace)
    → (run (Services.acquire self member key) s ≡ SlidingWindow.acquire self member key s)
      × (run (Services.reset_window self key) s ≡ SlidingWindow.reset self key s)
unfolding run Services.acquire Services.reset_window SlidingWindow.acquire SlidingWindow.reset
run-window self member key s = (refl, refl)

module _ {ℓ} {A : Type ℓ} (self : ReliableQueue A) where
  run-recover_loop :
      (left count : ℕ) (s : Keyspace)
      → run (Queues.recover_loop self left count) s ≡ Queue.Methods.recover_loop self left count s
  unfolding run Queues.recover_loop Queue.Methods.recover_loop
  run-recover_loop zero count s = refl
  run-recover_loop (suc left) count s =
      moved (self.client.lmove (processing_key self) (queue_key self) s).0
        (self.client.lmove (processing_key self) (queue_key self) s).1
        (run-recover_loop left (suc count))
    where
      moved :
          (reply : Result (Option Datum)) (u : Keyspace)
          → ((u : Keyspace)
              → run (Queues.recover_loop self left (suc count)) u
                ≡ Queue.Methods.recover_loop self left (suc count) u)
          → run
              (done reply >>= λ msg. elim msg as (λ _. Task Keyspace ℕ) [
                | none ↦ pure count
                | some _ ↦ Queues.recover_loop self left (suc count)
              ])
              u
            ≡ continue reply
                (λ msg. elim msg as (λ _. Exec Keyspace ℕ) [
                  | none ↦ λ t. (ok count, t)
                  | some _ ↦ Queue.Methods.recover_loop self left (suc count)
                ])
                u
      moved (err e) u go_on = refl
      moved (ok none) u go_on = refl
      moved (ok (some d)) u go_on = go_on u

  -- Each method of `AsyncReliableQueue`, run alone, is the method of `ReliableQueue`.
  pub run-queue :
      (msg_id : String) (body : A) (m : Message A) (timeout max_items : ℕ) (s : Keyspace)
      → (run (Queues.put self msg_id body) s ≡ Queue.Methods.put self msg_id body s)
        × (run (Queues.get self timeout) s ≡ Queue.Methods.get self timeout s)
        × (run (Queues.ack self m) s ≡ Queue.Methods.ack self m s)
        × (run (Queues.nack self m) s ≡ Queue.Methods.nack self m s)
        × (run (Queues.size self) s ≡ Queue.Methods.size self s)
        × (run (Queues.processing_count self) s ≡ Queue.Methods.processing_count self s)
        × (run (Queues.recover_stale self max_items) s
            ≡ Queue.Methods.recover_stale self max_items s)
  unfolding run Queues.put Queues.get Queues.ack Queues.nack Queues.size Queues.processing_count
      Queues.recover_stale Queue.Methods.put Queue.Methods.get Queue.Methods.ack Queue.Methods.nack
      Queue.Methods.size Queue.Methods.processing_count Queue.Methods.recover_stale
  run-queue msg_id body m timeout max_items s =
      (refl, ground arith, refl, refl, refl, refl, run-recover_loop max_items 0 s)

-- Each method of `AsyncDelayQueue`, run alone, is the method of `DelayQueue`.
pub run-delay_queue {ℓ} :
    {A : Type ℓ} (self : DelayQueue A) (msg_id : String) (body : A) (delay count : ℕ) (s : Keyspace)
    → (run (Queues.put_delayed self msg_id body delay) s
        ≡ Queue.Methods.put_delayed self msg_id body delay s)
      × (run (Queues.poll self count) s ≡ Queue.Methods.poll self count s)
      × (run (Queues.delay_size self) s ≡ Queue.Methods.delay_size self s)
unfolding run Queues.put_delayed Queues.poll Queues.delay_size Queue.Methods.put_delayed
    Queue.Methods.poll Queue.Methods.delay_size
run-delay_queue self msg_id body delay count s = (refl, ground arith, refl)
