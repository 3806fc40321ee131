-- ===== src/Async/Services.antt =====
-- redis_kit/bloom/async_bloom.py, redis_kit/counter/async_counter.py,
-- redis_kit/session/async_session.py and redis_kit/ratelimit/async_sliding_window.py.
use redis_kit.Common.{
  ◌+◌, ◌*◌, String, Bool, Option, none, some, List, [], ◌∷◌, response, value, session_not_found,
  Result, ok, err, both, if◌then◌else◌,
}
use redis_kit.Common.Integers.{ℤ, pos, ◌-ℤ◌}
use redis_kit.Redis.Keyspace.{Datum, text, number, Fields, Keyspace}
use redis_kit.Async.Task.{Task, pure, raise, command, ◌>>=◌, ◌>>◌}
use redis_kit.Bloom.Methods.{BloomFilter, get_offsets, set_bits, get_bits, all_offsets, slices, all}
use redis_kit.Counter.{Counter, BoundCounter}
use redis_kit.Counter
use redis_kit.Counter.Ids.{IdGenerator, format_id}
use redis_kit.Session.Methods.{SessionManager, update_script, dumped, loaded}
use redis_kit.Session.Methods
use redis_kit.RateLimit.SlidingWindow.{SlidingWindow, RateLimitResult, sliding_window_script}
use redis_kit.RateLimit.SlidingWindow

-- `AsyncBloomFilter`: each pipeline is one awaited thing.
module _ (self : BloomFilter) where
  unfoldable pub add : String → Task Keyspace (Unit {0})
  add item = command (set_bits self (get_offsets self item))

  unfoldable pub is_there : String → Task Keyspace Bool
  is_there item = do found ← command (get_bits self (get_offsets self item)); pure (all found)

  unfoldable pub add_many : List String → Task Keyspace (Unit {0})
  add_many items = command (set_bits self (all_offsets self items))

  unfoldable pub exists_many : List String → Task Keyspace (List Bool)
  exists_many items = do
    all_bits ← command (get_bits self (all_offsets self items))
    pure (slices self items all_bits)

  unfoldable pub reset_filter : Task Keyspace Bool
  reset_filter = command (self.client.del self.key)

-- `int(val) if val is not None else 0`
abbrev pub as_int : Option Datum → Task Keyspace ℤ
as_int none = pure (pos 0)
as_int (some (number n)) = pure n
as_int (some (text _)) = raise value

-- `AsyncBoundCounter`
module _ (self : BoundCounter) where
  unfoldable pub bound_incr : ℤ → Task Keyspace ℤ
  bound_incr amount = command (self.client.incrby self.key amount)

  unfoldable pub bound_decr : ℤ → Task Keyspace ℤ
  bound_decr amount = command (self.client.incrby self.key (pos 0 -ℤ amount))

  unfoldable pub bound_get : Task Keyspace ℤ
  bound_get = do val ← command (self.client.get self.key); as_int val

  unfoldable pub bound_reset : Task Keyspace (Unit {0})
  bound_reset = do _ ← command (self.client.del self.key); pure tt

-- `AsyncCounter`
module _ (self : Counter) where
  unfoldable pub incr : String → ℤ → Task Keyspace ℤ
  incr name amount = command (self.client.incrby (Counter.make_key self name) amount)

  unfoldable pub decr : String → ℤ → Task Keyspace ℤ
  decr name amount = command (self.client.incrby (Counter.make_key self name) (pos 0 -ℤ amount))

  unfoldable pub get_count : String → Task Keyspace ℤ
  get_count name = do val ← command (self.client.get (Counter.make_key self name)); as_int val

  unfoldable pub reset_count : String → Task Keyspace (Unit {0})
  reset_count name = do _ ← command (self.client.del (Counter.make_key self name)); pure tt

-- `AsyncSessionManager`
module _ {ℓ} {A : Type ℓ} (self : SessionManager A) where
  -- The client refuses an HSET without fields before it sends anything.
  abbrev pub stored : String → Fields → Task Keyspace (Unit {0})
  stored key [] = raise response
  stored key (f ∷ l) =
      command (both (self.client.hset key (f ∷ l)) (self.client.expire key self.ttl))

  unfoldable pub create : String → List (String × A) → Task Keyspace String
  create session_id content = do
    stored (Methods.make_key self session_id) (dumped self content)
    pure session_id

  abbrev pub parsed : Result (List (String × A)) → Task Keyspace (Option (List (String × A)))
  parsed (ok vs) = pure (some vs)
  parsed (err e) = raise e

  abbrev pub as_session : Fields → Task Keyspace (Option (List (String × A)))
  as_session [] = pure none
  as_session (f ∷ l) = parsed (loaded self (f ∷ l))

  unfoldable pub get_session : String → Task Keyspace (Option (List (String × A)))
  get_session session_id = do
    fields ← command (self.client.hgetall (Methods.make_key self session_id))
    as_session fields

  abbrev pub found : Bool → Task Keyspace (Unit {0})
  found result = if result then pure tt else raise session_not_found

  unfoldable pub update : String → List (String × A) → Task Keyspace (Unit {0})
  update session_id content = do
    result ← command (
        update_script self.client (Methods.make_key self session_id) self.ttl (dumped self content))
    found result

  unfoldable pub delete_session : String → Task Keyspace (Unit {0})
  delete_session session_id = do
    _ ← command (self.client.del (Methods.make_key self session_id))
    pure tt

  unfoldable pub refresh : String → Task Keyspace (Unit {0})
  refresh session_id = do
    result ← command (self.client.expire (Methods.make_key self session_id) self.ttl)
    found result

  unfoldable pub has_session : String → Task Keyspace Bool
  has_session session_id = command (self.client.exists (Methods.make_key self session_id))

-- `AsyncSlidingWindowLimiter`; `member` is what `uuid` drew.
module _ (self : SlidingWindow) where
  unfoldable pub acquire : Datum → String → Task Keyspace RateLimitResult
  acquire member key =
      let window_ms = self.window * 1000 in
      command (
        sliding_window_script self.client (SlidingWindow.make_key self key) self.limit window_ms
          member (window_ms + 1000))

  unfoldable pub reset_window : String → Task Keyspace Bool
  reset_window key = command (self.client.del (SlidingWindow.make_key self key))

-- `AsyncIDGenerator`
module _ (self : IdGenerator) where
  unfoldable pub next : Task Keyspace ℤ
  next = command (self.client.incrby self.key (pos 1))

  unfoldable pub next_str : Task Keyspace String
  unfolding next
  next_str = do n ← next; pure (format_id self n)
