-- ===== src/RateLimit/SlidingWindow.antt =====
-- The sliding window: redis_kit/ratelimit/sliding_window.py with its script of
-- redis_kit/ratelimit/_lua.py, its base class of redis_kit/ratelimit/_base.py, and
-- redis_kit/ratelimit/_result.py.
use Prim.Native.String.{◌++◌}
use redis_kit.Common.{
  ℕ, zero, suc, ◌+◌, ◌-◌, ◌*◌, String, Bool, true, false, Option, none, some, value, Result, ok,
  err, Exec, pure, ◌>>=◌, ◌>>◌, ltb, if◌then◌else◌,
}
use redis_kit.Redis.Keyspace.{Datum, Keyspace}
use redis_kit.Redis.Server.{Redis}

pub record SlidingWindow : Type 0 where
  pub client : Redis
  pub prefix : String
  pub limit : ℕ
  pub window : ℕ

-- The last two in milliseconds.
pub record RateLimitResult : Type 0 where
  pub allowed : Bool
  pub limit : ℕ
  pub remaining : ℕ
  pub retry_after : ℕ
  pub reset_at : ℕ

-- `__init__`
unfoldable pub init : SlidingWindow → Result SlidingWindow
init self = elim self.limit [
  | zero ↦ err value
  | suc _ ↦ elim self.window [ zero ↦ err value | suc _ ↦ ok self ]
]

unfoldable pub make_key : SlidingWindow → String → String
make_key self key = self.prefix ++ ":" ++ key

module _ (r : Redis) (key : String) (limit window_ms : ℕ) where
  -- ZREMRANGEBYSCORE -inf (now - window): a bound below 0 reaches no score.
  unfoldable pub trim : Exec Keyspace (Unit {0})
  trim s =
      if ltb s.clock window_ms then (ok tt, s) else r.zremrangebyscore key (s.clock - window_ms) s

  abbrev pub denied : ℕ → Option (ℕ × Datum) → RateLimitResult
  denied now none = record {
    allowed = false;
    limit = limit;
    remaining = 0;
    retry_after = 0;
    reset_at = now + window_ms;
  }
  denied now (some (t, _)) = record {
    allowed = false;
    limit = limit;
    remaining = 0;
    retry_after = t + window_ms - now;
    reset_at = t + window_ms;
  }

  abbrev pub granted : ℕ → ℕ → RateLimitResult
  granted now count = record {
    allowed = true;
    limit = limit;
    remaining = limit - count - 1;
    retry_after = 0;
    reset_at = now + window_ms;
  }

  -- SLIDING_WINDOW_SCRIPT, and `from_lua`.
  unfoldable pub sliding_window_script : Datum → ℕ → Exec Keyspace RateLimitResult
  sliding_window_script member ttl s =
      (do
        trim
        count ← r.zcard key
        if ltb count limit
            then (do r.zadd key s.clock member; _ ← r.pexpire key ttl; pure (granted s.clock count))
            else (do oldest ← r.zfirst key; pure (denied s.clock oldest)))
        s

-- `member` is what `uuid` drew.
unfoldable pub acquire : SlidingWindow → Datum → String → Exec Keyspace RateLimitResult
acquire self member key =
    let window_ms = self.window * 1000 in
    sliding_window_script self.client (make_key self key) self.limit window_ms member
      (window_ms + 1000)

unfoldable pub reset : SlidingWindow → String → Exec Keyspace Bool
reset self key = self.client.del (make_key self key)
