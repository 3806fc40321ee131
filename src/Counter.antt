-- ===== src/Counter.antt =====
-- The counters: redis_kit/counter/counter.py and redis_kit/counter/_base.py without the generator of
-- ids, which Counter/Ids has. DECRBY is INCRBY of the negative amount.
pub mod Ids
use Prim.Native.String.{◌++◌}
use redis_kit.Common.{
  String, ◌==◌, Option, none, some, value, Exec, pure, raise, ◌>>=◌, if◌then◌else◌,
}
use redis_kit.Common.Integers.{ℤ, pos, ◌-ℤ◌}
use redis_kit.Redis.Keyspace.{Datum, text, number, Keyspace}
use redis_kit.Redis.Server.{Redis}

-- `Counter`
pub record Counter : Type 0 where
  pub client : Redis
  pub prefix : String

-- `BoundCounter`
pub record BoundCounter : Type 0 where
  pub client : Redis
  pub key : String

-- `int(val) if val is not None else 0`, for a text that is no number a `ValueError`.
abbrev pub as_int : Option Datum → Exec Keyspace ℤ
as_int none = pure (pos 0)
as_int (some (number n)) = pure n
as_int (some (text _)) = raise value

module _ (self : BoundCounter) where
  unfoldable pub bound_incr : ℤ → Exec Keyspace ℤ
  bound_incr amount = self.client.incrby self.key amount

  unfoldable pub bound_decr : ℤ → Exec Keyspace ℤ
  bound_decr amount = self.client.incrby self.key (pos 0 -ℤ amount)

  unfoldable pub bound_get : Exec Keyspace ℤ
  bound_get = do val ← self.client.get self.key; as_int val

  unfoldable pub bound_reset : Exec Keyspace (Unit {0})
  bound_reset = do _ ← self.client.del self.key; pure tt

module _ (self : Counter) where
  unfoldable pub make_key : String → String
  make_key name = if self.prefix == "" then name else self.prefix ++ ":" ++ name

  unfoldable pub incr : String → ℤ → Exec Keyspace ℤ
  incr name amount = self.client.incrby (make_key name) amount

  unfoldable pub decr : String → ℤ → Exec Keyspace ℤ
  decr name amount = self.client.incrby (make_key name) (pos 0 -ℤ amount)

  unfoldable pub get : String → Exec Keyspace ℤ
  get name = do val ← self.client.get (make_key name); as_int val

  unfoldable pub reset : String → Exec Keyspace (Unit {0})
  reset name = do _ ← self.client.del (make_key name); pure tt

  unfoldable pub bind : String → BoundCounter
  bind name = record { client = self.client; key = make_key name }
