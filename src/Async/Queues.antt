-- ===== src/Async/Queues.antt =====
-- redis_kit/queue/async_reliable_queue.py and redis_kit/queue/async_delay_queue.py.
use redis_kit.Common.{
  ℕ, zero, suc, String, Option, none, some, List, value, queue_empty, Result, ok, err, ltb,
  if◌then◌else◌,
}
use redis_kit.Redis.Keyspace.{Datum, Keyspace}
use redis_kit.Async.Task.{Task, done, pure, raise, command, ◌>>=◌}
use redis_kit.Queue.Methods.{
  ReliableQueue, Message, nack_script, put_script, poll_script, queue_key, processing_key,
  DelayQueue, key, decode_poll_results,
}

-- `AsyncReliableQueue`, with `ack` and `nack` of `AsyncMessage`.
module _ {ℓ} {A : Type ℓ} (self : ReliableQueue A) where
  unfoldable pub put : String → A → Task Keyspace (Unit {0})
  put msg_id body = command (self.client.lpush (queue_key self) (self.dumps msg_id body))

  abbrev pub parsed : Datum → Result (String × A) → Task Keyspace (Message A)
  parsed raw (err e) = raise e
  parsed raw (ok (id, body)) = pure (record { id = id; body = body; raw = raw })

  abbrev pub received : Option Datum → Task Keyspace (Message A)
  received none = raise queue_empty
  received (some raw) = parsed raw (self.loads raw)

  unfoldable pub get : ℕ → Task Keyspace (Message A)
  get timeout = do
    result ←
        if ltb 0 timeout
        then command (self.blmove (queue_key self) (processing_key self) timeout)
        else command (self.client.lmove (queue_key self) (processing_key self))
    received result

  unfoldable pub ack : Message A → Task Keyspace (Unit {0})
  ack m = command (self.client.lrem (processing_key self) m.raw)

  unfoldable pub nack : Message A → Task Keyspace (Unit {0})
  nack m = command (
      nack_script self.client (processing_key self) (queue_key self) m.raw (self.dumps m.id m.body))

  unfoldable pub size : Task Keyspace ℕ
  size = command (self.client.llen (queue_key self))

  unfoldable pub processing_count : Task Keyspace ℕ
  processing_count = command (self.client.llen (processing_key self))

  -- The loop of `recover_stale`; each move is awaited, so other coroutines run in between.
  unfoldable pub recover_loop : ℕ → ℕ → Task Keyspace ℕ
  recover_loop zero count = pure count
  recover_loop (suc left) count =
      command (self.client.lmove (processing_key self) (queue_key self)) >>= λ msg. elim msg [
        | none ↦ pure count
        | some _ ↦ recover_loop left (suc count)
      ]

  unfoldable pub recover_stale : ℕ → Task Keyspace ℕ
  recover_stale max_items = recover_loop max_items 0

-- `AsyncDelayQueue`
module _ {ℓ} {A : Type ℓ} (self : DelayQueue A) where
  unfoldable pub put_delayed : String → A → ℕ → Task Keyspace (Unit {0})
  put_delayed msg_id body delay =
      command (put_script self.client (key self) delay (self.dumps msg_id body))

  unfoldable pub poll : ℕ → Task Keyspace (List A)
  poll zero = raise value
  poll (suc count) = do
    results ← command (poll_script self.client (key self) (suc count))
    done (decode_poll_results self results)

  unfoldable pub delay_size : Task Keyspace ℕ
  delay_size = command (self.client.zcard (key self))
