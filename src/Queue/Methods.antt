-- ===== src/Queue/Methods.antt =====
-- redis_kit/queue/_lua.py, redis_kit/queue/_base.py without publish and subscribe,
-- redis_kit/queue/reliable_queue.py and redis_kit/queue/delay_queue.py.
use Prim.Native.String.{◌++◌}
use redis_kit.Common.{
  ℕ, zero, suc, ◌+◌, ◌*◌, String, ◌==◌, Option, none, some, List, [], ◌∷◌, value, queue_empty,
  Result, ok, err, Exec, pure, raise, ◌>>=◌, ◌>>◌, ltb, map, if◌then◌else◌,
}
use redis_kit.Redis.Keyspace.{Datum, Keyspace}
use redis_kit.Redis.Documented.SortedSets.{Members}
use redis_kit.Redis.Server.{Redis}

abbrev pub prefixed : String → String → String
prefixed prefix name = if prefix == "" then name else prefix ++ ":" ++ name

-- `dumps` and `loads` are the JSON text of a message with its id. `blmove` is the client's blocking
-- command, with its timeout.
pub record ReliableQueue {ℓ} (A : Type ℓ) : Type ℓ where
  pub client : Redis
  pub blmove : String → String → ℕ → Exec Keyspace (Option Datum)
  pub name : String
  pub prefix : String
  pub dumps : String → A → Datum
  pub loads : Datum → Result (String × A)

pub record Message {ℓ} (A : Type ℓ) : Type ℓ where
  pub id : String
  pub body : A
  pub raw : Datum

module _ (r : Redis) where
  -- NACK_SCRIPT
  unfoldable pub nack_script : String → String → Datum → Datum → Exec Keyspace (Unit {0})
  nack_script processing_key queue_key raw payload =
      r.lrem processing_key raw >> r.lpush queue_key payload

  -- PUT_SCRIPT; the server's time in milliseconds.
  unfoldable pub put_script : String → ℕ → Datum → Exec Keyspace (Unit {0})
  put_script key delay payload s = r.zadd key (s.clock + delay * 1000) payload s

  abbrev pub removed : String → Members → Exec Keyspace (List Datum)
  removed key [] = pure []
  removed key (x ∷ l) = r.zrem key (x ∷ l) >> pure (map (λ m. m.1) (x ∷ l))

  -- POLL_SCRIPT
  unfoldable pub poll_script : String → ℕ → Exec Keyspace (List Datum)
  poll_script key count s = (r.zrangebyscore key s.clock count >>= removed key) s

module _ {ℓ} {A : Type ℓ} (self : ReliableQueue A) where
  unfoldable pub queue_key : String
  queue_key = prefixed self.prefix self.name ++ ":queue"

  unfoldable pub processing_key : String
  processing_key = prefixed self.prefix self.name ++ ":processing"

  -- `msg_id` is what `uuid` drew.
  unfoldable pub put : String → A → Exec Keyspace (Unit {0})
  put msg_id body = self.client.lpush queue_key (self.dumps msg_id body)

  abbrev pub received : Option Datum → Exec Keyspace (Message A)
  received none s = (err queue_empty, s)
  received (some raw) s = elim (self.loads raw) [
    | err e ↦ (err e, s)
    | ok (id, body) ↦ (ok (record { id = id; body = body; raw = raw }), s)
  ]

  unfoldable pub get : ℕ → Exec Keyspace (Message A)
  get timeout = do
    result ←
        if ltb 0 timeout
        then self.blmove queue_key processing_key timeout
        else self.client.lmove queue_key processing_key
    received result

  unfoldable pub ack : Message A → Exec Keyspace (Unit {0})
  ack m = self.client.lrem processing_key m.raw

  unfoldable pub nack : Message A → Exec Keyspace (Unit {0})
  nack m = nack_script self.client processing_key queue_key m.raw (self.dumps m.id m.body)

  unfoldable pub size : Exec Keyspace ℕ
  size = self.client.llen queue_key

  unfoldable pub processing_count : Exec Keyspace ℕ
  processing_count = self.client.llen processing_key

  -- The loop of `recover_stale`; the first number is what is left of `max_items`.
  unfoldable pub recover_loop : ℕ → ℕ → Exec Keyspace ℕ
  recover_loop zero count = pure count
  recover_loop (suc left) count = self.client.lmove processing_key queue_key >>= λ msg. elim msg [
    | none ↦ pure count
    | some _ ↦ recover_loop left (suc count)
  ]

  unfoldable pub recover_stale : ℕ → Exec Keyspace ℕ
  unfolding recover_loop
  recover_stale max_items = recover_loop max_items 0

pub record DelayQueue {ℓ} (A : Type ℓ) : Type ℓ where
  pub client : Redis
  pub name : String
  pub prefix : String
  pub dumps : String → A → Datum
  pub loads : Datum → Result A

module _ {ℓ} {A : Type ℓ} (self : DelayQueue A) where
  unfoldable pub key : String
  key = prefixed self.prefix self.name

  -- `_decode_poll_results`; `loads` takes the data out of the message.
  unfoldable pub decode_poll_results : List Datum → Result (List A)
  decode_poll_results [] = ok []
  decode_poll_results (d ∷ l) =
      let rest = decode_poll_results l in
      elim (self.loads d) [
        | err e ↦ err e
        | ok a ↦ elim rest [ ok found ↦ ok (a ∷ found) | err e ↦ err e ]
      ]

  unfoldable pub put_delayed : String → A → ℕ → Exec Keyspace (Unit {0})
  put_delayed msg_id body delay = put_script self.client key delay (self.dumps msg_id body)

  unfoldable pub poll : ℕ → Exec Keyspace (List A)
  poll zero = raise value
  poll (suc count) = do
    results ← poll_script self.client key (suc count)
    λ s. (decode_poll_results results, s)

  unfoldable pub delay_size : Exec Keyspace ℕ
  delay_size = self.client.zcard key
