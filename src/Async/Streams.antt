-- ===== src/Async/Streams.antt =====
-- redis_kit/stream/async_consumer.py and redis_kit/stream/async_producer.py.
use redis_kit.Common.{
  ℕ, String, Bool, none, some, List, [], ◌∷◌, stream, Result, ok, err, if◌then◌else◌,
}
use redis_kit.Async.Task.{Task, done, await, pure, raise, command, ◌>>=◌}
use redis_kit.Stream.Client.{
  Raw, Entry, StreamConsumer, StreamMessage, StreamProducer, decoded, is_some, created, refused,
  failed,
}
use redis_kit.Stream.Consumer.{
  Pending, message_of, busy_group, is_within, parse_pending_entries, parse_autoclaim_messages,
}

-- An asynchronous generator: it returns or raises, it yields, or it is suspended at an `await`.
pub data Flow (S : Type 0) (A : Type 0) : Type 0 where
  stop : Result (Unit {0}) → Flow S A
  emit : A → Flow S A → Flow S A
  waiting : (S → S) → (S → Flow S A) → Flow S A

-- `async for`. The body returns whether it went on (`true`) or left by `break`.
unfoldable pub for_each : {S A : Type 0} → (A → Task S Bool) → Flow S A → Task S (Unit {0})
for_each body (stop r) = done r
for_each body (waiting g k) = await g (λ s. for_each body (k s))
for_each body (emit a flow) = do goes_on ← body a; if goes_on then for_each body flow else pure tt

module _ {S B : Type 0} (self : StreamConsumer S B) where
  unfoldable pub ensure_group : String → Task S (Unit {0})
  unfolding is_within
  ensure_group start_id =
      let create = self.client.xgroup_create self.stream' self.group start_id in
      await (λ s. (create s).1)
        (λ s. elim (create s).0 [
          | created ↦ pure tt
          | refused text ↦ if is_within busy_group text then pure tt else raise stream
          | failed ↦ raise stream
        ])

  unfoldable pub async_ack : String → Task S (Unit {0})
  async_ack msg_id = do n ← command (self.client.xack self.stream' self.group msg_id); pure tt

  -- `_ack`
  unfoldable pub sync_ack : String → Task S (Unit {0})
  sync_ack msg_id = raise stream

  -- The rest of the generator behind a command.
  unfoldable pub after_ack : Result ℕ → Flow S (StreamMessage S B) → Flow S (StreamMessage S B)
  after_ack (err e) rest = stop (err e)
  after_ack (ok n) rest = rest

  -- What follows the `yield`.
  unfoldable pub resumed : String → Flow S (StreamMessage S B) → Flow S (StreamMessage S B)
  unfolding after_ack
  resumed m_id rest =
      let reply = self.client.xack self.stream' self.group m_id in
      if self.auto_ack then waiting (λ s. (reply s).1) (λ s. after_ack (reply s).0 rest) else rest

  unfoldable pub listen_entries :
      String → List (Entry B) → Flow S (StreamMessage S B) → Flow S (StreamMessage S B)
  unfolding resumed
  listen_entries s_name [] after = after
  listen_entries s_name (entry ∷ l) after = elim (message_of self s_name entry) [
    | err e ↦ stop (err e)
    | ok m ↦ emit m (resumed m.id (listen_entries s_name l after))
  ]

  unfoldable pub listen_streams : List (Raw B × List (Entry B)) → Flow S (StreamMessage S B)
  unfolding listen_entries
  listen_streams [] = stop (ok tt)
  listen_streams ((stream_name, messages) ∷ results) = elim (decoded self.client stream_name) [
    | err e ↦ stop (err e)
    | ok s_name ↦ listen_entries s_name messages (listen_streams results)
  ]

  unfoldable pub listen_reply : Result (List (Raw B × List (Entry B))) → Flow S (StreamMessage S B)
  unfolding listen_streams
  listen_reply (err e) = stop (err e)
  listen_reply (ok results) = listen_streams results

  unfoldable pub listen : ℕ → ℕ → Flow S (StreamMessage S B)
  unfolding listen_reply
  listen count block =
      let reply = self.client.xreadgroup self.group self.consumer_name self.stream' count block in
      waiting (λ s. (reply s).1) (λ s. listen_reply (reply s).0)

  unfoldable pub pending : ℕ → ℕ → Task S (List Pending)
  unfolding parse_pending_entries
  pending count min_idle_ms = do
    result ← command (self.client.xpending_range self.stream' self.group count min_idle_ms)
    done (parse_pending_entries self.client result)

  unfoldable pub claim_stale : ℕ → ℕ → Task S (List (StreamMessage S B))
  unfolding parse_autoclaim_messages
  claim_stale min_idle_ms count = do
    result ←
        command
          (self.client.xautoclaim self.stream' self.group self.consumer_name min_idle_ms count)
    done (elim result [ none ↦ ok [] | some messages ↦ parse_autoclaim_messages self messages ])

  unfoldable pub destroy_group : Task S (Unit {0})
  destroy_group = do n ← command (self.client.xgroup_destroy self.stream' self.group); pure tt

module _ {S B : Type 0} (self : StreamProducer S B) where
  unfoldable pub add : List (String × String) → String → Task S String
  unfolding decoded
  add data' msg_id = do
    result ← command (self.client.xadd self.stream' data' msg_id self.maxlen (is_some self.maxlen))
    done (decoded self.client result)

  unfoldable pub len : Task S ℕ
  len = command (self.client.xlen self.stream')

  unfoldable pub trim : ℕ → Bool → Task S ℕ
  trim maxlen approximate = command (self.client.xtrim self.stream' maxlen approximate)
