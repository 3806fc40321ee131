-- ===== src/Stream/Consumer.antt =====
-- redis_kit/stream/consumer.py, with the parts of redis_kit/stream/_base.py and
-- redis_kit/stream/message.py that read replies.
use redis_kit.Common.{
  ℕ, String, Bool, true, false, ◌||◌, ◌&&◌, nat_eq, none, some, List, [], ◌∷◌, stream, Result, ok,
  err, Exec, raise, pure, ◌>>=◌, if◌then◌else◌,
}
use redis_kit.Stream.Client.{
  Raw, created, refused, failed, PendingEntry, Entry, StreamClient, StreamConsumer, StreamMessage,
  decoded, decode_stream_data,
}

-- `in` on texts, as lists of characters.
unfoldable pub starts_with : List ℕ → List ℕ → Bool
starts_with [] t = true
starts_with (c ∷ p) [] = false
starts_with (c ∷ p) (d ∷ t) = nat_eq c d && starts_with p t

unfoldable pub is_within : List ℕ → List ℕ → Bool
unfolding starts_with
is_within p [] = starts_with p []
is_within p (d ∷ t) = starts_with p (d ∷ t) || is_within p t

-- "BUSYGROUP"
abbrev pub busy_group : List ℕ
busy_group = b'B' ∷ b'U' ∷ b'S' ∷ b'Y' ∷ b'G' ∷ b'R' ∷ b'O' ∷ b'U' ∷ b'P' ∷ []

-- A generator: it returns or raises, or it yields and is suspended there.
pub data Turn (S : Type 0) (A : Type 0) : Type 0 where
  stop : Result (Unit {0}) → S → Turn S A
  emit : A → S → (S → Turn S A) → Turn S A

-- A `for` loop over a generator. The body returns whether it went on (`true`) or left by `break`.
-- A generator that is left where it is suspended does nothing more.
unfoldable pub for_each : {S A : Type 0} → (A → Exec S Bool) → Turn S A → Result (Unit {0}) × S
for_each body (stop r s) = (r, s)
for_each body (emit a s k) = elim (body a s).0 [
  | err e ↦ (err e, (body a s).1)
  | ok false ↦ (ok tt, (body a s).1)
  | ok true ↦ for_each body (k (body a s).1)
]

-- What the dictionaries of `pending` have.
pub record Pending : Type 0 where
  pub id : String
  pub consumer : String
  pub idle_ms : ℕ
  pub delivery_count : ℕ

module _ {S B : Type 0} where
  unfoldable pub parse_pending_entries :
      StreamClient S B → List (PendingEntry B) → Result (List Pending)
  unfolding decoded
  parse_pending_entries client [] = ok []
  parse_pending_entries client (entry ∷ l) = elim (decoded client entry.message_id) [
    | err e ↦ err e
    | ok id ↦ elim (decoded client entry.consumer) [
      | err e ↦ err e
      | ok consumer ↦ elim (parse_pending_entries client l) [
        | err e ↦ err e
        | ok rest ↦ ok (
            record {
              id = id;
              consumer = consumer;
              idle_ms = entry.time_since_delivered;
              delivery_count = entry.times_delivered;
            }
            ∷ rest)
      ]
    ]
  ]

module _ {S B : Type 0} (self : StreamConsumer S B) where
  -- The message of an entry; its data may be what cannot be decoded.
  unfoldable pub message_of : String → Entry B → Result (StreamMessage S B)
  unfolding decoded decode_stream_data
  message_of s_name (msg_id, fields) = elim (decoded self.client msg_id) [
    | err e ↦ err e
    | ok m_id ↦ elim (decode_stream_data self.client fields) [
      | err e ↦ err e
      | ok d ↦ ok (record { id = m_id; data' = d; stream' = s_name; consumer = some self })
    ]
  ]

  unfoldable pub parse_autoclaim_messages : List (Entry B) → Result (List (StreamMessage S B))
  unfolding message_of
  parse_autoclaim_messages [] = ok []
  parse_autoclaim_messages (entry ∷ l) = elim (message_of self.stream' entry) [
    | err e ↦ err e
    | ok m ↦ elim (parse_autoclaim_messages l) [ err e ↦ err e | ok rest ↦ ok (m ∷ rest) ]
  ]

  unfoldable pub ensure_group : String → Exec S (Unit {0})
  unfolding is_within
  ensure_group start_id s =
      let reply = self.client.xgroup_create self.stream' self.group start_id s in
      elim reply.0 [
        | created ↦ (ok tt, reply.1)
        | refused text ↦
            if is_within busy_group text then (ok tt, reply.1) else (err stream, reply.1)
        | failed ↦ (err stream, reply.1)
      ]

  unfoldable pub ack : String → Exec S (Unit {0})
  ack msg_id = do n ← self.client.xack self.stream' self.group msg_id; pure tt

  -- The rest of the loop behind a command.
  unfoldable pub after_ack :
      Result (Unit {0}) × S → (S → Turn S (StreamMessage S B)) → Turn S (StreamMessage S B)
  after_ack (err e, s) rest = stop (err e) s
  after_ack (ok done, s) rest = rest s

  -- What follows the `yield`.
  unfoldable pub resumed :
      String → (S → Turn S (StreamMessage S B)) → S → Turn S (StreamMessage S B)
  unfolding after_ack ack
  resumed m_id rest s = if self.auto_ack then after_ack (ack m_id s) rest else rest s

  -- The inner loop of `listen`, then what is left of the outer one.
  unfoldable pub listen_entries :
      String → List (Entry B) → (S → Turn S (StreamMessage S B)) → S → Turn S (StreamMessage S B)
  unfolding message_of resumed
  listen_entries s_name [] after s = after s
  listen_entries s_name (entry ∷ l) after s = elim (message_of s_name entry) [
    | err e ↦ stop (err e) s
    | ok m ↦ emit m s (resumed m.id (listen_entries s_name l after))
  ]

  unfoldable pub listen_streams : List (Raw B × List (Entry B)) → S → Turn S (StreamMessage S B)
  unfolding listen_entries
  listen_streams [] s = stop (ok tt) s
  listen_streams ((stream_name, messages) ∷ results) s = elim (decoded self.client stream_name) [
    | err e ↦ stop (err e) s
    | ok s_name ↦ listen_entries s_name messages (listen_streams results) s
  ]

  unfoldable pub listen_reply :
      Result (List (Raw B × List (Entry B))) × S → Turn S (StreamMessage S B)
  unfolding listen_streams
  listen_reply (err e, s) = stop (err e) s
  listen_reply (ok results, s) = listen_streams results s

  unfoldable pub listen : ℕ → ℕ → S → Turn S (StreamMessage S B)
  unfolding listen_reply
  listen count block s =
      listen_reply (self.client.xreadgroup self.group self.consumer_name self.stream' count block s)

  unfoldable pub pending : ℕ → ℕ → Exec S (List Pending)
  unfolding parse_pending_entries
  pending count min_idle_ms = do
    result ← self.client.xpending_range self.stream' self.group count min_idle_ms
    λ s. (parse_pending_entries self.client result, s)

  unfoldable pub claim_stale : ℕ → ℕ → Exec S (List (StreamMessage S B))
  unfolding parse_autoclaim_messages
  claim_stale min_idle_ms count = do
    result ← self.client.xautoclaim self.stream' self.group self.consumer_name min_idle_ms count
    λ s. (elim result [ none ↦ ok [] | some messages ↦ parse_autoclaim_messages messages ], s)

  unfoldable pub destroy_group : Exec S (Unit {0})
  destroy_group = do n ← self.client.xgroup_destroy self.stream' self.group; pure tt

-- `StreamMessage.ack`
unfoldable pub ack_message : {S B : Type 0} → StreamMessage S B → Exec S (Unit {0})
unfolding ack
ack_message m = elim m.consumer [ none ↦ raise stream | some consumer ↦ ack consumer m.id ]
