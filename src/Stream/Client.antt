-- ===== src/Stream/Client.antt =====
-- What redis_kit/stream uses of the client, redis_kit/stream/_base.py, redis_kit/stream/message.py
-- and redis_kit/stream/producer.py.
use Prim.Native.String.{◌++◌}
use redis_kit.Common.{
  ℕ, String, ◌==◌, Bool, true, false, Option, none, some, List, [], ◌∷◌, Result, ok, err, Exec,
  ◌>>=◌, if◌then◌else◌,
}

-- A string of a reply, which is bytes unless the client decodes its replies.
pub data Raw (B : Type 0) : Type 0 where
  bytes : B → Raw B
  str : String → Raw B

-- What `xgroup_create` does: `refused` is a `ResponseError` with its text, `failed` any other
-- exception.
pub data Created : Type 0 where
  created : Created
  refused : List ℕ → Created
  failed : Created

-- An entry of `xpending_range`.
pub record PendingEntry (B : Type 0) : Type 0 where
  pub message_id : Raw B
  pub consumer : Raw B
  pub time_since_delivered : ℕ
  pub times_delivered : ℕ

-- An entry of a stream: its id and its fields.
abbrev pub Entry : Type 0 → Type 0
Entry B = Raw B × List (Raw B × Raw B)

-- The commands for streams, and `bytes.decode`. `S` is what the server keeps.
pub record StreamClient (S : Type 0) (B : Type 0) : Type 0 where
  pub decode : B → Result String
  -- The stream, the fields, the id, `maxlen` and `approximate`.
  pub xadd : String → List (String × String) → String → Option ℕ → Bool → Exec S (Raw B)
  pub xlen : String → Exec S ℕ
  pub xtrim : String → ℕ → Bool → Exec S ℕ
  -- The stream, the group and the start id, with `mkstream`.
  pub xgroup_create : String → String → String → S → Created × S
  pub xgroup_destroy : String → String → Exec S ℕ
  -- The group, the consumer, the stream with ">", `count` and `block`.
  pub xreadgroup : String → String → String → ℕ → ℕ → Exec S (List (Raw B × List (Entry B)))
  pub xack : String → String → String → Exec S ℕ
  -- The stream and the group, with all ids, `count` and `idle`.
  pub xpending_range : String → String → ℕ → ℕ → Exec S (List (PendingEntry B))
  -- The stream, the group, the consumer, `min_idle_time` and `count`, with the start id "0-0". The
  -- reply without its first element is `none` where it has only that one.
  pub xautoclaim : String → String → String → ℕ → ℕ → Exec S (Option (List (Entry B)))

-- `_stream` in both classes.
unfoldable pub stream_key : String → String → String
stream_key prefix name = if prefix == "" then name else prefix ++ ":" ++ name

module _ {S B : Type 0} (client : StreamClient S B) where
  unfoldable pub decoded : Raw B → Result String
  decoded (bytes b) = client.decode b
  decoded (str t) = ok t

  unfoldable pub put_in : String → String → List (String × String) → List (String × String)
  put_in k v [] = (k, v) ∷ []
  put_in k v ((j, w) ∷ l) = if j == k then (k, v) ∷ l else (j, w) ∷ put_in k v l

  -- The comprehension, with what the dictionary holds so far.
  unfoldable pub decode_fields :
      List (Raw B × Raw B) → List (String × String) → Result (List (String × String))
  unfolding decoded put_in
  decode_fields [] d = ok d
  decode_fields ((k, v) ∷ l) d = elim (decoded k) [
    | err e ↦ err e
    | ok k' ↦ elim (decoded v) [ err e ↦ err e | ok v' ↦ decode_fields l (put_in k' v' d) ]
  ]

  unfoldable pub decode_stream_data : List (Raw B × Raw B) → Result (List (String × String))
  unfolding decode_fields
  decode_stream_data data' = decode_fields data' []

-- `_auto_ack` says whether `listen` acknowledges.
pub record StreamConsumer (S : Type 0) (B : Type 0) : Type 0 where
  pub client : StreamClient S B
  pub stream' : String
  pub group : String
  pub consumer_name : String
  pub auto_ack : Bool

pub record StreamMessage (S : Type 0) (B : Type 0) : Type 0 where
  pub id : String
  pub data' : List (String × String)
  pub stream' : String
  pub consumer : Option (StreamConsumer S B)

pub record StreamProducer (S : Type 0) (B : Type 0) : Type 0 where
  pub client : StreamClient S B
  pub stream' : String
  pub maxlen : Option ℕ

abbrev pub is_some : Option ℕ → Bool
is_some none = false
is_some (some n) = true

module _ {S B : Type 0} (self : StreamProducer S B) where
  unfoldable pub add : List (String × String) → String → Exec S String
  unfolding decoded
  add data' msg_id = do
    result ← self.client.xadd self.stream' data' msg_id self.maxlen (is_some self.maxlen)
    λ s. (decoded self.client result, s)

  unfoldable pub len : Exec S ℕ
  len = self.client.xlen self.stream'

  unfoldable pub trim : ℕ → Bool → Exec S ℕ
  trim maxlen approximate = self.client.xtrim self.stream' maxlen approximate
