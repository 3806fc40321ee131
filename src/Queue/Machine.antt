-- ===== src/Queue/Machine.antt =====
-- What a reliable queue promises, as a machine on two lists, and what a client does with the
-- methods of redis_kit/queue/reliable_queue.py in its terms.
use redis_kit.Common.{
  ℕ, zero, suc, String, Option, none, some, List, [], ◌∷◌, length, queue_empty, Result, ok, err,
  Exec, pure, ◌>>=◌, ◌>>◌,
}
use redis_kit.Redis.Keyspace.{Datum, Keyspace}
use redis_kit.Redis.Documented.Lists.{remove_first, split_last}
use redis_kit.Queue.Methods.{
  ReliableQueue, Message, put, get, ack, nack, size, processing_count, recover_stale,
}

-- The machine's state: the payloads that wait, the newest first, and those in processing.
pub record Desk : Type 0 where
  pub waiting : List Datum
  pub processing : List Datum

-- What a client does. The text of an id comes with the `put`.
pub data Act {ℓ} (A : Type ℓ) : Type ℓ where
  putting : String → A → Act A
  getting : Act A
  acking : Message A → Act A
  nacking : Message A → Act A
  counting : Act A
  counting_processing : Act A
  recovering : ℕ → Act A

pub data Answer {ℓ} (A : Type ℓ) : Type ℓ where
  nothing : Answer A
  message : Message A → Answer A
  count : ℕ → Answer A

module _ {ℓ} {A : Type ℓ} (self : ReliableQueue A) where
  unfoldable pub delivered : Datum → Result (Answer A)
  delivered raw = elim (self.loads raw) [
    | err e ↦ err e
    | ok (id, body) ↦ ok (message (record { id = id; body = body; raw = raw }))
  ]

  -- The oldest payload changes from waiting to processing, also if it cannot be read.
  abbrev pub hand_out : Option (List Datum × Datum) → Exec Desk (Answer A)
  hand_out none desk = (err queue_empty, desk)
  hand_out (some (rest, d)) desk =
      (delivered d, record { waiting = rest; processing = d ∷ desk.processing })

  -- So many of the oldest in processing go back, to the newest end.
  unfoldable pub put_back : ℕ → ℕ → Desk → ℕ × Desk
  put_back zero moved desk = (moved, desk)
  put_back (suc n) moved desk = elim (split_last desk.processing) [
    | none ↦ (moved, desk)
    | some (rest, d) ↦
        put_back n (suc moved) (record { waiting = d ∷ desk.waiting; processing = rest })
  ]

  -- The promise.
  unfoldable pub promised : Act A → Exec Desk (Answer A)
  promised (putting id body) desk =
      (ok nothing, record desk { waiting = self.dumps id body ∷ desk.waiting })
  promised getting desk = hand_out (split_last desk.waiting) desk
  promised (acking m) desk =
      (ok nothing, record desk { processing = remove_first m.raw desk.processing })
  promised (nacking m) desk = (
    ok nothing,
    record {
      waiting = self.dumps m.id m.body ∷ desk.waiting;
      processing = remove_first m.raw desk.processing;
    },
  )
  promised counting desk = (ok (count (length desk.waiting)), desk)
  promised counting_processing desk = (ok (count (length desk.processing)), desk)
  promised (recovering n) desk = (ok (count (put_back n 0 desk).0), (put_back n 0 desk).1)

  -- The code.
  unfoldable pub perform : Act A → Exec Keyspace (Answer A)
  perform (putting id body) = put self id body >> pure nothing
  perform getting = do m ← get self 0; pure (message m)
  perform (acking m) = ack self m >> pure nothing
  perform (nacking m) = nack self m >> pure nothing
  perform counting = do n ← size self; pure (count n)
  perform counting_processing = do n ← processing_count self; pure (count n)
  perform (recovering n) = do moved ← recover_stale self n; pure (count moved)

  -- The answers to a sequence of acts; an exception is an answer, and the client goes on.
  abbrev pub answers :
      {S : Type 0} → (Act A → Exec S (Answer A)) → List (Act A) → S → List (Result (Answer A)) × S
  answers m [] s = ([], s)
  answers m (a ∷ acts) s = ((m a s).0 ∷ (answers m acts (m a s).1).0, (answers m acts (m a s).1).1)
