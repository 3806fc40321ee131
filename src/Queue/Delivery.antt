-- ===== src/Queue/Delivery.antt =====
-- The reliable queue as two lists: waiting messages, the newest first, and messages in processing.
use redis_kit.Common.{
  ℕ, zero, suc, ◌+◌, ◌≤◌, String, ◌==◌, eq_iff, eq_false, ◌≡◌, refl, sym, ap, subst, ◌∙◌, false,
  Option, none, some, List, [], ◌∷◌, ◌++◌, arith, length, map, All, queue_empty, ok, err, Exec,
  pure, ◌>>=◌, ◌>>◌,
}
use package.text.Mathlib.TextLemmas.{append_cancel_left}
use redis_kit.Redis.Keyspace.{Datum, datum_eq_iff, Keyspace}
use redis_kit.Redis.Documented.Lists.{remove_first, split_last}
use redis_kit.Redis.Server.{Follows}
use redis_kit.Queue.Methods.{
  ReliableQueue, Message, prefixed, received, queue_key, processing_key, nack_script, put, get, ack,
  nack, recover_loop, recover_stale,
}
use redis_kit.Queue.Moves.{Lists, lpush-Lists, lrem-Lists, lmove_empty, lmove-Lists}

pub split_last-none : (p : List Datum) → split_last p ≡ none → p ≡ []
unfolding split_last
split_last-none [] e = refl
split_last-none (x ∷ p) e = ground arith

first_removed : (d : Datum) (p : List Datum) → remove_first d (d ∷ p) ≡ p
unfolding remove_first
first_removed d p = ground (arith, datum_eq_iff d d)

-- The right end put back.
joined :
    (p rest w : List Datum) (d : Datum)
    → split_last p ≡ some (rest, d)
    → (length p ≡ suc (length rest)) × (p ++ w ≡ rest ++ d ∷ w)
unfolding split_last
joined [] rest w d e = ground arith
joined (x ∷ p) rest w d e = go (λ front y q. joined p front w y q) (split_last p) refl
  where
    go :
        ((front : List Datum) (y : Datum)
          → split_last p ≡ some (front, y)
          → (length p ≡ suc (length front)) × (p ++ w ≡ front ++ y ∷ w))
        → (last : Option (List Datum × Datum)) → split_last p ≡ last
        → (length (x ∷ p) ≡ suc (length rest)) × ((x ∷ p) ++ w ≡ rest ++ d ∷ w)
    go again none q = ground (arith, split_last-none p q)
    go again (some (front, y)) q = ground (arith, again front y q)

module _ {ℓ} {A : Type ℓ} (self : ReliableQueue A) where
  pub keys_apart : (queue_key self == processing_key self) ≡ false
  unfolding queue_key processing_key
  keys_apart = eq_false _ _ (λ (e : queue_key self ≡ processing_key self). ground (
    arith,
    eq_iff ":queue" ":processing",
    append_cancel_left (prefixed self.prefix self.name) ":queue" ":processing" e,
  ))

  pub keys_apart' : (processing_key self == queue_key self) ≡ false
  keys_apart' =
      eq_false _ _
        (λ e. ground (arith, keys_apart, eq_iff (queue_key self) (processing_key self), sym e))

  -- What the queue holds: waiting messages and messages in processing.
  abbrev pub Queued : List Datum → List Datum → Keyspace → Type 0
  Queued waiting processing s = Lists (queue_key self) (processing_key self) waiting processing s

  -- `put` for each message, with the id that `uuid` drew.
  abbrev pub put_all : List (String × A) → Exec Keyspace (Unit {0})
  put_all [] = pure tt
  put_all ((id, a) ∷ ms) = put self id a >> put_all ms

  abbrev pub get_all : ℕ → Exec Keyspace (List (Message A))
  get_all zero = pure []
  get_all (suc n) = get self 0 >>= λ m. get_all n >>= λ ms. pure (m ∷ ms)

  abbrev pub message : String × A → Message A
  message (id, a) = record { id = id; body = a; raw = self.dumps id a }

  -- The JSON text of the message is read back.
  abbrev pub Readable : String × A → Type ℓ
  Readable m = self.loads (self.dumps m.0 m.1) ≡ ok m

  -- The waiting messages after more have been put.
  abbrev pub onto : List (String × A) → List Datum → List Datum
  onto [] l = l
  onto ((id, a) ∷ ms) l = onto ms (self.dumps id a ∷ l)

  split_last-onto :
      (ms : List (String × A)) (l rest : List Datum) (d : Datum)
      → split_last l ≡ some (rest, d)
      → split_last (onto ms l) ≡ some (onto ms rest, d)
  unfolding split_last
  split_last-onto [] l rest d e = e
  split_last-onto ((id, a) ∷ ms) l rest d e =
      split_last-onto ms (self.dumps id a ∷ l) (self.dumps id a ∷ rest) d (rw e refl)

  lone : (d : Datum) → split_last (d ∷ []) ≡ some ([], d)
  unfolding split_last
  lone d = refl

  module _ (h : Follows self.client) where
    put-Queued :
        (id : String) (a : A) (w p : List Datum) (s : Keyspace)
        → Queued w p s
        → ((put self id a s).0 ≡ ok tt) × Queued (self.dumps id a ∷ w) p (put self id a s).1
    unfolding put
    put-Queued id a w p s at = lpush-Lists h keys_apart keys_apart' (self.dumps id a) w p s at

    put_all-Queued :
        (ms : List (String × A)) (w p : List Datum) (s : Keyspace)
        → Queued w p s
        → ((put_all ms s).0 ≡ ok tt) × Queued (onto ms w) p (put_all ms s).1
    put_all-Queued [] w p s at = (refl, at)
    put_all-Queued ((id, a) ∷ ms) w p s at =
        let (done, at1) = put-Queued id a w p s at in
        let (all, at2) = put_all-Queued ms (self.dumps id a ∷ w) p (put self id a s).1 at1 in
        rw done (all, at2)

    get-Queued :
        (m : String × A) (w rest p : List Datum) (s : Keyspace)
        → Queued w p s
        → split_last w ≡ some (rest, (message m).raw)
        → Readable m
        → ((get self 0 s).0 ≡ ok (message m)) × Queued rest ((message m).raw ∷ p) (get self 0 s).1
    unfolding get
    get-Queued m w rest p s at last read =
        let (moved, at1) =
          lmove-Lists h keys_apart keys_apart' (message m).raw rest w p s at last in
        rw moved (rw (read, received) (refl, at1))

    -- An empty queue raises `QueueEmptyError` and changes nothing.
    pub get_empty :
        (p : List Datum) (s : Keyspace) → Queued [] p s → get self 0 s ≡ (err queue_empty, s)
    unfolding get
    get_empty p s at = rw (lmove_empty h keys_apart keys_apart' p s at) refl

    gets :
        (ms : List (String × A)) (p : List Datum) (s : Keyspace)
        → All Readable ms
        → Queued (onto ms []) p s
        → ((get_all (length ms) s).0 ≡ ok (map message ms))
          × Queued [] (onto ms p) (get_all (length ms) s).1
    gets [] p s json at = (refl, at)
    gets (m ∷ ms) p s json at =
        let last =
          split_last-onto ms ((message m).raw ∷ []) [] (message m).raw (lone (message m).raw) in
        let (got, at1) = get-Queued m (onto (m ∷ ms) []) (onto ms []) p s at last json.0 in
        let (rest, at2) = gets ms ((message m).raw ∷ p) (get self 0 s).1 json.1 at1 in
        rw got (rw rest (refl, at2))

    -- Messages that are put on an empty queue are received in the order in which they were put,
    -- each once, with the data they carry; each of them is in processing then, and none waits.
    -- (The JSON text of each message is read back.)
    pub fifo :
        (ms : List (String × A)) (p : List Datum) (s : Keyspace)
        → All Readable ms
        → Queued [] p s
        → ((get_all (length ms) (put_all ms s).1).0 ≡ ok (map message ms))
          × Queued [] (onto ms p) (get_all (length ms) (put_all ms s).1).1
    fifo ms p s json at = gets ms p (put_all ms s).1 json (put_all-Queued ms [] p s at).1

    recover-Queued :
        (n k : ℕ) (w p : List Datum) (s : Keyspace)
        → Queued w p s
        → length p ≤ n
        → ((recover_loop self n k s).0 ≡ ok (k + length p))
          × Queued (p ++ w) [] (recover_loop self n k s).1
    unfolding recover_loop
    recover-Queued zero k w [] s at enough = (ground arith, at)
    recover-Queued zero k w (x ∷ p) s at enough = elim enough [ ]
    recover-Queued (suc n) k w p s at enough =
        go (λ v q u at' few. recover-Queued n (suc k) v q u at' few) (split_last p) refl
      where
        go :
            ((v q : List Datum) (u : Keyspace)
              → Queued v q u
              → length q ≤ n
              → ((recover_loop self n (suc k) u).0 ≡ ok (suc k + length q))
                × Queued (q ++ v) [] (recover_loop self n (suc k) u).1)
            → (last : Option (List Datum × Datum)) → split_last p ≡ last
            → ((recover_loop self (suc n) k s).0 ≡ ok (k + length p))
              × Queued (p ++ w) [] (recover_loop self (suc n) k s).1
        go more none e =
            let empty = split_last-none p e in
            let at0 : Lists (processing_key self) (queue_key self) [] w s = record {
              first = at.second ∙ ap ok empty;
              second = at.first;
            } in
            rw (lmove_empty h keys_apart' keys_apart w s at0)
              (rw empty (ground arith, record { first = at.first; second = at0.first }))
        go more (some (rest, d)) e =
            let (moved, at1) =
              lmove-Lists h keys_apart' keys_apart d rest p w s
                (record { first = at.second; second = at.first }) e in
            let s1 = (self.client.lmove (processing_key self) (queue_key self) s).1 in
            let (long, back) = joined p rest w d e in
            let (count, at2) =
              more (d ∷ w) rest s1 (record { first = at1.second; second = at1.first })
                (omega (arith, long)) in
            rw moved (
              count ∙ ap ok (omega (arith, long)),
              subst (λ l. Queued l [] (recover_loop self n (suc k) s1).1) (sym back) at2,
            )

    -- `recover_stale` with a bound that covers the messages in processing puts all of them back, the
    -- oldest of them next in line before every waiting message, and returns how many they were.
    pub recover_lem :
        (n : ℕ) (w p : List Datum) (s : Keyspace)
        → Queued w p s
        → length p ≤ n
        → ((recover_stale self n s).0 ≡ ok (length p))
          × Queued (p ++ w) [] (recover_stale self n s).1
    unfolding recover_stale
    recover_lem n w p s at enough =
        let (count, back) = recover-Queued n 0 w p s at enough in
        (count ∙ ap ok (omega arith), back)

    -- A message is received, and then refused or acknowledged: refused, it waits behind all
    -- others with its data and is no longer in processing; acknowledged, it is in processing no
    -- longer. (The message is the oldest that waits, and its JSON text is read back.)
    pub settle :
        (m : String × A) (w rest p : List Datum) (s : Keyspace)
        → Queued w p s
        → split_last w ≡ some (rest, (message m).raw)
        → Readable m
        → let got = (get self 0 s).1 in
          ((get self 0 s).0 ≡ ok (message m))
          × Queued rest p (ack self (message m) got).1
          × Queued ((message m).raw ∷ rest) p (nack self (message m) got).1
    unfolding ack nack nack_script
    settle m w rest p s at last read =
        let raw = (message m).raw in
        let (received, at1) = get-Queued m w rest p s at last read in
        let got = (get self 0 s).1 in
        let (done, at2) = lrem-Lists h keys_apart keys_apart' raw rest (raw ∷ p) got at1 in
        let at3 : Queued rest p (self.client.lrem (processing_key self) raw got).1 = record {
          first = at2.first;
          second = at2.second ∙ ap ok (first_removed raw p);
        } in
        (
          received,
          at3,
          rw done (
              (lpush-Lists h keys_apart keys_apart' raw rest p
                (self.client.lrem (processing_key self) raw got).1 at3).1),
        )
