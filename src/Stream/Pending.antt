-- ===== src/Stream/Pending.antt =====
-- Which messages are still pending after a loop over `listen`.
use redis_kit.Common.{
  ℕ, String, Bool, true, false, List, [], ◌∷◌, ◌++◌, ◌≡◌, refl, ◌∙◌, Error, Result, ok, err, Exec,
}
use redis_kit.Stream.Client.{Raw, Entry, StreamConsumer, StreamMessage, decoded}
use redis_kit.Stream.Consumer.{
  Turn, stop, emit, for_each, message_of, ack, after_ack, resumed, listen_entries, listen_streams,
  listen_reply, listen,
}

module _ {S B : Type 0} (self : StreamConsumer S B) where
  -- The entries are those of the messages.
  unfoldable pub Reads : List (Entry B) → List (StreamMessage S B) → Type 0
  Reads [] [] = Unit
  Reads (entry ∷ l) (m ∷ ms) = (message_of self self.stream' entry ≡ ok m) × Reads l ms
  Reads _ _ = ⊥

  -- XACK of an id takes it off the group's pending ids.
  pub record Acknowledges (waiting : S → List String) : Type 0 where
    pub acked :
        (id : String) (p : List String) (s : S)
        → waiting s ≡ id ∷ p
        → (self.client.xack self.stream' self.group id s).0 ≡ ok 1
    pub taken :
        (id : String) (p : List String) (s : S)
        → waiting s ≡ id ∷ p
        → waiting (self.client.xack self.stream' self.group id s).1 ≡ p

abbrev pub ids : {S B : Type 0} → List (StreamMessage S B) → List String
ids [] = []
ids (m ∷ ms) = m.id ∷ ids ms

-- How a loop over the messages ended, and what is still pending: the messages from the one on whose
-- body did not go on, before the `others`. Each one that is not pending any more went through its
-- body first.
pub data Served {S B : Type 0} (waiting : S → List String) (others : List String)
    (body : StreamMessage S B → Exec S Bool)
    : List (StreamMessage S B) → Result (Unit {0}) × S → Type 0 where
  finished : (s : S) → waiting s ≡ others → Served waiting others body [] (ok tt, s)
  left :
      (m : StreamMessage S B) (ms : List (StreamMessage S B)) (u : S)
      → (body m u).0 ≡ ok false
      → waiting (body m u).1 ≡ ids (m ∷ ms) ++ others
      → Served waiting others body (m ∷ ms) (ok tt, (body m u).1)
  raised :
      (m : StreamMessage S B) (ms : List (StreamMessage S B)) (u : S) (e : Error)
      → (body m u).0 ≡ err e
      → waiting (body m u).1 ≡ ids (m ∷ ms) ++ others
      → Served waiting others body (m ∷ ms) (err e, (body m u).1)
  handled :
      (m : StreamMessage S B) (ms : List (StreamMessage S B)) (u : S) (end : Result (Unit {0}) × S)
      → (body m u).0 ≡ ok true
      → Served waiting others body ms end
      → Served waiting others body (m ∷ ms) end

module _ {S B : Type 0} (self : StreamConsumer S B) (waiting : S → List String)
    (h : Acknowledges self waiting) (automatic : self.auto_ack ≡ true)
    (body : StreamMessage S B → Exec S Bool)
    (keeps : (m : StreamMessage S B) (s : S) → waiting (body m s).1 ≡ waiting s)
    (others : List String) where
  ack-xack :
      (id : String) (p : List String) (s : S)
      → waiting s ≡ id ∷ p
      → ack self id s ≡ (ok tt, (self.client.xack self.stream' self.group id s).1)
  unfolding ack
  ack-xack id p s at = rw (h.acked id p s at) refl

  resumed-ack :
      (m : StreamMessage S B) (p : List String) (rest : S → Turn S (StreamMessage S B)) (s : S)
      → waiting s ≡ m.id ∷ p
      → resumed self m.id rest s ≡ rest (self.client.xack self.stream' self.group m.id s).1
  unfolding resumed after_ack
  resumed-ack m p rest s at = rw automatic (rw (ack-xack m.id p s at) refl)

  listen_entries-stop :
      (s : S) → listen_entries self self.stream' [] (listen_streams self []) s ≡ stop (ok tt) s
  unfolding listen_entries listen_streams
  listen_entries-stop s = refl

  listen_entries-emit :
      (entry : Entry B) (l : List (Entry B)) (m : StreamMessage S B)
      (after : S → Turn S (StreamMessage S B)) (s : S)
      → message_of self self.stream' entry ≡ ok m
      → listen_entries self self.stream' (entry ∷ l) after s
        ≡ emit m s (resumed self m.id (listen_entries self self.stream' l after))
  unfolding listen_entries
  listen_entries-emit entry l m after s same = rw (listen_entries, same) refl

  listen_entries-Served :
      (l : List (Entry B)) (ms : List (StreamMessage S B)) (s : S)
      → Reads self l ms
      → waiting s ≡ ids ms ++ others
      → Served waiting others body ms
          (for_each body (listen_entries self self.stream' l (listen_streams self []) s))
  unfolding Reads for_each
  listen_entries-Served [] [] s reads at = rw (listen_entries-stop s) (finished s at)
  listen_entries-Served [] (m ∷ ms) s reads at = elim reads [ ]
  listen_entries-Served (entry ∷ l) [] s reads at = elim reads [ ]
  listen_entries-Served (entry ∷ l) (m ∷ ms) s (same, reads) at =
      rw (listen_entries-emit entry l m (listen_streams self []) s same)
        (went (body m s).0 refl (λ v at2. listen_entries-Served l ms v reads at2))
    where
      rest : S → Turn S (StreamMessage S B)
      rest = listen_entries self self.stream' l (listen_streams self [])

      at1 : waiting (body m s).1 ≡ ids (m ∷ ms) ++ others
      at1 = keeps m s ∙ at

      went :
          (outcome : Result Bool)
          → (body m s).0 ≡ outcome
          → ((v : S)
              → waiting v ≡ ids ms ++ others
              → Served waiting others body ms (for_each body (rest v)))
          → Served waiting others body (m ∷ ms) (elim outcome as (λ _. Result (Unit {0}) × S) [
            | err e ↦ (err e, (body m s).1)
            | ok false ↦ (ok tt, (body m s).1)
            | ok true ↦ for_each body (resumed self m.id rest (body m s).1)
          ])
      went (err e) done more = raised m ms s e done at1
      went (ok false) done more = left m ms s done at1
      went (ok true) done more = handled m ms s _ done (
          rw (resumed-ack m (ids ms ++ others) rest (body m s).1 at1) (
            more (self.client.xack self.stream' self.group m.id (body m s).1).1
              (h.taken m.id (ids ms ++ others) (body m s).1 at1)))

  listen-listen_entries :
      (count block : ℕ) (s u : S) (name : Raw B) (l : List (Entry B))
      → self.client.xreadgroup self.group self.consumer_name self.stream' count block s
        ≡ (ok ((name, l) ∷ []), u)
      → decoded self.client name ≡ ok self.stream'
      → listen self count block s ≡ listen_entries self self.stream' l (listen_streams self []) u
  unfolding listen listen_reply listen_streams
  listen-listen_entries count block s u name l replied named =
      rw replied (rw (listen_streams, named) refl)

  -- A loop over `listen` with automatic acknowledgement, on a reply whose entries can be decoded and
  -- whose ids are pending before the `others`, with a body that leaves the pending ids as they are:
  -- each message that is no longer pending went through its body first; when the body raises or
  -- leaves the loop, its message and the later ones are still pending; otherwise only the others
  -- are.
  pub listen-Served :
      (count block : ℕ) (s u : S) (name : Raw B) (l : List (Entry B))
      (ms : List (StreamMessage S B))
      → self.client.xreadgroup self.group self.consumer_name self.stream' count block s
        ≡ (ok ((name, l) ∷ []), u)
      → decoded self.client name ≡ ok self.stream'
      → Reads self l ms
      → waiting u ≡ ids ms ++ others
      → Served waiting others body ms (for_each body (listen self count block s))
  listen-Served count block s u name l ms replied named reads at =
      rw (listen-listen_entries count block s u name l replied named)
        (listen_entries-Served l ms u reads at)
