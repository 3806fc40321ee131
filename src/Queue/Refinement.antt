-- ===== src/Queue/Refinement.antt =====
-- The reliable queue implements the machine of Queue/Machine.
use redis_kit.Common.{
  ℕ, zero, suc, String, ◌≡◌, refl, ap, ◌∙◌, Option, none, some, List, [], ◌∷◌, length, queue_empty,
  Result, ok, err, continue, pure,
}
use redis_kit.Redis.Keyspace.{Datum, Keyspace}
use redis_kit.Redis.Documented.Lists.{remove_first, split_last, llen}
use redis_kit.Redis.Server.{Redis, Follows, documented, same}
use redis_kit.Queue.Methods.{
  ReliableQueue, Message, queue_key, processing_key, nack_script, put, get, ack, nack, size,
  processing_count, received, recover_loop, recover_stale,
}
use redis_kit.Queue.Moves.{Lists, lpush-Lists, lrem-Lists, lmove_empty, lmove-Lists}
use redis_kit.Queue.Delivery.{Queued, split_last-none, get_empty, keys_apart, keys_apart'}
use redis_kit.Queue.Machine.{
  Desk, Act, putting, getting, acking, nacking, counting, counting_processing, recovering, Answer,
  message, delivered, hand_out, put_back, promised, perform, answers,
}

module _ {ℓ} {A : Type ℓ} (self : ReliableQueue A) where
  module _ (h : Follows self.client) where
    abbrev Kept : Desk → Keyspace → Type 0
    Kept desk s = Queued self desk.waiting desk.processing s

    -- The act in the code and the act in the promise, from states that agree.
    abbrev Meets : Act A → Desk → Keyspace → Type ℓ
    Meets a desk s =
        ((perform self a s).0 ≡ (promised self a desk).0)
        × Kept (promised self a desk).1 (perform self a s).1

    turned :
        {w p : List Datum} {s : Keyspace}
        → Queued self w p s
        → Lists (processing_key self) (queue_key self) p w s
    turned at = record { first = at.second; second = at.first }

    put-Meets :
        (id : String) (body : A) (desk : Desk) (s : Keyspace)
        → Kept desk s
        → Meets (putting id body) desk s
    unfolding perform promised put
    put-Meets id body desk s at =
        let (done, at1) =
          lpush-Lists h (keys_apart self) (keys_apart' self) (self.dumps id body) desk.waiting
            desk.processing s at in
        rw done (refl, at1)

    ack-Meets : (m : Message A) (desk : Desk) (s : Keyspace) → Kept desk s → Meets (acking m) desk s
    unfolding perform promised ack
    ack-Meets m desk s at =
        let (done, at1) =
          lrem-Lists h (keys_apart self) (keys_apart' self) m.raw desk.waiting desk.processing s
            at in
        rw done (refl, at1)

    nack-Meets :
        (m : Message A) (desk : Desk) (s : Keyspace) → Kept desk s → Meets (nacking m) desk s
    unfolding perform promised nack nack_script
    nack-Meets m desk s at =
        let (done, at1) =
          lrem-Lists h (keys_apart self) (keys_apart' self) m.raw desk.waiting desk.processing s
            at in
        let (done', at2) =
          lpush-Lists h (keys_apart self) (keys_apart' self) (self.dumps m.id m.body) desk.waiting
            (remove_first m.raw desk.processing) (self.client.lrem (processing_key self) m.raw s).1
            at1 in
        rw done (rw done' (refl, at2))

    counted :
        {r : Redis} (f : Follows r) {a b : String} {l m : List Datum} (s : Keyspace)
        → Lists a b l m s
        → r.llen a s ≡ (ok (length l), s)
    counted f s at = rw (same f) (unfold documented llen in rw (at.first, llen) refl)

    count-Meets : (desk : Desk) (s : Keyspace) → Kept desk s → Meets counting desk s
    unfolding perform promised size
    count-Meets desk s at = rw (counted h s at) (refl, at)

    count_processing-Meets :
        (desk : Desk) (s : Keyspace) → Kept desk s → Meets counting_processing desk s
    unfolding perform promised processing_count
    count_processing-Meets desk s at = rw (counted h s (turned at)) (refl, at)

    received_as :
        (d : Datum) (u : Keyspace)
        → continue (received self (some d) u).0 (λ m. pure (message m)) (received self (some d) u).1
          ≡ (delivered self d, u)
    unfolding delivered
    received_as d u =
        elim (self.loads d)
          as (λ loaded.
            continue
              (elim loaded as (λ _. Result (Message A) × Keyspace) [
                | err e ↦ (err e, u)
                | ok (id, body) ↦ (ok (record { id = id; body = body; raw = d }), u)
              ]).0
              (λ m. pure (message m))
              (elim loaded as (λ _. Result (Message A) × Keyspace) [
                | err e ↦ (err e, u)
                | ok (id, body) ↦ (ok (record { id = id; body = body; raw = d }), u)
              ]).1
            ≡ (
              elim loaded as (λ _. Result (Answer A)) [
                | err e ↦ err e
                | ok (id, body) ↦ ok (message (record { id = id; body = body; raw = d }))
              ],
              u,
            )) [ err e ↦ refl | ok (id, body) ↦ refl ]

    get_none-Meets :
        (desk : Desk) (s : Keyspace)
        → Kept desk s
        → split_last desk.waiting ≡ none
        → ((perform self getting s).0 ≡ err queue_empty) × Kept desk (perform self getting s).1
    unfolding perform
    get_none-Meets desk s at e =
        rw
          (get_empty self h desk.processing s (record {
            first = at.first ∙ ap ok (split_last-none desk.waiting e);
            second = at.second;
          }))
          (refl, at)

    get_some-Meets :
        (rest : List Datum) (d : Datum) (desk : Desk) (s : Keyspace)
        → Kept desk s
        → split_last desk.waiting ≡ some (rest, d)
        → ((perform self getting s).0 ≡ delivered self d)
          × Queued self rest (d ∷ desk.processing) (perform self getting s).1
    unfolding perform get
    get_some-Meets rest d desk s at e =
        let (moved, at1) =
          lmove-Lists h (keys_apart self) (keys_apart' self) d rest desk.waiting desk.processing s
            at e in
        rw moved (
          rw (received_as d (self.client.lmove (queue_key self) (processing_key self) s).1)
            (refl, at1))

    get-Meets : (desk : Desk) (s : Keyspace) → Kept desk s → Meets getting desk s
    unfolding promised
    get-Meets desk s at = handed (split_last desk.waiting) refl
      where
        handed :
            (last : Option (List Datum × Datum))
            → split_last desk.waiting ≡ last
            → ((perform self getting s).0 ≡ (hand_out self last desk).0)
              × Kept (hand_out self last desk).1 (perform self getting s).1
        handed none e = get_none-Meets desk s at e
        handed (some (rest, d)) e = get_some-Meets rest d desk s at e

    recover_loop-put_back :
        (n moved : ℕ) (desk : Desk) (s : Keyspace)
        → Kept desk s
        → ((recover_loop self n moved s).0 ≡ ok (put_back self n moved desk).0)
          × Kept (put_back self n moved desk).1 (recover_loop self n moved s).1
    unfolding recover_loop put_back
    recover_loop-put_back zero moved desk s at = (refl, at)
    recover_loop-put_back (suc n) moved desk s at =
        went_on (split_last desk.processing) refl (recover_loop-put_back n (suc moved))
      where
        stepped : Option (List Datum × Datum) → ℕ × Desk
        stepped none = (moved, desk)
        stepped (some (rest, d)) =
            put_back self n (suc moved) (record { waiting = d ∷ desk.waiting; processing = rest })

        went_on :
            (last : Option (List Datum × Datum))
            → split_last desk.processing ≡ last
            → ((desk : Desk) (s : Keyspace)
                → Kept desk s
                → ((recover_loop self n (suc moved) s).0 ≡ ok (put_back self n (suc moved) desk).0)
                  × Kept (put_back self n (suc moved) desk).1 (recover_loop self n (suc moved) s).1)
            → ((recover_loop self (suc n) moved s).0 ≡ ok (stepped last).0)
              × Kept (stepped last).1 (recover_loop self (suc n) moved s).1
        went_on none e more =
            let at' = turned at in
            rw
              (lmove_empty h (keys_apart' self) (keys_apart self) desk.waiting s (record {
                first = at'.first ∙ ap ok (split_last-none desk.processing e);
                second = at'.second;
              }))
              (refl, at)
        went_on (some (rest, d)) e more =
            let (went, at1) =
              lmove-Lists h (keys_apart' self) (keys_apart self) d rest desk.processing desk.waiting
                s (turned at) e in
            rw went (
              more (record { waiting = d ∷ desk.waiting; processing = rest })
                (self.client.lmove (processing_key self) (queue_key self) s).1
                (record { first = at1.second; second = at1.first }))

    recover-Meets : (n : ℕ) (desk : Desk) (s : Keyspace) → Kept desk s → Meets (recovering n) desk s
    unfolding perform promised recover_stale
    recover-Meets n desk s at =
        let (moved, at1) = recover_loop-put_back n 0 desk s at in rw moved (refl, at1)

    act-Meets : (a : Act A) (desk : Desk) (s : Keyspace) → Kept desk s → Meets a desk s
    act-Meets (putting id body) desk s at = put-Meets id body desk s at
    act-Meets getting desk s at = get-Meets desk s at
    act-Meets (acking m) desk s at = ack-Meets m desk s at
    act-Meets (nacking m) desk s at = nack-Meets m desk s at
    act-Meets counting desk s at = count-Meets desk s at
    act-Meets counting_processing desk s at = count_processing-Meets desk s at
    act-Meets (recovering n) desk s at = recover-Meets n desk s at

    -- A reliable queue on a server that follows its documentation answers any sequence of `put`,
    -- `get` without blocking, `ack`, `nack`, `size`, `processing_count` and `recover_stale` as the
    -- machine on two lists does, the exceptions included, and its keys hold the machine's lists
    -- afterwards, if they do at the start.
    pub refines :
        (acts : List (Act A)) (desk : Desk) (s : Keyspace)
        → Queued self desk.waiting desk.processing s
        → ((answers self (perform self) acts s).0 ≡ (answers self (promised self) acts desk).0)
          × Queued self
              (answers self (promised self) acts desk).1.waiting
              (answers self (promised self) acts desk).1.processing
              (answers self (perform self) acts s).1
    refines [] desk s at = (refl, at)
    refines (a ∷ acts) desk s at =
        let (answered, at1) = act-Meets a desk s at in
        let (others, at2) = refines acts (promised self a desk).1 (perform self a s).1 at1 in
        (λ i. answered i ∷ others i, at2)
