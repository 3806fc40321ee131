-- ===== src/Async/StreamsRun.antt =====
-- A loop over `AsyncStreamConsumer.listen` that runs alone against the one of `StreamConsumer`.
use redis_kit.Common.{
  ℕ, Bool, true, false, List, [], ◌∷◌, String, ◌≡◌, refl, ◌∙◌, Result, ok, err, continue,
  if◌then◌else◌,
}
use redis_kit.Async.Task.{Task, pure, run, run-bind}
use redis_kit.Async.Streams.{
  Flow, emit, stop, waiting, for_each, listen, listen_reply, listen_streams, listen_entries,
  resumed, after_ack,
}
use redis_kit.Stream.Client.{Raw, Entry, StreamConsumer, StreamMessage, decoded}
use redis_kit.Stream.Consumer
use redis_kit.Stream.Consumer.{Turn, message_of, ack}

module _ {S B : Type 0} (self : StreamConsumer S B) (body : StreamMessage S B → Task S Bool) where
  -- The loop over both generators ends in the same way.
  abbrev Same : Flow S (StreamMessage S B) → (S → Turn S (StreamMessage S B)) → Type 0
  Same flow turn =
      (s : S) → run (for_each body flow) s ≡ Consumer.for_each (λ m. run (body m)) (turn s)

  stop-Same : (r : Result (Unit {0})) → Same (stop r) (Consumer.stop r)
  unfolding for_each Consumer.for_each run
  stop-Same r s = refl

  emit-Same :
      (m : StreamMessage S B) (flow : Flow S (StreamMessage S B))
      (turn : S → Turn S (StreamMessage S B))
      → Same flow turn
      → Same (emit m flow) (λ s. Consumer.emit m s turn)
  unfolding for_each Consumer.for_each run
  emit-Same m flow turn same s =
      run-bind (body m) (λ goes_on. if goes_on then for_each body flow else pure tt) s
      ∙ went (run (body m) s).0 (run (body m) s).1
    where
      went :
          (end : Result Bool) (u : S)
          → continue end (λ goes_on. run (if goes_on then for_each body flow else pure tt)) u
            ≡ (elim end as (λ _. Result (Unit {0}) × S) [
              | err e ↦ (err e, u)
              | ok false ↦ (ok tt, u)
              | ok true ↦ Consumer.for_each (λ m. run (body m)) (turn u)
            ])
      went (err e) u = refl
      went (ok false) u = refl
      went (ok true) u = same u

  after_ack-Same :
      (flow : Flow S (StreamMessage S B)) (turn : S → Turn S (StreamMessage S B))
      → Same flow turn
      → (reply : Result ℕ × S)
      → run (for_each body (after_ack self reply.0 flow)) reply.1
        ≡ Consumer.for_each
            (λ m. run (body m))
            (Consumer.after_ack self (continue reply.0 (λ n u. (ok tt, u)) reply.1) turn)
  unfolding after_ack Consumer.after_ack
  after_ack-Same flow turn same (err e, u) = stop-Same (err e) u
  after_ack-Same flow turn same (ok n, u) = same u

  resumed-Same :
      (m_id : String) (flow : Flow S (StreamMessage S B)) (turn : S → Turn S (StreamMessage S B))
      → Same flow turn
      → Same (resumed self m_id flow) (Consumer.resumed self m_id turn)
  unfolding resumed Consumer.resumed for_each run ack
  resumed-Same m_id flow turn same s = by_setting self.auto_ack
    where
      xack : S → Result ℕ × S
      xack = self.client.xack self.stream' self.group m_id

      by_setting :
          (auto_ack : Bool)
          → run
              (for_each body (
                if auto_ack
                then waiting (λ u. (xack u).1) (λ u. after_ack self (xack u).0 flow)
                else flow))
              s
            ≡ Consumer.for_each
                (λ m. run (body m))
                (if auto_ack then Consumer.after_ack self (ack self m_id s) turn else turn s)
      by_setting true = after_ack-Same flow turn same (xack s)
      by_setting false = same s

  listen_entries-Same :
      (s_name : String) (l : List (Entry B)) (after : Flow S (StreamMessage S B))
      (after' : S → Turn S (StreamMessage S B))
      → Same after after'
      → Same (listen_entries self s_name l after) (Consumer.listen_entries self s_name l after')
  unfolding listen_entries Consumer.listen_entries
  listen_entries-Same s_name [] after after' same = same
  listen_entries-Same s_name (entry ∷ l) after after' same =
      read (message_of self s_name entry) (listen_entries-Same s_name l after after' same)
    where
      rest : Flow S (StreamMessage S B)
      rest = listen_entries self s_name l after

      rest' : S → Turn S (StreamMessage S B)
      rest' = Consumer.listen_entries self s_name l after'

      read :
          (message : Result (StreamMessage S B))
          → Same rest rest'
          → Same
              (elim message as (λ _. Flow S (StreamMessage S B)) [
                | err e ↦ stop (err e)
                | ok m ↦ emit m (resumed self m.id rest)
              ])
              (λ s. elim message as (λ _. Turn S (StreamMessage S B)) [
                | err e ↦ Consumer.stop (err e) s
                | ok m ↦ Consumer.emit m s (Consumer.resumed self m.id rest')
              ])
      read (err e) again = stop-Same (err e)
      read (ok m) again = emit-Same m _ _ (resumed-Same m.id rest rest' again)

  listen_streams-Same :
      (results : List (Raw B × List (Entry B)))
      → Same (listen_streams self results) (Consumer.listen_streams self results)
  unfolding listen_streams Consumer.listen_streams
  listen_streams-Same [] = stop-Same (ok tt)
  listen_streams-Same ((stream_name, messages) ∷ results) =
      named (decoded self.client stream_name) (listen_streams-Same results)
    where
      rest : Flow S (StreamMessage S B)
      rest = listen_streams self results

      rest' : S → Turn S (StreamMessage S B)
      rest' = Consumer.listen_streams self results

      named :
          (name : Result String)
          → Same rest rest'
          → Same
              (elim name as (λ _. Flow S (StreamMessage S B)) [
                | err e ↦ stop (err e)
                | ok s_name ↦ listen_entries self s_name messages rest
              ])
              (λ s. elim name as (λ _. Turn S (StreamMessage S B)) [
                | err e ↦ Consumer.stop (err e) s
                | ok s_name ↦ Consumer.listen_entries self s_name messages rest' s
              ])
      named (err e) again = stop-Same (err e)
      named (ok s_name) again = listen_entries-Same s_name messages rest rest' again

  listen_reply-Same :
      (reply : Result (List (Raw B × List (Entry B))) × S)
      → run (for_each body (listen_reply self reply.0)) reply.1
        ≡ Consumer.for_each (λ m. run (body m)) (Consumer.listen_reply self reply)
  unfolding listen_reply Consumer.listen_reply
  listen_reply-Same (err e, u) = stop-Same (err e) u
  listen_reply-Same (ok results, u) = listen_streams-Same results u

  -- `async for` over `AsyncStreamConsumer.listen`, run alone, returns what the `for` loop over
  -- `StreamConsumer.listen` does with the body run alone, and leaves the same state, errors
  -- included.
  pub run-listen :
      (count block : ℕ) (s : S)
      → run (for_each body (listen self count block)) s
        ≡ Consumer.for_each (λ m. run (body m)) (Consumer.listen self count block s)
  unfolding listen Consumer.listen for_each run
  run-listen count block s =
      listen_reply-Same
        (self.client.xreadgroup self.group self.consumer_name self.stream' count block s)
