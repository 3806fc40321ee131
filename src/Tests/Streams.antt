-- ===== src/Tests/Streams.antt =====
-- The streams, against a server that holds the pending ids of one group and one reply.
use redis_kit.Common.{
  String, ◌==◌, eq_refl, not, Bool, true, some, List, [], ◌∷◌, ◌≡◌, refl, ok, response, Exec, pure,
  raise, if◌then◌else◌,
}
use redis_kit.Stream.Client.{
  bytes, str, created, StreamClient, StreamConsumer, StreamMessage, decoded, decode_stream_data,
  decode_fields, put_in,
}
use redis_kit.Stream.Consumer.{for_each, listen, message_of, is_within, busy_group}
use redis_kit.Async.Task as Tasks
use redis_kit.Async.Task.{Task, run}
use redis_kit.Async.Streams as AsyncStreams
use redis_kit.Async.StreamsRun.{run-listen}
use redis_kit.Stream.Pending.{Acknowledges, Reads, Served, listen-Served}

abbrev take_off : String → List String → List String
take_off id [] = []
take_off id (j ∷ l) = if j == id then l else j ∷ take_off id l

abbrev server : StreamClient (List String) String
server = record {
  decode = λ b. ok b;
  xadd = λ _ _ _ _ _. pure (str "1-0");
  xlen = λ _. pure 0;
  xtrim = λ _ _ _. pure 0;
  xgroup_create = λ _ _ _ s. (created, s);
  xgroup_destroy = λ _ _. pure 1;
  xreadgroup = λ _ _ _ _ _ s. (
    ok (
        (
          bytes "jobs",
          (bytes "1-0", (bytes "a", str "x") ∷ []) ∷ (str "2-0", (str "a", str "y") ∷ []) ∷ [],
        )
        ∷ []),
    "1-0" ∷ "2-0" ∷ s,
  );
  xack = λ _ _ id s. (ok 1, take_off id s);
  xpending_range = λ _ _ _ _. pure [];
  xautoclaim = λ _ _ _ _ _. raise response;
}

abbrev worker : StreamConsumer (List String) String
worker = record {
  client = server;
  stream' = "jobs";
  group = "g";
  consumer_name = "c";
  auto_ack = true;
}

server-Acknowledges : Acknowledges worker (λ s. s)
server-Acknowledges = record {
  acked = λ id p s at. refl;
  taken = λ id p s at. rw (at, eq_refl id) refl;
}

abbrev first_job : StreamMessage (List String) String
first_job = record { id = "1-0"; data' = ("a", "x") ∷ []; stream' = "jobs"; consumer = some worker }

abbrev second_job : StreamMessage (List String) String
second_job = record {
  id = "2-0";
  data' = ("a", "y") ∷ [];
  stream' = "jobs";
  consumer = some worker;
}

jobs-Reads :
    Reads worker
      ((bytes "1-0", (bytes "a", str "x") ∷ []) ∷ (str "2-0", (str "a", str "y") ∷ []) ∷ [])
      (first_job ∷ second_job ∷ [])
unfolding Reads message_of decoded decode_stream_data decode_fields put_in
jobs-Reads = (refl, (refl, tt))

worker_named : decoded server (bytes "jobs") ≡ ok "jobs"
unfolding decoded
worker_named = refl

-- The body leaves the loop at the second message.
abbrev until_second : StreamMessage (List String) String → Exec (List String) Bool
until_second m = pure (not (m.id == "2-0"))

listen-Served_example :
    Served
      (λ s. s)
      ("0-9" ∷ [])
      until_second
      (first_job ∷ second_job ∷ [])
      (for_each until_second (listen worker 10 5000 ("0-9" ∷ [])))
listen-Served_example =
    listen-Served worker (λ s. s) server-Acknowledges refl until_second (λ m s. refl) ("0-9" ∷ [])
      10 5000 ("0-9" ∷ []) ("1-0" ∷ "2-0" ∷ "0-9" ∷ []) (bytes "jobs")
      ((bytes "1-0", (bytes "a", str "x") ∷ []) ∷ (str "2-0", (str "a", str "y") ∷ []) ∷ [])
      (first_job ∷ second_job ∷ []) refl worker_named jobs-Reads refl

listen_leaves_second :
    (for_each until_second (listen worker 10 5000 ("0-9" ∷ []))) ≡ (ok tt, "2-0" ∷ "0-9" ∷ [])
unfolding for_each listen
listen_leaves_second = refl

busy_found : is_within busy_group (b'-' ∷ busy_group) ≡ true
unfolding is_within
busy_found = refl

-- The same body as a coroutine.
abbrev async_until_second : StreamMessage (List String) String → Task (List String) Bool
async_until_second m = Tasks.pure (not (m.id == "2-0"))

run-listen_example :
    run (AsyncStreams.for_each async_until_second (AsyncStreams.listen worker 10 5000)) ("0-9" ∷ [])
    ≡ for_each (λ m. run (async_until_second m)) (listen worker 10 5000 ("0-9" ∷ []))
run-listen_example = run-listen worker async_until_second 10 5000 ("0-9" ∷ [])
