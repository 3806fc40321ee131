-- ===== src/Tests/Services.antt =====
-- The queues and the sessions.
use redis_kit.Common.{
  ℕ, String, ◌==◌, if◌then◌else◌, ◌≡◌, ◌≤◌, refl, true, false, none, some, [], ◌∷◌, value,
  session_not_found, Result, ok, err,
}
use redis_kit.Common.Integers.{pos}
use redis_kit.Redis.Keyspace.{text, Datum, number, hash, zset, list, Keyspace}
use redis_kit.Redis.Fields.{with_fields, with_field}
use redis_kit.Redis.Documented.Hashes.{fields_at}
use redis_kit.Redis.Server.{documented, documented-Follows}
use redis_kit.Queue.Methods.{
  ReliableQueue, DelayQueue, queue_key, processing_key, put_delayed, poll,
}
use redis_kit.Queue.Delivery.{Queued, put_all, get_all, message, fifo}
use redis_kit.Queue.Delay.{delay_exact}
use redis_kit.Session.Methods.{SessionManager}
use redis_kit.Session.Methods as Sessions
use redis_kit.Session.Lifetime.{sliding, missing}
use redis_kit.RateLimit.SlidingWindow.{SlidingWindow, granted, acquire, make_key}
use redis_kit.RateLimit.Window.{window_exact}
use redis_kit.Redis.Documented.SortedSets.{members_at, above, insert_member, without_member}
use redis_kit.Bloom.Methods as Bloom
use redis_kit.Bloom.Methods.{BloomFilter}
use redis_kit.Bloom.Membership.{no_false_negatives}
use redis_kit.Counter.Ids.{init, format_id}
use redis_kit.Tests.Samples.{blank}

-- The text of a message is its number, and every id is "m".
abbrev read_job : Datum → Result (String × ℕ)
read_job (number (pos n)) = ok ("m", n)
read_job _ = err value

abbrev jobs : ReliableQueue ℕ
jobs = record {
  client = documented;
  blmove = λ source target timeout s. (ok none, s);
  name = "jobs";
  prefix = "";
  dumps = λ id n. number (pos n);
  loads = read_job;
}

blank-Queued : Queued jobs [] [] blank
blank-Queued = record { first = refl; second = refl }

fifo_example :
    ((get_all jobs 2 (put_all jobs (("m", 1) ∷ ("m", 2) ∷ []) blank).1).0
      ≡ ok (message jobs ("m", 1) ∷ message jobs ("m", 2) ∷ []))
    × Queued jobs []
        (number (pos 2) ∷ number (pos 1) ∷ [])
        (get_all jobs 2 (put_all jobs (("m", 1) ∷ ("m", 2) ∷ []) blank).1).1
fifo_example =
    fifo jobs documented-Follows (("m", 1) ∷ ("m", 2) ∷ []) [] blank (refl, (refl, tt)) blank-Queued

-- Two messages in processing, and two that wait.
abbrev pub busy : Keyspace
busy = record {
  cell = λ k.
      if k == ":processing"
      then some (record { value = list (number (pos 2) ∷ number (pos 1) ∷ []); expires = none })
      else some (record { value = list (number (pos 4) ∷ number (pos 3) ∷ []); expires = none });
  clock = 0;
}

abbrev pub bare_jobs : ReliableQueue ℕ
bare_jobs = record jobs { name = "" }

pub busy-Queued :
    Queued bare_jobs
      (number (pos 4) ∷ number (pos 3) ∷ [])
      (number (pos 2) ∷ number (pos 1) ∷ [])
      busy
unfolding queue_key processing_key
busy-Queued = record { first = refl; second = refl }

abbrev read_number : Datum → Result ℕ
read_number (number (pos n)) = ok n
read_number _ = err value

abbrev later_jobs : DelayQueue ℕ
later_jobs = record {
  client = documented;
  name = "later";
  prefix = "";
  dumps = λ id n. number (pos n);
  loads = read_number;
}

delay_exact_example :
    let later = documented.elapse 5000 (put_delayed later_jobs "m" 7 5 blank).1 in
    ((poll later_jobs 10 later).0 ≡ ok (7 ∷ []))
    × ((poll later_jobs 10 (poll later_jobs 10 later).1).0 ≡ ok [])
delay_exact_example = delay_exact later_jobs documented-Follows "m" 7 5 5000 9 9 blank refl refl

abbrev visits : SessionManager ℕ
visits = record {
  client = documented;
  prefix = "session";
  ttl = 60;
  dumps = λ n. number (pos n);
  loads = read_number;
}

abbrev visited : Keyspace
visited = record {
  cell = λ _. some (record { value = hash (("n", number (pos 1)) ∷ []); expires = some 10 });
  clock = 0;
}

sliding_example :
    let updated = (Sessions.update visits "x" (("n", 2) ∷ []) visited).1 in
    let refreshed = (Sessions.refresh visits "x" visited).1 in
    ((Sessions.update visits "x" (("n", 2) ∷ []) visited).0 ≡ ok tt)
    × (fields_at (updated.cell (Sessions.make_key visits "x")) ≡ ok (("n", number (pos 2)) ∷ []))
    × ((Sessions.exists visits "x" (documented.elapse 59999 updated)).0 ≡ ok true)
    × ((Sessions.refresh visits "x" visited).0 ≡ ok tt)
    × ((Sessions.exists visits "x" (documented.elapse 59999 refreshed)).0 ≡ ok true)
unfolding with_fields with_field Sessions.dumped
sliding_example =
    sliding visits documented-Follows "x" (("n", 2) ∷ []) 59 59999 (("n", number (pos 1)) ∷ [])
      (some 10) visited refl refl

missing_example :
    (Sessions.update visits "x" (("n", 2) ∷ []) blank ≡ (err session_not_found, blank))
    × (Sessions.refresh visits "x" blank ≡ (err session_not_found, blank))
    × (Sessions.get visits "x" blank ≡ (ok none, blank))
    × (Sessions.exists visits "x" blank ≡ (ok false, blank))
missing_example = missing visits documented-Follows "x" (("n", 2) ∷ []) blank refl

-- Two grants in ten seconds.
abbrev limiter : SlidingWindow
limiter = record { client = documented; prefix = "rl"; limit = 2; window = 10 }

-- One grant has left the window, another is in it.
abbrev seen : Keyspace
seen = record {
  cell = λ _.
      some (record { value = zset ((1000, text "a") ∷ (9000, text "b") ∷ []); expires = none });
  clock = 12000;
}

window_exact_example :
    ((acquire limiter (text "c") "x" seen).0 ≡ ok (granted documented "rl:x" 2 10000 12000 1))
    × (members_at ((acquire limiter (text "c") "x" seen).1.cell (make_key limiter "x"))
        ≡ ok ((9000, text "b") ∷ (12000, text "c") ∷ []))
    × (2 ≤ 2)
unfolding above insert_member without_member
window_exact_example =
    window_exact limiter documented-Follows (text "c") "x"
      ((1000, text "a") ∷ (9000, text "b") ∷ []) seen refl

abbrev filter : BloomFilter
filter = record {
  client = documented;
  key = "bloom";
  size = 8;
  hash_count = 3;
  digest = λ item. if item == "a" then (1, 3) else (2, 5);
}

no_false_negatives_example :
    let after = (Bloom.add_many filter ("b" ∷ "c" ∷ []) (Bloom.add filter "a" blank).1).1 in
    ((Bloom.add filter "a" blank).0 ≡ ok tt) × (Bloom.exists filter "a" after ≡ (ok true, after))
no_false_negatives_example =
    no_false_negatives filter documented-Follows "a" ("b" ∷ "c" ∷ []) (λ _. false) blank refl

format_id_padded : format_id (init documented "order" "ORD" 6 "redis_kit:id") (pos 42) ≡ "ORD000042"
unfolding format_id init
format_id_padded = refl

format_id_plain : format_id (init documented "order" "" 0 "redis_kit:id") (pos 1234) ≡ "1234"
unfolding format_id init
format_id_plain = refl
