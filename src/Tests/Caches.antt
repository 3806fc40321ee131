-- ===== src/Tests/Caches.antt =====
-- The caches.
use redis_kit.Common.{
  leb, nat_eq, if◌then◌else◌, ◌-◌, ◌&&◌, ℕ, ◌/◌, ◌≡◌, ◌↔◌, refl, true, false, Option, none, some,
  List, [], ◌∷◌, arith, redis_connection, value, Result, ok, err,
}
use redis_kit.Common.Integers.{pos}
use redis_kit.Redis.Keyspace.{Datum, number}
use redis_kit.Redis.Documented.Strings
use redis_kit.Redis.Server.{Redis, documented, documented-Follows}
use redis_kit.Cache.Local
use redis_kit.Cache.Local.{LruCache, find, without}
use redis_kit.Cache.Local.Laws.{IsValid, get-set_local, set_keeps_newest}
use redis_kit.Cache.Pipeline.{
  DataPipeline, none_marker, IsLossless, miss, encode, decode, apply_jitter,
}
use redis_kit.Cache.Ttl.{
  Letters, seconds, words, parse_ttl, validate, validate_step, find_total, find_step, sort,
  multiplier,
}
use redis_kit.Cache.Durations.{IsDuration}
use redis_kit.Cache.Bulk
use redis_kit.Cache.Many.{set_each, set_many-set}
use redis_kit.Cache.Parsed.{parse_ttl-IsDuration}
use redis_kit.Cache.Policy.{notify, return_none, before, error, World}
use redis_kit.Cache.Client
use redis_kit.Cache.Client.{Cache, make_key, resolve_ttl, get_raw}
use redis_kit.Cache.Reads.{pass, get-set}
use redis_kit.Cache.Failures.{note, get_failed}
use redis_kit.Cache.Tiered
use redis_kit.Cache.Tiered.{Slot, negative, Tiers, TieredCache, Moment}
use redis_kit.Cache.Coherence.{backfill_lasts, read_your_write}
use redis_kit.Tests.Samples.{blank}

-- Room for two; "a" is older than "b".
abbrev two : LruCache ℕ
two = record { maxsize = 2; default_ttl = 1000; entries = ("a", 1, 500) ∷ ("b", 2, 900) ∷ [] }

two-IsValid : IsValid two
unfolding find
two-IsValid = record { distinct = (refl, (refl, tt)); bounded = ground arith }

get-set_local_example : (Local.get 1200 "c" (Local.set 100 100 true "c" 3 none two)).0 ≡ none
get-set_local_example =
    get-set_local 100 100 1200 true "c" 3 none two two-IsValid (ground arith) (ground arith)

set_keeps_newest_example :
    (Local.set 100 100 false "c" 3 none two).entries ≡ ("b", 2, 900) ∷ ("c", 3, 1100) ∷ []
unfolding without
set_keeps_newest_example = set_keeps_newest 100 100 "c" 3 none two

-- Numbers as their decimal texts.
abbrev pub load_number : Datum → Result (Option ℕ)
load_number (number (pos n)) = ok (some n)
load_number _ = err value

abbrev pipeline : DataPipeline ℕ
pipeline = record { dumps = λ v. ok (number (pos v)); loads = load_number; compressor = none }

pipeline-IsLossless : IsLossless pipeline
pipeline-IsLossless = record {
  load-dump = λ v d e. ground arith;
  decompress-compress = λ c d b p q. ground arith;
  no_marker = λ v d e m. ground arith;
}

-- ASCII, in small letters.
abbrev ascii : Letters
ascii = record {
  lower = λ t. t;
  is_space = λ c. nat_eq c b' ';
  digit = λ c. if leb b'0' c && leb c b'9' then some (c - b'0') else none;
}

abbrev pub cache : Redis → Cache ℕ
cache r = record {
  client = r;
  prefix = "app";
  pipeline = pipeline;
  fallback = record { on_connection_error = return_none; fallback = none };
  is_cluster = false;
  letters = ascii;
  share = λ t. t / 10;
  no_jitter = true;
  draw = λ _. 0;
}

abbrev pub world : World
world = record { store = blank; notes = [] }

get-set_example :
    (Client.get (cache documented) "k" (
      pass documented 3000
        (Client.set (cache documented) "k" (some 5) (some (seconds (pos 2))) world).1)).0
    ≡ ok none
unfolding encode resolve_ttl parse_ttl apply_jitter
get-set_example =
    get-set (cache documented) documented-Follows "k" (some 5) (some (seconds (pos 2)))
      (number (pos 5)) (some 2) 3000 world pipeline-IsLossless refl refl

abbrev broken : Redis
broken = record documented {
  get = λ k s. (err redis_connection, s);
  del = λ k s. (err redis_connection, s);
}

get_failed_example :
    ((Client.get (cache broken) "k" world).0 ≡ ok none)
    × ((Client.get (cache broken) "k" world).1
        ≡ record { store = blank; notes = note error "GET" "k" ∷ note before "GET" "k" ∷ [] })
    × ((Client.delete (cache broken) "k" world).0 ≡ ok tt)
    × ((Client.delete (cache broken) "k" world).1
        ≡ record { store = blank; notes = note error "DELETE" "k" ∷ note before "DELETE" "k" ∷ [] })
get_failed_example = get_failed (cache broken) "k" world redis_connection blank blank refl refl

abbrev pub tiers : TieredCache ℕ
tiers = record { l2 = cache documented; negative_ttl = 200 }

abbrev pub fresh : Tiers ℕ
fresh = record { l1 = record { maxsize = 2; default_ttl = 1000; entries = [] }; world = world }

pub fresh-IsValid : IsValid fresh.l1
fresh-IsValid = record { distinct = tt; bounded = ground arith }

abbrev pub at_100 : Moment
at_100 = record { read = 100; write = 100; again = 100; lucky = true }

abbrev pub at_250 : Moment
at_250 = record { read = 250; write = 250; again = 250; lucky = true }

no_entry : (Local.get 100 "k" fresh.l1).0 ≡ none
unfolding find Local.get
no_entry = refl

nothing_found : (get_raw (cache documented) "k" world).0 ≡ ok miss
unfolding get_raw decode notify documented Strings.get
nothing_found = refl

written : (Client.set (cache documented) "k" (some 5) none world).0 ≡ ok tt
unfolding Client.set encode resolve_ttl parse_ttl notify documented Strings.set
written = refl

backfill_lasts_example :
    ((Tiered.get tiers at_100 "k" fresh).0 ≡ ok none)
    × ((Tiered.get tiers at_250 "k" (Tiered.get tiers at_100 "k" fresh).1).0 ≡ ok none)
    × ((Tiered.get tiers at_250 "k" (Tiered.get tiers at_100 "k" fresh).1).1.world
        ≡ (Tiered.get tiers at_100 "k" fresh).1.world)
backfill_lasts_example =
    backfill_lasts tiers "k" fresh at_100 at_250 miss fresh-IsValid (ground arith) no_entry
      nothing_found (ground arith) (ground arith)

read_your_write_example :
    ((Tiered.get tiers at_250 "k" (Tiered.set tiers at_100 "k" (some 5) none fresh).1).0
      ≡ ok (some 5))
    × ((Tiered.get tiers at_250 "k" (Tiered.set tiers at_100 "k" (some 5) none fresh).1).1.world
        ≡ (Tiered.set tiers at_100 "k" (some 5) none fresh).1.world)
read_your_write_example =
    read_your_write tiers "k" fresh at_100 at_250 (some 5) none fresh-IsValid (ground arith) written
      (ground arith) (ground arith)

-- "2h 30m"
abbrev spoken : List ℕ
spoken = b'2' ∷ b'h' ∷ b' ' ∷ b'3' ∷ b'0' ∷ b'm' ∷ []

spoken_test : parse_ttl ascii (words spoken) ≡ ok 9000
unfolding parse_ttl validate validate_step find_total find_step sort multiplier
spoken_test = refl

parse_ttl-IsDuration_example :
    (parse_ttl ascii (words spoken) ≡ ok 9000) ↔ IsDuration ascii spoken 9000
parse_ttl-IsDuration_example = parse_ttl-IsDuration ascii spoken 9000

set_many-set_example :
    ((Bulk.set_many
        (cache documented)
        (("a", some 1) ∷ ("b", none) ∷ [])
        (some (seconds (pos 2)))
        world).0
      ≡ ok tt)
    × ((set_each
          (cache documented)
          (("a", some 1) ∷ ("b", none) ∷ [])
          (some (seconds (pos 2)))
          world).0
        ≡ ok tt)
    × ((Bulk.set_many
          (cache documented)
          (("a", some 1) ∷ ("b", none) ∷ [])
          (some (seconds (pos 2)))
          world).1.store
        ≡ (set_each
            (cache documented)
            (("a", some 1) ∷ ("b", none) ∷ [])
            (some (seconds (pos 2)))
            world).1.store)
unfolding encode parse_ttl
set_many-set_example =
    set_many-set (cache documented) documented-Follows refl (("a", some 1) ∷ ("b", none) ∷ [])
      (some (seconds (pos 2))) (some 2) world ((number (pos 1), refl), ((none_marker, refl), tt))
      refl
