-- ===== src/Tests/Coroutines.antt =====
-- The coroutines, the watchdog, and what came with them.
use redis_kit.Common.{
  ℕ, ◌+◌, ◌*◌, if◌then◌else◌, ◌≡◌, refl, true, false, none, some, [], ◌∷◌, arith, ok,
}
use redis_kit.Common.Integers.{pos}
use redis_kit.Redis.Keyspace.{text, number, str, Keyspace}
use redis_kit.Redis.Server.{documented, documented-Follows}
use redis_kit.Redis.Documented.Strings
use redis_kit.Async.Task.{Task, done, pure, run, interleave}
use redis_kit.Async.Caching.{AsyncCache}
use redis_kit.Async.Caching
use redis_kit.Async.CachingRuns.{run-cache}
use redis_kit.Async.Tiered.{AsyncTieredCache}
use redis_kit.Async.Tiered as AsyncTiered
use redis_kit.Async.TieredRuns.{run-tiered}
use redis_kit.Async.TieredValid.{getting, deleting_pattern, start, interleaved-Valid}
use redis_kit.Async.TieredRace.{overlap, stale_after_delete}
use redis_kit.Async.Locks.{AsyncCaller}
use redis_kit.Async.Locks
use redis_kit.Async.LocksRun.{run-call}
use redis_kit.Cache.Local
use redis_kit.Cache.Local.Laws.{IsValid}
use redis_kit.Cache.Local.{find}
use redis_kit.Cache.Pipeline.{hit, decode}
use redis_kit.Cache.Client.{make_key}
use redis_kit.Cache.Client
use redis_kit.Cache.Tiered.{Tiers}
use redis_kit.Cache.Tiered
use redis_kit.Cache.Bulk
use redis_kit.Cache.TieredBulk
use redis_kit.Cache.Patterns.{elem, delete_pattern_lem}
use redis_kit.Lock.Exclusion.{acquire, wait, play, IsHeld}
use redis_kit.Lock.Methods as Sync
use redis_kit.Lock.Watchdog.{watchdog, watchdog-IsHeld}
use redis_kit.Queue.Delivery.{Queued}
use redis_kit.Queue.Machine.{Desk, getting, recovering, counting, answers, perform, promised}
use redis_kit.Queue.Machine
use redis_kit.Queue.Refinement.{refines}
use redis_kit.Tests.Samples.{blank, locks, patient}
use redis_kit.Tests.Caches.{cache, tiers, fresh, fresh-IsValid, at_100, at_250, world}
use redis_kit.Tests.Services.{bare_jobs, busy, busy-Queued}

-- "me" holds "job" for 10 s and extends it every 3 s; "you" tries to get it.
abbrev held : Keyspace
held = record {
  cell = λ _. some (record { value = str (text "me"); expires = some 10000 });
  clock = 0;
}

watchdog-IsHeld_example :
    let end =
      watchdog documented false "job" "me" 10
        (λ _ _. play documented (wait 3000 ∷ acquire "job" "you" 5 ∷ []))
        5
        0
        held in
    (end.0 ≡ ok true) × IsHeld "job" "me" (end.1.clock + 10 * 1000) end.1
watchdog-IsHeld_example =
    watchdog-IsHeld documented-Follows "job" "me" 9 (λ _. wait 3000 ∷ acquire "job" "you" 5 ∷ []) 4
      0 10000 held (λ _. (tt, (tt, tt))) (λ _. ground arith)
      (record { entry = refl; running = ground arith }) (ground arith)

refines_example :
    let acts = Machine.getting ∷ Machine.recovering 5 ∷ Machine.counting ∷ [] in
    let desk : Desk = record {
      waiting = number (pos 4) ∷ number (pos 3) ∷ [];
      processing = number (pos 2) ∷ number (pos 1) ∷ [];
    } in
    ((answers bare_jobs (perform bare_jobs) acts busy).0
      ≡ (answers bare_jobs (promised bare_jobs) acts desk).0)
    × Queued bare_jobs
        (answers bare_jobs (promised bare_jobs) acts desk).1.waiting
        (answers bare_jobs (promised bare_jobs) acts desk).1.processing
        (answers bare_jobs (perform bare_jobs) acts busy).1
refines_example =
    refines bare_jobs documented-Follows
      (Machine.getting ∷ Machine.recovering 5 ∷ Machine.counting ∷ [])
      (record {
        waiting = number (pos 4) ∷ number (pos 3) ∷ [];
        processing = number (pos 2) ∷ number (pos 1) ∷ [];
      })
      busy busy-Queued

abbrev async_cache : AsyncCache ℕ
async_cache = record { base = cache documented; is_awaitable = λ _ _ _. false }

abbrev async_tiers : AsyncTieredCache ℕ
async_tiers = record { l2 = async_cache; negative_ttl = 200 }

interleaved-Valid_example :
    IsValid
      (interleave overlap
        (start async_tiers (getting at_100 "k"))
        (start async_tiers (deleting_pattern ("app:k" ∷ []) none "*" 1))
        fresh).2.l1
interleaved-Valid_example =
    interleaved-Valid async_tiers overlap (getting at_100 "k")
      (deleting_pattern ("app:k" ∷ []) none "*" 1) fresh fresh-IsValid

-- Every key holds 5.
abbrev full : Tiers ℕ
full = record fresh {
  world = record world {
    store = record {
      cell = λ _. some (record { value = str (number (pos 5)); expires = none });
      clock = 0;
    };
  };
}

missed : (Local.get 100 "k" full.l1).0 ≡ none
unfolding find Local.get
missed = refl

five_there :
    documented.get (make_key (cache documented) "k") full.world.store
    ≡ (ok (some (number (pos 5))), full.world.store)
unfolding documented Strings.get
five_there = refl

five_read : decode (cache documented).pipeline (some (number (pos 5))) ≡ ok (hit (some 5))
unfolding decode
five_read = refl

stale_after_delete_example :
    let end =
      interleave overlap
        (AsyncTiered.get async_tiers at_100 "k")
        (AsyncTiered.delete async_tiers "k")
        full in
    (end.0 ≡ done (ok (some 5)))
    × (end.1 ≡ done (ok tt))
    × (end.2.world.store.cell (make_key (cache documented) "k") ≡ none)
    × ((run (AsyncTiered.get async_tiers at_250 "k") end.2).0 ≡ ok (some 5))
stale_after_delete_example =
    stale_after_delete async_tiers "k" full at_100 at_250 (some (number (pos 5))) (some 5)
      documented-Follows fresh-IsValid (ground arith) missed five_there five_read (ground arith)
      (ground arith)

delete_pattern_lem_example :
    ((Bulk.delete_pattern
        (cache documented)
        ("app:a" ∷ "app:b" ∷ "app:c" ∷ [])
        none
        "*"
        2
        full.world).0
      ≡ ok 3)
    × ((j : _)
        → (Bulk.delete_pattern
              (cache documented)
              ("app:a" ∷ "app:b" ∷ "app:c" ∷ [])
              none
              "*"
              2
              full.world).1.store.cell
            j
          ≡ (if elem j ("app:a" ∷ "app:b" ∷ "app:c" ∷ []) then none else full.world.store.cell j))
delete_pattern_lem_example =
    delete_pattern_lem (cache documented) documented-Follows ("app:a" ∷ "app:b" ∷ "app:c" ∷ []) "*"
      2 full.world

run-cache_example :
    (run (Caching.get async_cache "k") full.world ≡ Client.get (cache documented) "k" full.world)
    × (run (Caching.set async_cache "k" (some 5) none) full.world
        ≡ Client.set (cache documented) "k" (some 5) none full.world)
    × (run (Caching.delete async_cache "k") full.world
        ≡ Client.delete (cache documented) "k" full.world)
    × (run (Caching.remember async_cache "k" (pure (some 8)) none) full.world
        ≡ Client.remember (cache documented) "k" (run (pure (some 8))) none full.world)
    × (run (Caching.get_many async_cache (λ l _. l) ("k" ∷ [])) full.world
        ≡ Bulk.get_many (cache documented) (λ l _. l) ("k" ∷ []) full.world)
    × (run (Caching.set_many async_cache (("k", some 5) ∷ []) none) full.world
        ≡ Bulk.set_many (cache documented) (("k", some 5) ∷ []) none full.world)
    × (run (Caching.delete_pattern async_cache ("k" ∷ []) none "k" 2) full.world
        ≡ Bulk.delete_pattern (cache documented) ("k" ∷ []) none "k" 2 full.world)
    × (run (Caching.ttl async_cache "k") full.world ≡ Client.ttl (cache documented) "k" full.world)
    × (run (Caching.pttl async_cache "k") full.world
        ≡ Client.pttl (cache documented) "k" full.world)
    × (run (Caching.persist async_cache "k") full.world
        ≡ Client.persist (cache documented) "k" full.world)
    × (run (Caching.expire async_cache "k" 7) full.world
        ≡ Client.expire (cache documented) "k" 7 full.world)
    × (run (Caching.expire_at async_cache "k" 9000) full.world
        ≡ Client.expire_at (cache documented) "k" 9000 full.world)
    × (run (Caching.iter_keys async_cache ("k" ∷ [])) full.world
        ≡ (ok (Client.iter_keys (cache documented) ("k" ∷ [])), full.world))
run-cache_example =
    run-cache async_cache "k" (some 5) none (pure (some 8)) (λ l _. l) ("k" ∷ [])
      (("k", some 5) ∷ []) none 2 7 9000 full.world

run-tiered_example :
    (run (AsyncTiered.get async_tiers at_100 "k") full ≡ Tiered.get tiers at_100 "k" full)
    × (run (AsyncTiered.set async_tiers at_100 "k" (some 5) none) full
        ≡ Tiered.set tiers at_100 "k" (some 5) none full)
    × (run (AsyncTiered.delete async_tiers "k") full ≡ Tiered.delete tiers "k" full)
    × (run (AsyncTiered.remember async_tiers at_100 "k" (pure (some 8)) none) full
        ≡ Tiered.remember tiers at_100 "k" (run (pure (some 8))) none full)
    × (run (AsyncTiered.get_many async_tiers (λ _. at_100) ("k" ∷ [])) full
        ≡ TieredBulk.get_many tiers (λ _. at_100) ("k" ∷ []) full)
    × (run (AsyncTiered.set_many async_tiers (λ _. at_100) (("k", some 5) ∷ []) none) full
        ≡ TieredBulk.set_many tiers (λ _. at_100) (("k", some 5) ∷ []) none full)
    × (run (AsyncTiered.delete_pattern async_tiers ("k" ∷ []) none "k" 2) full
        ≡ TieredBulk.delete_pattern tiers ("k" ∷ []) none "k" 2 full)
    × (run (AsyncTiered.ttl async_tiers "k") full ≡ TieredBulk.ttl tiers "k" full)
    × (run (AsyncTiered.pttl async_tiers "k") full ≡ TieredBulk.pttl tiers "k" full)
    × (run (AsyncTiered.persist async_tiers "k") full ≡ TieredBulk.persist tiers "k" full)
    × (run (AsyncTiered.expire async_tiers "k" 7) full ≡ TieredBulk.expire tiers "k" 7 full)
    × (run (AsyncTiered.expire_at async_tiers "k" 9000) full
        ≡ TieredBulk.expire_at tiers "k" 9000 full)
    × (run (AsyncTiered.iter_keys async_tiers ("k" ∷ [])) full
        ≡ (ok (TieredBulk.iter_keys tiers ("k" ∷ [])), full))
run-tiered_example =
    run-tiered async_tiers at_100 (λ _. at_100) "k" (some 5) none (pure (some 8)) ("k" ∷ [])
      (("k", some 5) ∷ []) none 2 7 9000 full

-- A caller outside of a task, with a name from `uuid4().hex`.
abbrev coroutine : AsyncCaller
coroutine = record { pid = "1"; task = none; uuid = "9f1c3b5a7d2e4f60817263544a5b6c7d" }

abbrev async_seven : Task Keyspace ℕ
async_seven = pure 7

run-call_example :
    run (Locks.call documented locks patient coroutine "job" 10 none true none async_seven) blank
    ≡ Sync.block documented patient
        (Sync.make_key locks "job")
        (Locks.owner_of coroutine true)
        10
        none
        true
        none
        (run async_seven)
        blank
unfolding Locks.start_watchdog Sync.start_watchdog
run-call_example =
    run-call documented locks patient coroutine "job" 10 none true none none async_seven blank
      (λ u. refl)
