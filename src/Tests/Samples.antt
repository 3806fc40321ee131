-- ===== src/Tests/Samples.antt =====
-- The data of the tests.
use redis_kit.Common.{ℕ, ◌*◌, false, none, some, Exec, pure}
use redis_kit.Redis.Keyspace.{text, str, Keyspace}
use redis_kit.Lock.Methods.{LockBase, Caller, Waiting}

abbrev pub blank : Keyspace
blank = record { cell = λ _. none; clock = 0 }

abbrev pub locks : LockBase
locks = record { prefix = "lock"; is_cluster = false }

abbrev pub me : Caller
me = record { pid = "1"; ident = "2"; uuid = "a" }

-- A clock that ticks 60 ms between two readings; nobody else acts.
abbrev pub patient : Waiting
patient = record { monotonic = λ n. n * 60; sleep = λ _ s. s }

-- The key "lock:job" that "me" holds.
abbrev pub mine : Keyspace
mine = record { cell = λ _. some (record { value = str (text "me"); expires = none }); clock = 0 }

abbrev pub seven : Exec Keyspace ℕ
seven = pure 7
