-- ===== src/Tests/Locks.antt =====
-- The locks.
use redis_kit.Common.{
  eq_iff, ◌≡◌, refl, inr, true, false, none, some, List, [], ◌∷◌, arith, lock_acquire, lock_release,
  redis_connection, user, ok, err, ◌≢◌, ℕ, Exec, raise,
}
use redis_kit.Redis.Keyspace.{text, Keyspace}
use redis_kit.Redis.Server.{Redis, documented, documented-Follows}
use redis_kit.Lock.Scripts.{release_lock, write_acquire}
use redis_kit.Lock.Methods.{
  make_key, basic_owner, reentrant_owner, call, guarded, release_basic, spin_acquire, writer_key_of,
}
use redis_kit.Lock.Exclusion.{Event, acquire, release, wait, step, play, exclusion}
use redis_kit.Lock.Reentrant.{held, Holds}
use redis_kit.Lock.Nested.{nest, nested_blocks}
use redis_kit.Lock.Blocks.{
  Spins, spin_ends, zero_timeout_never_tries, block_outcome, release_error_masks,
}
use redis_kit.Lock.ReadWrite
use redis_kit.Lock.ReadWrite.{IsExclusive, has_readers, never_both, write_acquire_exact}
use redis_kit.Lock.Overlap.{short_reader_admits_writer, stale_reader_admits_writer}
use redis_kit.Tests.Samples.{blank, locks, me, patient, mine, seven}

abbrev others : List Event
others = acquire "job" "you" 5 ∷ release "job" "you" ∷ wait 9000 ∷ acquire "other" "me" 7 ∷ []

abbrev after_others : Keyspace
after_others = play documented others (step documented (acquire "job" "me" 10) blank)

exclusion_example :
    (documented.set_nx_ex "job" (text "you") 5 after_others ≡ (ok false, after_others))
    × ((release_lock documented "job" "me" after_others).0 ≡ ok true)
    × ((release_lock documented "job" "me" after_others).1.cell "job" ≡ none)
exclusion_example =
    exclusion documented-Follows "job" "me" 9 blank others refl
      (tt, (inr (λ e. ground (arith, eq_iff "you" "me")), (tt, (tt, tt)))) (ground arith) "you" 4

never_both_example : IsExclusive "job" (
    ReadWrite.play documented "job"
      (ReadWrite.read_enter 5
        ∷ ReadWrite.write_enter "me" 5
        ∷ ReadWrite.wait 9000
        ∷ ReadWrite.write_enter "me" 5
        ∷ ReadWrite.read_enter 5
        ∷ [])
      blank)
never_both_example = never_both documented-Follows "job" _ blank (inr refl)

-- A body that reads what the lock is worth to it.
abbrev look : Exec Keyspace ℕ
look s = (ok (elim (s.cell "lock:job") [ none ↦ 0 | some _ ↦ 1 ]), s)

nested_blocks_example :
    ((u : Keyspace) × Holds (make_key locks "job") (reentrant_owner me) 3 u
      × ((nest documented locks patient me "job" 9 3 look blank).0 ≡ (look u).0))
    × ((nest documented locks patient me "job" 9 3 look blank).1.cell (make_key locks "job") ≡ none)
nested_blocks_example =
    nested_blocks documented-Follows locks patient me "job" look 9 3 blank (λ u. refl) refl

spin_ends_example :
    Spins patient
      (documented.set_nx_ex "job" (text "you") 5)
      200
      1
      mine
      (spin_acquire patient (documented.set_nx_ex "job" (text "you") 5) (some 200) mine)
spin_ends_example =
    spin_ends patient (documented.set_nx_ex "job" (text "you") 5) 200 mine (λ n. ground arith)
      (ground arith)

zero_timeout_never_tries_example :
    call documented locks patient me "job" 5 (some 0) false none seven blank
    ≡ (err lock_acquire, blank)
zero_timeout_never_tries_example =
    zero_timeout_never_tries documented locks patient me "job" 5 false none seven blank
      (ground arith)

block_outcome_example :
    ((guarded seven (release_basic documented "job" "me") mine).0 ≡ ok 7)
    × ((guarded seven (release_basic documented "job" "me") mine).1.cell "job" ≡ none)
block_outcome_example =
    block_outcome documented-Follows "job" "me" seven (some (text "me")) mine refl

-- The connection breaks when the lock is released.
abbrev broken_release : Redis
broken_release = record documented {
  set_nx_ex = λ _ _ _ s. (ok true, s);
  get = λ _ s. (err redis_connection, s);
}

release_error_masks_example :
    call broken_release locks patient me "job" 5 none false none (raise {A = ℕ} user) blank
    ≡ (err redis_connection, blank)
unfolding release_lock
release_error_masks_example =
    release_error_masks broken_release locks patient me "job" 5 (raise user) blank blank blank blank
      user redis_connection refl refl released other
  where
    released :
        release_lock broken_release (make_key locks "job") (basic_owner me) blank
        ≡ (err redis_connection, blank)
    released = refl

    other : redis_connection ≢ lock_release
    other e = ground (arith, e)

-- "me" holds the reentrant lock twice.
abbrev twice : Keyspace
twice = record { cell = λ _. held "me" 2 none; clock = 0 }

short_reader_admits_writer_example :
    (write_acquire documented "job" (writer_key_of "job") "me" 5 (
      documented.elapse 2000 (
        ReadWrite.play documented "job"
          (ReadWrite.read_enter 10 ∷ ReadWrite.read_enter 2 ∷ [])
          blank))).0
    ≡ ok true
short_reader_admits_writer_example =
    short_reader_admits_writer documented-Follows "job" "me" 9 1 4 blank refl refl (ground arith)

stale_reader_admits_writer_example :
    (write_acquire documented "job" (writer_key_of "job") "me" 5 (
      ReadWrite.play documented "job"
        (ReadWrite.read_enter 2
          ∷ ReadWrite.wait 3000
          ∷ ReadWrite.read_enter 9
          ∷ ReadWrite.read_leave
          ∷ [])
        blank)).0
    ≡ ok true
stale_reader_admits_writer_example =
    stale_reader_admits_writer documented-Follows "job" "me" 1 8 3000 4 blank refl refl
      (ground arith)
