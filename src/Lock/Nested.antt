-- ===== src/Lock/Nested.antt =====
-- `with lock(name, reentrant=True):`, nested to any depth, and the exceptions of the body.
use redis_kit.Common.{
  ℕ, zero, suc, ◌+◌, arith, ◌≡◌, refl, ◌∙◌, true, none, Result, ok, err, Exec, String,
}
use redis_kit.Redis.Keyspace.{Keyspace}
use redis_kit.Redis.Server.{Redis, Follows}
use redis_kit.Lock.Scripts.{reentrant_acquire}
use redis_kit.Lock.Methods.{
  LockBase, make_key, Caller, reentrant_owner, Waiting, spin_acquire, guarded, acquired_then,
  start_watchdog, block, call, release_reentrant, after_body,
}
use redis_kit.Lock.Reentrant.{Holds, acquire-Holds, release-Holds}

module _ {ℓ} {A : Type ℓ} (r : Redis) (self : LockBase) (w : Waiting) (c : Caller) (name : String)
    (t : ℕ) where
  -- `n` nested `with lock(name, timeout=t + 1, reentrant=True):` round a body.
  abbrev pub nest : ℕ → Exec Keyspace A → Exec Keyspace A
  nest zero body = body
  nest (suc n) body = call r self w c name (suc t) none true none (nest n body)

module _ {ℓ} {A : Type ℓ} {r : Redis} (h : Follows r) (key owner : String) where
  -- A body whose outcome meets `P` and that keeps the number of holds.
  abbrev Neutral {κ} : (Result A → Type κ) → Exec Keyspace A → ℕ → Type κ
  Neutral P body n =
      (s : Keyspace) → Holds key owner n s → P (body s).0 × Holds key owner n (body s).1

  release-Neutral :
      (n : ℕ) (s : Keyspace) (answer : Result A)
      → Holds key owner (suc n) s
      → ((after_body (release_reentrant r key owner) answer s).0 ≡ answer)
        × Holds key owner n (after_body (release_reentrant r key owner) answer s).1
  unfolding release_reentrant
  release-Neutral n s (ok a) holds =
      let (yes_reply, rest) = release-Holds h key owner n s holds in
      (rw yes_reply refl, rw yes_reply rest)
  release-Neutral n s (err e) holds =
      let (yes_reply, rest) = release-Holds h key owner n s holds in
      (rw yes_reply refl, rw yes_reply rest)

  block-Neutral {κ} :
      (P : Result A → Type κ) (body : Exec Keyspace A) (t n : ℕ)
      → Neutral P body (suc n)
      → Neutral P
          (acquired_then
            (reentrant_acquire r key owner (suc t))
            (guarded body (release_reentrant r key owner)))
          n
  unfolding acquired_then guarded
  block-Neutral P body t n keeps s holds =
      let (got, inside) = acquire-Holds h key owner n t s holds in
      let s1 = (reentrant_acquire r key owner (suc t) s).1 in
      let (reply, still) = keeps s1 inside in
      let (left, rest) = release-Neutral n (body s1).1 (body s1).0 still in
      rw got (rw left reply, rest)

module _ {ℓ} {A : Type ℓ} {r : Redis} (h : Follows r) (self : LockBase) (w : Waiting) (c : Caller)
    (name : String) where
  nest-Neutral {κ} :
      (P : Result A → Type κ) (body : Exec Keyspace A) (t n m k : ℕ)
      → n + m ≡ k
      → Neutral h (make_key self name) (reentrant_owner c) P body k
      → Neutral h (make_key self name) (reentrant_owner c) P (nest r self w c name t n body) m
  unfolding call block spin_acquire start_watchdog
  nest-Neutral P body t zero m k depth keeps =
      let same_depth : k ≡ m = omega arith in rw (← same_depth) keeps
  nest-Neutral P body t (suc n) m k depth keeps =
      block-Neutral h (make_key self name) (reentrant_owner c) P (nest r self w c name t n body) t m
        (nest-Neutral P body t n (suc m) k (omega arith) keeps)

  -- Nested reentrant blocks on one name by one thread, to any depth, started on a free key: none of
  -- them blocks, the body runs in a state in which the thread holds the lock once for each block,
  -- its result or exception there comes out as it is, and the key is free at the end. The body may
  -- do anything that leaves the entry of this lock as it is. (The server follows its documentation,
  -- the timeout is 1 s or more, and there is neither a limit on the waiting nor `auto_renew`.)
  pub nested_blocks :
      (body : Exec Keyspace A) (t n : ℕ) (s : Keyspace)
      → ((u : Keyspace) → (body u).1.cell (make_key self name) ≡ u.cell (make_key self name))
      → s.cell (make_key self name) ≡ none
      → ((u : Keyspace) × Holds (make_key self name) (reentrant_owner c) n u
          × ((nest r self w c name t n body s).0 ≡ (body u).0))
        × ((nest r self w c name t n body s).1.cell (make_key self name) ≡ none)
  nested_blocks body t n s quiet free =
      nest-Neutral
        (λ out.
          (u : Keyspace) × Holds (make_key self name) (reentrant_owner c) n u × (out ≡ (body u).0))
        body t n 0 n (omega arith) (λ u holds. ((u, holds, refl), untouched n u holds)) s free
    where
      untouched :
          (k : ℕ) (u : Keyspace)
          → Holds (make_key self name) (reentrant_owner c) k u
          → Holds (make_key self name) (reentrant_owner c) k (body u).1
      untouched zero u holds = quiet u ∙ holds
      untouched (suc k) u (d, e) = (d, quiet u ∙ e)
