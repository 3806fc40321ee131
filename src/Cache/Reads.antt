-- ===== src/Cache/Reads.antt =====
-- What a client reads back from the cache, if the server follows its documentation.
use redis_kit.Common.{
  ℕ, zero, suc, ◌*◌, String, ◌==◌, eq_refl, ◌≡◌, ◌≢◌, refl, Bool, true, false, Option, none, some,
  ok, err, Result, arith, Exec, pure, ◌>>=◌, ◌>>◌, pure, ◌>>=◌, ◌>>◌, leb, Result-cases, eq_false,
  inl, inr, ◌∙◌, if◌then◌else◌,
}
use redis_kit.Common.Keys.{prefixed_injective}
use redis_kit.Redis.Keyspace.{Datum, Keyspace}
use redis_kit.Redis.Documented.Strings
use redis_kit.Redis.Server.{Redis, Follows, documented, same}
use redis_kit.Cache.Pipeline.{Fetched, miss, hit, IsLossless, encode, decode, decode-encode}
use redis_kit.Cache.Ttl.{Ttl}
use redis_kit.Cache.Policy.{World, notify}
use redis_kit.Cache.Client.{
  Cache, make_key, resolve_ttl, get_raw, get, set, remember, write_command, or_none,
}

-- `ms` milliseconds pass at the server.
abbrev pub pass : Redis → ℕ → World → World
pass r ms w = record w { store = r.elapse ms w.store }

-- Whether a value that was set with these seconds is gone after `ms` milliseconds. No TTL and a TTL
-- of 0 mean no expiry.
abbrev pub gone : Option ℕ → ℕ → Bool
gone (some (suc n)) ms = leb (suc n * 1000) ms
gone _ ms = false

module _ {ℓ} {V : Type ℓ} (self : Cache V) (h : Follows self.client) where
  -- The reply of a read is the decoded string under the full key.
  get_raw_lem :
      (key : String) (w : World) (raw : Option Datum) (found : Fetched V)
      → (self.client.get (make_key self key) w.store) ≡ (ok raw, w.store)
      → decode self.pipeline raw ≡ ok found
      → ((get_raw self key w).0 ≡ ok found) × ((get_raw self key w).1.store ≡ w.store)
  unfolding get_raw notify
  get_raw_lem key w raw found replied d = ground arith

  pub write_reply :
      (full_key : String) (d : Datum) (t : Option ℕ) (s : Keyspace)
      → (write_command self full_key d t s).0 ≡ ok tt
  write_reply k d none s = rw (h.set_law k d s) (unfold Strings.set in refl)
  write_reply k d (some zero) s = rw (h.set_law k d s) (unfold Strings.set in refl)
  write_reply k d (some (suc t)) s = rw (h.setex_law k (suc t) d s) (unfold Strings.setex in refl)

  -- What the server has under a key after a write and a wait, here and under another key.
  read_back :
      (k j : String) (d : Datum) (t : Option ℕ) (ms : ℕ) (s : Keyspace)
      → self.client.get j (self.client.elapse ms (write_command self k d t s).1) ≡ (
          if k == j
          then (
            ok (if gone t ms then none else some d),
            self.client.elapse ms (write_command self k d t s).1,
          )
          else (
            (self.client.get j (self.client.elapse ms s)).0,
            self.client.elapse ms (write_command self k d t s).1,
          ))
  read_back k j d t ms s = rw (same h) (written t)
    where
      written :
          (t : Option ℕ)
          → documented.get j
              (documented.elapse ms (write_command (record self { client = documented }) k d t s).1)
            ≡ (if k == j
                then (
                  ok (if gone t ms then none else some d),
                  documented.elapse ms
                      (write_command (record self { client = documented }) k d t s).1,
                )
                else (
                  (documented.get j (documented.elapse ms s)).0,
                  documented.elapse ms
                      (write_command (record self { client = documented }) k d t s).1,
                ))
      written none = unfold documented Strings.get Strings.elapse Strings.set in ground arith
      written (some zero) = unfold documented Strings.get Strings.elapse Strings.set in ground arith
      written (some (suc n)) =
          unfold documented Strings.get Strings.elapse Strings.setex in ground arith

  pub set_lem :
      (key : String) (v : Option V) (ttl : Option Ttl) (d : Datum) (t : Option ℕ) (w : World)
      → encode self.pipeline v ≡ ok d
      → resolve_ttl self ttl ≡ ok t
      → ((set self key v ttl w).0 ≡ ok tt)
        × ((set self key v ttl w).1.store ≡ (write_command self (make_key self key) d t w.store).1)
  unfolding set notify
  set_lem key v ttl d t w e q = ground (arith, write_reply (make_key self key) d t w.store)

  -- The result of a `get` depends on the reply of the server alone.
  get_reply_eq :
      (key : String) (w u : World) (reply : Result (Option Datum))
      → (self.client.get (make_key self key) w.store).0 ≡ reply
      → (self.client.get (make_key self key) u.store).0 ≡ reply
      → (get self key w).0 ≡ (get self key u).0
  unfolding get get_raw notify
  get_reply_eq key w u (err x) p q = ground arith
  get_reply_eq key w u (ok raw) p q = elim (Result-cases (decode self.pipeline raw)) [
    | inl (f, d) ↦ ground arith
    | inr (x, d) ↦ ground arith
  ]

  get_lem :
      (key : String) (w : World) (raw : Option Datum) (found : Fetched V)
      → (self.client.get (make_key self key) w.store) ≡ (ok raw, w.store)
      → decode self.pipeline raw ≡ ok found
      → (get self key w).0 ≡ ok (or_none self found)
  unfolding get
  get_lem key w raw found replied d = rw ((get_raw_lem key w raw found replied d).0)

  make_key_injective : (key other : String) → make_key self key ≡ make_key self other → key ≡ other
  unfolding make_key
  make_key_injective key other e = prefixed_injective (self.prefix == "") self.prefix key other e

  -- A `get` that comes `ms` milliseconds after a `set` of the same key returns the value, which may
  -- be `None`, unless the TTL has passed, and `None` from then on. A TTL that resolves to 0 and no
  -- TTL do not expire. (The serializer and the compressor undo themselves; they and the TTL's text
  -- raise nothing.)
  pub get-set :
      (key : String) (v : Option V) (ttl : Option Ttl) (d : Datum) (t : Option ℕ) (ms : ℕ)
      (w : World)
      → IsLossless self.pipeline
      → encode self.pipeline v ≡ ok d
      → resolve_ttl self ttl ≡ ok t
      → (get self key (pass self.client ms (set self key v ttl w).1)).0
        ≡ ok (if gone t ms then none else v)
  get-set key v ttl d t ms w l e q =
      let fk = make_key self key in
      let w1 = (set self key v ttl w).1 in
      let stored : w1.store ≡ (write_command self fk d t w.store).1 =
        (set_lem key v ttl d t w e q).1 in
      let b = gone t ms in
      get_lem key (pass self.client ms w1) (if b then none else some d) (if b then miss else hit v)
        (rw stored (rw (read_back fk fk d t ms w.store) (rw (eq_refl fk) refl)))
        (unexpired b (decode-encode self.pipeline v d l e))
      ∙ returned b
    where
      unexpired :
          (b : Bool)
          → decode self.pipeline (some d) ≡ ok (hit v)
          → decode self.pipeline (if b then none else some d) ≡ ok (if b then miss else hit v)
      unexpired true x = unfold decode in refl
      unexpired false x = x

      returned :
          (b : Bool)
          → ◌≡◌ {A = Result (Option V)}
              (ok (or_none self (if b then miss else hit v)))
              (ok (if b then none else v))
      returned true = refl
      returned false = refl

  -- A `set` of one key changes nothing that a `get` of another key can return, now or later. (The
  -- value encodes and the TTL resolves without an exception.)
  pub get-set_ne :
      (key other : String) (v : Option V) (ttl : Option Ttl) (d : Datum) (t : Option ℕ) (ms : ℕ)
      (w : World)
      → encode self.pipeline v ≡ ok d
      → resolve_ttl self ttl ≡ ok t
      → key ≢ other
      → (get self other (pass self.client ms (set self key v ttl w).1)).0
        ≡ (get self other (pass self.client ms w)).0
  get-set_ne key other v ttl d t ms w e q ne =
      let fk = make_key self key in
      let fo = make_key self other in
      let w1 = (set self key v ttl w).1 in
      let stored : w1.store ≡ (write_command self fk d t w.store).1 =
        (set_lem key v ttl d t w e q).1 in
      let differ = eq_false fk fo (λ x. ne (make_key_injective key other x)) in
      get_reply_eq other (pass self.client ms w1) (pass self.client ms w)
        (self.client.get fo (self.client.elapse ms w.store)).0
        (rw stored (rw (read_back fk fo d t ms w.store) (rw differ refl))) refl

  -- `remember` on a miss runs the factory once, in the state after the read, and stores what it
  -- returns as `set` does; on a hit it returns the stored value and runs nothing. (The client's
  -- GET replies and changes nothing, and the reply decodes.)
  pub remember_lem :
      (key : String) (factory : Exec World (Option V)) (ttl : Option Ttl) (raw : Option Datum)
      (found : Fetched V) (w : World)
      → (self.client.get (make_key self key) w.store) ≡ (ok raw, w.store)
      → decode self.pipeline raw ≡ ok found
      → remember self key factory ttl w ≡ elim found [
        | hit v ↦ (ok v, (get_raw self key w).1)
        | miss ↦ (factory >>= λ v. set self key v ttl >> pure v) (get_raw self key w).1
      ]
  unfolding remember
  remember_lem key factory ttl raw found w replied d =
      let answer = (get_raw_lem key w raw found replied d).0 in go found answer
    where
      go :
          (f : Fetched V)
          → (get_raw self key w).0 ≡ ok f
          → remember self key factory ttl w ≡ elim f [
            | hit v ↦ (ok v, (get_raw self key w).1)
            | miss ↦ (factory >>= λ v. set self key v ttl >> pure v) (get_raw self key w).1
          ]
      go miss e = rw (e, remember) refl
      go (hit v) e = rw (e, remember) refl
