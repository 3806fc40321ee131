-- ===== src/Async/CachingSteps.antt =====
-- The methods of `AsyncCache` on one key against those of `Cache`.
use redis_kit.Common.{
  String, inl, inr, Option, ◌≡◌, refl, ◌∙◌, Error, Result, ok, err, Result-cases, Exec, continue,
  arith,
}
use redis_kit.Redis.Keyspace.{Datum, Keyspace}
use redis_kit.Async.Task.{Task, done, run, run-bind, pure, ◌>>=◌, ◌>>◌}
use redis_kit.Cache.Ttl.{Ttl}
use redis_kit.Cache.Pipeline.{Fetched, miss, hit, encode, decode}
use redis_kit.Cache.Policy.{World, after, notify, send}
use redis_kit.Cache.Client
use redis_kit.Cache.Client.{Cache}
use redis_kit.Async.Caching.{
  AsyncCache, note, got, finished, or_compute, handle_fallback, get_raw, get, set, delete, remember,
}
use redis_kit.Cache.Policy.{apply_fallback_policy}

module _ {A B : Type 0} (m : Exec Keyspace A) (f : A → Exec Keyspace B) (g : A → Exec World B)
    (same_reply : (a : A) (u : World) → g a u ≡ send (f a) u) where
  pub send_bind :
      (w : World) → continue (send m w).0 g (send m w).1 ≡ send (λ s. continue (m s).0 f (m s).1) w
  send_bind w = replied (m w.store).0 (m w.store).1
    where
      replied :
          (reply : Result A) (s : Keyspace)
          → continue reply g (record w { store = s })
            ≡ ((continue reply f s).0, record w { store = (continue reply f s).1 })
      replied (err e) s = refl
      replied (ok a) s = same_reply a (record w { store = s })

module _ {ℓ} {V : Type ℓ} (self : AsyncCache V) where
  pub handled {κ} :
      {D : Type κ} (e : Error) (cmd key : String) (default : D) (returned : Option V → D)
      (w : World)
      → run (handle_fallback self e cmd key default returned) w
        ≡ (apply_fallback_policy self.base.fallback e cmd key default returned, w)
  unfolding handle_fallback run
  handled e cmd key default returned w = ground arith

  got_runs :
      (key : String) (reply : Result (Option Datum)) (w : World)
      → run (got self key reply) w ≡ elim reply [
        | err e ↦ Client.read_failed self.base key e w
        | ok raw ↦ Client.decoded self.base key raw w
      ]
  unfolding run notify
  got_runs key (err e) w = handled e "GET" key miss hit _
  got_runs key (ok raw) w =
      elim (decode self.base.pipeline raw)
        as (λ value.
          run (done value >>= (λ v. note self after "GET" key >> pure v)) w
          ≡ (elim value as (λ _. Exec World (Fetched V)) [
            | err e ↦ λ u. (err e, u)
            | ok v ↦ λ u. (ok v, (notify after "GET" key u).1)
          ])
              w) [ err e ↦ refl | ok v ↦ refl ]

  pub run-get_raw :
      (key : String) (w : World) → run (get_raw self key) w ≡ Client.get_raw self.base key w
  unfolding get_raw run Client.get_raw notify
  run-get_raw key w = got_runs key _ _

  pub run-get : (key : String) (w : World) → run (get self key) w ≡ Client.get self.base key w
  unfolding get Client.get run
  run-get key w = run-bind (get_raw self key) _ w ∙ rw (run-get_raw key w) refl

  pub finished_runs {κ} :
      {A : Type κ} (cmd key : String) (reply : Result A) (w : World)
      → run (finished self cmd key reply) w ≡ elim reply [
        | err e ↦ Client.write_failed self.base cmd key e w
        | ok _ ↦ notify after cmd key w
      ]
  unfolding run notify
  finished_runs cmd key (err e) w = handled e cmd key tt (λ _. tt) _
  finished_runs cmd key (ok a) w = refl

  pub run-set :
      (key : String) (v : Option V) (ttl : Option Ttl) (w : World)
      → run (set self key v ttl) w ≡ Client.set self.base key v ttl w
  unfolding set Client.set run notify
  run-set key v ttl w = elim (Result-cases (encode self.base.pipeline v)) [
    | inr (e, p) ↦ rw p refl
    | inl (d, p) ↦ elim (Result-cases (Client.resolve_ttl self.base ttl)) [
      | inr (e, q) ↦ rw (p, q) refl
      | inl (t, q) ↦ rw (p, q) (finished_runs "SET" key _ _)
    ]
  ]

  pub run-delete :
      (key : String) (w : World) → run (delete self key) w ≡ Client.delete self.base key w
  unfolding delete Client.delete run notify
  run-delete key w = finished_runs "DELETE" key _ _

  computed_runs :
      (factory : Task World (Option V)) (key : String) (ttl : Option Ttl)
      (found : Result (Fetched V)) (w : World)
      → continue found (λ v. run (or_compute self factory key ttl v)) w
        ≡ continue found (Client.or_compute self.base (run factory) key ttl) w
  unfolding run
  computed_runs factory key ttl (err e) w = refl
  computed_runs factory key ttl (ok (hit v)) w = refl
  computed_runs factory key ttl (ok miss) w =
      run-bind factory _ w ∙ stored (run factory w).0 (run factory w).1
    where
      stored :
          (value : Result (Option V)) (u : World)
          → continue value (λ v. run (set self key v ttl >> pure v)) u
            ≡ continue value
                (λ v s.
                  continue
                    (Client.set self.base key v ttl s).0
                    (λ _ s'. (ok v, s'))
                    (Client.set self.base key v ttl s).1)
                u
      stored (err e) u = refl
      stored (ok v) u = run-bind (set self key v ttl) _ u ∙ rw (run-set key v ttl u) refl

  pub run-remember :
      (key : String) (factory : Task World (Option V)) (ttl : Option Ttl) (w : World)
      → run (remember self key factory ttl) w ≡ Client.remember self.base key (run factory) ttl w
  unfolding remember Client.remember
  run-remember key factory ttl w =
      run-bind (get_raw self key) _ w
      ∙ rw (run-get_raw key w) (
          computed_runs factory key ttl (Client.get_raw self.base key w).0
            (Client.get_raw self.base key w).1)
