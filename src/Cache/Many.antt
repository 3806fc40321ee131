-- ===== src/Cache/Many.antt =====
-- `set_many` against one `set` after another.
use redis_kit.Common.{
  ℕ, zero, suc, String, ◌≡◌, refl, ap, sym, ◌∙◌, true, Option, none, some, List, [], ◌∷◌, map, ok,
  err, Result, Exec, ◌>>◌, pure, All,
}
use redis_kit.Common.Keys.{joined}
use redis_kit.Redis.Keyspace.{Datum, Keyspace}
use redis_kit.Redis.Server.{Follows}
use redis_kit.Cache.Ttl.{Ttl, parse_ttl}
use redis_kit.Cache.Pipeline.{encode, apply_jitter}
use redis_kit.Cache.Policy.{World, before, after, notify}
use redis_kit.Cache.Client
use redis_kit.Cache.Client.{Cache, make_key, resolve_ttl, write_command, write_failed}
use redis_kit.Cache.Reads.{set_lem, write_reply}
use redis_kit.Cache.Bulk.{pipeline, jittered, set_commands, set_all, base_of, set_many}

module _ {ℓ} {V : Type ℓ} (self : Cache V) where
  -- One `set` for each pair.
  abbrev pub set_each : List (String × Option V) → Option Ttl → Exec World (Unit {0})
  set_each [] ttl = pure tt
  set_each ((key, v) ∷ mapping) ttl = Client.set self key v ttl >> set_each mapping ttl

  -- The serializer and the compressor take each value.
  abbrev pub Encodable : List (String × Option V) → Type 0
  Encodable mapping = All (λ m. (d : Datum) × (encode self.pipeline m.1 ≡ ok d)) mapping

  abbrev commands :
      (mapping : List (String × Option V))
      → Encodable mapping
      → Option ℕ
      → List (Exec Keyspace (Unit {0}))
  commands [] e t = []
  commands ((key, v) ∷ mapping) e t =
      write_command self (make_key self key) e.0.0 t ∷ commands mapping e.1 t

  abbrev written :
      (mapping : List (String × Option V)) → Encodable mapping → Option ℕ → Keyspace → Keyspace
  written [] e t s = s
  written ((key, v) ∷ mapping) e t s =
      written mapping e.1 t (write_command self (make_key self key) e.0.0 t s).1

  module _ (h : Follows self.client) (steady : self.no_jitter ≡ true) where
    unmoved : (n : ℕ) (t : Option ℕ) → jittered self n t ≡ t
    unfolding jittered apply_jitter
    unmoved n none = refl
    unmoved n (some zero) = refl
    unmoved n (some (suc b)) = rw steady refl

    set_commands-commands :
        (mapping : List (String × Option V)) (e : Encodable mapping) (n : ℕ) (t : Option ℕ)
        → set_commands self t n mapping ≡ ok (commands mapping e t)
    unfolding set_commands
    set_commands-commands [] e n t = refl
    set_commands-commands ((key, v) ∷ mapping) e n t =
        rw (e.0.1, set_commands)
          (rw (set_commands-commands mapping e.1 (suc n) t, unmoved n t) refl)

    piped :
        (mapping : List (String × Option V)) (e : Encodable mapping) (t : Option ℕ) (s : Keyspace)
        → (us : List (Unit {0})) × (pipeline (commands mapping e t) s
            ≡ (ok us, written mapping e t s))
    unfolding pipeline
    piped [] e t s = ([], refl)
    piped ((key, v) ∷ mapping) e t s =
        let (us, p) = piped mapping e.1 t (write_command self (make_key self key) e.0.0 t s).1 in
        (tt ∷ us, rw (write_reply self h (make_key self key) e.0.0 t s, p) refl)

    resolved :
        (ttl : Option Ttl) (t : Option ℕ) → base_of self ttl ≡ ok t → resolve_ttl self ttl ≡ ok t
    unfolding resolve_ttl jittered
    resolved none t b = b
    resolved (some ttl) t b = worked_out (parse_ttl self.letters ttl) b
      where
        worked_out :
            (r : Result ℕ)
            → (elim r as (λ _. Result (Option ℕ)) [ ok n ↦ ok (some n) | err e ↦ err e ]) ≡ ok t
            → (elim r as (λ _. Result (Option ℕ)) [
              | ok n ↦ ok (some (apply_jitter self.share self.no_jitter (self.draw 0) n))
              | err e ↦ err e
            ])
              ≡ ok t
        worked_out (ok n) p = ap ok (unmoved 0 (some n)) ∙ p
        worked_out (err e) p = p

    each_written :
        (mapping : List (String × Option V)) (e : Encodable mapping) (ttl : Option Ttl)
        (t : Option ℕ) (w : World)
        → resolve_ttl self ttl ≡ ok t
        → ((set_each mapping ttl w).0 ≡ ok tt)
          × ((set_each mapping ttl w).1.store ≡ written mapping e t w.store)
    each_written [] e ttl t w r = (refl, refl)
    each_written ((key, v) ∷ mapping) e ttl t w r =
        let (done, stored) = set_lem self h key v ttl e.0.0 t w e.0.1 r in
        let (done', stored') = each_written mapping e.1 ttl t (Client.set self key v ttl w).1 r in
        rw done (done', stored' ∙ ap (written mapping e.1 t) stored)

    all_set :
        (mapping : List (String × Option V)) (e : Encodable mapping) (t : Option ℕ) (s : Keyspace)
        → (us : List (Unit {0})) × (set_all self t mapping s ≡ (ok us, written mapping e t s))
    all_set mapping e t s =
        let (us, p) = piped mapping e t s in
        (
          us,
          ap
                (λ r.
                  (elim r as (λ _. Exec Keyspace (List (Unit {0}))) [
                    | err x ↦ λ k. (err x, k)
                    | ok ms ↦ pipeline ms
                  ])
                    s)
                (set_commands-commands mapping e 0 t)
              ∙ p,
        )

    -- Without jitter `set_many` returns and leaves the server as one `set` after another with the
    -- same TTL does. (The server follows its documentation; the TTL is read without an exception,
    -- and the serializer and the compressor take each value.)
    pub set_many-set :
        (mapping : List (String × Option V)) (ttl : Option Ttl) (t : Option ℕ) (w : World)
        → Encodable mapping
        → base_of self ttl ≡ ok t
        → ((set_many self mapping ttl w).0 ≡ ok tt)
          × ((set_each mapping ttl w).0 ≡ ok tt)
          × ((set_many self mapping ttl w).1.store ≡ (set_each mapping ttl w).1.store)
    unfolding set_many notify
    set_many-set mapping ttl t w e b =
        let (us, p) = all_set mapping e t w.store in
        let (done, stored) = each_written mapping e ttl t w (resolved ttl t b) in
        let keys = joined (map (λ m. m.0) mapping) in
        let w1 = (notify before "SET_MANY" keys w).1 in
        let reported =
          ap
            (λ x. elim x.0 as (λ _. Result (Unit {0}) × World) [
              | err y ↦ write_failed self "SET_MANY" keys y (record w1 { store = x.1 })
              | ok _ ↦ notify after "SET_MANY" keys (record w1 { store = x.1 })
            ])
            p in
        rw b (ap (λ x. x.0) reported, done, ap (λ x. x.1.store) reported ∙ sym stored)
