-- ===== src/Async/CachingLoopsRun.antt =====
-- The loops of `AsyncCache` against those of `Cache`.
use redis_kit.Common.{
  ℕ, suc, String, Option, none, some, List, [], ◌∷◌, map, ◌≡◌, refl, ap, inl, inr, Result-cases,
}
use redis_kit.Redis.Keyspace.{Datum}
use redis_kit.Cache.Ttl.{Ttl}
use redis_kit.Cache.Pipeline.{Fetched, miss, hit, encode, decode}
use redis_kit.Cache.Client.{Cache, make_key}
use redis_kit.Cache.Bulk
use redis_kit.Cache.Bulk.{put_in}
use redis_kit.Async.CachingLoops.{zip, raw_values, decode_all, nones, plain, base_of, set_commands}

module _ {ℓ} {V : Type ℓ} (self : Cache V) where
  gets :
      (keys : List String)
      → map self.client.get (map (make_key self) keys)
        ≡ map (λ k. self.client.get (make_key self k)) keys
  gets [] = refl
  gets (k ∷ keys) = ap (λ l. self.client.get (make_key self k) ∷ l) (gets keys)

  pub raw_values-many_raw :
      (keys : List String) → raw_values self (map (make_key self) keys) ≡ Bulk.many_raw self keys
  unfolding raw_values
  raw_values-many_raw keys = rw (gets keys) refl

  pub decode_all-zip :
      (keys : List String) (raws : List (Option Datum)) (result : List (String × Fetched V))
      → decode_all self (zip keys raws) result ≡ Bulk.decode_all self keys raws result
  unfolding decode_all zip Bulk.decode_all
  decode_all-zip [] [] result = refl
  decode_all-zip [] (raw ∷ raws) result = refl
  decode_all-zip (k ∷ keys) [] result = refl
  decode_all-zip (k ∷ keys) (raw ∷ raws) result = elim (Result-cases (decode self.pipeline raw)) [
    | inl (v, e) ↦
        rw (decode_all, Bulk.decode_all, e) (decode_all-zip keys raws (put_in k v result))
    | inr (x, e) ↦ rw (decode_all, Bulk.decode_all, e) refl
  ]

  pub nones-same :
      (keys : List String) (result : List (String × Option V))
      → nones self keys result ≡ Bulk.nones self keys result
  unfolding nones Bulk.nones
  nones-same [] result = refl
  nones-same (k ∷ keys) result = nones-same keys (put_in k none result)

  pub plain-same : (l : List (String × Fetched V)) → plain self l ≡ Bulk.plain self l
  unfolding plain Bulk.plain
  plain-same [] = refl
  plain-same ((k, hit v) ∷ l) = ap (λ rest. (k, v) ∷ rest) (plain-same l)
  plain-same ((k, miss) ∷ l) = ap (λ rest. (k, none) ∷ rest) (plain-same l)

  pub base_of-same : (ttl : Option Ttl) → base_of self ttl ≡ Bulk.base_of self ttl
  unfolding base_of
  base_of-same none = refl
  base_of-same (some ttl) = refl

  pub set_commands-same :
      (base_ttl : Option ℕ) (n : ℕ) (mapping : List (String × Option V))
      → set_commands self base_ttl n mapping ≡ Bulk.set_commands self base_ttl n mapping
  unfolding set_commands Bulk.set_commands Bulk.jittered
  set_commands-same base_ttl n [] = refl
  set_commands-same none n ((key, v) ∷ mapping) = elim (Result-cases (encode self.pipeline v)) [
    | inl (d, e) ↦
        rw (set_commands, Bulk.set_commands, e) (rw (set_commands-same none (suc n) mapping) refl)
    | inr (x, e) ↦ rw (set_commands, Bulk.set_commands, e) refl
  ]
  set_commands-same (some t) n ((key, v) ∷ mapping) = elim (Result-cases (encode self.pipeline v)) [
    | inl (d, e) ↦
        rw (set_commands, Bulk.set_commands, e)
          (rw (set_commands-same (some t) (suc n) mapping) refl)
    | inr (x, e) ↦ rw (set_commands, Bulk.set_commands, e) refl
  ]
