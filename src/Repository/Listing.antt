-- ===== src/Repository/Listing.antt =====
-- `find_all` of redis_kit/repository/repository.py.
use redis_kit.Common.{
  String, Bool, true, false, inl, inr, Option, none, some, List, [], ◌∷◌, map, Result, ok, err,
  Exec, pure, ◌>>=◌, ◌≡◌, refl, if◌then◌else◌, All, Result-cases, sym,
}
use redis_kit.Common.Integers.{ℤ}
use redis_kit.Redis.Keyspace.{Datum, text, number, Fields, Keyspace}
use redis_kit.Cache.Bulk.{pipeline}
use redis_kit.Repository.Model.{Entity, from_hash}
use redis_kit.Repository.Methods.{Repository, make_key, index_key, find, entity_at, unless_deleted}

-- `raw_id.decode()`; `decimal` writes a number in digits.
abbrev pub decoded_id : (ℤ → String) → Datum → String
decoded_id decimal (text t) = t
decoded_id decimal (number n) = decimal n

-- One reply after another, each awaited before the next command is sent.
unfoldable pub in_turn {ℓ} : {A : Type ℓ} → List (Exec Keyspace A) → Exec Keyspace (List A)
in_turn [] = pure []
in_turn (m ∷ ms) = do reply ← m; replies ← in_turn ms; pure (reply ∷ replies)

module _ (self : Repository) where
  abbrev pub keep : Entity → Result (List Entity) → Result (List Entity)
  keep entity (err e) = err e
  keep entity (ok result) = if entity.deleted then ok result else ok (entity ∷ result)

  -- The loop over the replies.
  unfoldable pub live_entities : List Fields → Result (List Entity)
  live_entities [] = ok []
  live_entities ([] ∷ all_data) = live_entities all_data
  live_entities ((f ∷ l) ∷ all_data) =
      let rest = live_entities all_data in
      elim (from_hash self.calendar self.names (f ∷ l)) [
        | err e ↦ err e
        | ok entity ↦ keep entity rest
      ]

  abbrev pub hashes_of : Bool → List String → Exec Keyspace (List Fields)
  hashes_of is_cluster ids =
      if is_cluster
      then in_turn (map (λ eid. self.client.hgetall (make_key self eid)) ids)
      else pipeline (map (λ eid. self.client.hgetall (make_key self eid)) ids)

  abbrev pub listed : Bool → List String → Exec Keyspace (List Entity)
  listed is_cluster [] = pure []
  listed is_cluster (i ∷ ids) = do
    all_data ← hashes_of is_cluster (i ∷ ids)
    λ s. (live_entities all_data, s)

  unfoldable pub find_all : (ℤ → String) → Bool → Exec Keyspace (List Entity)
  find_all decimal is_cluster = do
    ids ← self.client.smembers (index_key self)
    listed is_cluster (map (decoded_id decimal) ids)

  -- What one read after another returns: the entities that were found, or the first exception.
  abbrev pub gathered : List (Result (Option Entity)) → Result (List Entity)
  gathered [] = ok []
  gathered (err e ∷ l) = err e
  gathered (ok none ∷ l) = gathered l
  gathered (ok (some entity) ∷ l) = elim (gathered l) [
    | ok found ↦ ok (entity ∷ found)
    | err e ↦ err e
  ]

  keep-gathered :
      (entity : Entity) (found : Result (List Entity)) (others : List (Result (Option Entity)))
      → found ≡ gathered others
      → keep entity found ≡ gathered (ok (unless_deleted self (some entity)) ∷ others)
  keep-gathered entity (err e) others p =
      elim entity.deleted
        as (λ b.
          Path (Result (List Entity)) (err e)
            (gathered (ok (if b then none else some entity) ∷ others))) [
              | true ↦ p
              | false ↦ rw (sym p) refl
            ]
  keep-gathered entity (ok l) others p =
      elim entity.deleted
        as (λ b.
          Path (Result (List Entity)) (if b then ok l else ok (entity ∷ l))
            (gathered (ok (if b then none else some entity) ∷ others))) [
              | true ↦ p
              | false ↦ rw (sym p) refl
            ]

  found_one :
      (fields : Fields) (all_data : List Fields) (others : List (Result (Option Entity)))
      (s : Keyspace)
      → live_entities all_data ≡ gathered others
      → live_entities (fields ∷ all_data)
        ≡ gathered
            (((entity_at self fields >>= λ entity. pure (unless_deleted self entity)) s).0 ∷ others)
  unfolding live_entities
  found_one [] all_data others s p = p
  found_one (f ∷ l) all_data others s p =
      elim (Result-cases (from_hash self.calendar self.names (f ∷ l))) [
        | inr (e, q) ↦ rw (q, live_entities) refl
        | inl (entity, q) ↦
            rw (q, live_entities) (keep-gathered entity (live_entities all_data) others p)
      ]

  module _ (s : Keyspace) (hashes : String → Fields) where
    abbrev pub Answered : List String → Type 0
    Answered ids = All (λ id. self.client.hgetall (make_key self id) s ≡ (ok (hashes id), s)) ids

    hashes_of-Answered :
        (is_cluster : Bool) (ids : List String)
        → Answered ids
        → hashes_of is_cluster ids s ≡ (ok (map hashes ids), s)
    unfolding in_turn pipeline
    hashes_of-Answered true [] a = refl
    hashes_of-Answered false [] a = refl
    hashes_of-Answered true (i ∷ ids) a = rw (a.0, hashes_of-Answered true ids a.1) refl
    hashes_of-Answered false (i ∷ ids) a = rw (a.0, hashes_of-Answered false ids a.1) refl

    live_entities-gathered :
        (ids : List String)
        → Answered ids
        → live_entities (map hashes ids) ≡ gathered (map (λ id. (find self id s).0) ids)
    unfolding live_entities find
    live_entities-gathered [] a = refl
    live_entities-gathered (i ∷ ids) a =
        rw a.0 (found_one (hashes i) (map hashes ids) _ s (live_entities-gathered ids a.1))

    -- `find_all` returns what `find` returns for the ids of the index, one after the other: the
    -- entities that are there and not deleted, in the index's order, or the first exception; in a
    -- cluster or not. (The server answers SMEMBERS, and HGETALL for each of the ids.)
    pub find_all-find :
        (decimal : ℤ → String) (is_cluster : Bool) (members : List Datum)
        → self.client.smembers (index_key self) s ≡ (ok members, s)
        → Answered (map (decoded_id decimal) members)
        → (find_all decimal is_cluster s).0
          ≡ gathered (map (λ id. (find self id s).0) (map (decoded_id decimal) members))
    unfolding find_all
    find_all-find decimal is_cluster members e a = rw e (each (map (decoded_id decimal) members) a)
      where
        each :
            (ids : List String)
            → Answered ids
            → (listed is_cluster ids s).0 ≡ gathered (map (λ id. (find self id s).0) ids)
        each [] a = refl
        each (i ∷ ids) a =
            rw (hashes_of-Answered is_cluster (i ∷ ids) a) (live_entities-gathered (i ∷ ids) a)
