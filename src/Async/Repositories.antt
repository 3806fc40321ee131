-- ===== src/Async/Repositories.antt =====
-- redis_kit/repository/async_repository.py.
use redis_kit.Common.{
  ℕ, String, ◌==◌, Bool, true, false, Option, none, some, List, [], ◌∷◌, map, Error, repository,
  entity_not_found, optimistic_lock, both, if◌then◌else◌,
}
use redis_kit.Common.Integers.{ℤ, pos, ◌+ℤ◌, ◌-ℤ◌}
use redis_kit.Redis.Keyspace.{text, number, Fields, Keyspace}
use redis_kit.Async.Task.{Task, done, pure, raise, command, ◌>>=◌, ◌>>◌}
use redis_kit.Cache.Bulk.{pipeline}
use redis_kit.Repository.Model.{Entity, to_hash, from_hash}
use redis_kit.Repository.Scripts.{optimistic_lock_set, optimistic_lock_partial_set}
use redis_kit.Repository.Methods.{
  Repository, make_key, index_key, history_key, max_history_arg, unless_deleted, marks, entities,
}
use redis_kit.Repository.Listing.{decoded_id, live_entities}

module _ (self : Repository) where
  abbrev pub or_raise : Error → Bool → Task Keyspace (Unit {0})
  or_raise e done_ = if done_ then pure tt else raise e

  abbrev pub decoded : Fields → Task Keyspace Entity
  decoded l = done (from_hash self.calendar self.names l)

  unfoldable pub save_new : ℕ → String → Entity → Task Keyspace Entity
  save_new now uuid entity = do
    let new = record entity {
      id = uuid;
      version = pos 1;
      created_at = some now;
      updated_at = some now;
    }
    command (
        both (self.client.hset (make_key self uuid) (to_hash self.calendar new))
          (self.client.sadd (index_key self) (text uuid)))
    pure new

  unfoldable pub save_existing : ℕ → Entity → Task Keyspace Entity
  save_existing now entity = do
    let new = record entity { version = entity.version +ℤ pos 1; updated_at = some now }
    result ← command (
        optimistic_lock_set self.client self.encode (make_key self entity.id)
          (history_key self entity.id) (number (new.version -ℤ pos 1)) (max_history_arg self)
          (to_hash self.calendar new))
    or_raise optimistic_lock result
    pure new

  unfoldable pub save : ℕ → String → Entity → Task Keyspace Entity
  save now uuid entity =
      if entity.id == "" then save_new now uuid entity else save_existing now entity

  abbrev pub entity_at : Fields → Task Keyspace (Option Entity)
  entity_at [] = pure none
  entity_at (f ∷ l) = do entity ← decoded (f ∷ l); pure (some entity)

  unfoldable pub find_including_deleted : String → Task Keyspace (Option Entity)
  find_including_deleted entity_id = do
    fields ← command (self.client.hgetall (make_key self entity_id))
    entity_at fields

  unfoldable pub find : String → Task Keyspace (Option Entity)
  find entity_id = do
    fields ← command (self.client.hgetall (make_key self entity_id))
    entity ← entity_at fields
    pure (unless_deleted self entity)

  abbrev pub known : Fields → Task Keyspace Entity
  known [] = raise entity_not_found
  known (f ∷ l) = decoded (f ∷ l)

  unfoldable pub delete : ℕ → String → Task Keyspace (Unit {0})
  delete now entity_id = do
    fields ← command (self.client.hgetall (make_key self entity_id))
    entity ← known fields
    allowed ← command (
        optimistic_lock_partial_set self.client self.encode (make_key self entity_id)
          (history_key self entity_id) (number entity.version) (max_history_arg self)
          (marks self now true (some now) (entity.version +ℤ pos 1)))
    or_raise optimistic_lock allowed

  -- The pipeline is no transaction: all of it is sent, and then the first error is raised.
  unfoldable pub hard_delete : String → Task Keyspace (Unit {0})
  hard_delete entity_id = command (
      both
        (both (self.client.del (make_key self entity_id))
          (self.client.del (history_key self entity_id)))
        (self.client.srem (index_key self) (text entity_id)))

  abbrev pub restored : ℕ → Entity → ℤ → Entity
  restored now entity new_version = record entity {
    deleted = false;
    deleted_at = none;
    version = new_version;
    updated_at = some now;
  }

  abbrev pub restore_deleted : ℕ → String → Entity → Task Keyspace Entity
  restore_deleted now entity_id entity = do
    let new_version = entity.version +ℤ pos 1
    allowed ← command (
        optimistic_lock_partial_set self.client self.encode (make_key self entity_id)
          (history_key self entity_id) (number entity.version) (max_history_arg self)
          (marks self now false none new_version))
    or_raise optimistic_lock allowed
    pure (restored now entity new_version)

  unfoldable pub restore : ℕ → String → Task Keyspace Entity
  restore now entity_id = do
    fields ← command (self.client.hgetall (make_key self entity_id))
    entity ← known fields
    if entity.deleted then restore_deleted now entity_id entity else raise repository

  -- In a cluster each hash is awaited before the next one is asked for.
  unfoldable pub in_turn : List String → Task Keyspace (List Fields)
  in_turn [] = pure []
  in_turn (eid ∷ ids) = do
    reply ← command (self.client.hgetall (make_key self eid))
    replies ← in_turn ids
    pure (reply ∷ replies)

  abbrev pub hashes_of : Bool → List String → Task Keyspace (List Fields)
  hashes_of is_cluster ids =
      if is_cluster
      then in_turn ids
      else command (pipeline (map (λ eid. self.client.hgetall (make_key self eid)) ids))

  abbrev pub listed : Bool → List String → Task Keyspace (List Entity)
  listed is_cluster [] = pure []
  listed is_cluster (i ∷ ids) = do
    all_data ← hashes_of is_cluster (i ∷ ids)
    done (live_entities self all_data)

  unfoldable pub find_all : (ℤ → String) → Bool → Task Keyspace (List Entity)
  find_all decimal is_cluster = do
    ids ← command (self.client.smembers (index_key self))
    listed is_cluster (map (decoded_id decimal) ids)

  unfoldable pub get_history : String → Task Keyspace (List Entity)
  get_history entity_id = do
    history_data ← command (self.client.lrange_all (history_key self entity_id))
    done (entities self history_data)
