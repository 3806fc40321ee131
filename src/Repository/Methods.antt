-- ===== src/Repository/Methods.antt =====
-- redis_kit/repository/_base_repo.py and redis_kit/repository/repository.py.
use Prim.Native.String.{◌++◌}
use redis_kit.Common.{
  ℕ, String, ◌==◌, Bool, true, false, Option, none, some, List, [], ◌∷◌, Error, repository,
  entity_not_found, optimistic_lock, Result, ok, err, Exec, pure, raise, both, ◌>>=◌, ◌>>◌,
  if◌then◌else◌,
}
use redis_kit.Common.Integers.{ℤ, pos, negsuc, ◌+ℤ◌, ◌-ℤ◌}
use redis_kit.Redis.Keyspace.{Datum, text, number, Fields, Keyspace}
use redis_kit.Redis.Server.{Redis}
use redis_kit.Repository.Model.{Calendar, Entity, flag, instant, to_hash, from_hash}
use redis_kit.Repository.Scripts.{optimistic_lock_set, optimistic_lock_partial_set}

-- `encode` and `decode` are the JSON texts of a hash; `names` are the further fields of the class.
pub record Repository : Type 0 where
  pub client : Redis
  pub calendar : Calendar
  pub encode : Fields → Datum
  pub decode : Datum → Result Fields
  pub names : List String
  pub prefix : String
  pub max_history : Option ℕ

module _ (self : Repository) where
  unfoldable pub make_key : String → String
  make_key entity_id = if self.prefix == "" then entity_id else self.prefix ++ ":" ++ entity_id

  unfoldable pub index_key : String
  index_key = if self.prefix == "" then "_index" else self.prefix ++ ":" ++ "_index"

  unfoldable pub history_key : String → String
  history_key entity_id = make_key entity_id ++ ":history"

  unfoldable pub max_history_arg : ℤ
  max_history_arg = elim self.max_history [ none ↦ negsuc 0 | some n ↦ pos n ]

  abbrev pub or_raise : Error → Bool → Exec Keyspace (Unit {0})
  or_raise e true = pure tt
  or_raise e false = raise e

  abbrev pub decoded : Fields → Exec Keyspace Entity
  decoded l s = (from_hash self.calendar self.names l, s)

  -- `if not entity.id`: a new entity gets an id, which `uuid` drew, and version 1.
  unfoldable pub save_new : ℕ → String → Entity → Exec Keyspace Entity
  save_new now uuid entity = do
    let new = record entity {
      id = uuid;
      version = pos 1;
      created_at = some now;
      updated_at = some now;
    }
    both (self.client.hset (make_key uuid) (to_hash self.calendar new))
        (self.client.sadd index_key (text uuid))
    pure new

  unfoldable pub save_existing : ℕ → Entity → Exec Keyspace Entity
  save_existing now entity = do
    let new = record entity { version = entity.version +ℤ pos 1; updated_at = some now }
    done ←
        optimistic_lock_set self.client self.encode (make_key entity.id) (history_key entity.id)
          (number (new.version -ℤ pos 1)) max_history_arg (to_hash self.calendar new)
    or_raise optimistic_lock done
    pure new

  unfoldable pub save : ℕ → String → Entity → Exec Keyspace Entity
  save now uuid entity =
      if entity.id == "" then save_new now uuid entity else save_existing now entity

  -- The hash under the entity's key; no field means no entity.
  abbrev pub entity_at : Fields → Exec Keyspace (Option Entity)
  entity_at [] = pure none
  entity_at (f ∷ l) = do entity ← decoded (f ∷ l); pure (some entity)

  unfoldable pub find_including_deleted : String → Exec Keyspace (Option Entity)
  find_including_deleted entity_id = do
    fields ← self.client.hgetall (make_key entity_id)
    entity_at fields

  abbrev pub unless_deleted : Option Entity → Option Entity
  unless_deleted none = none
  unless_deleted (some e) = if e.deleted then none else some e

  unfoldable pub find : String → Exec Keyspace (Option Entity)
  find entity_id = do
    fields ← self.client.hgetall (make_key entity_id)
    entity ← entity_at fields
    pure (unless_deleted entity)

  abbrev pub known : Fields → Exec Keyspace Entity
  known [] = raise entity_not_found
  known (f ∷ l) = decoded (f ∷ l)

  -- The fields that `delete` and `restore` write.
  abbrev pub marks : ℕ → Bool → Option ℕ → ℤ → Fields
  marks now deleted deleted_at new_version =
      ("deleted", flag deleted)
      ∷ ("deleted_at", instant self.calendar deleted_at)
      ∷ ("version", number new_version)
      ∷ ("updated_at", text (self.calendar.iso now))
      ∷ []

  unfoldable pub delete : ℕ → String → Exec Keyspace (Unit {0})
  delete now entity_id = do
    fields ← self.client.hgetall (make_key entity_id)
    entity ← known fields
    allowed ←
        optimistic_lock_partial_set self.client self.encode (make_key entity_id)
          (history_key entity_id) (number entity.version) max_history_arg
          (marks now true (some now) (entity.version +ℤ pos 1))
    or_raise optimistic_lock allowed

  -- The pipeline is no transaction: all of it is sent, and then the first error is raised.
  unfoldable pub hard_delete : String → Exec Keyspace (Unit {0})
  hard_delete entity_id =
      both (both (self.client.del (make_key entity_id)) (self.client.del (history_key entity_id)))
        (self.client.srem index_key (text entity_id))

  unfoldable pub restore : ℕ → String → Exec Keyspace Entity
  restore now entity_id = do
    fields ← self.client.hgetall (make_key entity_id)
    entity ← known fields
    if entity.deleted
        then (do
          let new_version = entity.version +ℤ pos 1
          allowed ←
              optimistic_lock_partial_set self.client self.encode (make_key entity_id)
                (history_key entity_id) (number entity.version) max_history_arg
                (marks now false none new_version)
          or_raise optimistic_lock allowed
          pure (record entity {
            deleted = false;
            deleted_at = none;
            version = new_version;
            updated_at = some now;
          }))
        else raise repository

  -- The loop of `get_history`.
  unfoldable pub entities : List Datum → Result (List Entity)
  entities [] = ok []
  entities (d ∷ l) =
      let rest = entities l in
      elim (self.decode d) [
        | err e ↦ err e
        | ok fields ↦ elim (from_hash self.calendar self.names fields) [
          | err e ↦ err e
          | ok entity ↦ elim rest [ ok es ↦ ok (entity ∷ es) | err e ↦ err e ]
        ]
      ]

  unfoldable pub get_history : String → Exec Keyspace (List Entity)
  get_history entity_id = do
    history_data ← self.client.lrange_all (history_key entity_id)
    λ s. (entities history_data, s)
