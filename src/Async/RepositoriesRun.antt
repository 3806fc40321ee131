-- ===== src/Async/RepositoriesRun.antt =====
-- A coroutine of `AsyncRepository` that runs alone against the method of `Repository`.
use redis_kit.Common.{
  ℕ, String, Bool, true, false, inl, inr, List, [], ◌∷◌, map, ◌≡◌, refl, ◌∙◌, arith, Result-cases,
}
use redis_kit.Common.Integers.{ℤ}
use redis_kit.Redis.Keyspace.{Keyspace}
use redis_kit.Async.Task.{run, run-bind}
use redis_kit.Repository.Model.{Entity}
use redis_kit.Repository.Methods
use redis_kit.Repository.Methods.{
  Repository, make_key, index_key, history_key, max_history_arg, unless_deleted, marks, entities,
}
use redis_kit.Repository.Listing
use redis_kit.Async.Repositories.{
  save_new, save_existing, save, find_including_deleted, find, delete, hard_delete, restore,
  in_turn, listed, find_all, get_history,
}

module _ (self : Repository) where
  run-save :
      (now : ℕ) (uuid : String) (entity : Entity) (s : Keyspace)
      → run (save self now uuid entity) s ≡ Methods.save self now uuid entity s
  unfolding save Methods.save save_new Methods.save_new save_existing Methods.save_existing run
  run-save now uuid entity s = ground arith

  run-find :
      (entity_id : String) (s : Keyspace)
      → run (find self entity_id) s ≡ Methods.find self entity_id s
  unfolding find Methods.find run
  run-find entity_id s = ground arith

  run-find_including_deleted :
      (entity_id : String) (s : Keyspace)
      → run (find_including_deleted self entity_id) s
        ≡ Methods.find_including_deleted self entity_id s
  unfolding find_including_deleted Methods.find_including_deleted run
  run-find_including_deleted entity_id s = ground arith

  run-delete :
      (now : ℕ) (entity_id : String) (s : Keyspace)
      → run (delete self now entity_id) s ≡ Methods.delete self now entity_id s
  unfolding delete Methods.delete run
  run-delete now entity_id s = ground arith

  run-hard_delete :
      (entity_id : String) (s : Keyspace)
      → run (hard_delete self entity_id) s ≡ Methods.hard_delete self entity_id s
  unfolding hard_delete run Methods.hard_delete
  run-hard_delete entity_id s = refl

  run-restore :
      (now : ℕ) (entity_id : String) (s : Keyspace)
      → run (restore self now entity_id) s ≡ Methods.restore self now entity_id s
  unfolding restore Methods.restore run
  run-restore now entity_id s = ground arith

  run-get_history :
      (entity_id : String) (s : Keyspace)
      → run (get_history self entity_id) s ≡ Methods.get_history self entity_id s
  unfolding get_history Methods.get_history run
  run-get_history entity_id s = ground arith

  run-in_turn :
      (ids : List String) (s : Keyspace)
      → run (in_turn self ids) s
        ≡ Listing.in_turn (map (λ eid. self.client.hgetall (make_key self eid)) ids) s
  unfolding in_turn Listing.in_turn run
  run-in_turn [] s = refl
  run-in_turn (eid ∷ ids) s = elim (Result-cases (self.client.hgetall (make_key self eid) s).0) [
    | inr (e, p) ↦ rw p refl
    | inl (l, p) ↦ rw p (
        run-bind (in_turn self ids) _ _
        ∙ rw (run-in_turn ids (self.client.hgetall (make_key self eid) s).1) refl)
  ]

  run-listed :
      (is_cluster : Bool) (ids : List String) (s : Keyspace)
      → run (listed self is_cluster ids) s ≡ Listing.listed self is_cluster ids s
  unfolding run
  run-listed is_cluster [] s = refl
  run-listed false (i ∷ ids) s = ground arith
  run-listed true (i ∷ ids) s =
      run-bind (in_turn self (i ∷ ids)) _ s ∙ rw (run-in_turn (i ∷ ids) s) refl

  run-find_all :
      (decimal : ℤ → String) (is_cluster : Bool) (s : Keyspace)
      → run (find_all self decimal is_cluster) s ≡ Listing.find_all self decimal is_cluster s
  unfolding find_all Listing.find_all run
  run-find_all decimal is_cluster s =
      elim (Result-cases (self.client.smembers (index_key self) s).0) [
        | inr (e, p) ↦ rw p refl
        | inl (ids, p) ↦ rw p (
            run-listed is_cluster (map (Listing.decoded_id decimal) ids)
              (self.client.smembers (index_key self) s).1)
      ]

  -- Each method of `AsyncRepository`, run alone, returns and stores what the method of `Repository`
  -- does, errors included.
  pub run-repository :
      (now : ℕ) (uuid entity_id : String) (entity : Entity) (decimal : ℤ → String)
      (is_cluster : Bool) (s : Keyspace)
      → (run (save self now uuid entity) s ≡ Methods.save self now uuid entity s)
        × (run (find self entity_id) s ≡ Methods.find self entity_id s)
        × (run (find_including_deleted self entity_id) s
            ≡ Methods.find_including_deleted self entity_id s)
        × (run (delete self now entity_id) s ≡ Methods.delete self now entity_id s)
        × (run (hard_delete self entity_id) s ≡ Methods.hard_delete self entity_id s)
        × (run (restore self now entity_id) s ≡ Methods.restore self now entity_id s)
        × (run (find_all self decimal is_cluster) s ≡ Listing.find_all self decimal is_cluster s)
        × (run (get_history self entity_id) s ≡ Methods.get_history self entity_id s)
  run-repository now uuid entity_id entity decimal is_cluster s = (
    run-save now uuid entity s,
    run-find entity_id s,
    run-find_including_deleted entity_id s,
    run-delete now entity_id s,
    run-hard_delete entity_id s,
    run-restore now entity_id s,
    run-find_all decimal is_cluster s,
    run-get_history entity_id s,
  )
