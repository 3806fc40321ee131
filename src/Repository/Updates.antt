-- ===== src/Repository/Updates.antt =====
-- Saving a stored entity, and two clients that save it from the same version.
use redis_kit.Common.{
  ℕ, String, ◌==◌, eq_iff, eq_false, ◌≡◌, ◌≢◌, refl, sym, subst, ◌∙◌, true, false, none, some, List,
  [], ◌∷◌, arith, optimistic_lock, ok, err, if◌then◌else◌,
}
use redis_kit.Common.Keys.{append-ne_self}
use redis_kit.Common.Integers.{ℤ, pos, ◌+ℤ◌, ◌-ℤ◌, eq_ℤ_iff}
use redis_kit.Redis.Keyspace.{Datum, number, Fields, Keyspace}
use redis_kit.Redis.Fields.{field_of, with_fields}
use redis_kit.Redis.Server.{Follows}
use redis_kit.Repository.Model.{Entity, to_hash, from_hash}
use redis_kit.Repository.Scripts.{differs}
use redis_kit.Repository.Methods.{
  Repository, make_key, history_key, max_history_arg, entity_at, known, save_existing,
  find_including_deleted, find,
}
use redis_kit.Repository.Locking.{extended, Holds, reads, lock_set_refused, lock_set_done}
use redis_kit.Repository.Stored.{IsFaithful, IsModelled, Shows, from_hash_lem}
use redis_kit.Repository.Shown.{to_hash-Shows}

-- The entity that a save at `now` returns.
abbrev pub stamped : ℕ → Entity → Entity
stamped now e = record e { version = e.version +ℤ pos 1; updated_at = some now }

-- What stands under the keys of an entity.
abbrev pub Stored : Repository → String → Fields → List Datum → Keyspace → Type 0
Stored self id l hist s = Holds (make_key self id) (history_key self id) l hist s

pub back_one : (z : ℤ) → (z +ℤ pos 1) -ℤ pos 1 ≡ z
unfolding ◌+ℤ◌ ◌-ℤ◌
back_one z = ground arith

pub history_key-apart :
    (self : Repository) (id : String) → (history_key self id == make_key self id) ≡ false
unfolding history_key
history_key-apart self id =
    eq_false _ _
      (append-ne_self (make_key self id) ":history" (λ e. ground (arith, eq_iff ":history" "")))

pub make_key-apart :
    (self : Repository) (id : String) → (make_key self id == history_key self id) ≡ false
make_key-apart self id = ground (
  arith,
  history_key-apart self id,
  eq_iff (history_key self id) (make_key self id),
  eq_iff (make_key self id) (history_key self id),
)

module _ (self : Repository) (h : Follows self.client) where
  pub found :
      (e : Entity) (d : Datum) (l : Fields) (s : Keyspace)
      → field_of "version" l ≡ some d
      → from_hash self.calendar self.names l ≡ ok e
      → (entity_at self l s ≡ (ok (some e), s)) × (known self l s ≡ (ok e, s))
  unfolding field_of
  found e d [] s there read = ground arith
  found e d (f ∷ l) s there read = rw read (refl, refl)

  pub save_done :
      (now : ℕ) (e : Entity) (l : Fields) (hist : List Datum) (s : Keyspace)
      → Stored self e.id l hist s
      → field_of "version" l ≡ some (number e.version)
      → ((save_existing self now e s).0 ≡ ok (stamped now e))
        × Stored self e.id
            (with_fields (to_hash self.calendar (stamped now e)) l)
            (extended self.encode (max_history_arg self) l hist)
            (save_existing self now e s).1
  unfolding save_existing
  save_done now e l hist s at current =
      let apart = make_key-apart self e.id in
      let fresh : differs (field_of "version" l) (number e.version) ≡ false =
        rw current (ground (arith, eq_ℤ_iff e.version e.version)) in
      let (done, at1) =
        lock_set_done h self.encode apart (history_key-apart self e.id) l
          (to_hash self.calendar (stamped now e)) hist (number e.version) (max_history_arg self) s
          at fresh in
      rw (back_one e.version) (rw done (refl, at1))

  pub save_refused :
      (now : ℕ) (e : Entity) (v : ℤ) (l : Fields) (hist : List Datum) (s : Keyspace)
      → Stored self e.id l hist s
      → field_of "version" l ≡ some (number v)
      → v ≢ e.version
      → save_existing self now e s ≡ (err optimistic_lock, s)
  unfolding save_existing
  save_refused now e v l hist s at current stale =
      let old : differs (field_of "version" l) (number e.version) ≡ true =
        rw current (ground (arith, eq_ℤ_iff v e.version)) in
      rw (back_one e.version) (
        rw
          (lock_set_refused h self.encode (make_key-apart self e.id) (history_key-apart self e.id) l
            (to_hash self.calendar (stamped now e)) hist (number e.version) (max_history_arg self) s
            at old)
          refl)

  next_version : (z : ℤ) → z +ℤ pos 1 ≢ z
  unfolding ◌+ℤ◌
  next_version z e = ground arith

  -- A hash that shows an entity is found as that entity, and `find` hides it once it is deleted.
  -- (The texts of instants are read back, and the entity has the fields of its class, as for
  -- saving.)
  pub read_back :
      (faithful : IsFaithful self.calendar) (e : Entity) (l : Fields) (hist : List Datum)
      (s : Keyspace)
      → Stored self e.id l hist s
      → IsModelled self.names e
      → Shows self.calendar e l
      → (find_including_deleted self e.id s ≡ (ok (some e), s))
        × (find self e.id s ≡ (ok (if e.deleted then none else some e), s))
  unfolding find_including_deleted find
  read_back faithful e l hist s at model shows =
      let (_, all) =
        reads h self.encode (make_key-apart self e.id) (history_key-apart self e.id) l hist s at in
      let there =
        (found e (number e.version) l s shows.version
          (from_hash_lem faithful self.names e l model shows)).0 in
      rw all (there, rw there refl)

  -- Optimistic locking: of two savers that read the same version of a stored entity, the first
  -- writes its entity, and the second gets `OptimisticLockError` and changes nothing. Then the
  -- entity of the first is what the key holds. (The texts of instants are read back and are not
  -- the text that stands for `None`; the further fields of the entity are those of its class,
  -- under different names that are none of the base fields', with no value or id that stands for
  -- `None`.)
  pub lost_update :
      (faithful : IsFaithful self.calendar) (now later : ℕ) (mine yours : Entity) (l : Fields)
      (hist : List Datum) (s : Keyspace)
      → Stored self mine.id l hist s
      → yours.id ≡ mine.id
      → yours.version ≡ mine.version
      → field_of "version" l ≡ some (number mine.version)
      → IsModelled self.names mine
      → let after = (save_existing self now mine s).1 in
        ((save_existing self now mine s).0 ≡ ok (stamped now mine))
        × (save_existing self later yours after ≡ (err optimistic_lock, after))
        × (find_including_deleted self mine.id after ≡ (ok (some (stamped now mine)), after))
  lost_update faithful now later mine yours l hist s at same_id same_version current model =
      let new = stamped now mine in
      let (done, at1) = save_done now mine l hist s at current in
      let after = (save_existing self now mine s).1 in
      let written = with_fields (to_hash self.calendar new) l in
      let history = extended self.encode (max_history_arg self) l hist in
      let modelled : IsModelled self.names new = record {
        named = model.named;
        distinct = model.distinct;
        further = model.further;
        clean = model.clean;
        id_clean = model.id_clean;
      } in
      let shows = to_hash-Shows self.calendar self.names new l modelled in
      (
        done,
        save_refused later yours new.version written history after
            (subst (λ i. Stored self i written history after) (sym same_id) at1) shows.version
            (λ e. next_version mine.version (e ∙ same_version)),
        (read_back faithful new written history after at1 modelled shows).0,
      )
