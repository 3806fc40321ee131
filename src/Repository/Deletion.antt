-- ===== src/Repository/Deletion.antt =====
-- Deletion, restoration and the history of an entity.
use redis_kit.Common.{
  ℕ, zero, suc, String, ◌≡◌, refl, sym, ap, subst, ◌∙◌, true, false, Option, none, some, List, ◌∷◌,
  arith, All, take, length, length-take-le, ◌≤◌, ok,
}
use redis_kit.Common.Integers.{pos, negsuc, ◌+ℤ◌, eq_ℤ_iff}
use redis_kit.Redis.Keyspace.{Datum, text, number, datum_eq, Fields, Keyspace}
use redis_kit.Redis.Fields.{field_of, with_fields}
use redis_kit.Redis.Server.{Follows}
use redis_kit.Repository.Model.{Entity, none_sentinel}
use redis_kit.Repository.Scripts.{absent_or_differs}
use redis_kit.Repository.Methods.{
  Repository, history_key, max_history_arg, marks, save_existing, find_including_deleted, find,
  delete, restore,
}
use redis_kit.Repository.Locking.{bounded, extended, reads, listed, partial_set_done}
use redis_kit.Repository.Stored.{
  IsFaithful, IsModelled, Further, Clean, Distinct, names_of, Shows, from_hash_lem,
}
use redis_kit.Repository.Shown.{marked, marks-Shows}
use redis_kit.Repository.Updates.{
  Stored, history_key-apart, make_key-apart, found, save_done, read_back,
}

-- What `max_history` leaves of a history.
abbrev pub kept_of : Option ℕ → List Datum → List Datum
kept_of (some (suc n)) l = take (suc n) l
kept_of _ l = l

abbrev pub IsWithin : Option ℕ → List Datum → Type 0
IsWithin (some (suc n)) l = length l ≤ suc n
IsWithin _ l = Unit

kept-bounded :
    (m : Option ℕ) (l : List Datum)
    → bounded (elim m [ none ↦ negsuc 0 | some n ↦ pos n ]) l ≡ kept_of m l
kept-bounded none l = refl
kept-bounded (some zero) l = refl
kept-bounded (some (suc n)) l = refl

kept_of-IsWithin : (m : Option ℕ) (l : List Datum) → IsWithin m (kept_of m l)
kept_of-IsWithin none l = tt
kept_of-IsWithin (some zero) l = tt
kept_of-IsWithin (some (suc n)) l = length-take-le (suc n) l

module _ (self : Repository) (h : Follows self.client) where
  still :
      (faithful : IsFaithful self.calendar) (e x : Entity)
      → IsModelled self.names e
      → x.extra ≡ e.extra
      → x.id ≡ e.id
      → IsModelled self.names x
  still faithful e x m p q = record {
    named = m.named ∙ ap names_of (sym p);
    distinct = subst Distinct (sym p) m.distinct;
    further = subst (All Further) (sym p) m.further;
    clean = subst (All Clean) (sym p) m.clean;
    id_clean = ap (λ i. datum_eq (text i) none_sentinel) q ∙ m.id_clean;
  }

  delete_done :
      (faithful : IsFaithful self.calendar) (now : ℕ) (e : Entity) (l : Fields) (hist : List Datum)
      (s : Keyspace)
      → Stored self e.id l hist s
      → IsModelled self.names e
      → Shows self.calendar e l
      → ((delete self now e.id s).0 ≡ ok tt)
        × Stored self e.id
            (with_fields (marks self now true (some now) (e.version +ℤ pos 1)) l)
            (extended self.encode (max_history_arg self) l hist)
            (delete self now e.id s).1
  unfolding delete
  delete_done faithful now e l hist s at model shows =
      let apart = make_key-apart self e.id in
      let apart' = history_key-apart self e.id in
      let (_, all) = reads h self.encode apart apart' l hist s at in
      let there =
        (found self h e (number e.version) l s shows.version
          (from_hash_lem faithful self.names e l model shows)).1 in
      let fresh : absent_or_differs (field_of "version" l) (number e.version) ≡ false =
        rw (shows.version) (ground (arith, eq_ℤ_iff e.version e.version)) in
      let (done, at1) =
        partial_set_done h self.encode apart apart' l
          (marks self now true (some now) (e.version +ℤ pos 1)) hist (number e.version)
          (max_history_arg self) s at fresh in
      rw all (rw there (rw done (refl, at1)))

  restore_done :
      (faithful : IsFaithful self.calendar) (now : ℕ) (e : Entity) (l : Fields) (hist : List Datum)
      (s : Keyspace)
      → Stored self e.id l hist s
      → IsModelled self.names e
      → Shows self.calendar e l
      → e.deleted ≡ true
      → ((restore self now e.id s).0
          ≡ ok (marked self.calendar now false none (e.version +ℤ pos 1) e))
        × Stored self e.id
            (with_fields (marks self now false none (e.version +ℤ pos 1)) l)
            (extended self.encode (max_history_arg self) l hist)
            (restore self now e.id s).1
  unfolding restore
  restore_done faithful now e l hist s at model shows was =
      let apart = make_key-apart self e.id in
      let apart' = history_key-apart self e.id in
      let (_, all) = reads h self.encode apart apart' l hist s at in
      let there =
        (found self h e (number e.version) l s shows.version
          (from_hash_lem faithful self.names e l model shows)).1 in
      let fresh : absent_or_differs (field_of "version" l) (number e.version) ≡ false =
        rw (shows.version) (ground (arith, eq_ℤ_iff e.version e.version)) in
      let (done, at1) =
        partial_set_done h self.encode apart apart' l
          (marks self now false none (e.version +ℤ pos 1)) hist (number e.version)
          (max_history_arg self) s at fresh in
      rw all (rw there (rw was (rw done (refl, at1))))

  -- A deleted entity is hidden from `find` but still found by `find_including_deleted`, marked as
  -- deleted; `restore` then makes `find` return it again. Each of the two steps adds 1 to the
  -- version. (The texts of instants are read back, the entity has the fields of its class, and
  -- the hash shows it.)
  pub delete_then_restore :
      (faithful : IsFaithful self.calendar) (now later : ℕ) (e : Entity) (l : Fields)
      (hist : List Datum) (s : Keyspace)
      → Stored self e.id l hist s
      → IsModelled self.names e
      → Shows self.calendar e l
      → let gone = marked self.calendar now true (some now) (e.version +ℤ pos 1) e in
        let back = marked self.calendar later false none ((e.version +ℤ pos 1) +ℤ pos 1) e in
        let deleted = (delete self now e.id s).1 in
        let restored = (restore self later e.id deleted).1 in
        ((delete self now e.id s).0 ≡ ok tt)
        × (find self e.id deleted ≡ (ok none, deleted))
        × (find_including_deleted self e.id deleted ≡ (ok (some gone), deleted))
        × ((restore self later e.id deleted).0 ≡ ok back)
        × (find self e.id restored ≡ (ok (some back), restored))
  delete_then_restore faithful now later e l hist s at model shows =
      let c = self.calendar in
      let n = max_history_arg self in
      let v = e.version +ℤ pos 1 in
      let gone = marked c now true (some now) v e in
      let back = marked c later false none (v +ℤ pos 1) e in
      let l1 = with_fields (marks self now true (some now) v) l in
      let l2 = with_fields (marks self later false none (v +ℤ pos 1)) l1 in
      let hist1 = extended self.encode n l hist in
      let shows1 = marks-Shows self now true (some now) v e l model.further shows in
      let shows2 = marks-Shows self later false none (v +ℤ pos 1) gone l1 model.further shows1 in
      let (done, at1) = delete_done faithful now e l hist s at model shows in
      let s1 = (delete self now e.id s).1 in
      let model1 = still faithful e gone model refl refl in
      let model2 = still faithful e back model refl refl in
      let (seen, hidden) = read_back self h faithful gone l1 hist1 s1 at1 model1 shows1 in
      let (done2, at2) = restore_done faithful later gone l1 hist1 s1 at1 model1 shows1 refl in
      let (_, visible) =
        read_back self h faithful back l2 (extended self.encode n l1 hist1)
          (restore self later e.id s1).1 at2 model2 shows2 in
      (done, hidden, seen, done2, visible)

  -- A save puts what the hash held before in front of the history. Without a bound `max_history`,
  -- and with a bound of 0, all of the history is kept; with a bound of 1 or more the newest entries
  -- up to the bound, so that the history never grows beyond it. (The hash holds the version that the
  -- save expects.)
  pub history_bounded :
      (now : ℕ) (e : Entity) (f : String × Datum) (l : Fields) (hist : List Datum) (s : Keyspace)
      → Stored self e.id (f ∷ l) hist s
      → field_of "version" (f ∷ l) ≡ some (number e.version)
      → let kept = kept_of self.max_history (self.encode (f ∷ l) ∷ hist) in
        let after = (save_existing self now e s).1 in
        (self.client.lrange_all (history_key self e.id) after ≡ (ok kept, after))
        × IsWithin self.max_history kept
  unfolding max_history_arg
  history_bounded now e f l hist s at current =
      let at1 = (save_done self h now e (f ∷ l) hist s at current).1 in
      (
        rw (listed h self.encode (make_key-apart self e.id) (history_key-apart self e.id) _ _ _ at1)
            (rw (kept-bounded self.max_history (self.encode (f ∷ l) ∷ hist)) refl),
        kept_of-IsWithin self.max_history (self.encode (f ∷ l) ∷ hist),
      )
