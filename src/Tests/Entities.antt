-- ===== src/Tests/Entities.antt =====
-- The repository.
use Prim.Native.String.{◌++◌, count}
use package.text.Mathlib.TextLemmas.{length-append}
use redis_kit.Common.{
  eq_false, Bool-cases, inl, inr, nat_eq, sym, subst, ap, ◌∙◌, ◌-◌, ℕ, zero, suc, ◌≤◌, String, ◌==◌,
  ◌≡◌, refl, true, false, none, some, [], ◌∷◌, arith, optimistic_lock, repository, ok, err,
  if◌then◌else◌,
}
use redis_kit.Common.Integers.{pos, ◌+ℤ◌}
use redis_kit.Redis.Keyspace.{list, datum_eq, text, number, hash, members, Fields, Keyspace}
use redis_kit.Redis.Fields.{field_of, with_fields}
use redis_kit.Redis.Server.{documented, documented-Follows}
use redis_kit.Repository.Model.{Calendar, Entity, none_sentinel, to_hash, read_optional}
use redis_kit.Repository.Methods.{
  Repository, make_key, history_key, save_existing, find_including_deleted, find, delete, restore,
}
use redis_kit.Repository.Methods
use redis_kit.Repository.Listing.{gathered, find_all, find_all-find}
use redis_kit.Async.Task.{run}
use redis_kit.Async.Repositories
use redis_kit.Async.RepositoriesRun.{run-repository}
use redis_kit.Redis.Documented.Sets
use redis_kit.Redis.Documented.Hashes
use redis_kit.Repository.Stored.{IsFaithful, IsModelled, Shows}
use redis_kit.Repository.Shown.{to_hash-Shows, marked}
use redis_kit.Repository.Updates.{Stored, stamped, read_back, lost_update}
use redis_kit.Repository.Deletion.{delete_then_restore, history_bounded}

-- An instant is written as that many strokes.
tally : ℕ → String
tally zero = "|"
tally (suc n) = "|" ++ tally n

abbrev days : Calendar
days = record { iso = tally; from_iso = λ s. some (count s - 1); int_of = λ _. none }

counted : (t : ℕ) → count (tally t) ≡ suc t
unfolding tally
counted zero = refl
counted (suc t) = omega (arith, length-append "|" (tally t), counted t)

stroke : (t : ℕ) → datum_eq (text (tally t)) none_sentinel ≡ false
unfolding tally
stroke t = elim (Bool-cases (nat_eq t 9)) [
  | inl e ↦
      let nine : 9 ≡ t = ground arith in
      subst (λ n. datum_eq (text (tally n)) none_sentinel ≡ false) nine refl
  | inr e ↦ eq_false _ _ (λ p. let long : suc t ≡ 10 = sym (counted t) ∙ ap count p in ground arith)
]

days-IsFaithful : IsFaithful days
days-IsFaithful = record {
  from_iso-iso = λ t. ap some (omega (arith, counted t));
  no_sentinel = stroke;
}

abbrev alice : Entity
alice = record {
  id = "u1";
  version = pos 3;
  created_at = some 1;
  updated_at = some 2;
  deleted = false;
  deleted_at = none;
  extra = ("name", some (text "Alice")) ∷ ("note", none) ∷ [];
}

-- What another client made of the same version.
abbrev alicia : Entity
alicia = record alice { extra = ("name", some (text "Alicia")) ∷ ("note", none) ∷ [] }

alice-IsModelled : IsModelled ("name" ∷ "note" ∷ []) alice
unfolding read_optional
alice-IsModelled = record {
  named = refl;
  distinct = ((refl, tt), (tt, tt));
  further = ((refl, refl, refl, refl, refl, refl), ((refl, refl, refl, refl, refl, refl), tt));
  clean = (refl, (refl, tt));
  id_clean = refl;
}

alicia-IsModelled : IsModelled ("name" ∷ "note" ∷ []) alicia
unfolding read_optional
alicia-IsModelled = record {
  named = refl;
  distinct = ((refl, tt), (tt, tt));
  further = ((refl, refl, refl, refl, refl, refl), ((refl, refl, refl, refl, refl, refl), tt));
  clean = (refl, (refl, tt));
  id_clean = refl;
}

abbrev users : Repository
users = record {
  client = documented;
  calendar = days;
  encode = λ l. text "old";
  decode = λ d. err repository;
  names = "name" ∷ "note" ∷ [];
  prefix = "user";
  max_history = some 2;
}

-- The hash of `alice` and an empty history.
abbrev alice_hash : Fields
alice_hash = with_fields (to_hash days alice) []

abbrev stored : Keyspace
stored = record {
  cell = λ k.
      if k == make_key users "u1"
      then some (record { value = hash alice_hash; expires = none })
      else none;
  clock = 0;
}

alice-Shows : Shows days alice alice_hash
alice-Shows = to_hash-Shows days ("name" ∷ "note" ∷ []) alice [] alice-IsModelled

alice-Stored : Stored users "u1" alice_hash [] stored
unfolding make_key history_key
alice-Stored = record { fields = refl; history = refl }

read_back_example :
    (find_including_deleted users "u1" stored ≡ (ok (some alice), stored))
    × (find users "u1" stored ≡ (ok (some alice), stored))
read_back_example =
    read_back users documented-Follows days-IsFaithful alice alice_hash [] stored alice-Stored
      alice-IsModelled alice-Shows

lost_update_example :
    let after = (save_existing users 5 alice stored).1 in
    ((save_existing users 5 alice stored).0 ≡ ok (stamped 5 alice))
    × (save_existing users 6 alicia after ≡ (err optimistic_lock, after))
    × (find_including_deleted users "u1" after ≡ (ok (some (stamped 5 alice)), after))
lost_update_example =
    lost_update users documented-Follows days-IsFaithful 5 6 alice alicia alice_hash [] stored
      alice-Stored refl refl (alice-Shows.version) alice-IsModelled

delete_then_restore_example :
    let gone = marked days 5 true (some 5) (pos 4) alice in
    let back = marked days 6 false none (pos 5) alice in
    let deleted = (delete users 5 "u1" stored).1 in
    let restored = (restore users 6 "u1" deleted).1 in
    ((delete users 5 "u1" stored).0 ≡ ok tt)
    × (find users "u1" deleted ≡ (ok none, deleted))
    × (find_including_deleted users "u1" deleted ≡ (ok (some gone), deleted))
    × ((restore users 6 "u1" deleted).0 ≡ ok back)
    × (find users "u1" restored ≡ (ok (some back), restored))
unfolding ◌+ℤ◌
delete_then_restore_example =
    delete_then_restore users documented-Follows days-IsFaithful 5 6 alice alice_hash [] stored
      alice-Stored alice-IsModelled alice-Shows

-- A hash with a version only, and a history of two entries, the bound.
abbrev bare : Keyspace
bare = record {
  cell = λ k.
      if k == make_key users "u1"
      then some (record { value = hash (("version", number (pos 3)) ∷ []); expires = none })
      else some (record { value = list (text "b" ∷ text "a" ∷ []); expires = none });
  clock = 0;
}

bare-Stored : Stored users "u1" (("version", number (pos 3)) ∷ []) (text "b" ∷ text "a" ∷ []) bare
unfolding make_key history_key
bare-Stored = record { fields = refl; history = refl }

current : field_of "version" (("version", number (pos 3)) ∷ []) ≡ some (number (pos 3))
unfolding field_of
current = refl

history_bounded_example :
    let after = (save_existing users 5 alice bare).1 in
    (documented.lrange_all (history_key users "u1") after
      ≡ (ok (text "old" ∷ text "b" ∷ []), after))
    × (2 ≤ 2)
history_bounded_example =
    history_bounded users documented-Follows 5 alice ("version", number (pos 3)) []
      (text "b" ∷ text "a" ∷ []) bare bare-Stored current

-- The index names one user, who is there.
abbrev indexed : Keyspace
indexed = record {
  cell = λ k.
      if k == "user:_index"
      then some (record { value = members (text "u1" ∷ []); expires = none })
      else some (record { value = hash alice_hash; expires = none });
  clock = 0;
}

one_member : documented.smembers (Methods.index_key users) indexed ≡ (ok (text "u1" ∷ []), indexed)
unfolding documented Sets.smembers Methods.index_key
one_member = refl

hash_there : documented.hgetall (make_key users "u1") indexed ≡ (ok alice_hash, indexed)
unfolding documented Hashes.hgetall make_key
hash_there = refl

find_all-find_example :
    (find_all users (λ n. "") true indexed).0
    ≡ gathered users ((Methods.find users "u1" indexed).0 ∷ [])
find_all-find_example =
    find_all-find users indexed (λ _. alice_hash) (λ n. "") true (text "u1" ∷ []) one_member
      (hash_there, tt)

run-repository_example :
    (run (Repositories.save users 9 "u2" alice) stored ≡ Methods.save users 9 "u2" alice stored)
    × (run (Repositories.find users "u1") stored ≡ Methods.find users "u1" stored)
    × (run (Repositories.find_including_deleted users "u1") stored
        ≡ Methods.find_including_deleted users "u1" stored)
    × (run (Repositories.delete users 9 "u1") stored ≡ Methods.delete users 9 "u1" stored)
    × (run (Repositories.hard_delete users "u1") stored ≡ Methods.hard_delete users "u1" stored)
    × (run (Repositories.restore users 9 "u1") stored ≡ Methods.restore users 9 "u1" stored)
    × (run (Repositories.find_all users (λ n. "") false) stored
        ≡ find_all users (λ n. "") false stored)
    × (run (Repositories.get_history users "u1") stored ≡ Methods.get_history users "u1" stored)
run-repository_example = run-repository users 9 "u2" "u1" alice (λ n. "") false stored
