-- ===== src/Queue/Moves.antt =====
-- What LPUSH, LREM and LMOVE do to the two lists of a queue.
use redis_kit.Common.{String, ◌==◌, eq_refl, ◌≡◌, false, none, some, List, [], ◌∷◌, arith, ok}
use redis_kit.Redis.Keyspace.{Datum, Keyspace}
use redis_kit.Redis.Documented.Lists.{items_at, lpush, lrem, lmove, remove_first, split_last}
use redis_kit.Redis.Server.{Redis, Follows, documented, same}

-- The lists under two keys.
pub record Lists (a b : String) (l m : List Datum) (s : Keyspace) : Type 0 where
  pub first : items_at (s.cell a) ≡ ok l
  pub second : items_at (s.cell b) ≡ ok m

module _ {r : Redis} (h : Follows r) {a b : String} (apart : (a == b) ≡ false)
    (apart' : (b == a) ≡ false) where
  pub lpush-Lists :
      (d : Datum) (l m : List Datum) (s : Keyspace)
      → Lists a b l m s
      → ((r.lpush a d s).0 ≡ ok tt) × Lists a b (d ∷ l) m (r.lpush a d s).1
  lpush-Lists d l m s at =
      rw (same h) (unfold documented lpush in (ground arith, ground (arith, eq_refl a)))

  pub lrem-Lists :
      (d : Datum) (l m : List Datum) (s : Keyspace)
      → Lists a b l m s
      → ((r.lrem b d s).0 ≡ ok tt) × Lists a b l (remove_first d m) (r.lrem b d s).1
  lrem-Lists d l m s at =
      rw (same h) (unfold documented lrem in (ground arith, ground (arith, eq_refl b)))

  pub lmove_empty :
      (m : List Datum) (s : Keyspace) → Lists a b [] m s → r.lmove a b s ≡ (ok none, s)
  lmove_empty m s at = rw (same h) (unfold documented lmove split_last in ground arith)

  pub lmove-Lists :
      (d : Datum) (rest l m : List Datum) (s : Keyspace)
      → Lists a b l m s
      → split_last l ≡ some (rest, d)
      → ((r.lmove a b s).0 ≡ ok (some d)) × Lists a b rest (d ∷ m) (r.lmove a b s).1
  lmove-Lists d [] l m s at e =
      rw (same h) (unfold documented lmove in (ground arith, ground (arith, eq_refl a, eq_refl b)))
  lmove-Lists d (x ∷ rest) l m s at e =
      rw (same h) (unfold documented lmove in (ground arith, ground (arith, eq_refl a, eq_refl b)))
