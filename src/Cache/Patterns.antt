-- ===== src/Cache/Patterns.antt =====
-- What `delete_pattern` deletes, in batches of any size.
use redis_kit.Common.{
  ℕ, ◌+◌, String, ◌==◌, ◌≡◌, refl, ap, sym, ◌∙◌, Bool, false, ◌||◌, Bool-cases, inl, inr, none,
  List, [], ◌∷◌, ◌++◌, map, arith, length, length-append, leb, Result, ok, if◌then◌else◌,
}
use mathlib.Core.List.{append_assoc, append-nil}
use redis_kit.Redis.Keyspace.{Keyspace, remove}
use redis_kit.Redis.Documented.Strings.{present, del, del_many, remove_all}
use redis_kit.Redis.Server.{Redis, Follows, documented, same}
use redis_kit.Cache.Policy.{World, notify, before}
use redis_kit.Cache.Client.{Cache}
use redis_kit.Cache.Bulk.{
  pipeline, flush_delete_batch, delete_loop, delete_reported, delete_pattern,
}

abbrev pub elem : String → List String → Bool
elem j [] = false
elem j (k ∷ ks) = k == j || elem j ks

cell-remove_all :
    (j : String) (ks : List String) (s : Keyspace)
    → (remove_all ks s).cell j ≡ (if elem j ks then none else s.cell j)
cell-remove_all j [] s = refl
cell-remove_all j (k ∷ ks) s = ground (arith, cell-remove_all j ks (remove k s))

remove_all-append :
    (ks js : List String) (s : Keyspace) → remove_all (ks ++ js) s ≡ remove_all js (remove_all ks s)
remove_all-append [] js s = refl
remove_all-append (k ∷ ks) js s = remove_all-append ks js (remove k s)

module _ {r : Redis} (f : Follows r) where
  pub del-remove : (k : String) (s : Keyspace) → r.del k s ≡ (ok (present (s.cell k)), remove k s)
  del-remove k s = rw (same f) (unfold documented del in refl)

  piped :
      (ks : List String) (s : Keyspace)
      → (bs : List Bool) × (pipeline (map r.del ks) s ≡ (ok bs, remove_all ks s))
  unfolding pipeline
  piped [] s = ([], refl)
  piped (k ∷ ks) s =
      let (bs, e) = piped ks (remove k s) in (present (s.cell k) ∷ bs, rw (del-remove k s, e) refl)

  at_once :
      (k : String) (ks : List String) (s : Keyspace)
      → r.del_many (k ∷ ks) s ≡ (ok tt, remove_all (k ∷ ks) s)
  at_once k ks s = rw (same f) (unfold documented del_many in refl)

module _ {ℓ} {V : Type ℓ} (self : Cache V) (h : Follows self.client) where
  flushed :
      (k : String) (ks : List String) (s : Keyspace)
      → flush_delete_batch self (k ∷ ks) s ≡ (ok tt, remove_all (k ∷ ks) s)
  unfolding flush_delete_batch
  flushed k ks s =
      let (bs, e) = piped h (k ∷ ks) s in
      elim (Bool-cases self.is_cluster) [
        | inl c ↦ rw (c, e) refl
        | inr c ↦ rw (c, at_once h k ks s) refl
      ]

  flushed_behind :
      (k : String) (ks : List String) (s : Keyspace)
      → flush_delete_batch self (ks ++ k ∷ []) s ≡ (ok tt, remove_all (ks ++ k ∷ []) s)
  flushed_behind k [] s = flushed k [] s
  flushed_behind k (j ∷ ks) s = flushed j (ks ++ k ∷ []) s

  pub delete_loop_total :
      (n : ℕ) (found : List String) (count : ℕ) (batch : List String) (s : Keyspace)
      → delete_loop self n none found count batch s
        ≡ (ok (count + length batch + length found), remove_all (batch ++ found) s)
  unfolding delete_loop
  delete_loop_total n [] count [] s = ap (λ x. (ok x, s)) (omega arith)
  delete_loop_total n [] count (b ∷ bs) s =
      rw (flushed b bs s, append-nil bs) (ap (λ x. (ok x, remove_all (b ∷ bs) s)) (omega arith))
  delete_loop_total n (k ∷ found) count batch s =
      elim (Bool-cases (leb n (length (batch ++ k ∷ [])))) [
        | inl e ↦
            rw (e, flushed_behind k batch s)
              (delete_loop_total n found (count + length (batch ++ k ∷ [])) []
                  (remove_all (batch ++ k ∷ []) s)
                ∙ reached (omega (arith, length-append batch (k ∷ [])))
                    (sym (remove_all-append (batch ++ k ∷ []) found s) ∙ regroup))
        | inr e ↦ rw e (
            delete_loop_total n found count (batch ++ k ∷ []) s
            ∙ reached (omega (arith, length-append batch (k ∷ []))) regroup)
      ]
    where
      reached :
          {a b : ℕ} {t u : Keyspace}
          → a ≡ b
          → t ≡ u
          → Path (Result ℕ × Keyspace) (ok a, t) (ok b, u)
      reached e e' = λ i. (ok (e i), e' i)

      regroup : remove_all ((batch ++ k ∷ []) ++ found) s ≡ remove_all (batch ++ k ∷ found) s
      regroup = ap (λ l. remove_all l s) (append_assoc batch (k ∷ []) found)

  -- `delete_pattern` deletes exactly the keys that the scan yields and returns how many it yielded,
  -- in batches of any size, in a cluster or not, when server and scan raise no error.
  pub delete_pattern_lem :
      (found : List String) (pattern' : String) (batch_size : ℕ) (w : World)
      → ((delete_pattern self found none pattern' batch_size w).0 ≡ ok (length found))
        × ((j : String)
            → (delete_pattern self found none pattern' batch_size w).1.store.cell j
              ≡ (if elem j found then none else w.store.cell j))
  unfolding delete_pattern notify
  delete_pattern_lem found pattern' batch_size w = (
    ap (λ x. x.0) outcome,
    λ j. ap (λ x. x.1.store.cell j) outcome ∙ cell-remove_all j found w.store,
  )
    where
      begun : World
      begun = (notify before "DELETE_PATTERN" pattern' w).1

      outcome :
          delete_pattern self found none pattern' batch_size w
          ≡ delete_reported self pattern'
              (ok (length found), record begun { store = remove_all found w.store })
      outcome =
          ap (λ x. delete_reported self pattern' (x.0, record begun { store = x.1 }))
            (delete_loop_total batch_size found 0 [] w.store
              ∙ ap (λ n. (ok n, remove_all found w.store)) (omega arith))
