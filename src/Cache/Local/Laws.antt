-- ===== src/Cache/Local/Laws.antt =====
-- The local cache as its callers see it.
use native.Mathlib.Nat.{le_trans}
use redis_kit.Common.{
  ℕ, zero, suc, ◌+◌, ◌-◌, ◌≤◌, ◌<◌, String, eq_refl, ◌≡◌, ◌⊎◌, ◌∙◌, refl, Bool, true, false, ◌&&◌,
  Option, none, some, [], ◌∷◌, ◌++◌, arith, length, drop, length-append, ltb, max, ◌/◌,
  if◌then◌else◌, Bool-cases, inl, inr,
}
use redis_kit.Cache.Local.{
  Entries, LruCache, find, without, move_to_end, expired_sample, evict_expired_sample, get,
  effective_ttl, set, delete,
}
use redis_kit.Cache.Local.Order.{
  Unique, find-without, without-Unique, append-Unique, assign-move_to_end, shrink-drop,
  find-drop_last, drop-Unique, without_all-Unique, find-without_all, length-without-le,
  length-without_all-le, length-without_found, sample_alive, find-without_all_cases,
}

-- At most `maxsize` entries, and no key twice.
pub record IsValid {ℓ} {V : Type ℓ} (self : LruCache V) : Type ℓ where
  pub distinct : Unique self.entries
  pub bounded : length self.entries ≤ self.maxsize

module _ {ℓ} {V : Type ℓ} where
  length-drop : (n : ℕ) (l : Entries V) → length (drop n l) ≡ length l - n
  length-drop zero l = omega arith
  length-drop (suc n) [] = omega arith
  length-drop (suc n) (e ∷ l) = omega (arith, length-drop n l)

  -- What is stored before the clean-up: the key moves to the end, the oldest entries give way.
  abbrev kept : ℕ → String → V → ℕ → Entries V → Entries V
  kept maxsize key v t l =
      let stored = without key l ++ (key, v, t) ∷ [] in drop (length stored - maxsize) stored

  set-kept :
      (now again : ℕ) (lucky : Bool) (key : String) (v : V) (ttl : Option ℕ) (self : LruCache V)
      → (set now again lucky key v ttl self).entries ≡ (
          let k = kept self.maxsize key v (now + effective_ttl self ttl) self.entries in
          if ltb 10 (length k) && lucky then evict_expired_sample again k else k)
  unfolding set
  set-kept now again lucky key v ttl self = simp (assign-move_to_end, shrink-drop)

  -- Without the clean-up, the cache after a `set` is the other entries in their order and then the
  -- key with its new value and deadline, cut down to the `maxsize` newest.
  pub set_keeps_newest :
      (now again : ℕ) (key : String) (v : V) (ttl : Option ℕ) (self : LruCache V)
      → (set now again false key v ttl self).entries ≡ (
          let stored = without key self.entries ++ (key, v, now + effective_ttl self ttl) ∷ [] in
          drop (length stored - self.maxsize) stored)
  set_keeps_newest now again key v ttl self =
      rw (set-kept now again false key v ttl self) (ground arith)

  kept-Unique :
      (maxsize : ℕ) (key : String) (v : V) (t : ℕ) (l : Entries V)
      → Unique l
      → Unique (kept maxsize key v t l)
  kept-Unique maxsize key v t l u = drop-Unique _ (without key l ++ (key, v, t) ∷ []) (
      append-Unique key v t (without key l) (without-Unique key l u)
        (ground (arith, find-without key key l, eq_refl key)))

  kept-le :
      (maxsize : ℕ) (key : String) (v : V) (t : ℕ) (l : Entries V)
      → length (kept maxsize key v t l) ≤ maxsize
  kept-le maxsize key v t l =
      let stored = without key l ++ (key, v, t) ∷ [] in
      omega (arith, length-drop (length stored - maxsize) stored)

  -- The clean-up, which runs or not.
  abbrev cleaned : Bool → ℕ → Entries V → Entries V
  cleaned b now l = if b then evict_expired_sample now l else l

  cleaned-Unique : (b : Bool) (now : ℕ) (l : Entries V) → Unique l → Unique (cleaned b now l)
  unfolding evict_expired_sample
  cleaned-Unique true now l u =
      without_all-Unique (expired_sample now (max 1 (length l / 10)) 0 l) l u
  cleaned-Unique false now l u = u

  length-cleaned-le : (b : Bool) (now : ℕ) (l : Entries V) → length (cleaned b now l) ≤ length l
  unfolding evict_expired_sample
  length-cleaned-le true now l =
      length-without_all-le (expired_sample now (max 1 (length l / 10)) 0 l) l
  length-cleaned-le false now l = omega arith

  find-cleaned_alive :
      (b : Bool) (now : ℕ) (key : String) (v : V) (t : ℕ) (l : Entries V)
      → Unique l
      → find key l ≡ some (v, t)
      → ltb t now ≡ false
      → find key (cleaned b now l) ≡ some (v, t)
  unfolding evict_expired_sample
  find-cleaned_alive true now key v t l u f alive =
      let step = max 1 (length l / 10) in
      find-without_all (expired_sample now step 0 l) key l
        (sample_alive now step 0 key v t l u f alive)
      ∙ f
  find-cleaned_alive false now key v t l u f alive = f

  find-cleaned_cases :
      (b : Bool) (now : ℕ) (key : String) (l : Entries V)
      → (find key (cleaned b now l) ≡ none) ⊎ (find key (cleaned b now l) ≡ find key l)
  unfolding evict_expired_sample
  find-cleaned_cases true now key l =
      find-without_all_cases (expired_sample now (max 1 (length l / 10)) 0 l) key l
  find-cleaned_cases false now key l = inr refl

  find-kept :
      (maxsize : ℕ) (key : String) (v : V) (t : ℕ) (l : Entries V)
      → 0 < maxsize
      → find key (kept maxsize key v t l) ≡ some (v, t)
  find-kept maxsize key v t l pos =
      let stored = without key l ++ (key, v, t) ∷ [] in
      find-drop_last key v t (length stored - maxsize) (without key l)
        (ground (arith, find-without key key l, eq_refl key))
        (omega (arith, length-append (without key l) ((key, v, t) ∷ [])))

  maxsize-set :
      (now again : ℕ) (lucky : Bool) (key : String) (v : V) (ttl : Option ℕ) (self : LruCache V)
      → (set now again lucky key v ttl self).maxsize ≡ self.maxsize
  unfolding set
  maxsize-set now again lucky key v ttl self = refl

  reply-get :
      (now : ℕ) (key : String) (self : LruCache V)
      → (get now key self).0 ≡ elim (find key self.entries) [
        | none ↦ none
        | some (v, t) ↦ if ltb t now then none else some v
      ]
  unfolding get
  reply-get now key self = ground arith

  -- Storing keeps the cache valid: never more than `maxsize` entries, never a key twice, whatever
  -- the clean-up removes.
  pub set-IsValid :
      (now again : ℕ) (lucky : Bool) (key : String) (v : V) (ttl : Option ℕ) (self : LruCache V)
      → IsValid self
      → IsValid (set now again lucky key v ttl self)
  set-IsValid now again lucky key v ttl self valid =
      let k = kept self.maxsize key v (now + effective_ttl self ttl) self.entries in
      let b = ltb 10 (length k) && lucky in
      let unique : Unique k =
        kept-Unique self.maxsize key v (now + effective_ttl self ttl) self.entries valid.distinct in
      record {
        distinct = rw (set-kept now again lucky key v ttl self) (cleaned-Unique b again k unique);
        bounded =
            rw (set-kept now again lucky key v ttl self, maxsize-set now again lucky key v ttl self)
              (le_trans (length-cleaned-le b again k)
                (kept-le self.maxsize key v (now + effective_ttl self ttl) self.entries));
      }

  move_to_end_found :
      (key : String) (v : V) (t : ℕ) (l : Entries V)
      → find key l ≡ some (v, t)
      → move_to_end key l ≡ without key l ++ (key, v, t) ∷ []
  unfolding move_to_end
  move_to_end_found key v t l e = rw (e, move_to_end)

  -- Reading keeps the cache valid too: never more than `maxsize` entries, never a key twice.
  pub get-IsValid :
      (now : ℕ) (key : String) (self : LruCache V) → IsValid self → IsValid (get now key self).1
  unfolding get
  get-IsValid now key self valid = go (find key self.entries) refl
    where
      moved :
          (v : V) (t : ℕ)
          → find key self.entries ≡ some (v, t)
          → IsValid (record self { entries = move_to_end key self.entries })
      moved v t e = record {
        distinct = rw (move_to_end_found key v t self.entries e) (
            append-Unique key v t (without key self.entries)
              (without-Unique key self.entries valid.distinct)
              (ground (arith, find-without key key self.entries, eq_refl key)));
        bounded = rw (move_to_end_found key v t self.entries e) (
            omega (
              arith,
              length-append (without key self.entries) ((key, v, t) ∷ []),
              length-without_found key v t self.entries e,
              valid.bounded,
            ));
      }

      go : (o : Option (V × ℕ)) → find key self.entries ≡ o → IsValid (get now key self).1
      go none e = rw (e, get) valid
      go (some (v, t)) e = elim (Bool-cases (ltb t now)) [
        | inl old ↦
            rw (e, get, old)
              (record {
                distinct = without-Unique key self.entries valid.distinct;
                bounded = le_trans (length-without-le key self.entries) valid.bounded;
              })
        | inr young ↦ rw (e, get, young) (moved v t e)
      ]

  -- A `get` after a `set` of the same key returns the value as long as the time to live has not
  -- passed, and a miss from then on, also if the clean-up ran in between. (The cache is valid and
  -- has room for an entry, and the clean-up's reading of the clock is not after that of the
  -- `get`.)
  pub get-set_local :
      (now again later : ℕ) (lucky : Bool) (key : String) (v : V) (ttl : Option ℕ)
      (self : LruCache V)
      → IsValid self
      → 0 < self.maxsize
      → again ≤ later
      → (get later key (set now again lucky key v ttl self)).0
        ≡ (if ltb (now + effective_ttl self ttl) later then none else some v)
  get-set_local now again later lucky key v ttl self valid pos le =
      let t = now + effective_ttl self ttl in
      let k = kept self.maxsize key v t self.entries in
      let b = ltb 10 (length k) && lucky in
      let unique : Unique k = kept-Unique self.maxsize key v t self.entries valid.distinct in
      let there : find key k ≡ some (v, t) = find-kept self.maxsize key v t self.entries pos in
      rw
        (
          reply-get later key (set now again lucky key v ttl self),
          set-kept now again lucky key v ttl self,
        )
        (ground (
          arith,
          there,
          find-cleaned_cases b again key k,
          find-cleaned_alive b again key v t k unique there,
        ))

  -- A read changes no setting.
  pub settings-get :
      (now : ℕ) (key : String) (self : LruCache V)
      → ((get now key self).1.maxsize ≡ self.maxsize)
        × ((get now key self).1.default_ttl ≡ self.default_ttl)
  unfolding get
  settings-get now key self = ground arith

  pub get-delete :
      (now : ℕ) (key : String) (self : LruCache V) → (get now key (delete key self)).0 ≡ none
  unfolding delete
  get-delete now key self = rw (
    reply-get now key (record self { entries = without key self.entries }),
    find-without key key self.entries,
    eq_refl key,
  )
