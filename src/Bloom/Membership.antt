-- ===== src/Bloom/Membership.antt =====
-- What was added is found.
use redis_kit.Common.{
  ℕ, String, eq_refl, ◌≡◌, refl, Bool, true, Option, none, some, List, [], ◌∷◌, arith, All, All-map,
  nat_eq, ok, if◌then◌else◌,
}
use redis_kit.Redis.Keyspace.{bits, Entry, keep, Keyspace}
use redis_kit.Redis.Documented.SortedSets.{bits_at, setbit, getbit}
use redis_kit.Redis.Server.{Redis, Follows, documented, same}
use redis_kit.Bloom.Methods.{
  BloomFilter, all, get_offsets, set_bits, get_bits, all_offsets, add, exists, add_many,
}

-- The filter's string has these bits set.
pub record Marked (self : BloomFilter) (os : List ℕ) (s : Keyspace) : Type 0 where
  pub value : ℕ → Bool
  pub there : bits_at (s.cell self.key) ≡ ok value
  pub set : All (λ o. value o ≡ true) os

kept_bits : (e : Option Entry) (f : ℕ → Bool) → bits_at (keep e (bits f)) ≡ ok f
kept_bits none f = refl
kept_bits (some e) f = refl

module _ {r : Redis} (h : Follows r) (k : String) where
  one_bit :
      (o : ℕ) (b : ℕ → Bool) (s : Keyspace)
      → bits_at (s.cell k) ≡ ok b
      → ((r.setbit k o s).0 ≡ ok tt)
        × (bits_at ((r.setbit k o s).1.cell k) ≡ ok (λ j. if nat_eq o j then true else b j))
  one_bit o b s at = rw (same h) (
      unfold documented setbit in
      (
        ground (arith, at),
        rw (at, setbit)
            (rw (eq_refl k) (kept_bits (s.cell k) (λ j. if nat_eq o j then true else b j))),
      ))

  bit_reply :
      (o : ℕ) (b : ℕ → Bool) (s : Keyspace)
      → bits_at (s.cell k) ≡ ok b
      → r.getbit k o s ≡ (ok (b o), s)
  bit_reply o b s at = rw (same h) (unfold documented getbit in ground (arith, at))

still_set :
    (o : ℕ) (b : ℕ → Bool) (os : List ℕ)
    → All (λ j. b j ≡ true) os
    → All (λ j. (if nat_eq o j then true else b j) ≡ true) os
still_set o b os a = All-map (λ j e. ground (arith, e)) os a

-- The bits that are set after more have been.
abbrev onto : List ℕ → List ℕ → List ℕ
onto [] os = os
onto (o ∷ new) os = onto new (o ∷ os)

both_set : (P : ℕ → Type 0) (new os : List ℕ) → All P (onto new os) → All P new × All P os
both_set P [] os a = (tt, a)
both_set P (o ∷ new) os a = let (x, y) = both_set P new (o ∷ os) a in ((y.0, x), y.1)

module _ (self : BloomFilter) (h : Follows self.client) where
  set_bits-Marked :
      (new os : List ℕ) (s : Keyspace)
      → Marked self os s
      → ((set_bits self new s).0 ≡ ok tt) × Marked self (onto new os) (set_bits self new s).1
  unfolding set_bits
  set_bits-Marked [] os s m = (refl, m)
  set_bits-Marked (o ∷ new) os s m =
      let (done, there) = one_bit h self.key o m.value s m.there in
      let m1 : Marked self (o ∷ os) (self.client.setbit self.key o s).1 = record {
        value = λ j. if nat_eq o j then true else m.value j;
        there = there;
        set = (ground arith, still_set o m.value os m.set);
      } in
      let (all_done, m2) = set_bits-Marked new (o ∷ os) (self.client.setbit self.key o s).1 m1 in
      rw done (all_done, m2)

  get_bits-Marked :
      (os : List ℕ) (b : ℕ → Bool) (s : Keyspace)
      → bits_at (s.cell self.key) ≡ ok b
      → All (λ o. b o ≡ true) os
      → (found : List Bool) × (get_bits self os s ≡ (ok found, s)) × (all found ≡ true)
  unfolding get_bits
  get_bits-Marked [] b s at a = ([], refl, refl)
  get_bits-Marked (o ∷ os) b s at a =
      let (found, replies, good) = get_bits-Marked os b s at a.1 in
      (true ∷ found, rw (bit_reply h self.key o b s at) (rw replies (rw (a.0) refl)), good)

  -- No false negatives: an item that was added is found, whatever was added before and is added
  -- after it. (The key holds bits, or nothing.)
  pub no_false_negatives :
      (item : String) (others : List String) (b : ℕ → Bool) (s : Keyspace)
      → bits_at (s.cell self.key) ≡ ok b
      → let after = (add_many self others (add self item s).1).1 in
        ((add self item s).0 ≡ ok tt) × (exists self item after ≡ (ok true, after))
  unfolding add add_many exists
  no_false_negatives item others b s at =
      let os = get_offsets self item in
      let more = all_offsets self others in
      let m0 : Marked self [] s = record { value = b; there = at; set = tt } in
      let (done, m1) = set_bits-Marked os [] s m0 in
      let s1 = (set_bits self os s).1 in
      let (_, m2) = set_bits-Marked more (onto os []) s1 m1 in
      let (_, kept) = both_set (λ o. m2.value o ≡ true) more (onto os []) m2.set in
      let (mine, _) = both_set (λ o. m2.value o ≡ true) os [] kept in
      let (found, replies, good) =
        get_bits-Marked os m2.value (set_bits self more s1).1 m2.there mine in
      (done, rw replies (rw good refl))
