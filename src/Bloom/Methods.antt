-- ===== src/Bloom/Methods.antt =====
-- redis_kit/bloom/bloom.py, redis_kit/bloom/_base.py and `_get_offsets` of redis_kit/bloom/_math.py.
use redis_kit.Common.{
  ℕ, zero, suc, ◌+◌, ◌*◌, ◌%◌, String, Bool, true, ◌&&◌, List, [], ◌∷◌, ◌++◌, length, take, drop,
  Exec, pure, ◌>>=◌, ◌>>◌,
}
use redis_kit.Redis.Keyspace.{Keyspace}
use redis_kit.Redis.Server.{Redis}

-- `digest` gives the two numbers of the SHA-256 of an item; the size and the number of hashes come
-- from floating-point formulas.
pub record BloomFilter : Type 0 where
  pub client : Redis
  pub key : String
  pub size : ℕ
  pub hash_count : ℕ
  pub digest : String → ℕ × ℕ

-- `[(h1 + i * h2) % size for i in range(first, first + count)]`
unfoldable pub offsets_from : ℕ → ℕ → ℕ → ℕ → ℕ → List ℕ
offsets_from h1 h2 size first zero = []
offsets_from h1 h2 size first (suc count) =
    (h1 + first * h2) % size ∷ offsets_from h1 h2 size (suc first) count

abbrev pub all : List Bool → Bool
all [] = true
all (b ∷ l) = b && all l

module _ (self : BloomFilter) where
  unfoldable pub get_offsets : String → List ℕ
  get_offsets item =
      offsets_from (self.digest item).0 (self.digest item).1 self.size 0 self.hash_count

  -- The commands of one pipeline.
  unfoldable pub set_bits : List ℕ → Exec Keyspace (Unit {0})
  set_bits [] = pure tt
  set_bits (o ∷ l) = self.client.setbit self.key o >> set_bits l

  unfoldable pub get_bits : List ℕ → Exec Keyspace (List Bool)
  get_bits [] = pure []
  get_bits (o ∷ l) = self.client.getbit self.key o >>= λ b. get_bits l >>= λ bs. pure (b ∷ bs)

  unfoldable pub all_offsets : List String → List ℕ
  all_offsets [] = []
  all_offsets (item ∷ items) = get_offsets item ++ all_offsets items

  unfoldable pub add : String → Exec Keyspace (Unit {0})
  add item = set_bits (get_offsets item)

  unfoldable pub exists : String → Exec Keyspace Bool
  exists item = do found ← get_bits (get_offsets item); pure (all found)

  unfoldable pub add_many : List String → Exec Keyspace (Unit {0})
  add_many items = set_bits (all_offsets items)

  -- The slices of the replies, one for each item.
  unfoldable pub slices : List String → List Bool → List Bool
  slices [] found = []
  slices (item ∷ items) found =
      let n = length (get_offsets item) in all (take n found) ∷ slices items (drop n found)

  unfoldable pub exists_many : List String → Exec Keyspace (List Bool)
  exists_many items = do found ← get_bits (all_offsets items); pure (slices items found)

  unfoldable pub reset : Exec Keyspace Bool
  reset = self.client.del self.key
