-- ===== src/Cache/Local.antt =====
-- `LRUCache` of redis_kit/cache/local.py. Its ordered dictionary is a list of keys with their values
-- and deadlines, the least recently used first. Times are in milliseconds; a method takes the
-- readings of the clock and of `random.random() < 0.05` as arguments.
pub mod Order
pub mod Laws
use redis_kit.Common.{
  ℕ, zero, suc, ◌+◌, ◌-◌, ◌/◌, max, String, ◌==◌, Bool, true, false, ◌&&◌, Option, none, some, List,
  [], ◌∷◌, ◌++◌, length, ltb, if◌then◌else◌,
}

abbrev pub Entries {ℓ} : Type ℓ → Type ℓ
Entries V = List (String × V × ℕ)

pub record LruCache {ℓ} (V : Type ℓ) : Type ℓ where
  pub maxsize : ℕ
  pub default_ttl : ℕ
  pub entries : Entries V

module _ {ℓ} {V : Type ℓ} where
  -- `self._data.get(key)`
  unfoldable pub find : String → Entries V → Option (V × ℕ)
  find key [] = none
  find key ((k, v, t) ∷ l) = if k == key then some (v, t) else find key l

  -- `del self._data[key]`
  unfoldable pub without : String → Entries V → Entries V
  without key [] = []
  without key ((k, v, t) ∷ l) =
      let rest = without key l in if k == key then rest else (k, v, t) ∷ rest

  -- `self._data.move_to_end(key)`
  unfoldable pub move_to_end : String → Entries V → Entries V
  move_to_end key l = elim (find key l) [
    | none ↦ l
    | some (v, t) ↦ without key l ++ (key, v, t) ∷ []
  ]

  -- `self._data[key] = (value, expire_at)`: a key that is there keeps its place.
  unfoldable pub assign : String → V → ℕ → Entries V → Entries V
  assign key v t [] = (key, v, t) ∷ []
  assign key v t ((k, w, u) ∷ l) =
      if k == key then (key, v, t) ∷ l else (k, w, u) ∷ assign key v t l

  -- `while len(self._data) > self._maxsize: self._data.popitem(last=False)`
  unfoldable pub shrink : ℕ → Entries V → Entries V
  shrink maxsize [] = []
  shrink maxsize (e ∷ l) =
      let rest = shrink maxsize l in if ltb maxsize (length (e ∷ l)) then rest else e ∷ l

  -- The expired keys among those that `islice` picks; `skip` entries are passed over first.
  unfoldable pub expired_sample : ℕ → ℕ → ℕ → Entries V → List String
  expired_sample now step skip [] = []
  expired_sample now step (suc skip) (e ∷ l) = expired_sample now step skip l
  expired_sample now step zero ((k, v, t) ∷ l) =
      let rest = expired_sample now step (step - 1) l in if ltb t now then k ∷ rest else rest

  unfoldable pub without_all : List String → Entries V → Entries V
  without_all [] l = l
  without_all (k ∷ ks) l = without_all ks (without k l)

  unfoldable pub evict_expired_sample : ℕ → Entries V → Entries V
  evict_expired_sample now l = without_all (expired_sample now (max 1 (length l / 10)) 0 l) l

  unfoldable pub get : ℕ → String → LruCache V → Option V × LruCache V
  get now key self = elim (find key self.entries) [
    | none ↦ (none, self)
    | some (value, expire_at) ↦
        if ltb expire_at now
        then (none, record self { entries = without key self.entries })
        else (some value, record self { entries = move_to_end key self.entries })
  ]

  abbrev pub effective_ttl : LruCache V → Option ℕ → ℕ
  effective_ttl self none = self.default_ttl
  effective_ttl self (some ttl) = ttl

  -- `again` is the second reading of the clock.
  unfoldable pub set : ℕ → ℕ → Bool → String → V → Option ℕ → LruCache V → LruCache V
  set now again lucky key value ttl self =
      let expire_at = now + effective_ttl self ttl in
      let stored = assign key value expire_at (move_to_end key self.entries) in
      let kept = shrink self.maxsize stored in
      record self {
        entries = if ltb 10 (length kept) && lucky then evict_expired_sample again kept else kept;
      }

  unfoldable pub delete : String → LruCache V → LruCache V
  delete key self = record self { entries = without key self.entries }

  unfoldable pub clear : LruCache V → LruCache V
  clear self = record self { entries = [] }

  abbrev pub size : LruCache V → ℕ
  size self = length self.entries
