-- ===== src/Redis/Server.antt =====
-- The server as a parameter, the hypothesis about it, and a value that meets it.
use redis_kit.Common.{ℕ, String, Bool, Option, List, ◌≡◌, refl, Exec}
use redis_kit.Common.Integers.{ℤ}
use redis_kit.Redis.Keyspace.{Datum, Fields, Keyspace}
use redis_kit.Redis.Documented.SortedSets.{Members}
use redis_kit.Redis.Documented.Strings
use redis_kit.Redis.Documented.Hashes
use redis_kit.Redis.Documented.Lists
use redis_kit.Redis.Documented.SortedSets
use redis_kit.Redis.Documented.Sets

-- One field for each command, and `elapse`, by which time goes by.
pub record Redis : Type 0 where
  pub get : String → Exec Keyspace (Option Datum)
  pub set : String → Datum → Exec Keyspace (Unit {0})
  pub setex : String → ℕ → Datum → Exec Keyspace (Unit {0})
  pub set_nx_ex : String → Datum → ℕ → Exec Keyspace Bool
  pub del : String → Exec Keyspace Bool
  pub exists : String → Exec Keyspace Bool
  pub expire : String → ℕ → Exec Keyspace Bool
  pub pexpire : String → ℕ → Exec Keyspace Bool
  pub incrby : String → ℤ → Exec Keyspace ℤ
  pub elapse : ℕ → Keyspace → Keyspace
  pub hget : String → String → Exec Keyspace (Option Datum)
  pub hgetall : String → Exec Keyspace Fields
  pub hset : String → Fields → Exec Keyspace (Unit {0})
  pub hincrby : String → String → ℤ → Exec Keyspace ℤ
  pub hdel : String → String → Exec Keyspace (Unit {0})
  pub lpush : String → Datum → Exec Keyspace (Unit {0})
  pub llen : String → Exec Keyspace ℕ
  pub lrange_all : String → Exec Keyspace (List Datum)
  pub ltrim : String → ℕ → Exec Keyspace (Unit {0})
  pub lrem : String → Datum → Exec Keyspace (Unit {0})
  pub lmove : String → String → Exec Keyspace (Option Datum)
  pub zadd : String → ℕ → Datum → Exec Keyspace (Unit {0})
  pub zcard : String → Exec Keyspace ℕ
  pub zremrangebyscore : String → ℕ → Exec Keyspace (Unit {0})
  pub zfirst : String → Exec Keyspace (Option (ℕ × Datum))
  pub zrangebyscore : String → ℕ → ℕ → Exec Keyspace Members
  pub zrem : String → Members → Exec Keyspace (Unit {0})
  pub setbit : String → ℕ → Exec Keyspace (Unit {0})
  pub getbit : String → ℕ → Exec Keyspace Bool
  pub sadd : String → Datum → Exec Keyspace (Unit {0})
  pub srem : String → Datum → Exec Keyspace (Unit {0})
  pub pttl : String → Exec Keyspace ℤ
  pub ttl : String → Exec Keyspace ℤ
  pub persist : String → Exec Keyspace Bool
  pub expireat : String → ℕ → Exec Keyspace Bool
  pub mget : List String → Exec Keyspace (List (Option Datum))
  pub del_many : List String → Exec Keyspace (Unit {0})
  pub smembers : String → Exec Keyspace (List Datum)

-- Each command replies and acts as documented.
pub record Follows (r : Redis) : Type 0 where
  pub get_law : (k : String) (s : Keyspace) → r.get k s ≡ Strings.get k s
  pub set_law : (k : String) (d : Datum) (s : Keyspace) → r.set k d s ≡ Strings.set k d s
  pub setex_law :
      (k : String) (t : ℕ) (d : Datum) (s : Keyspace) → r.setex k t d s ≡ Strings.setex k t d s
  pub set_nx_ex_law :
      (k : String) (d : Datum) (t : ℕ) (s : Keyspace)
      → r.set_nx_ex k d t s ≡ Strings.set_nx_ex k d t s
  pub del_law : (k : String) (s : Keyspace) → r.del k s ≡ Strings.del k s
  pub exists_law : (k : String) (s : Keyspace) → r.exists k s ≡ Strings.exists k s
  pub expire_law : (k : String) (t : ℕ) (s : Keyspace) → r.expire k t s ≡ Strings.expire k t s
  pub pexpire_law : (k : String) (t : ℕ) (s : Keyspace) → r.pexpire k t s ≡ Strings.pexpire k t s
  pub incrby_law : (k : String) (n : ℤ) (s : Keyspace) → r.incrby k n s ≡ Strings.incrby k n s
  pub elapse_law : (ms : ℕ) (s : Keyspace) → r.elapse ms s ≡ Strings.elapse ms s
  pub hget_law : (k f : String) (s : Keyspace) → r.hget k f s ≡ Hashes.hget k f s
  pub hgetall_law : (k : String) (s : Keyspace) → r.hgetall k s ≡ Hashes.hgetall k s
  pub hset_law : (k : String) (l : Fields) (s : Keyspace) → r.hset k l s ≡ Hashes.hset k l s
  pub hincrby_law :
      (k f : String) (n : ℤ) (s : Keyspace) → r.hincrby k f n s ≡ Hashes.hincrby k f n s
  pub hdel_law : (k f : String) (s : Keyspace) → r.hdel k f s ≡ Hashes.hdel k f s
  pub lpush_law : (k : String) (d : Datum) (s : Keyspace) → r.lpush k d s ≡ Lists.lpush k d s
  pub llen_law : (k : String) (s : Keyspace) → r.llen k s ≡ Lists.llen k s
  pub lrange_all_law : (k : String) (s : Keyspace) → r.lrange_all k s ≡ Lists.lrange_all k s
  pub ltrim_law : (k : String) (n : ℕ) (s : Keyspace) → r.ltrim k n s ≡ Lists.ltrim k n s
  pub lrem_law : (k : String) (d : Datum) (s : Keyspace) → r.lrem k d s ≡ Lists.lrem k d s
  pub lmove_law : (k j : String) (s : Keyspace) → r.lmove k j s ≡ Lists.lmove k j s
  pub zadd_law :
      (k : String) (t : ℕ) (d : Datum) (s : Keyspace) → r.zadd k t d s ≡ SortedSets.zadd k t d s
  pub zcard_law : (k : String) (s : Keyspace) → r.zcard k s ≡ SortedSets.zcard k s
  pub zremrangebyscore_law :
      (k : String) (t : ℕ) (s : Keyspace)
      → r.zremrangebyscore k t s ≡ SortedSets.zremrangebyscore k t s
  pub zfirst_law : (k : String) (s : Keyspace) → r.zfirst k s ≡ SortedSets.zfirst k s
  pub zrangebyscore_law :
      (k : String) (t n : ℕ) (s : Keyspace)
      → r.zrangebyscore k t n s ≡ SortedSets.zrangebyscore k t n s
  pub zrem_law : (k : String) (l : Members) (s : Keyspace) → r.zrem k l s ≡ SortedSets.zrem k l s
  pub setbit_law : (k : String) (n : ℕ) (s : Keyspace) → r.setbit k n s ≡ SortedSets.setbit k n s
  pub getbit_law : (k : String) (n : ℕ) (s : Keyspace) → r.getbit k n s ≡ SortedSets.getbit k n s
  pub sadd_law : (k : String) (d : Datum) (s : Keyspace) → r.sadd k d s ≡ Sets.sadd k d s
  pub srem_law : (k : String) (d : Datum) (s : Keyspace) → r.srem k d s ≡ Sets.srem k d s
  pub pttl_law : (k : String) (s : Keyspace) → r.pttl k s ≡ Strings.pttl k s
  pub ttl_law : (k : String) (s : Keyspace) → r.ttl k s ≡ Strings.ttl k s
  pub persist_law : (k : String) (s : Keyspace) → r.persist k s ≡ Strings.persist k s
  pub expireat_law : (k : String) (t : ℕ) (s : Keyspace) → r.expireat k t s ≡ Strings.expireat k t s
  pub mget_law : (ks : List String) (s : Keyspace) → r.mget ks s ≡ Strings.mget ks s
  pub del_many_law : (ks : List String) (s : Keyspace) → r.del_many ks s ≡ Strings.del_many ks s
  pub smembers_law : (k : String) (s : Keyspace) → r.smembers k s ≡ Sets.smembers k s

unfoldable pub documented : Redis
documented = record {
  get = Strings.get;
  set = Strings.set;
  setex = Strings.setex;
  set_nx_ex = Strings.set_nx_ex;
  del = Strings.del;
  exists = Strings.exists;
  expire = Strings.expire;
  pexpire = Strings.pexpire;
  incrby = Strings.incrby;
  elapse = Strings.elapse;
  hget = Hashes.hget;
  hgetall = Hashes.hgetall;
  hset = Hashes.hset;
  hincrby = Hashes.hincrby;
  hdel = Hashes.hdel;
  lpush = Lists.lpush;
  llen = Lists.llen;
  lrange_all = Lists.lrange_all;
  ltrim = Lists.ltrim;
  lrem = Lists.lrem;
  lmove = Lists.lmove;
  zadd = SortedSets.zadd;
  zcard = SortedSets.zcard;
  zremrangebyscore = SortedSets.zremrangebyscore;
  zfirst = SortedSets.zfirst;
  zrangebyscore = SortedSets.zrangebyscore;
  zrem = SortedSets.zrem;
  setbit = SortedSets.setbit;
  getbit = SortedSets.getbit;
  sadd = Sets.sadd;
  srem = Sets.srem;
  pttl = Strings.pttl;
  ttl = Strings.ttl;
  persist = Strings.persist;
  expireat = Strings.expireat;
  mget = Strings.mget;
  del_many = Strings.del_many;
  smembers = Sets.smembers;
}

pub documented-Follows : Follows documented
unfolding documented
documented-Follows = record {
  get_law = λ k s. refl;
  set_law = λ k d s. refl;
  setex_law = λ k t d s. refl;
  set_nx_ex_law = λ k d t s. refl;
  del_law = λ k s. refl;
  exists_law = λ k s. refl;
  expire_law = λ k t s. refl;
  pexpire_law = λ k t s. refl;
  incrby_law = λ k n s. refl;
  elapse_law = λ ms s. refl;
  hget_law = λ k f s. refl;
  hgetall_law = λ k s. refl;
  hset_law = λ k l s. refl;
  hincrby_law = λ k f n s. refl;
  hdel_law = λ k f s. refl;
  lpush_law = λ k d s. refl;
  llen_law = λ k s. refl;
  lrange_all_law = λ k s. refl;
  ltrim_law = λ k n s. refl;
  lrem_law = λ k d s. refl;
  lmove_law = λ k j s. refl;
  zadd_law = λ k t d s. refl;
  zcard_law = λ k s. refl;
  zremrangebyscore_law = λ k t s. refl;
  zfirst_law = λ k s. refl;
  zrangebyscore_law = λ k t n s. refl;
  zrem_law = λ k l s. refl;
  setbit_law = λ k i s. refl;
  getbit_law = λ k i s. refl;
  sadd_law = λ k d s. refl;
  srem_law = λ k d s. refl;
  pttl_law = λ k s. refl;
  ttl_law = λ k s. refl;
  persist_law = λ k s. refl;
  expireat_law = λ k t s. refl;
  mget_law = λ ks s. refl;
  del_many_law = λ ks s. refl;
  smembers_law = λ k s. refl;
}

-- A server that follows the documentation is the documented one, command by command.
pub same : {r : Redis} → Follows r → r ≡ documented
unfolding documented
same h = λ i. record {
  get = λ k s. h.get_law k s i;
  set = λ k d s. h.set_law k d s i;
  setex = λ k t d s. h.setex_law k t d s i;
  set_nx_ex = λ k d t s. h.set_nx_ex_law k d t s i;
  del = λ k s. h.del_law k s i;
  exists = λ k s. h.exists_law k s i;
  expire = λ k t s. h.expire_law k t s i;
  pexpire = λ k t s. h.pexpire_law k t s i;
  incrby = λ k n s. h.incrby_law k n s i;
  elapse = λ ms s. h.elapse_law ms s i;
  hget = λ k f s. h.hget_law k f s i;
  hgetall = λ k s. h.hgetall_law k s i;
  hset = λ k l s. h.hset_law k l s i;
  hincrby = λ k f n s. h.hincrby_law k f n s i;
  hdel = λ k f s. h.hdel_law k f s i;
  lpush = λ k d s. h.lpush_law k d s i;
  llen = λ k s. h.llen_law k s i;
  lrange_all = λ k s. h.lrange_all_law k s i;
  ltrim = λ k n s. h.ltrim_law k n s i;
  lrem = λ k d s. h.lrem_law k d s i;
  lmove = λ k j s. h.lmove_law k j s i;
  zadd = λ k t d s. h.zadd_law k t d s i;
  zcard = λ k s. h.zcard_law k s i;
  zremrangebyscore = λ k t s. h.zremrangebyscore_law k t s i;
  zfirst = λ k s. h.zfirst_law k s i;
  zrangebyscore = λ k t n s. h.zrangebyscore_law k t n s i;
  zrem = λ k l s. h.zrem_law k l s i;
  setbit = λ k n s. h.setbit_law k n s i;
  getbit = λ k n s. h.getbit_law k n s i;
  sadd = λ k d s. h.sadd_law k d s i;
  srem = λ k d s. h.srem_law k d s i;
  pttl = λ k s. h.pttl_law k s i;
  ttl = λ k s. h.ttl_law k s i;
  persist = λ k s. h.persist_law k s i;
  expireat = λ k t s. h.expireat_law k t s i;
  mget = λ ks s. h.mget_law ks s i;
  del_many = λ ks s. h.del_many_law ks s i;
  smembers = λ k s. h.smembers_law k s i;
}
