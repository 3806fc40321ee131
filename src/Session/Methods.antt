-- ===== src/Session/Methods.antt =====
-- redis_kit/session/_lua.py, redis_kit/session/_base.py and redis_kit/session/session.py.
use Prim.Native.String.{◌++◌}
use redis_kit.Common.{
  ℕ, String, Bool, true, false, not, Option, none, some, List, [], ◌∷◌, response, session_not_found,
  Result, ok, err, Exec, pure, raise, both, ◌>>=◌, ◌>>◌, if◌then◌else◌,
}
use redis_kit.Redis.Keyspace.{Datum, Fields, Keyspace}
use redis_kit.Redis.Server.{Redis}

-- `dumps` and `loads` are the JSON texts of a value.
pub record SessionManager {ℓ} (A : Type ℓ) : Type ℓ where
  pub client : Redis
  pub prefix : String
  pub ttl : ℕ
  pub dumps : A → Datum
  pub loads : Datum → Result A

module _ (r : Redis) where
  -- HSET of the fields, if there are any.
  abbrev pub write_fields : String → Fields → Exec Keyspace (Unit {0})
  write_fields key [] = pure tt
  write_fields key (f ∷ l) = r.hset key (f ∷ l)

  -- UPDATE_SCRIPT
  unfoldable pub update_script : String → ℕ → Fields → Exec Keyspace Bool
  update_script key ttl field_args = do
    there ← r.exists key
    if not there
        then pure false
        else do write_fields key field_args; _ ← r.expire key ttl; pure true

module _ {ℓ} {A : Type ℓ} (self : SessionManager A) where
  unfoldable pub make_key : String → String
  make_key session_id = self.prefix ++ ":" ++ session_id

  unfoldable pub dumped : List (String × A) → Fields
  dumped [] = []
  dumped ((k, v) ∷ l) = (k, self.dumps v) ∷ dumped l

  unfoldable pub loaded : Fields → Result (List (String × A))
  loaded [] = ok []
  loaded ((k, d) ∷ l) =
      let rest = loaded l in
      elim (self.loads d) [
        | err e ↦ err e
        | ok v ↦ elim rest [ ok vs ↦ ok ((k, v) ∷ vs) | err e ↦ err e ]
      ]

  -- The client refuses an HSET without fields before it sends anything.
  abbrev pub stored : String → Fields → Exec Keyspace (Unit {0})
  stored key [] = raise response
  stored key (f ∷ l) = both (self.client.hset key (f ∷ l)) (self.client.expire key self.ttl)

  -- `session_id` is what the generator gave.
  unfoldable pub create : String → List (String × A) → Exec Keyspace String
  create session_id content = do stored (make_key session_id) (dumped content); pure session_id

  abbrev pub as_session : Fields → Exec Keyspace (Option (List (String × A)))
  as_session [] s = (ok none, s)
  as_session (f ∷ l) s = elim (loaded (f ∷ l)) [ ok vs ↦ (ok (some vs), s) | err e ↦ (err e, s) ]

  unfoldable pub get : String → Exec Keyspace (Option (List (String × A)))
  get session_id = do fields ← self.client.hgetall (make_key session_id); as_session fields

  abbrev pub found : Bool → Exec Keyspace (Unit {0})
  found result = if result then pure tt else raise session_not_found

  unfoldable pub update : String → List (String × A) → Exec Keyspace (Unit {0})
  update session_id content = do
    result ← update_script self.client (make_key session_id) self.ttl (dumped content)
    found result

  unfoldable pub delete : String → Exec Keyspace (Unit {0})
  delete session_id = do _ ← self.client.del (make_key session_id); pure tt

  unfoldable pub refresh : String → Exec Keyspace (Unit {0})
  refresh session_id = do result ← self.client.expire (make_key session_id) self.ttl; found result

  unfoldable pub exists : String → Exec Keyspace Bool
  exists session_id = self.client.exists (make_key session_id)
