-- ===== src/Cache/Policy.antt =====
-- redis_kit/policy.py, and `_apply_fallback_policy` and `_notify_hooks` of redis_kit/cache/_base.py.
use redis_kit.Common.{
  String, Bool, true, false, Option, none, some, List, ◌∷◌, Error, redis_connection, redis_timeout,
  value, Result, ok, err, Exec,
}
use redis_kit.Redis.Keyspace.{Keyspace}

pub data OnConnectionError : Type 0 where
  raise_error return_none callback : OnConnectionError

-- A callback gets the command, the key and the error, and may raise.
pub record FallbackPolicy {ℓ} (V : Type ℓ) : Type ℓ where
  pub on_connection_error : OnConnectionError
  pub fallback : Option (String → String → Error → Result (Option V))

-- `__post_init__`: the callback policy wants a callback.
unfoldable pub post_init {ℓ} : {V : Type ℓ} → FallbackPolicy V → Result (FallbackPolicy V)
post_init self = elim self.on_connection_error [
  | callback ↦ elim self.fallback [ none ↦ err value | some _ ↦ ok self ]
  | _ ↦ ok self
]

abbrev pub is_fallback_error : Error → Bool
is_fallback_error redis_connection = true
is_fallback_error redis_timeout = true
is_fallback_error _ = false

module _ {ℓ κ} {V : Type ℓ} {D : Type κ} where
  abbrev called : (Option V → D) → Result (Option V) → Result D
  called f (ok v) = ok (f v)
  called f (err e) = err e

  -- `returned` reads what a callback returned as a result of the command.
  unfoldable pub apply_fallback_policy :
      FallbackPolicy V → Error → String → String → D → (Option V → D) → Result D
  apply_fallback_policy self error command key default returned = elim (is_fallback_error error) [
    | false ↦ err error
    | true ↦ elim self.on_connection_error [
      | raise_error ↦ err error
      | return_none ↦ ok default
      | callback ↦ elim self.fallback [
        | none ↦ err error
        | some f ↦ called returned (f command key error)
      ]
    ]
  ]

pub data Phase : Type 0 where
  before after error : Phase

-- One round over the hooks, whose exceptions are caught and logged.
pub record Note : Type 0 where
  pub phase : Phase
  pub command : String
  pub key : String

-- The server, and the rounds over the hooks so far, the latest first.
pub record World : Type 0 where
  pub store : Keyspace
  pub notes : List Note

unfoldable pub notify : Phase → String → String → Exec World (Unit {0})
notify p command key w =
    (ok tt, record w { notes = record { phase = p; command = command; key = key } ∷ w.notes })

-- A command of the client.
abbrev pub send {ℓ} : {A : Type ℓ} → Exec Keyspace A → Exec World A
send m w = ((m w.store).0, record w { store = (m w.store).1 })
