-- ===== src/Counter/Ids.antt =====
-- The generator of ids: `IDGenerator` of redis_kit/counter/counter.py and `IDGeneratorBase` of
-- redis_kit/counter/_base.py.
use Prim.Native.String.{◌++◌, count}
use redis_kit.Common.{
  ℕ, zero, suc, ◌-◌, ◌/◌, ◌%◌, String, ◌==◌, List, [], ◌∷◌, drop, ltb, Exec, pure, ◌>>=◌,
  if◌then◌else◌,
}
use redis_kit.Common.Integers.{ℤ, pos, negsuc}
use redis_kit.Redis.Keyspace.{Keyspace}
use redis_kit.Redis.Server.{Redis}

pub record IdGenerator : Type 0 where
  pub client : Redis
  pub key : String
  pub prefix : String
  pub padding : ℕ

-- `__init__`
unfoldable pub init : Redis → String → String → ℕ → String → IdGenerator
init client name prefix padding key_prefix = record {
  client = client;
  key = key_prefix ++ ":" ++ name;
  prefix = prefix;
  padding = padding;
}

abbrev first_text : List String → String
first_text [] = ""
first_text (t ∷ _) = t

abbrev digit : ℕ → String
digit n = first_text (drop n ("0" ∷ "1" ∷ "2" ∷ "3" ∷ "4" ∷ "5" ∷ "6" ∷ "7" ∷ "8" ∷ "9" ∷ []))

-- The digits of `n` before `acc`; a number has fewer digits than the first argument.
unfoldable digits : ℕ → ℕ → String → String
digits zero n acc = acc
digits (suc fuel) n acc =
    let rest = digits fuel (n / 10) (digit (n % 10) ++ acc) in
    if ltb n 10 then digit n ++ acc else rest

unfoldable pub decimal : ℕ → String
unfolding digits
decimal n = digits (suc n) n ""

unfoldable zeros : ℕ → String
zeros zero = ""
zeros (suc n) = "0" ++ zeros n

-- `str(value).zfill(width)`: the zeros stand behind the sign.
unfoldable pub zfill : ℕ → ℤ → String
unfolding decimal zeros
zfill width (pos n) = zeros (width - count (decimal n)) ++ decimal n
zfill width (negsuc n) = "-" ++ zeros (width - suc (count (decimal (suc n)))) ++ decimal (suc n)

module _ (self : IdGenerator) where
  -- No padding is a width of 0, which fills nothing.
  unfoldable pub format_id : ℤ → String
  unfolding zfill
  format_id value =
      let padded = zfill self.padding value in
      if self.prefix == "" then padded else self.prefix ++ padded

  unfoldable pub next : Exec Keyspace ℤ
  next = self.client.incrby self.key (pos 1)

  unfoldable pub next_str : Exec Keyspace String
  unfolding next format_id
  next_str = do value ← next; pure (format_id value)
