-- ===== src/Cache/Ttl.antt =====
-- `parse_ttl` of redis_kit/cache/_logic.py.
use redis_kit.Common.{
  ℕ, ◌+◌, ◌*◌, Bool, true, false, Option, none, some, List, [], ◌∷◌, value, type, Result, ok, err,
  nat_eq, if◌then◌else◌,
}
use redis_kit.Common.Integers.{ℤ, pos, negsuc}

-- What `str.lower`, `\s` and `\d` mean: the tables of Python's Unicode database.
pub record Letters : Type 0 where
  pub lower : List ℕ → List ℕ
  pub is_space : ℕ → Bool
  pub digit : ℕ → Option ℕ

-- A TTL as the caller wrote it. A float counts as the integer below it; `other` is anything else.
pub data Ttl : Type 0 where
  seconds : ℤ → Ttl
  words : List ℕ → Ttl
  other : Ttl

-- `_TTL_MULTIPLIERS`
unfoldable pub multiplier : ℕ → Option ℕ
multiplier c =
    if nat_eq c b'd'
    then some 86400
    else if nat_eq c b'h'
    then some 3600
    else if nat_eq c b'm'
    then some 60
    else if nat_eq c b's'
    then some 1
    else none

-- Where a match of `\s*(\d+\s*[dhms]\s*)+` or of `(\d+)\s*([dhms])` stands: before a number, in its
-- digits, in the space behind them.
pub data Place : Type 0 where
  start : Place
  between : Place
  number : ℕ → Place
  gap : ℕ → Place

-- What a character is to the two expressions.
pub data Sort : Type 0 where
  space junk : Sort
  figure : ℕ → Sort
  unit : ℕ → Sort

module _ (u : Letters) where
  unfoldable pub sort : ℕ → Sort
  sort c = elim (multiplier c) [
    | some k ↦ unit k
    | none ↦ elim (u.digit c) [ some d ↦ figure d | none ↦ if u.is_space c then space else junk ]
  ]

  -- `_TTL_VALIDATE_RE.fullmatch`, by one character; `none` is a mismatch.
  unfoldable pub validate_step : Place → Sort → Option Place
  validate_step start space = some start
  validate_step start (figure d) = some (number d)
  validate_step between space = some between
  validate_step between (figure d) = some (number d)
  validate_step (number v) space = some (gap v)
  validate_step (number v) (figure d) = some (number (10 * v + d))
  validate_step (number v) (unit k) = some between
  validate_step (gap v) space = some (gap v)
  validate_step (gap v) (unit k) = some between
  validate_step _ _ = none

  unfoldable pub validate : Place → List ℕ → Bool
  validate between [] = true
  validate _ [] = false
  validate p (c ∷ cs) = elim (validate_step p (sort c)) [ none ↦ false | some q ↦ validate q cs ]

  -- `_TTL_PARSE_RE.finditer` and the sum over its matches: a search that fails goes on behind.
  unfoldable pub find_step : Place → Sort → Place × ℕ
  find_step (number v) space = (gap v, 0)
  find_step (number v) (figure d) = (number (10 * v + d), 0)
  find_step (number v) (unit k) = (start, v * k)
  find_step (gap v) space = (gap v, 0)
  find_step (gap v) (unit k) = (start, v * k)
  find_step _ (figure d) = (number d, 0)
  find_step _ _ = (start, 0)

  unfoldable pub find_total : Place → List ℕ → ℕ
  find_total p [] = 0
  find_total p (c ∷ cs) = (find_step p (sort c)).1 + find_total (find_step p (sort c)).0 cs

  unfoldable pub parse_ttl : Ttl → Result ℕ
  parse_ttl (seconds (pos n)) = ok n
  parse_ttl (seconds (negsuc n)) = err value
  parse_ttl (words t) =
      if validate start (u.lower t) then ok (find_total start (u.lower t)) else err value
  parse_ttl other = err type
