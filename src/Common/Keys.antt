-- ===== src/Common/Keys.antt =====
-- Keys built from other keys are other keys.
use Prim.Native.String.{String, ◌++◌, count}
use Prim.Native.Nat.{ℕ, zero, suc}
use Prim.Native.String.count
use mathlib.Core.Path.{◌≡◌, sym, ◌∙◌}
use mathlib.Core.Logic.{◌≢◌}
use mathlib.Core.Bool.{Bool, true, false}
use mathlib.Core.List.{List, [], ◌∷◌}
use redis_kit.Common.Tests.{if◌then◌else◌}
use text.Mathlib.TextLemmas.{append-nil, append_cancel_left, nil-append, cons-append}

pub append-ne_self : (s t : String) → t ≢ "" → s ++ t ≢ s
append-ne_self s t h e = h (append_cancel_left s t "" (e ∙ sym (append-nil s)))

-- The key of `f"{prefix}:{name}" if prefix else name` determines the name.
pub prefixed_injective :
    (bare : Bool) (p a b : String)
    → (if bare then a else p ++ ":" ++ a) ≡ (if bare then b else p ++ ":" ++ b)
    → a ≡ b
prefixed_injective true p a b e = e
prefixed_injective false p a b e =
    append_cancel_left ":" a b (append_cancel_left p (":" ++ a) (":" ++ b) e)

-- `",".join(keys)`
unfoldable pub joined : List String → String
joined [] = ""
joined (k ∷ []) = k
joined (k ∷ j ∷ ks) = k ++ "," ++ joined (j ∷ ks)

-- `s[n:]`, by characters.
unfoldable pub drop_chars : ℕ → String → String
drop_chars zero s = s
drop_chars (suc n) String.[] = ""
drop_chars (suc n) (String.◌∷◌ c s) = drop_chars n s

pub drop_chars-append : (p s : String) → drop_chars (count p) (p ++ s) ≡ s
unfolding drop_chars
drop_chars-append String.[] s = nil-append s
drop_chars-append (String.◌∷◌ c p) s =
    rw (cons-append c p s) (rw (count.cons c p) (drop_chars-append p s))
