-- ===== src/Cache/Durations.antt =====
-- The TTL texts that `parse_ttl` takes, and what they are worth.
use redis_kit.Common.{
  ℕ, ◌+◌, ◌*◌, ◌≡◌, refl, sym, ap, ◌∙◌, true, some, List, [], ◌∷◌, ◌++◌, arith, All,
}
use redis_kit.Cache.Ttl.{
  Letters, Place, start, between, number, gap, Sort, space, figure, unit, sort, validate_step,
  validate, find_step, find_total,
}

-- A number, a unit, and the white space behind each of them.
pub record Group : Type 0 where
  pub first : ℕ
  pub more : List ℕ
  pub space_between : List ℕ
  pub letter : ℕ
  pub behind : List ℕ

abbrev pub spelled : List Group → List ℕ
spelled [] = []
spelled (g ∷ gs) = g.first ∷ (g.more ++ (g.space_between ++ (g.letter ∷ (g.behind ++ spelled gs))))

module _ (u : Letters) where
  abbrev pub IsSpace : ℕ → Type 0
  IsSpace c = sort u c ≡ space

  abbrev pub IsFigure : ℕ → Type 0
  IsFigure c = (d : ℕ) × (sort u c ≡ figure d)

  abbrev pub IsUnit : ℕ → Type 0
  IsUnit c = (k : ℕ) × (sort u c ≡ unit k)

  pub record IsGroup (g : Group) : Type 0 where
    pub starts : IsFigure g.first
    pub goes_on : All IsFigure g.more
    pub spaced : All IsSpace g.space_between
    pub ends : IsUnit g.letter
    pub spaced_behind : All IsSpace g.behind

  abbrev pub digit_at : ℕ → ℕ
  digit_at c = elim (sort u c) [ figure d ↦ d | _ ↦ 0 ]

  abbrev pub factor : ℕ → ℕ
  factor c = elim (sort u c) [ unit k ↦ k | _ ↦ 0 ]

  -- The number that more digits make of `v`.
  abbrev pub numeral : ℕ → List ℕ → ℕ
  numeral v [] = v
  numeral v (c ∷ cs) = numeral (10 * v + digit_at c) cs

  abbrev pub total : List Group → ℕ
  total [] = 0
  total (g ∷ gs) = numeral (digit_at g.first) g.more * factor g.letter + total gs

  -- The text is white space and then one group or more, worth `n` seconds.
  pub record IsDuration (cs : List ℕ) (n : ℕ) : Type 0 where
    pub lead : List ℕ
    pub group : Group
    pub groups : List Group
    pub lead_spaces : All IsSpace lead
    pub first_group : IsGroup group
    pub all_groups : All IsGroup groups
    pub text : cs ≡ lead ++ spelled (group ∷ groups)
    pub worth : n ≡ total (group ∷ groups)

  -- One character of either automaton.
  pub valid_next :
      (p q : Place) (c : ℕ) (cs : List ℕ) (k : Sort)
      → sort u c ≡ k
      → validate_step u p k ≡ some q
      → validate u p (c ∷ cs) ≡ validate u q cs
  unfolding validate
  valid_next start q c cs k e f = rw (e, validate) (rw f refl)
  valid_next between q c cs k e f = rw (e, validate) (rw f refl)
  valid_next (number v) q c cs k e f = rw (e, validate) (rw f refl)
  valid_next (gap v) q c cs k e f = rw (e, validate) (rw f refl)

  found_next :
      (p q : Place) (n c : ℕ) (cs : List ℕ) (k : Sort)
      → sort u c ≡ k
      → find_step u p k ≡ (q, n)
      → find_total u p (c ∷ cs) ≡ n + find_total u q cs
  unfolding find_total
  found_next p q n c cs k e f = rw e (rw f refl)

  nothing_found : (n : ℕ) → 0 + n ≡ n
  nothing_found n = omega arith

  skip_start :
      (l rest : List ℕ)
      → All IsSpace l
      → (validate u start (l ++ rest) ≡ validate u start rest)
        × (find_total u start (l ++ rest) ≡ find_total u start rest)
  unfolding validate_step find_step
  skip_start [] rest a = (refl, refl)
  skip_start (c ∷ l) rest a =
      let (e, f) = skip_start l rest a.1 in
      (
        valid_next start start c (l ++ rest) space a.0 refl ∙ e,
        found_next start start 0 c (l ++ rest) space a.0 refl ∙ nothing_found _ ∙ f,
      )

  skip_between :
      (l rest : List ℕ) → All IsSpace l → validate u between (l ++ rest) ≡ validate u between rest
  unfolding validate_step
  skip_between [] rest a = refl
  skip_between (c ∷ l) rest a =
      valid_next between between c (l ++ rest) space a.0 refl ∙ skip_between l rest a.1

  skip_gap :
      (v : ℕ) (l rest : List ℕ)
      → All IsSpace l
      → (validate u (gap v) (l ++ rest) ≡ validate u (gap v) rest)
        × (find_total u (gap v) (l ++ rest) ≡ find_total u (gap v) rest)
  unfolding validate_step find_step
  skip_gap v [] rest a = (refl, refl)
  skip_gap v (c ∷ l) rest a =
      let (e, f) = skip_gap v l rest a.1 in
      (
        valid_next (gap v) (gap v) c (l ++ rest) space a.0 refl ∙ e,
        found_next (gap v) (gap v) 0 c (l ++ rest) space a.0 refl ∙ nothing_found _ ∙ f,
      )

  digit_at-figure : (c d : ℕ) → sort u c ≡ figure d → d ≡ digit_at c
  digit_at-figure c d e = rw (e, digit_at) refl

  factor-unit : (c k : ℕ) → sort u c ≡ unit k → k ≡ factor c
  factor-unit c k e = rw (e, factor) refl

  read_digits :
      (v : ℕ) (l rest : List ℕ)
      → All IsFigure l
      → (validate u (number v) (l ++ rest) ≡ validate u (number (numeral v l)) rest)
        × (find_total u (number v) (l ++ rest) ≡ find_total u (number (numeral v l)) rest)
  unfolding validate_step find_step
  read_digits v [] rest a = (refl, refl)
  read_digits v (c ∷ l) rest a =
      let w = 10 * v + digit_at c in
      let (e, f) = read_digits w l rest a.1 in
      let same_digit = ap (λ d. number (10 * v + d)) (digit_at-figure c a.0.0 a.0.1) in
      (
        valid_next (number v) (number w) c (l ++ rest) (figure a.0.0) a.0.1 (ap some same_digit)
            ∙ e,
        found_next (number v) (number w) 0 c (l ++ rest) (figure a.0.0) a.0.1
              (ap (λ q. (q, 0)) same_digit)
            ∙ nothing_found _
            ∙ f,
      )

  read_unit :
      (v : ℕ) (l : List ℕ) (c : ℕ) (rest : List ℕ)
      → All IsSpace l
      → IsUnit c
      → (validate u (number v) (l ++ c ∷ rest) ≡ validate u between rest)
        × (find_total u (number v) (l ++ c ∷ rest) ≡ v * factor c + find_total u start rest)
  unfolding validate_step find_step
  read_unit v [] c rest a k = (
    valid_next (number v) between c rest (unit k.0) k.1 refl,
    found_next (number v) start (v * factor c) c rest (unit k.0) k.1
        (ap (λ n. (start, v * n)) (factor-unit c k.0 k.1)),
  )
  read_unit v (x ∷ l) c rest a k =
      let (e, f) = skip_gap v l (c ∷ rest) a.1 in
      (
        valid_next (number v) (gap v) x (l ++ c ∷ rest) space a.0 refl
            ∙ e
            ∙ valid_next (gap v) between c rest (unit k.0) k.1 refl,
        found_next (number v) (gap v) 0 x (l ++ c ∷ rest) space a.0 refl
            ∙ nothing_found _
            ∙ f
            ∙ found_next (gap v) start (v * factor c) c rest (unit k.0) k.1
                (ap (λ n. (start, v * n)) (factor-unit c k.0 k.1)),
      )

  read_group :
      (g : Group) (rest : List ℕ)
      → IsGroup g
      → let cs = g.first ∷ (g.more ++ (g.space_between ++ (g.letter ∷ (g.behind ++ rest)))) in
        (validate u start cs ≡ validate u between rest)
        × (validate u between cs ≡ validate u between rest)
        × (find_total u start cs
            ≡ numeral (digit_at g.first) g.more * factor g.letter + find_total u start rest)
  unfolding validate_step find_step
  read_group g rest is =
      let d = digit_at g.first in
      let (f, e) = is.starts in
      let after_digits = g.space_between ++ (g.letter ∷ (g.behind ++ rest)) in
      let same_digit = ap number (sym (digit_at-figure g.first f e)) in
      let (p, q) = read_digits d g.more after_digits is.goes_on in
      let (p', q') =
        read_unit (numeral d g.more) g.space_between g.letter (g.behind ++ rest) is.spaced
          is.ends in
      let p'' = p ∙ p' ∙ skip_between g.behind rest is.spaced_behind in
      let q'' = (skip_start g.behind rest is.spaced_behind).1 in
      (
        valid_next start (number d) g.first (g.more ++ after_digits) (figure f) e
              (ap some (sym same_digit))
            ∙ p'',
        valid_next between (number d) g.first (g.more ++ after_digits) (figure f) e
              (ap some (sym same_digit))
            ∙ p'',
        found_next start (number d) 0 g.first (g.more ++ after_digits) (figure f) e
              (ap (λ x. (x, 0)) (sym same_digit))
            ∙ nothing_found _
            ∙ q
            ∙ q'
            ∙ ap (λ n. numeral d g.more * factor g.letter + n) q'',
      )

  read_groups :
      (gs : List Group)
      → All IsGroup gs
      → (validate u between (spelled gs) ≡ true) × (find_total u start (spelled gs) ≡ total gs)
  unfolding validate find_total
  read_groups [] a = (refl, refl)
  read_groups (g ∷ gs) a =
      let (p, q) = read_groups gs a.1 in
      let (x, y, z) = read_group g (spelled gs) a.0 in
      (y ∙ p, z ∙ ap (λ n. numeral (digit_at g.first) g.more * factor g.letter + n) q)

  pub accepted :
      (lead : List ℕ) (g : Group) (gs : List Group)
      → All IsSpace lead
      → IsGroup g
      → All IsGroup gs
      → (validate u start (lead ++ spelled (g ∷ gs)) ≡ true)
        × (find_total u start (lead ++ spelled (g ∷ gs)) ≡ total (g ∷ gs))
  accepted lead g gs a is as' =
      let (v, f) = skip_start lead (spelled (g ∷ gs)) a in
      let (x, y, z) = read_group g (spelled gs) is in
      let (p, q) = read_groups gs as' in
      (v ∙ x ∙ p, f ∙ z ∙ ap (λ n. numeral (digit_at g.first) g.more * factor g.letter + n) q)
