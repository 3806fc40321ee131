-- ===== src/Cache/Parsed.antt =====
-- That `parse_ttl` takes nothing else.
use redis_kit.Common.{
  ℕ, ◌+◌, ◌*◌, ◌≡◌, ◌↔◌, refl, sym, ap, ◌∙◌, Bool, true, false, none, List, [], ◌∷◌, ◌++◌, value,
  Result, ok, err, arith, All, if◌then◌else◌,
}
use redis_kit.Cache.Ttl.{
  Letters, words, Place, start, between, number, gap, Sort, space, junk, figure, unit, sort,
  validate_step, validate, find_total, parse_ttl,
}
use redis_kit.Cache.Durations.{
  Group, spelled, IsSpace, IsFigure, IsUnit, IsGroup, IsDuration, valid_next, accepted,
}

impossible : {A : Type 0} → true ≡ false → A
impossible e = cc

module _ (u : Letters) where
  -- What stands behind a place that the first automaton accepts.
  abbrev Rest : List ℕ → List ℕ → ℕ → List ℕ → List Group → Type 0
  Rest more sp letter behind gs =
      All (IsFigure u) more
      × All (IsSpace u) sp
      × IsUnit u letter
      × All (IsSpace u) behind
      × All (IsGroup u) gs

  abbrev tail_of : List ℕ → ℕ → List ℕ → List Group → List ℕ
  tail_of sp letter behind gs = sp ++ (letter ∷ (behind ++ spelled gs))

  abbrev Parsed : Place → List ℕ → Type 0
  Parsed start cs =
      (lead : List ℕ) × (g : Group) × (gs : List Group) × All (IsSpace u) lead
      × IsGroup u g
      × All (IsGroup u) gs
      × (cs ≡ lead ++ spelled (g ∷ gs))
  Parsed between cs =
      (behind : List ℕ) × (gs : List Group) × All (IsSpace u) behind
      × All (IsGroup u) gs
      × (cs ≡ behind ++ spelled gs)
  Parsed (number v) cs =
      (more : List ℕ) × (sp : List ℕ) × (letter : ℕ) × (behind : List ℕ) × (gs : List Group) × Rest
        more sp letter behind gs
      × (cs ≡ more ++ tail_of sp letter behind gs)
  Parsed (gap v) cs =
      (sp : List ℕ) × (letter : ℕ) × (behind : List ℕ) × (gs : List Group) × Rest [] sp letter
        behind gs
      × (cs ≡ tail_of sp letter behind gs)

  module _ (c : ℕ) (cs : List ℕ) where
    refused :
        (p : Place) (k : Sort)
        → sort u c ≡ k
        → validate_step u p k ≡ none
        → validate u p (c ∷ cs) ≡ false
    unfolding validate
    refused start k e f = rw (e, validate) (rw f refl)
    refused between k e f = rw (e, validate) (rw f refl)
    refused (number v) k e f = rw (e, validate) (rw f refl)
    refused (gap v) k e f = rw (e, validate) (rw f refl)

    one_more :
        (p : Place) (k : Sort)
        → sort u c ≡ k
        → validate u p (c ∷ cs) ≡ true
        → ((q : Place) → validate u q cs ≡ true → Parsed q cs)
        → Parsed p (c ∷ cs)
    unfolding validate_step
    one_more start space e h later =
        let (lead, g, gs, a, i, is, t) =
          later start (sym (valid_next u start start c cs space e refl) ∙ h) in
        (c ∷ lead, g, gs, (e, a), i, is, ap (λ l. c ∷ l) t)
    one_more start (figure d) e h later =
        let (more, sp, letter, behind, gs, (am, asp, un, ab, is), t) =
          later (number d) (sym (valid_next u start (number d) c cs (figure d) e refl) ∙ h) in
        (
          [],
          record { first = c; more = more; space_between = sp; letter = letter; behind = behind },
          gs,
          tt,
          record { starts = (d, e); goes_on = am; spaced = asp; ends = un; spaced_behind = ab },
          is,
          ap (λ l. c ∷ l) t,
        )
    one_more between space e h later =
        let (behind, gs, a, is, t) =
          later between (sym (valid_next u between between c cs space e refl) ∙ h) in
        (c ∷ behind, gs, (e, a), is, ap (λ l. c ∷ l) t)
    one_more between (figure d) e h later =
        let (more, sp, letter, behind, gs, (am, asp, un, ab, is), t) =
          later (number d) (sym (valid_next u between (number d) c cs (figure d) e refl) ∙ h) in
        (
          [],
          record { first = c; more = more; space_between = sp; letter = letter; behind = behind }
              ∷ gs,
          tt,
          (
            record { starts = (d, e); goes_on = am; spaced = asp; ends = un; spaced_behind = ab },
            is,
          ),
          ap (λ l. c ∷ l) t,
        )
    one_more (number v) space e h later =
        let (sp, letter, behind, gs, (am, asp, un, ab, is), t) =
          later (gap v) (sym (valid_next u (number v) (gap v) c cs space e refl) ∙ h) in
        ([], c ∷ sp, letter, behind, gs, (tt, (e, asp), un, ab, is), ap (λ l. c ∷ l) t)
    one_more (number v) (figure d) e h later =
        let (more, sp, letter, behind, gs, (am, asp, un, ab, is), t) =
          later (number (10 * v + d))
            (sym (valid_next u (number v) (number (10 * v + d)) c cs (figure d) e refl) ∙ h) in
        (c ∷ more, sp, letter, behind, gs, (((d, e), am), asp, un, ab, is), ap (λ l. c ∷ l) t)
    one_more (number v) (unit k) e h later =
        let (behind, gs, ab, is, t) =
          later between (sym (valid_next u (number v) between c cs (unit k) e refl) ∙ h) in
        ([], [], c, behind, gs, (tt, tt, (k, e), ab, is), ap (λ l. c ∷ l) t)
    one_more (gap v) space e h later =
        let (sp, letter, behind, gs, (am, asp, un, ab, is), t) =
          later (gap v) (sym (valid_next u (gap v) (gap v) c cs space e refl) ∙ h) in
        (c ∷ sp, letter, behind, gs, (tt, (e, asp), un, ab, is), ap (λ l. c ∷ l) t)
    one_more (gap v) (unit k) e h later =
        let (behind, gs, ab, is, t) =
          later between (sym (valid_next u (gap v) between c cs (unit k) e refl) ∙ h) in
        ([], c, behind, gs, (tt, tt, (k, e), ab, is), ap (λ l. c ∷ l) t)
    one_more start junk e h later = impossible (sym h ∙ refused start junk e refl)
    one_more start (unit k) e h later = impossible (sym h ∙ refused start (unit k) e refl)
    one_more between junk e h later = impossible (sym h ∙ refused between junk e refl)
    one_more between (unit k) e h later = impossible (sym h ∙ refused between (unit k) e refl)
    one_more (number v) junk e h later = impossible (sym h ∙ refused (number v) junk e refl)
    one_more (gap v) junk e h later = impossible (sym h ∙ refused (gap v) junk e refl)
    one_more (gap v) (figure d) e h later = impossible (sym h ∙ refused (gap v) (figure d) e refl)

  parsed : (p : Place) (cs : List ℕ) → validate u p cs ≡ true → Parsed p cs
  unfolding validate
  parsed between [] h = ([], [], tt, tt, refl)
  parsed start [] h = impossible (sym h)
  parsed (number v) [] h = impossible (sym h)
  parsed (gap v) [] h = impossible (sym h)
  parsed p (c ∷ cs) h = one_more c cs p (sort u c) refl h (λ q. parsed q cs)

  read_text :
      (cs : List ℕ) (n : ℕ) (b : Bool)
      → validate u start cs ≡ b
      → ((if b then ok (find_total u start cs) else err value) ≡ ok n) ↔ IsDuration u cs n
  read_text cs n false e = (
    λ (no : Path (Result ℕ) (err value) (ok n)). ground arith,
    λ d. impossible (
        sym (
          ap (validate u start) d.text
          ∙ (accepted u d.lead d.group d.groups d.lead_spaces d.first_group d.all_groups).0)
        ∙ e),
  )
  read_text cs n true e = (
    λ r.
        let (lead, g, gs, a, i, is, t) = parsed start cs e in
        record {
          lead = lead;
          group = g;
          groups = gs;
          lead_spaces = a;
          first_group = i;
          all_groups = is;
          text = t;
          worth = value_of r ∙ ap (find_total u start) t ∙ (accepted u lead g gs a i is).1;
        },
    λ d. ap ok (
        ap (find_total u start) d.text
        ∙ (accepted u d.lead d.group d.groups d.lead_spaces d.first_group d.all_groups).1
        ∙ sym d.worth),
  )
    where
      value_of : {m : ℕ} → Path (Result ℕ) (ok m) (ok n) → n ≡ m
      value_of r = cc

  -- `parse_ttl` takes a text exactly when, in lower case, it is white space and then one or more
  -- groups of a number and a unit with white space behind each of them, and returns the sum of the
  -- numbers times the seconds of their units.
  pub parse_ttl-IsDuration :
      (t : List ℕ) (n : ℕ) → (parse_ttl u (words t) ≡ ok n) ↔ IsDuration u (u.lower t) n
  unfolding parse_ttl
  parse_ttl-IsDuration t n = read_text (u.lower t) n (validate u start (u.lower t)) refl
