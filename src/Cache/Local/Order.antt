-- ===== src/Cache/Local/Order.antt =====
-- The dictionary of the local cache: keys occur once, and what each step leaves to be found.
use redis_kit.Common.{
  ℕ, zero, suc, ◌-◌, ◌≤◌, ◌<◌, String, ◌==◌, eq_iff, eq_refl, ◌≡◌, ◌⊎◌, refl, false, Option, none,
  some, List, [], ◌∷◌, ◌++◌, arith, length, drop, All, Bool-cases, inl, inr, ltb, if◌then◌else◌,
}
use redis_kit.Cache.Local.{
  Entries, find, without, move_to_end, assign, shrink, expired_sample, without_all,
}

module _ {ℓ} {V : Type ℓ} where
  -- No key occurs twice.
  abbrev pub Unique : Entries V → Type ℓ
  Unique [] = Unit
  Unique ((k, v, t) ∷ l) = (find k l ≡ none) × Unique l

  pub find-without :
      (k j : String) (l : Entries V) → find j (without k l) ≡ (if k == j then none else find j l)
  unfolding find without
  find-without k j [] = ground arith
  find-without k j ((i, v, t) ∷ l) =
      ground (arith, eq_iff i k, eq_iff i j, eq_iff k j, find-without k j l)

  pub find-append :
      (j : String) (l m : Entries V)
      → find j (l ++ m) ≡ elim (find j l) [ none ↦ find j m | some e ↦ some e ]
  unfolding find
  find-append j [] m = refl
  find-append j ((i, v, t) ∷ l) m = ground (arith, find-append j l m)

  pub without-Unique : (k : String) (l : Entries V) → Unique l → Unique (without k l)
  unfolding without
  without-Unique k [] u = tt
  without-Unique k ((i, v, t) ∷ l) u = ground (arith, without-Unique k l, find-without k i l)

  pub append-Unique :
      (k : String) (v : V) (t : ℕ) (l : Entries V)
      → Unique l
      → find k l ≡ none
      → Unique (l ++ (k, v, t) ∷ [])
  unfolding find
  append-Unique k v t [] u f = (refl, tt)
  append-Unique k v t ((i, w, x) ∷ l) u f =
      ground
        (arith, append-Unique k v t l, find-append i l ((k, v, t) ∷ []), eq_iff i k, eq_iff k i)

  -- A key that is not there is appended; one at the end is overwritten there.
  assign_fresh :
      (k : String) (v : V) (t : ℕ) (l : Entries V)
      → find k l ≡ none
      → assign k v t l ≡ l ++ (k, v, t) ∷ []
  unfolding find assign
  assign_fresh k v t [] f = refl
  assign_fresh k v t ((i, w, x) ∷ l) f = ground (arith, assign_fresh k v t l)

  assign_last :
      (k : String) (v w : V) (t x : ℕ) (l : Entries V)
      → find k l ≡ none
      → assign k v t (l ++ (k, w, x) ∷ []) ≡ l ++ (k, v, t) ∷ []
  unfolding find assign
  assign_last k v w t x [] f = ground (arith, eq_refl k)
  assign_last k v w t x ((i, y, z) ∷ l) f = ground (arith, assign_last k v w t x l)

  without_absent : (k : String) (l : Entries V) → find k l ≡ none → without k l ≡ l
  unfolding find without
  without_absent k [] f = refl
  without_absent k ((i, v, t) ∷ l) f = ground (arith, without_absent k l)

  -- Storing moves the key to the end, whether it was there or not.
  pub assign-move_to_end :
      (k : String) (v : V) (t : ℕ) (l : Entries V)
      → assign k v t (move_to_end k l) ≡ without k l ++ (k, v, t) ∷ []
  unfolding move_to_end
  assign-move_to_end k v t l = go (find k l) refl
    where
      go :
          (o : Option (V × ℕ))
          → find k l ≡ o
          → assign k v t (move_to_end k l) ≡ without k l ++ (k, v, t) ∷ []
      go none e = rw (e, move_to_end, without_absent k l e) (assign_fresh k v t l e)
      go (some (w, x)) e =
          rw (e, move_to_end)
            (assign_last k v w t x (without k l) (ground (arith, find-without k k l, eq_refl k)))

  -- The loop that pops the oldest entries drops exactly what is too much.
  pub shrink-drop : (n : ℕ) (l : Entries V) → shrink n l ≡ drop (length l - n) l
  unfolding shrink
  shrink-drop n [] = let e : 0 - n ≡ 0 = omega arith in rw e refl
  shrink-drop n (e ∷ l) = elim (Bool-cases (ltb n (length (e ∷ l)))) [
    | inl more ↦
        let one : suc (length l) - n ≡ suc (length l - n) = ground arith in
        rw (more, one) (shrink-drop n l)
    | inr fits ↦ let nothing : suc (length l) - n ≡ 0 = ground arith in rw (fits, nothing) refl
  ]

  pub find-drop-none :
      (k : String) (n : ℕ) (l : Entries V) → find k l ≡ none → find k (drop n l) ≡ none
  unfolding find
  find-drop-none k zero l f = f
  find-drop-none k (suc n) [] f = f
  find-drop-none k (suc n) ((i, v, t) ∷ l) f = find-drop-none k n l (ground arith)

  pub drop-Unique : (n : ℕ) (l : Entries V) → Unique l → Unique (drop n l)
  drop-Unique zero l u = u
  drop-Unique (suc n) [] u = u
  drop-Unique (suc n) (e ∷ l) u = drop-Unique n l u.1

  -- The last entry survives if less than the whole is dropped.
  pub find-drop_last :
      (k : String) (v : V) (t n : ℕ) (l : Entries V)
      → find k l ≡ none
      → n ≤ length l
      → find k (drop n (l ++ (k, v, t) ∷ [])) ≡ some (v, t)
  unfolding find
  find-drop_last k v t zero [] f le = ground (arith, eq_refl k)
  find-drop_last k v t (suc n) [] f le = absurd (omega arith)
  find-drop_last k v t zero ((i, w, x) ∷ l) f le = ground (arith, find-drop_last k v t zero l)
  find-drop_last k v t (suc n) ((i, w, x) ∷ l) f le =
      find-drop_last k v t n l (ground arith) (omega arith)

  -- Removing keys: what stays unique, what is still found, and how long the rest can be.
  pub without_all-Unique : (ks : List String) (l : Entries V) → Unique l → Unique (without_all ks l)
  unfolding without_all
  without_all-Unique [] l u = u
  without_all-Unique (k ∷ ks) l u = without_all-Unique ks (without k l) (without-Unique k l u)

  pub find-without_all :
      (ks : List String) (j : String) (l : Entries V)
      → All (λ k. (k == j) ≡ false) ks
      → find j (without_all ks l) ≡ find j l
  unfolding without_all
  find-without_all [] j l a = refl
  find-without_all (k ∷ ks) j l a =
      rw (find-without_all ks j (without k l) a.1, find-without k j l, a.0)

  pub find-without_all_cases :
      (ks : List String) (j : String) (l : Entries V)
      → (find j (without_all ks l) ≡ none) ⊎ (find j (without_all ks l) ≡ find j l)
  unfolding without_all
  find-without_all_cases [] j l = inr refl
  find-without_all_cases (k ∷ ks) j l =
      ground (arith, find-without_all_cases ks j (without k l), find-without k j l)

  pub length-without-le : (k : String) (l : Entries V) → length (without k l) ≤ length l
  unfolding without
  length-without-le k [] = omega arith
  length-without-le k ((i, v, t) ∷ l) = ground (arith, length-without-le k l)

  pub length-without_all-le :
      (ks : List String) (l : Entries V) → length (without_all ks l) ≤ length l
  unfolding without_all
  length-without_all-le [] l = omega arith
  length-without_all-le (k ∷ ks) l =
      omega (arith, length-without_all-le ks (without k l), length-without-le k l)

  pub length-without_found :
      (k : String) (v : V) (t : ℕ) (l : Entries V)
      → find k l ≡ some (v, t)
      → length (without k l) < length l
  unfolding find without
  length-without_found k v t [] f = cc
  length-without_found k v t ((i, w, x) ∷ l) f =
      ground (arith, length-without_found k v t l, length-without-le k l)

  -- The sample holds no key that is absent, and none that is alive.
  sample_absent :
      (now step skip : ℕ) (j : String) (l : Entries V)
      → find j l ≡ none
      → All (λ k. (k == j) ≡ false) (expired_sample now step skip l)
  unfolding find expired_sample
  sample_absent now step skip j [] f = tt
  sample_absent now step (suc skip) j ((k, v, t) ∷ l) f =
      sample_absent now step skip j l (ground arith)
  sample_absent now step zero j ((k, v, t) ∷ l) f =
      let rest : All (λ k. (k == j) ≡ false) (expired_sample now step (step - 1) l) =
        sample_absent now step (step - 1) j l (ground arith) in
      elim (Bool-cases (ltb t now)) [
        | inl old ↦ rw old (ground arith, rest)
        | inr young ↦ rw young rest
      ]

  pub sample_alive :
      (now step skip : ℕ) (j : String) (v : V) (t : ℕ) (l : Entries V)
      → Unique l
      → find j l ≡ some (v, t)
      → ltb t now ≡ false
      → All (λ k. (k == j) ≡ false) (expired_sample now step skip l)
  unfolding find expired_sample
  sample_alive now step skip j v t [] u f alive = tt
  sample_alive now step (suc skip) j v t ((k, w, x) ∷ l) u f alive = elim (Bool-cases (k == j)) [
    | inl same ↦ sample_absent now step skip j l (ground (arith, eq_iff k j))
    | inr other ↦ sample_alive now step skip j v t l u.1 (ground arith) alive
  ]
  sample_alive now step zero j v t ((k, w, x) ∷ l) u f alive = elim (Bool-cases (k == j)) [
    | inl same ↦
        let young : ltb x now ≡ false = ground arith in
        rw young (sample_absent now step (step - 1) j l (ground (arith, eq_iff k j)))
    | inr other ↦ elim (Bool-cases (ltb x now)) [
      | inl old ↦ rw old (other, sample_alive now step (step - 1) j v t l u.1 (ground arith) alive)
      | inr young ↦ rw young (sample_alive now step (step - 1) j v t l u.1 (ground arith) alive)
    ]
  ]
