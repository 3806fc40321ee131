-- ===== src/Async/Task.antt =====
-- Coroutines: what `async def` and `await` of the asynchronous classes mean, and the event loop.
use redis_kit.Common.{
  Bool, true, false, List, [], ◌∷◌, ◌≡◌, refl, Error, Result, ok, err, Exec, continue,
}

-- A coroutine over the state `S`. `step` runs on without giving up control; `await` is suspended
-- on something that acts on the state while nothing of the coroutine runs.
pub data Task {ℓ} (S : Type 0) (A : Type ℓ) : Type ℓ where
  done : Result A → Task S A
  step : (S → S) → (S → Task S A) → Task S A
  await : (S → S) → (S → Task S A) → Task S A

module _ {ℓ} {S : Type 0} {A : Type ℓ} where
  abbrev pub pure : A → Task S A
  pure a = done (ok a)

  abbrev pub raise : Error → Task S A
  raise e = done (err e)

  -- Code between two suspensions.
  abbrev pub at_once : Exec S A → Task S A
  at_once m = step (λ s. (m s).1) (λ s. done (m s).0)

  -- `await` of a command of the client.
  abbrev pub command : Exec S A → Task S A
  command m = await (λ s. (m s).1) (λ s. done (m s).0)

  -- The coroutine as the argument of a `try`.
  abbrev pub caught : Task S A → Task S (Result A)
  caught (done r) = done (ok r)
  caught (step g k) = step g (λ s. caught (k s))
  caught (await g k) = await g (λ s. caught (k s))

  -- A coroutine that runs alone.
  unfoldable pub run : Task S A → Exec S A
  run (done r) s = (r, s)
  run (step g k) s = run (k s) (g s)
  run (await g k) s = run (k s) (g s)

  -- The event loop runs a coroutine to its next suspension, or the awaited thing happens.
  unfoldable pub settle : Task S A → S → Task S A × S
  settle (step g k) s = settle (k s) (g s)
  settle (done r) s = (done r, s)
  settle (await g k) s = (await g k, s)

  unfoldable pub advance : Task S A → S → Task S A × S
  unfolding settle
  advance (done r) s = (done r, s)
  advance (step g k) s = settle (k s) (g s)
  advance (await g k) s = (k s, g s)

module _ {ℓ κ} {S : Type 0} {A : Type ℓ} {B : Type κ} where
  infixl 5 ◌>>=◌
  abbrev pub ◌>>=◌ : Task S A → (A → Task S B) → Task S B
  done (ok a) >>= f = f a
  done (err e) >>= f = done (err e)
  step g k >>= f = step g (λ s. k s >>= f)
  await g k >>= f = await g (λ s. k s >>= f)

  -- Two coroutines on one event loop; `true` in the schedule is the first one's turn.
  unfoldable pub interleave : List Bool → Task S A → Task S B → S → Task S A × Task S B × S
  interleave [] t u s = (t, u, s)
  interleave (true ∷ bs) t u s = interleave bs (advance t s).0 u (advance t s).1
  interleave (false ∷ bs) t u s = interleave bs t (advance u s).0 (advance u s).1

infixl 5 ◌>>◌
abbrev pub ◌>>◌ {ℓ} : {S : Type 0} {B : Type ℓ} → Task S (Unit {0}) → Task S B → Task S B
m >> k = m >>= λ _. k

pub run-bind {ℓ κ} :
    {S : Type 0} {A : Type ℓ} {B : Type κ} (t : Task S A) (f : A → Task S B) (s : S)
    → run (t >>= f) s ≡ continue (run t s).0 (λ a. run (f a)) (run t s).1
unfolding run
run-bind (done (ok a)) f s = refl
run-bind (done (err e)) f s = refl
run-bind (step g k) f s = run-bind (k s) f (g s)
run-bind (await g k) f s = run-bind (k s) f (g s)

pub run-caught {ℓ} :
    {S : Type 0} {A : Type ℓ} (t : Task S A) (s : S)
    → run (caught t) s ≡ (ok (run t s).0, (run t s).1)
unfolding run
run-caught (done r) s = refl
run-caught (step g k) s = run-caught (k s) (g s)
run-caught (await g k) s = run-caught (k s) (g s)

-- Each step of the coroutine and each thing it awaits keeps `P`.
abbrev pub Keeps {ℓ κ} : {S : Type 0} {A : Type ℓ} → (S → Type κ) → Task S A → Type κ
Keeps P (done r) = Unit
Keeps {S = S} P (step g k) = (s : S) → P s → P (g s) × Keeps P (k s)
Keeps {S = S} P (await g k) = (s : S) → P s → P (g s) × Keeps P (k s)

module _ {ℓ κ} {S : Type 0} {A : Type ℓ} (P : S → Type κ) where
  settle-Keeps :
      (t : Task S A) (s : S) → Keeps P t → P s → Keeps P (settle t s).0 × P (settle t s).1
  unfolding settle
  settle-Keeps (done r) s h p = (tt, p)
  settle-Keeps (await g k) s h p = (h, p)
  settle-Keeps (step g k) s h p = settle-Keeps (k s) (g s) ((h s p).1) ((h s p).0)

  advance-Keeps :
      (t : Task S A) (s : S) → Keeps P t → P s → Keeps P (advance t s).0 × P (advance t s).1
  unfolding advance
  advance-Keeps (done r) s h p = (tt, p)
  advance-Keeps (await g k) s h p = ((h s p).1, (h s p).0)
  advance-Keeps (step g k) s h p = settle-Keeps (k s) (g s) ((h s p).1) ((h s p).0)

module _ {ℓ ι κ} {S : Type 0} {A : Type ℓ} {B : Type ι} (P : S → Type κ) where
  -- An invariant that both coroutines keep holds under every schedule.
  pub interleave-Keeps :
      (bs : List Bool) (t : Task S A) (u : Task S B) (s : S)
      → Keeps P t
      → Keeps P u
      → P s
      → P (interleave bs t u s).2
  unfolding interleave
  interleave-Keeps [] t u s h h' p = p
  interleave-Keeps (true ∷ bs) t u s h h' p =
      let (k, q) = advance-Keeps P t s h p in interleave-Keeps bs _ u _ k h' q
  interleave-Keeps (false ∷ bs) t u s h h' p =
      let (k, q) = advance-Keeps P u s h' p in interleave-Keeps bs t _ _ h k q

  pub bind-Keeps :
      (t : Task S A) (f : A → Task S B) → Keeps P t → ((a : A) → Keeps P (f a)) → Keeps P (t >>= f)
  bind-Keeps (done (ok a)) f h h' = h' a
  bind-Keeps (done (err e)) f h h' = tt
  bind-Keeps (step g k) f h h' = λ s p. ((h s p).0, bind-Keeps (k s) f ((h s p).1) h')
  bind-Keeps (await g k) f h h' = λ s p. ((h s p).0, bind-Keeps (k s) f ((h s p).1) h')
