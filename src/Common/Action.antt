-- ===== src/Common/Action.antt =====
-- Calls that change state and may throw. What was written before a throw stays written.
use kltn_high_concurrency_co.Common.Exception.{Exception, Result, ok, throw}

abbrev pub Action {ℓ} : Type ℓ → Type ℓ → Type ℓ
Action S A = S → Result A × S

module _ {ℓ} {S : Type ℓ} where
  abbrev pub proceed : {A B : Type ℓ} → Result A × S → (A → Action S B) → Result B × S
  proceed (ok a, s) f = f a s
  proceed (throw e, s) f = (throw e, s)

  abbrev pub return : {A : Type ℓ} → A → Action S A
  return a s = (ok a, s)

  abbrev pub raise : {A : Type ℓ} → Exception → Action S A
  raise e s = (throw e, s)

  infixl 5 ◌>>=◌ ◌>>◌
  abbrev pub ◌>>=◌ : {A B : Type ℓ} → Action S A → (A → Action S B) → Action S B
  ◌>>=◌ m f s = proceed (m s) f

  abbrev pub ◌>>◌ : {A B : Type ℓ} → Action S A → Action S B → Action S B
  ◌>>◌ m k s = proceed (m s) (λ _. k)

  -- try { m } catch (e) { k e }
  abbrev settle : {A : Type ℓ} → Result A × S → (Exception → Action S A) → Result A × S
  settle (ok a, s) k = (ok a, s)
  settle (throw e, s) k = k e s

  abbrev pub try_catch : {A : Type ℓ} → Action S A → (Exception → Action S A) → Action S A
  try_catch m k s = settle (m s) k

-- Calls on one part of a state of two.
module _ {ℓ} {S T A : Type ℓ} where
  abbrev beside_second : Result A × S → T → Result A × (S × T)
  beside_second (r, s) t = (r, (s, t))

  abbrev beside_first : S → Result A × T → Result A × (S × T)
  beside_first s (r, t) = (r, (s, t))

  abbrev pub on_first : Action S A → Action (S × T) A
  on_first m (s, t) = beside_second (m s) t

  abbrev pub on_second : Action T A → Action (S × T) A
  on_second m (s, t) = beside_first s (m t)
