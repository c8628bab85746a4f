-- ===== src/Prelude/State.antt =====
-- Stateful code that may run into undefined behaviour: the state is passed on, and `none` is the
-- fault, such as a read through a null or dangling pointer.
use mathlib.Core.Path.{◌≡◌}
use mathlib.Core.Option.{Option, none, some}
use native.Mathlib.Omega.{arith}

abbrev pub M : Type 0 → Type 0 → Type 0
M S A = S → Option (A × S)

module _ {S A : Type 0} where
  abbrev pub pure : A → M S A
  pure a s = some (a, s)

  abbrev pub fault : M S A
  fault s = none

  abbrev pub gets : (S → A) → M S A
  gets f s = some (f s, s)

  -- A computed value that may be a fault.
  abbrev pub lift : Option A → M S A
  lift none s = none
  lift (some a) s = some (a, s)

abbrev pub modify : {S : Type 0} → (S → S) → M S (Unit {0})
modify f s = some (tt, f s)

infixl 5 ◌>>=◌ ◌>>◌
abbrev pub ◌>>=◌ : {S A B : Type 0} → M S A → (A → M S B) → M S B
◌>>=◌ m f s = elim (m s) [ none ↦ none | some (a, t) ↦ f a t ]

abbrev pub ◌>>◌ : {S B : Type 0} → M S (Unit {0}) → M S B → M S B
m >> k = m >>= λ _. k

-- A step that succeeds, and what follows it.
pub >>-some :
    {S B : Type 0} (m : M S (Unit {0})) (k : M S B) (s t : S)
    → m s ≡ some (tt, t)
    → (m >> k) s ≡ k t
>>-some m k s t e = ground (arith, e)
