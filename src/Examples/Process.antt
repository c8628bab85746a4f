-- ===== src/Examples/Process.antt =====
-- What the example programs have in common: a process that ends, calls of the libraries, and lines of
-- output.
use soma_c.Prelude.{
  ℕ, ◌-◌, ◌%◌, String, Bool, true, false, Option, none, some, List, [], ◌∷◌, ◌++◌, ◌≡◌, refl,
  if◌then◌else◌,
}
use soma_c.Prelude.Int.{ℤ, pos, negsuc}
use soma_c.Prelude.State.{M}
use soma_c.Client.{Store}
use soma_c.Stub.{Outcome, absent, moves, is_misused}

-- The lines of output that state a result.
pub data Line : Type 0 where
  returned_ids : (count : ℕ) → Line
  id_is : (i : ℕ) (text : String) → Line
  sum_is : ℤ → Line

-- Margo's names in this process, its clients and handles, the other end, and the output.
pub record Process (I S : Type 0) : Type 0 where
  pub names : I
  pub store : Store
  pub remote : S
  pub log : List Line

-- The program goes on, has called exit, or has failed an assertion.
pub data Ending (A : Type 0) : Type 0 where
  done : A → Ending A
  exited : ℤ → Ending A
  aborted : Ending A

-- A part of a program; `none` is undefined behaviour.
abbrev pub Program : (I S A : Type 0) → Type 0
Program I S A = Process I S → Option (Ending A × Process I S)

module _ {I S : Type 0} where
  infixl 5 ◌>>=◌ ◌>>◌
  abbrev pub go_on :
      {A B : Type 0}
      → Ending A
      → Process I S
      → (A → Program I S B)
      → Option (Ending B × Process I S)
  go_on (done a) p f = f a p
  go_on (exited c) p f = some (exited c, p)
  go_on aborted p f = some (aborted, p)

  abbrev pub ◌>>=◌ : {A B : Type 0} → Program I S A → (A → Program I S B) → Program I S B
  (m >>= f) p = elim (m p) [ none ↦ none | some (e, q) ↦ go_on e q f ]

  -- A part that goes on, and what follows it.
  pub step :
      {A B : Type 0} (m : Program I S A) (f : A → Program I S B) (p q : Process I S) (a : A)
      → m p ≡ some (done a, q)
      → (m >>= f) p ≡ f a q
  step m f p q a e = rw (e, ◌>>=◌) refl

  abbrev pub ◌>>◌ : {B : Type 0} → Program I S (Unit {0}) → Program I S B → Program I S B
  m >> k = m >>= λ _. k

  abbrev pub pure : {A : Type 0} → A → Program I S A
  pure a p = some (done a, p)

  -- `exit(code)`
  abbrev pub exit : {A : Type 0} → ℤ → Program I S A
  exit c p = some (exited c, p)

  -- The macro FATAL, unless the condition holds.
  abbrev pub or_fatal : Bool → Program I S (Unit {0})
  or_fatal true p = some (done tt, p)
  or_fatal false p = some (exited (negsuc 0), p)

  -- The value that a call wrote, which it does unless it fails; FATAL then.
  abbrev pub given : {A : Type 0} → Option A → Program I S A
  given none p = some (exited (negsuc 0), p)
  given (some a) p = some (done a, p)

  -- `assert(mid)`
  abbrev pub asserted : {A : Type 0} → Option A → Program I S A
  asserted none p = some (aborted, p)
  asserted (some a) p = some (done a, p)

  -- A variable that is read; `none` if nothing was written to it.
  abbrev pub read : {A : Type 0} → Option A → Program I S A
  read none p = none
  read (some a) p = some (done a, p)

  abbrev pub on_names : {A : Type 0} → (I → A × I) → Program I S A
  on_names f p = some (done (f p.names).0, record p { names = (f p.names).1 })

  -- A remote call that has come back; a call on its RPC handle that the state of the handle does not
  -- allow is undefined behaviour.
  abbrev pub used : {In R : Type 0} → Outcome In R × S → Program I S (Outcome In R)
  used (o, t) p =
      if is_misused (moves absent o.calls) then none else some (done o, record p { remote = t })

  abbrev pub on_remote : {In R : Type 0} → (S → Outcome In R × S) → Program I S (Outcome In R)
  on_remote f p = used (f p.remote) p

  abbrev pub on_remote_or_fault :
      {In R : Type 0} → (S → Option (Outcome In R × S)) → Program I S (Outcome In R)
  on_remote_or_fault f p = elim (f p.remote) [ none ↦ none | some x ↦ used x p ]

  pub used-some :
      {In R : Type 0} (o : Outcome In R) (t : S) (p : Process I S)
      → moves absent o.calls ≡ absent
      → used (o, t) p ≡ some (done o, record p { remote = t })
  used-some o t p e = rw e refl

  abbrev pub on_store : {A : Type 0} → M Store A → Program I S A
  on_store f p = elim (f p.store) [
    | none ↦ none
    | some (a, t) ↦ some (done a, record p { store = t })
  ]

  pub on_store-some :
      {A : Type 0} (f : M Store A) (p : Process I S) (a : A) (t : Store)
      → f p.store ≡ some (a, t)
      → on_store f p ≡ some (done a, record p { store = t })
  on_store-some f p a t e = rw (e, on_store) refl

  abbrev pub say : Line → Program I S (Unit {0})
  say l p = some (done tt, record p { log = p.log ++ l ∷ [] })

-- A uint16_t from an int.
abbrev pub uint16 : ℤ → ℕ
uint16 (pos n) = n % 65536
uint16 (negsuc n) = 65535 - n % 65536
