-- ===== src/Provider/Concurrent/Progress.antt =====
-- Handlers that interleave come to an end.
use soma_c.Prelude.{
  ℕ, suc, ◌+◌, ◌*◌, ◌≤◌, ◌<◌, ◌≡◌, refl, ap, Option, none, some, List, [], ◌∷◌, ◌++◌, map, arith,
  length, All, ◌⊎◌, inl, inr,
}
use soma_c.Foreign.UtHash.{UtHash}
use soma_c.Provider.State.{Provider}
use soma_c.Provider.Server.{Response, HandleCall}
use soma_c.Provider.Serve.{Request}
use soma_c.Provider.Concurrent.Order.{entered}
use soma_c.Provider.Concurrent.{
  request, Thread, waiting, leaving, conclude, System, start, Step, enter, call, Reach, here, next,
}

-- The steps that a handler has yet to make, at most.
abbrev pub left : Thread → ℕ
left (waiting r) = 4
left (leaving r made todo) = length todo

abbrev pub total_left : List Thread → ℕ
total_left [] = 0
total_left (t ∷ ts) = left t + total_left ts

total_left-append : (ts us : List Thread) → total_left (ts ++ us) ≡ total_left ts + total_left us
total_left-append [] us = omega arith
total_left-append (t ∷ ts) us = omega (arith, total_left-append ts us)

total_left-waiting : (rs : List Request) → total_left (map waiting rs) ≡ 4 * length rs
total_left-waiting [] = refl
total_left-waiting (r ∷ rs) = omega (arith, total_left-waiting rs)

length-conclude : (o : Option Response) → length (conclude o) ≤ 3
length-conclude none = omega arith
length-conclude (some out) = omega arith

-- The handler has made its last call.
abbrev pub IsDone : Thread → Type 0
IsDone (waiting r) = ⊥
IsDone (leaving r made []) = Unit
IsDone (leaving r made (c ∷ todo)) = ⊥

module _ {W T : Type 0} ⦃h : UtHash W T⦄ where
  Step-total_left : {s t : System W T} → Step s t → total_left t.threads < total_left s.threads
  Step-total_left {s} (enter pre post r o u at ran e) =
      rw (e, at)
        (omega (
          arith,
          total_left-append pre (waiting r ∷ post),
          total_left-append pre (leaving r [] (conclude o) ∷ post),
          length-conclude o,
        ))
  Step-total_left {s} (call pre post r made c todo at e) =
      rw (e, at)
        (omega (
          arith,
          total_left-append pre (leaving r made (c ∷ todo) ∷ post),
          total_left-append pre (leaving r (made ++ c ∷ []) todo ∷ post),
        ))

  abbrev pub steps : {s t : System W T} → Reach s t → ℕ
  steps here = 0
  steps (next reached st) = suc (steps reached)

  -- Handlers that interleave make at most four steps for each request, whatever the order and the
  -- backends: the steps that were made and those that are left are no more.
  steps-le :
      (p : Provider W T) (w : W) (rs : List Request) {t : System W T}
      (reached : Reach (start p w rs) t)
      → steps reached + total_left t.threads ≤ 4 * length rs
  steps-le p w rs here = omega (arith, total_left-waiting rs)
  steps-le p w rs (next reached st) = omega (arith, steps-le p w rs reached, Step-total_left st)

-- Among handlers that are not all done there is one that waits, or that has a call to make.
pub data Unfinished (ts : List Thread) : Type 0 where
  waits : (pre post : List Thread) (r : Request) → ts ≡ pre ++ waiting r ∷ post → Unfinished ts
  calls :
      (pre post : List Thread) (r : Request) (made : List HandleCall) (c : HandleCall)
      (todo : List HandleCall)
      → ts ≡ pre ++ leaving r made (c ∷ todo) ∷ post
      → Unfinished ts

later-Unfinished : (t : Thread) (ts : List Thread) → Unfinished ts → Unfinished (t ∷ ts)
later-Unfinished t ts (waits pre post r e) = waits (t ∷ pre) post r (ap (λ l. t ∷ l) e)
later-Unfinished t ts (calls pre post r made c todo e) =
    calls (t ∷ pre) post r made c todo (ap (λ l. t ∷ l) e)

pub IsDone-or-Unfinished : (ts : List Thread) → All IsDone ts ⊎ Unfinished ts
IsDone-or-Unfinished [] = inl tt
IsDone-or-Unfinished (waiting r ∷ ts) = inr (waits [] ts r refl)
IsDone-or-Unfinished (leaving r made (c ∷ todo) ∷ ts) = inr (calls [] ts r made c todo refl)
IsDone-or-Unfinished (leaving r made [] ∷ ts) = elim (IsDone-or-Unfinished ts) [
  | inl done ↦ inl (tt, done)
  | inr more ↦ inr (later-Unfinished (leaving r made []) ts more)
]

-- Handlers that are done have entered.
pub entered-IsDone :
    (ts : List Thread) → All IsDone ts → map (λ e. e.0) (entered ts) ≡ map request ts
entered-IsDone [] d = refl
entered-IsDone (waiting r ∷ ts) d = absurd d.0
entered-IsDone (leaving r made [] ∷ ts) d = ap (λ l. r ∷ l) (entered-IsDone ts d.1)
entered-IsDone (leaving r made (c ∷ todo) ∷ ts) d = absurd d.0
