-- ===== src/Provider/Concurrent/Finish.antt =====
-- Handlers that have entered make their last calls, which touch neither the provider nor the backends.
use soma_c.Prelude.{
  ◌≡◌, refl, ap, sym, subst, ◌∙◌, List, [], ◌∷◌, ◌++◌, map, append-nil, append_assoc, All,
}
use soma_c.Foreign.UtHash.{UtHash}
use soma_c.Provider.Server.{HandleCall}
use soma_c.Provider.Serve.{Request}
use soma_c.Provider.Concurrent.{Thread, waiting, leaving, System, call, Reach, next}
use soma_c.Provider.Concurrent.Order.{entered}
use soma_c.Provider.Concurrent.Progress.{IsDone}

-- The handler does not wait for its input.
abbrev pub HasEntered : Thread → Type 0
HasEntered (waiting r) = ⊥
HasEntered (leaving r made todo) = Unit

abbrev pub finished : Thread → Thread
finished (waiting r) = waiting r
finished (leaving r made todo) = leaving r (made ++ todo) []

pub finished-IsDone : (ts : List Thread) → All HasEntered ts → All IsDone (map finished ts)
finished-IsDone [] h = tt
finished-IsDone (waiting r ∷ ts) h = absurd h.0
finished-IsDone (leaving r made todo ∷ ts) h = (tt, finished-IsDone ts h.1)

pub entered-finished : (ts : List Thread) → entered (map finished ts) ≡ entered ts
entered-finished [] = refl
entered-finished (waiting r ∷ ts) = entered-finished ts
entered-finished (leaving r made todo ∷ ts) =
    ap (λ l. (r, l) ∷ entered (map finished ts)) (append-nil (made ++ todo))
    ∙ ap (λ l. (r, made ++ todo) ∷ l) (entered-finished ts)

module _ {W T : Type 0} ⦃h : UtHash W T⦄ where
  -- One handler makes the calls that it has left.
  drain :
      {s : System W T} (t : System W T) (pre post : List Thread) (r : Request)
      (made todo : List HandleCall)
      → Reach s t
      → t.threads ≡ pre ++ leaving r made todo ∷ post
      → Reach s (record t { threads = pre ++ leaving r (made ++ todo) [] ∷ post })
  drain {s} t pre post r made [] reached e =
      subst (λ l. Reach s (record t { threads = l }))
        (e ∙ ap (λ cs. pre ++ leaving r cs [] ∷ post) (sym (append-nil made))) reached
  drain {s} t pre post r made (c ∷ todo) reached e =
      let moved : System W T = record t {
        threads = pre ++ leaving r (made ++ c ∷ []) todo ∷ post;
      } in
      let rest =
        drain moved pre post r (made ++ c ∷ []) todo
          (next reached (call pre post r made c todo e refl)) refl in
      subst (λ l. Reach s (record t { threads = pre ++ leaving r l [] ∷ post }))
        (append_assoc made (c ∷ []) todo) rest

  -- All of them do.
  pub drain_all :
      {s : System W T} (t : System W T) (pre ts : List Thread)
      → Reach s t
      → t.threads ≡ pre ++ ts
      → All HasEntered ts
      → Reach s (record t { threads = pre ++ map finished ts })
  drain_all {s} t pre [] reached e h = subst (λ l. Reach s (record t { threads = l })) e reached
  drain_all t pre (waiting r ∷ ts) reached e h = absurd h.0
  drain_all {s} t pre (leaving r made todo ∷ ts) reached e h =
      let done = leaving r (made ++ todo) [] in
      let first = drain t pre ts r made todo reached e in
      let rest =
        drain_all (record t { threads = pre ++ done ∷ ts }) (pre ++ done ∷ []) ts first
          (sym (append_assoc pre (done ∷ []) ts)) h.1 in
      subst (λ l. Reach s (record t { threads = l }))
        (append_assoc pre (done ∷ []) (map finished ts)) rest
