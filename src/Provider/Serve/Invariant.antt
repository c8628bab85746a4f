-- ===== src/Provider/Serve/Invariant.antt =====
-- What every request leaves true of the provider, and how every request is answered, whatever the
-- backends do.
use soma_c.Prelude.{◌≡◌, refl, some, List, [], ◌∷◌, ◌++◌, arith, inl, inr, Option-cases}
use soma_c.Common.{ReturnCode}
use soma_c.Types.{CreateCollectorOut, SumOut, ListCollectorsOut}
use soma_c.Foreign.UtHash.{UtHash}
use soma_c.Provider.Server.{Server, HandleCall, destroy, create_out, close_out, list_out, sum_out}
use soma_c.Provider.Collectors.Items.{IsWellFormed}
use soma_c.Provider.Handlers.{
  create_collector_ult, open_collector_ult, close_collector_ult, destroy_collector_ult,
  list_collectors_ult, sum_ult, hello_ult, make_collector, close_body, destroy_body, list_body,
  hello_body, sum_body,
}
use soma_c.Provider.Serve.{
  Request, create_collector, open_collector, close_collector, destroy_collector, list_collectors,
  hello, sum, handle,
}
use soma_c.Provider.Serve.Auth.{called, answer}
use soma_c.Provider.Serve.Bodies.{
  DiffersInCollectors, make_collector-Keeps, close_body-Keeps, destroy_body-Keeps, hello_body-Keeps,
  sum_body-Keeps, list_body-Keeps, finish-inv,
}

-- The calls on the handle with which a request is answered: one response of the request's type, the
-- input freed, the handle destroyed; hello has no response, and keeps its input.
abbrev pub IsAnswerTo : Request → List HandleCall → Type 0
IsAnswerTo (create_collector supply rpc) cs =
    (o : CreateCollectorOut) × (cs ≡ answer (create_out o))
IsAnswerTo (open_collector supply rpc) cs = (o : CreateCollectorOut) × (cs ≡ answer (create_out o))
IsAnswerTo (close_collector rpc) cs =
    (ret : ReturnCode) × (cs ≡ answer (close_out (record { ret = ret })))
IsAnswerTo (destroy_collector rpc) cs =
    (ret : ReturnCode) × (cs ≡ answer (close_out (record { ret = ret })))
IsAnswerTo (list_collectors calloc_ok rpc) cs = (o : ListCollectorsOut) × (cs ≡ answer (list_out o))
IsAnswerTo (hello input) cs = cs ≡ destroy ∷ []
IsAnswerTo (sum rpc) cs = (o : SumOut) × (cs ≡ answer (sum_out o))

module _ {W T : Type 0} ⦃h : UtHash W T⦄ where
  abbrev pub Answers : Request → Server W T → Server W T → Type 0
  Answers r s t =
      (IsWellFormed s.provider → IsWellFormed t.provider)
      × DiffersInCollectors s.provider t.provider
      × ((cs : List HandleCall) × (t.calls ≡ s.calls ++ cs) × IsAnswerTo r cs)

  -- Whatever the backends do: a request that is served without a fault leaves the provider well-formed
  -- if it was, changes nothing of it but its collectors, and is answered once, by a response of its
  -- type, its input freed and its handle destroyed; hello is not answered, and its input is not freed.
  pub handle-Answers : (r : Request) (s t : Server W T) → handle r s ≡ some (tt, t) → Answers r s t
  unfolding handle create_collector_ult open_collector_ult close_collector_ult destroy_collector_ult
      list_collectors_ult sum_ult hello_ult
  handle-Answers (create_collector supply rpc) s t e =
      let (o, u, e1, e2) =
        finish-inv create_out (make_collector (λ b. b.create_collector) supply rpc.out rpc.input) s
          t e in
      let kept = make_collector-Keeps (λ b. b.create_collector) supply rpc.out o rpc.input s u e1 in
      (
        λ v. rw e2 (kept.0 v),
        rw e2 kept.1.1,
        (answer (create_out o), ground (arith, kept.1.0), (o, refl)),
      )
  handle-Answers (open_collector supply rpc) s t e =
      let (o, u, e1, e2) =
        finish-inv create_out (make_collector (λ b. b.open_collector) supply rpc.out rpc.input) s t
          e in
      let kept = make_collector-Keeps (λ b. b.open_collector) supply rpc.out o rpc.input s u e1 in
      (
        λ v. rw e2 (kept.0 v),
        rw e2 kept.1.1,
        (answer (create_out o), ground (arith, kept.1.0), (o, refl)),
      )
  handle-Answers (close_collector rpc) s t e =
      let (o, u, e1, e2) =
        finish-inv (λ ret. close_out (record { ret = ret })) (close_body rpc.input) s t e in
      let kept = close_body-Keeps rpc.input s u o e1 in
      (
        λ v. rw e2 (kept.0 v),
        rw e2 kept.1.1,
        (answer (close_out (record { ret = o })), ground (arith, kept.1.0), (o, refl)),
      )
  handle-Answers (destroy_collector rpc) s t e =
      let (o, u, e1, e2) =
        finish-inv (λ ret. close_out (record { ret = ret })) (destroy_body rpc.input) s t e in
      let kept = destroy_body-Keeps rpc.input s u o e1 in
      (
        λ v. rw e2 (kept.0 v),
        rw e2 kept.1.1,
        (answer (close_out (record { ret = o })), ground (arith, kept.1.0), (o, refl)),
      )
  handle-Answers (list_collectors calloc_ok rpc) s t e =
      let (o, u, e1, e2) = finish-inv list_out (list_body calloc_ok rpc.out rpc.input) s t e in
      let kept = list_body-Keeps calloc_ok rpc.out o rpc.input s u e1 in
      (
        λ v. rw e2 (kept.0 v),
        rw e2 kept.1.1,
        (answer (list_out o), ground (arith, kept.1.0), (o, refl)),
      )
  handle-Answers (hello input) s t e = elim (Option-cases (hello_body input s)) [
    | inl e1 ↦ ground arith
    | inr ((_, u), e1) ↦
        let kept = hello_body-Keeps input s u e1 in
        let e2 : t ≡ called u (destroy ∷ []) = ground arith in
        (λ v. rw e2 (kept.0 v), rw e2 kept.1.1, (destroy ∷ [], ground (arith, kept.1.0), refl))
  ]
  handle-Answers (sum rpc) s t e =
      let (o, u, e1, e2) = finish-inv sum_out (sum_body rpc.out rpc.input) s t e in
      let kept = sum_body-Keeps rpc.out o rpc.input s u e1 in
      (
        λ v. rw e2 (kept.0 v),
        rw e2 kept.1.1,
        (answer (sum_out o), ground (arith, kept.1.0), (o, refl)),
      )
