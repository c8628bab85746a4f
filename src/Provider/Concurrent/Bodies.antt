-- ===== src/Provider/Concurrent/Bodies.antt =====
-- The body of a handler and the whole handler.
use soma_c.Prelude.{◌≡◌, Option, none, some, arith, Option-cases, inl, inr}
use soma_c.Prelude.State.{M, pure, ◌>>=◌}
use soma_c.Foreign.UtHash.{UtHash}
use soma_c.Provider.Server.{Server, Response, create_out, close_out, list_out, sum_out}
use soma_c.Provider.Handlers.{
  finish, make_collector, close_body, destroy_body, list_body, hello_body, sum_body,
  create_collector_ult, open_collector_ult, close_collector_ult, destroy_collector_ult,
  list_collectors_ult, hello_ult, sum_ult,
}
use soma_c.Provider.Serve.{
  Request, create_collector, open_collector, close_collector, destroy_collector, list_collectors,
  hello, sum, handle,
}
use soma_c.Provider.Serve.Auth.{called, finish-answer}
use soma_c.Provider.Serve.Bodies.{
  Keeps, make_collector-Keeps, close_body-Keeps, destroy_body-Keeps, list_body-Keeps,
  hello_body-Keeps, sum_body-Keeps,
}
use soma_c.Provider.Concurrent.{body, conclude}

module _ {W T : Type 0} ⦃h : UtHash W T⦄ where
  -- A handler with a response is its body, and then the calls of `finish`.
  responds :
      {A : Type 0} (m : M (Server W T) A) (f : A → Response) (s u : Server W T)
      (o : Option Response)
      → (m >>= λ a. pure (some (f a))) s ≡ some (o, u)
      → (a : A) × (m s ≡ some (a, u))
        × (o ≡ some (f a))
        × ((m >>= λ b. finish (f b)) s ≡ some (tt, called u (conclude o)))
  responds m f s u o e = elim (Option-cases (m s)) [
    | inl fault ↦ ground arith
    | inr ((a, t), ran) ↦
        let same : t ≡ u = ground arith in
        let out : o ≡ some (f a) = ground arith in
        (a, rw (← same) ran, out, rw out (ground (arith, finish-answer u (f a))))
  ]

  -- The handler from its body.
  pub handle-body :
      (r : Request) (s u : Server W T) (o : Option Response)
      → body r s ≡ some (o, u)
      → (handle r s ≡ some (tt, called u (conclude o))) × Keeps s u
  unfolding body handle create_collector_ult open_collector_ult close_collector_ult
      destroy_collector_ult list_collectors_ult hello_ult sum_ult
  handle-body (create_collector supply rpc) s u o e =
      let (a, ran, _, whole) =
        responds (make_collector (λ b. b.create_collector) supply rpc.out rpc.input) create_out s u
          o e in
      (whole, make_collector-Keeps (λ b. b.create_collector) supply rpc.out a rpc.input s u ran)
  handle-body (open_collector supply rpc) s u o e =
      let (a, ran, _, whole) =
        responds (make_collector (λ b. b.open_collector) supply rpc.out rpc.input) create_out s u o
          e in
      (whole, make_collector-Keeps (λ b. b.open_collector) supply rpc.out a rpc.input s u ran)
  handle-body (close_collector rpc) s u o e =
      let (a, ran, _, whole) =
        responds (close_body rpc.input) (λ ret. close_out (record { ret = ret })) s u o e in
      (whole, close_body-Keeps rpc.input s u a ran)
  handle-body (destroy_collector rpc) s u o e =
      let (a, ran, _, whole) =
        responds (destroy_body rpc.input) (λ ret. close_out (record { ret = ret })) s u o e in
      (whole, destroy_body-Keeps rpc.input s u a ran)
  handle-body (list_collectors calloc_ok rpc) s u o e =
      let (a, ran, _, whole) = responds (list_body calloc_ok rpc.out rpc.input) list_out s u o e in
      (whole, list_body-Keeps calloc_ok rpc.out a rpc.input s u ran)
  handle-body (hello input) s u o e = elim (Option-cases (hello_body input s)) [
    | inl fault ↦ ground arith
    | inr ((_, t), ran) ↦
        let same : t ≡ u = ground arith in
        let out : o ≡ none = ground arith in
        (rw out (ground arith), hello_body-Keeps input s u (rw (← same) ran))
  ]
  handle-body (sum rpc) s u o e =
      let (a, ran, _, whole) = responds (sum_body rpc.out rpc.input) sum_out s u o e in
      (whole, sum_body-Keeps rpc.out a rpc.input s u ran)

  faults :
      {A : Type 0} (m : M (Server W T) A) (f : A → Response) (s : Server W T)
      → (m >>= λ a. pure (some (f a))) s ≡ none
      → (m >>= λ b. finish (f b)) s ≡ none
  faults m f s e = elim (Option-cases (m s)) [
    | inl fault ↦ ground arith
    | inr ((a, t), ran) ↦ ground arith
  ]

  -- A body that faults makes its handler fault.
  pub handle-body_fault : (r : Request) (s : Server W T) → body r s ≡ none → handle r s ≡ none
  unfolding body handle create_collector_ult open_collector_ult close_collector_ult
      destroy_collector_ult list_collectors_ult hello_ult sum_ult
  handle-body_fault (create_collector supply rpc) s e =
      faults (make_collector (λ b. b.create_collector) supply rpc.out rpc.input) create_out s e
  handle-body_fault (open_collector supply rpc) s e =
      faults (make_collector (λ b. b.open_collector) supply rpc.out rpc.input) create_out s e
  handle-body_fault (close_collector rpc) s e =
      faults (close_body rpc.input) (λ ret. close_out (record { ret = ret })) s e
  handle-body_fault (destroy_collector rpc) s e =
      faults (destroy_body rpc.input) (λ ret. close_out (record { ret = ret })) s e
  handle-body_fault (list_collectors calloc_ok rpc) s e =
      faults (list_body calloc_ok rpc.out rpc.input) list_out s e
  handle-body_fault (hello input) s e = elim (Option-cases (hello_body input s)) [
    | inl fault ↦ ground arith
    | inr ((_, t), ran) ↦ ground arith
  ]
  handle-body_fault (sum rpc) s e = faults (sum_body rpc.out rpc.input) sum_out s e
