-- ===== src/Dummy/Serve.antt =====
-- A provider with the dummy backend serves every request as the registry says.
use soma_c.Prelude.{◌≡◌, refl, ap, some, List, [], ◌∷◌, ◌++◌, arith}
use soma_c.Prelude.State.{M, ◌>>=◌}
use soma_c.Foreign.JsonC.{JsonC}
use soma_c.Foreign.UtHash.{UtHash}
use soma_c.Provider.Server.{
  Server, Response, HandleCall, destroy, create_out, close_out, list_out, sum_out,
}
use soma_c.Provider.Handlers.{
  finish, make_collector, close_body, destroy_body, list_body, sum_body, create_collector_ult,
  open_collector_ult, close_collector_ult, destroy_collector_ult, list_collectors_ult, sum_ult,
  hello_ult,
}
use soma_c.Provider.Serve.{
  Request, create_collector, open_collector, close_collector, destroy_collector, list_collectors,
  hello, sum, handle,
}
use soma_c.Provider.Serve.Auth.{answer, called, finish-answer}
use soma_c.Dummy.{Heap, dummy_backend, dummy_create_collector, dummy_open_collector}
use soma_c.Dummy.Registry.{
  Registry, Reply, silent, reply_of, respond_to, registry, IsOwned, IsServable,
}
use soma_c.Dummy.Create.{Refines, make_collector-Creates}
use soma_c.Dummy.Remove.{close_body-Removes, destroy_body-Removes}
use soma_c.Dummy.Observe.{list_body-Refines, sum_body-Refines, hello_body-Refines}

module _ {J : Type 0} ⦃json : JsonC J⦄ where
  pub created : (dummy_backend {J = J}).create_collector ≡ dummy_create_collector
  unfolding dummy_backend
  created = refl

  pub opened : (dummy_backend {J = J}).open_collector ≡ dummy_create_collector
  unfolding dummy_backend dummy_create_collector dummy_open_collector
  opened = refl

module _ {J T : Type 0} ⦃json : JsonC J⦄ ⦃h : UtHash (Heap J) T⦄ where
  -- The answer of a served request: the new server, and the calls on the handle.
  abbrev pub Serves : Request → Server (Heap J) T → Type 0
  Serves r s =
      (t : Server (Heap J) T) × (cs : List HandleCall) × (handle r s ≡ some (tt, t))
      × (t.calls ≡ s.calls ++ cs)
      × (t.provider.token ≡ s.provider.token)
      × ((reply_of cs, registry t) ≡ respond_to s.provider.token r (registry s))
      × IsOwned t

  finish-Serves :
      {A : Type 0} (f : A → Response) (m : M (Server (Heap J) T) A) (s : Server (Heap J) T)
      (spec : Reply × Registry J)
      → ((o : A) × (t : Server (Heap J) T) × (m s ≡ some (o, t))
          × Refines s t (reply_of (answer (f o))) spec)
      → (t : Server (Heap J) T) × (cs : List HandleCall) × ((m >>= λ o. finish (f o)) s
          ≡ some (tt, t))
        × (t.calls ≡ s.calls ++ cs)
        × (t.provider.token ≡ s.provider.token)
        × ((reply_of cs, registry t) ≡ spec)
        × IsOwned t
  finish-Serves f m s spec (o, t, e, ref) = (
    called t (answer (f o)),
    answer (f o),
    ground (arith, finish-answer t (f o)),
    ap (λ l. l ++ answer (f o)) ref.calls,
    ref.token,
    λ i. (ref.reply i, ref.view i),
    record {
      well_formed = ref.owned.well_formed;
      backend = ref.owned.backend;
      owns = ref.owned.owns;
      ascending = ref.owned.ascending;
    },
  )

  -- A server that owns its contexts serves a servable request without undefined behaviour: it
  -- answers as the registry says, becomes the registry's next state, keeps its token, and owns its
  -- contexts again.
  pub handle-Serves :
      (r : Request) (s : Server (Heap J) T) → IsOwned s → IsServable s r → Serves r s
  unfolding handle create_collector_ult open_collector_ult close_collector_ult destroy_collector_ult
      list_collectors_ult hello_ult sum_ult
  handle-Serves (create_collector supply rpc) s v ok =
      finish-Serves create_out (make_collector (λ b. b.create_collector) supply rpc.out rpc.input) s
        _ (make_collector-Creates (λ b. b.create_collector) created supply rpc.out rpc.input s v ok)
  handle-Serves (open_collector supply rpc) s v ok =
      finish-Serves create_out (make_collector (λ b. b.open_collector) supply rpc.out rpc.input) s _
        (make_collector-Creates (λ b. b.open_collector) opened supply rpc.out rpc.input s v ok)
  handle-Serves (close_collector rpc) s v ok =
      finish-Serves (λ ret. close_out (record { ret = ret })) (close_body rpc.input) s _
        (close_body-Removes rpc.input s v ok)
  handle-Serves (destroy_collector rpc) s v ok =
      finish-Serves (λ ret. close_out (record { ret = ret })) (destroy_body rpc.input) s _
        (destroy_body-Removes rpc.input s v ok)
  handle-Serves (list_collectors calloc_ok rpc) s v ok =
      finish-Serves list_out (list_body calloc_ok rpc.out rpc.input) s _
        (list_body-Refines calloc_ok rpc.out rpc.input s v ok)
  handle-Serves (hello input) s v ok =
      let (t, e, ref) = hello_body-Refines input s v in
      (
        called t (destroy ∷ []),
        destroy ∷ [],
        ground arith,
        ap (λ l. l ++ destroy ∷ []) ref.calls,
        ref.token,
        (λ i. (silent, ref.view i)),
        record {
          well_formed = ref.owned.well_formed;
          backend = ref.owned.backend;
          owns = ref.owned.owns;
          ascending = ref.owned.ascending;
        },
      )
  handle-Serves (sum rpc) s v ok =
      finish-Serves sum_out (sum_body rpc.out rpc.input) s _
        (sum_body-Refines rpc.out rpc.input s v ok)
