-- ===== src/EndToEnd/Signatures.antt =====
-- The types that the handlers of src/provider.c read and answer with.
use soma_c.Prelude.{◌≡◌, refl, String, Option, none, some, List, [], ◌∷◌, ◌++◌}
use soma_c.Types.Layouts.{
  MessageType, Signature, create_collector_in_t, create_collector_out_t, open_collector_in_t,
  open_collector_out_t, close_collector_in_t, close_collector_out_t, destroy_collector_in_t,
  destroy_collector_out_t, list_collectors_in_t, list_collectors_out_t, hello_in_t, sum_in_t,
  sum_out_t, Message,
}
use soma_c.Foreign.UtHash.{UtHash}
use soma_c.Provider.Server.{
  Server, Response, HandleCall, destroy, create_out, close_out, list_out, sum_out,
}
use soma_c.Provider.Serve.{
  Request, create_collector, open_collector, close_collector, destroy_collector, list_collectors,
  hello, sum, handle,
}
use soma_c.Provider.Serve.Auth.{answer}
use soma_c.Provider.Serve.Invariant.{handle-Answers}

-- The name of the RPC whose handler serves a request.
abbrev pub rpc_name : Request → String
rpc_name (create_collector supply rpc) = "soma_create_collector"
rpc_name (open_collector supply rpc) = "soma_open_collector"
rpc_name (close_collector rpc) = "soma_close_collector"
rpc_name (destroy_collector rpc) = "soma_destroy_collector"
rpc_name (list_collectors calloc_ok rpc) = "soma_list_collectors"
rpc_name (hello input) = "soma_hello"
rpc_name (sum rpc) = "soma_sum"

-- The types of `in` and `out` in the handler.
abbrev pub signature_of : Request → Signature
signature_of (create_collector supply rpc) = (create_collector_in_t, some create_collector_out_t)
signature_of (open_collector supply rpc) = (open_collector_in_t, some open_collector_out_t)
signature_of (close_collector rpc) = (close_collector_in_t, some close_collector_out_t)
signature_of (destroy_collector rpc) = (destroy_collector_in_t, some destroy_collector_out_t)
signature_of (list_collectors calloc_ok rpc) = (list_collectors_in_t, some list_collectors_out_t)
signature_of (hello input) = (hello_in_t, none)
signature_of (sum rpc) = (sum_in_t, some sum_out_t)

-- What margo_get_input read.
abbrev pub input_of : (r : Request) → Option (Message (signature_of r).0)
input_of (create_collector supply rpc) = rpc.input
input_of (open_collector supply rpc) = rpc.input
input_of (close_collector rpc) = rpc.input
input_of (destroy_collector rpc) = rpc.input
input_of (list_collectors calloc_ok rpc) = rpc.input
input_of (hello input) = input
input_of (sum rpc) = rpc.input

-- A message as an answer, if it is of an output type.
abbrev pub response : (t : MessageType) → Message t → Option Response
response create_collector_out_t d = some (create_out d)
response open_collector_out_t d = some (create_out d)
response close_collector_out_t d = some (close_out d)
response destroy_collector_out_t d = some (close_out d)
response list_collectors_out_t d = some (list_out d)
response sum_out_t d = some (sum_out d)
response _ d = none

-- The calls that answer with a message of the output type; `void` has no answer.
abbrev pub IsTypedAnswer : Option MessageType → List HandleCall → Type 0
IsTypedAnswer none cs = cs ≡ destroy ∷ []
IsTypedAnswer (some t) cs =
    (d : Message t) × (o : Response) × (response t d ≡ some o) × (cs ≡ answer o)

module _ {W T : Type 0} ⦃h : UtHash W T⦄ where
  pub handle-IsTypedAnswer :
      (r : Request) (s t : Server W T)
      → handle r s ≡ some (tt, t)
      → (cs : List HandleCall) × (t.calls ≡ s.calls ++ cs) × IsTypedAnswer (signature_of r).1 cs
  handle-IsTypedAnswer (create_collector supply rpc) s t e =
      let (_, _, (cs, calls, (o, same))) = handle-Answers (create_collector supply rpc) s t e in
      (cs, calls, (o, create_out o, refl, same))
  handle-IsTypedAnswer (open_collector supply rpc) s t e =
      let (_, _, (cs, calls, (o, same))) = handle-Answers (open_collector supply rpc) s t e in
      (cs, calls, (o, create_out o, refl, same))
  handle-IsTypedAnswer (close_collector rpc) s t e =
      let (_, _, (cs, calls, (ret, same))) = handle-Answers (close_collector rpc) s t e in
      (cs, calls, (record { ret = ret }, close_out (record { ret = ret }), refl, same))
  handle-IsTypedAnswer (destroy_collector rpc) s t e =
      let (_, _, (cs, calls, (ret, same))) = handle-Answers (destroy_collector rpc) s t e in
      (cs, calls, (record { ret = ret }, close_out (record { ret = ret }), refl, same))
  handle-IsTypedAnswer (list_collectors calloc_ok rpc) s t e =
      let (_, _, (cs, calls, (o, same))) = handle-Answers (list_collectors calloc_ok rpc) s t e in
      (cs, calls, (o, list_out o, refl, same))
  handle-IsTypedAnswer (hello input) s t e =
      let (_, _, (cs, calls, same)) = handle-Answers (hello input) s t e in (cs, calls, same)
  handle-IsTypedAnswer (sum rpc) s t e =
      let (_, _, (cs, calls, (o, same))) = handle-Answers (sum rpc) s t e in
      (cs, calls, (o, sum_out o, refl, same))
