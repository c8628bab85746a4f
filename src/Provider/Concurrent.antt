-- ===== src/Provider/Concurrent.antt =====
-- The handlers of src/provider.c when several requests are served at once. A handler is a user-level
-- thread of Argobots, which gives way only inside of Margo: from margo_get_input to margo_respond it
-- runs alone, if one execution stream serves the pool and the backend does not give way.
pub mod Bodies
pub mod Finish
pub mod Order
pub mod Progress
use soma_c.Prelude.{◌≡◌, Option, none, some, List, [], ◌∷◌, ◌++◌, map}
use soma_c.Prelude.State.{M, pure, ◌>>=◌, ◌>>◌}
use soma_c.Foreign.UtHash.{UtHash}
use soma_c.Provider.State.{Provider}
use soma_c.Provider.Server.{
  Server, Response, create_out, close_out, list_out, sum_out, HandleCall, destroy,
}
use soma_c.Provider.Handlers.{
  make_collector, close_body, destroy_body, list_body, hello_body, sum_body,
}
use soma_c.Provider.Serve.{
  Request, create_collector, open_collector, close_collector, destroy_collector, list_collectors,
  hello, sum,
}
use soma_c.Provider.Serve.Auth.{answer}

module _ {W T : Type 0} ⦃h : UtHash W T⦄ where
  -- A handler up to its label `finish`; hello has no response.
  unfoldable pub body : Request → M (Server W T) (Option Response)
  body (create_collector supply rpc) = do
    out ← make_collector (λ b. b.create_collector) supply rpc.out rpc.input
    pure (some (create_out out))
  body (open_collector supply rpc) = do
    out ← make_collector (λ b. b.open_collector) supply rpc.out rpc.input
    pure (some (create_out out))
  body (close_collector rpc) = do
    ret ← close_body rpc.input
    pure (some (close_out (record { ret = ret })))
  body (destroy_collector rpc) = do
    ret ← destroy_body rpc.input
    pure (some (close_out (record { ret = ret })))
  body (list_collectors calloc_ok rpc) = do
    out ← list_body calloc_ok rpc.out rpc.input
    pure (some (list_out out))
  body (hello input) = hello_body input >> pure none
  body (sum rpc) = do out ← sum_body rpc.out rpc.input; pure (some (sum_out out))

-- The calls of Margo from the label `finish` on.
abbrev pub conclude : Option Response → List HandleCall
conclude none = destroy ∷ []
conclude (some out) = answer out

-- A handler that waits in margo_get_input, or one that has made some of its last calls and has others
-- to make.
pub data Thread : Type 0 where
  waiting : Request → Thread
  leaving : (r : Request) (made todo : List HandleCall) → Thread

abbrev pub request : Thread → Request
request (waiting r) = r
request (leaving r made todo) = r

-- What the handlers share, and the handlers.
pub record System (W T : Type 0) : Type 0 where
  pub provider : Provider W T
  pub world : W
  pub threads : List Thread

module _ {W T : Type 0} where
  -- The server that a handler sees, with a new RPC handle.
  abbrev pub alone : Provider W T → W → Server W T
  alone p w = record { provider = p; world = w; calls = [] }

  abbrev pub start : Provider W T → W → List Request → System W T
  start p w rs = record { provider = p; world = w; threads = map waiting rs }

module _ {W T : Type 0} ⦃h : UtHash W T⦄ where
  -- One handler moves: it leaves margo_get_input and comes to its first call at `finish`, or makes
  -- one of these calls.
  pub data Step (s t : System W T) : Type 0 where
    enter :
        (pre post : List Thread) (r : Request) (o : Option Response) (u : Server W T)
        → s.threads ≡ pre ++ waiting r ∷ post
        → body r (alone s.provider s.world) ≡ some (o, u)
        → t ≡ record {
          provider = u.provider;
          world = u.world;
          threads = pre ++ leaving r [] (conclude o) ∷ post;
        }
        → Step s t
    call :
        (pre post : List Thread) (r : Request) (made : List HandleCall) (c : HandleCall)
        (todo : List HandleCall)
        → s.threads ≡ pre ++ leaving r made (c ∷ todo) ∷ post
        → t ≡ record s { threads = pre ++ leaving r (made ++ c ∷ []) todo ∷ post }
        → Step s t

  pub data Reach (s : System W T) : System W T → Type 0 where
    here : Reach s s
    next : {t u : System W T} → Reach s t → Step t u → Reach s u
