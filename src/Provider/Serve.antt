-- ===== src/Provider/Serve.antt =====
-- The RPCs that src/provider.c registers, as one request type, and their dispatch.
pub mod Auth
pub mod Bodies
pub mod Collision
pub mod Invariant
pub mod Listing
pub mod NullString
use soma_c.Prelude.{Bool, Option, List, [], ◌∷◌}
use soma_c.Prelude.State.{M, pure, ◌>>◌}
use soma_c.Types.{
  CreateCollectorIn, CreateCollectorOut, CloseCollectorIn, CloseCollectorOut, ListCollectorsIn,
  ListCollectorsOut, HelloIn, SumIn, SumOut,
}
use soma_c.Foreign.UtHash.{UtHash}
use soma_c.Provider.Server.{Server}
use soma_c.Provider.Handlers.{
  Rpc, Supply, create_collector_ult, open_collector_ult, close_collector_ult, destroy_collector_ult,
  list_collectors_ult, hello_ult, sum_ult,
}

pub data Request : Type 0 where
  create_collector : Supply → Rpc CreateCollectorIn CreateCollectorOut → Request
  open_collector : Supply → Rpc CreateCollectorIn CreateCollectorOut → Request
  close_collector : Rpc CloseCollectorIn CloseCollectorOut → Request
  destroy_collector : Rpc CloseCollectorIn CloseCollectorOut → Request
  list_collectors : (calloc_ok : Bool) → Rpc ListCollectorsIn ListCollectorsOut → Request
  hello : Option HelloIn → Request
  sum : Rpc SumIn SumOut → Request

module _ {W T : Type 0} ⦃h : UtHash W T⦄ where
  unfoldable pub handle : Request → M (Server W T) (Unit {0})
  handle (create_collector supply rpc) = create_collector_ult supply rpc
  handle (open_collector supply rpc) = open_collector_ult supply rpc
  handle (close_collector rpc) = close_collector_ult rpc
  handle (destroy_collector rpc) = destroy_collector_ult rpc
  handle (list_collectors calloc_ok rpc) = list_collectors_ult calloc_ok rpc
  handle (hello input) = hello_ult input
  handle (sum rpc) = sum_ult rpc

  -- Requests are handled one after another.
  unfoldable pub serve : List Request → M (Server W T) (Unit {0})
  serve [] = pure tt
  serve (r ∷ rs) = handle r >> serve rs
