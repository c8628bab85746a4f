-- ===== src/Provider/Dispatch.antt =====
-- The first lines of each handler of src/provider.c: it asks Margo for the data of its RPC's id, takes
-- it for the provider, and does not test it for NULL.
use soma_c.Prelude.{
  ℕ, Bool, true, false, Option, none, some, ◌≡◌, arith, ◌==◌, ==_refl, if◌then◌else◌,
}
use soma_c.Prelude.State.{M}
use soma_c.Common.{Ptr}
use soma_c.Foreign.Margo.{Margo}
use soma_c.Foreign.UtHash.{UtHash}
use soma_c.Provider.State.{Provider}
use soma_c.Provider.Server.{Server}
use soma_c.Provider.Serve.{
  Request, create_collector, open_collector, close_collector, destroy_collector, list_collectors,
  hello, sum, handle,
}

-- The id of the RPC whose handler serves a request.
abbrev pub rpc_id : {W T : Type 0} → Provider W T → Request → ℕ
rpc_id p (create_collector supply rpc) = p.create_collector_id
rpc_id p (open_collector supply rpc) = p.open_collector_id
rpc_id p (close_collector rpc) = p.close_collector_id
rpc_id p (destroy_collector rpc) = p.destroy_collector_id
rpc_id p (list_collectors calloc_ok rpc) = p.list_collectors_id
rpc_id p (hello input) = p.hello_id
rpc_id p (sum rpc) = p.sum_id

abbrev was_read : {In : Type 0} → Option In → Bool
was_read none = false
was_read (some input) = true

-- Whether a handler reads its provider: if it could read its input; soma_create_collector_ult also if
-- it could not, for its log.
abbrev pub reads_provider : Request → Bool
reads_provider (create_collector supply rpc) = true
reads_provider (open_collector supply rpc) = was_read rpc.input
reads_provider (close_collector rpc) = was_read rpc.input
reads_provider (destroy_collector rpc) = was_read rpc.input
reads_provider (list_collectors calloc_ok rpc) = was_read rpc.input
reads_provider (hello input) = was_read input
reads_provider (sum rpc) = was_read rpc.input

module _ {W T I : Type 0} ⦃h : UtHash W T⦄ ⦃margo : Margo I⦄ where
  -- The handler of an RPC with an id, where the server's provider is the one at `address`, and no
  -- other address has a provider. A handler that does not read its provider needs none.
  unfoldable pub dispatch : I → (address : Ptr) → (id : ℕ) → Request → M (Server W T) (Unit {0})
  dispatch i address id r s = elim (margo.registered_data i id) [
    | none ↦ if reads_provider r then none else handle r s
    | some a ↦ if reads_provider r then (if a == address then handle r s else none) else handle r s
  ]

  pub dispatch-found :
      (i : I) (address : Ptr) (id : ℕ) (r : Request) (s : Server W T)
      → margo.registered_data i id ≡ some address
      → dispatch i address id r s ≡ handle r s
  unfolding dispatch
  dispatch-found i address id r s e = ground (arith, ==_refl address)

  pub dispatch-null :
      (i : I) (address : Ptr) (id : ℕ) (r : Request) (s : Server W T)
      → margo.registered_data i id ≡ none
      → dispatch i address id r s ≡ (if reads_provider r then none else handle r s)
  unfolding dispatch
  dispatch-null i address id r s e = ground arith
