-- ===== src/Provider/Lifecycle/Destruction.antt =====
-- soma_provider_destroy of src/provider.c: what it deregisters and frees.
use soma_c.Prelude.{ℕ, ◌≡◌, ◌∙◌, String, Bool, true, none, some, [], arith, ◌==◌, ◌||◌}
use soma_c.Common.{success, Ptr}
use soma_c.Foreign.JsonC.{JsonC}
use soma_c.Foreign.UtHash.{UtHash}
use soma_c.Foreign.Margo.{Margo}
use soma_c.Provider.State.{Provider}
use soma_c.Provider.Server.{Server}
use soma_c.Provider.Lifecycle.{deregister_rpcs, finalize_provider, provider_destroy}
use soma_c.Dummy.{Heap}
use soma_c.Dummy.Registry.{IsOwned}
use soma_c.Dummy.History.{remove_all_collectors-frees}
use soma_c.Provider.Lifecycle.Registration.{IsRegistered}

module _ {I : Type 0} ⦃margo : Margo I⦄ where
  -- None of the RPCs of a provider is registered under a provider id.
  abbrev pub IsUnregistered : I → ℕ → Type 0
  IsUnregistered i q =
      (margo.registered i "soma_create_collector" q ≡ none)
      × (margo.registered i "soma_open_collector" q ≡ none)
      × (margo.registered i "soma_close_collector" q ≡ none)
      × (margo.registered i "soma_destroy_collector" q ≡ none)
      × (margo.registered i "soma_list_collectors" q ≡ none)
      × (margo.registered i "soma_hello" q ≡ none)
      × (margo.registered i "soma_sum" q ≡ none)

module _ {J T : Type 0} where
  -- One of the ids that a provider holds.
  abbrev pub is_rpc_of : Provider (Heap J) T → ℕ → Bool
  is_rpc_of p k =
      (k == p.create_collector_id)
      || (k == p.open_collector_id)
      || (k == p.close_collector_id)
      || (k == p.destroy_collector_id)
      || (k == p.list_collectors_id)
      || (k == p.hello_id)
      || (k == p.sum_id)

module _ {J T I : Type 0} ⦃json : JsonC J⦄ ⦃h : UtHash (Heap J) T⦄ ⦃margo : Margo I⦄ where
  deregister_rpcs-none :
      (i : I) (p : Provider (Heap J) T) (m : String) (q k : ℕ)
      → margo.registered i m q ≡ some k
      → is_rpc_of p k ≡ true
      → margo.registered (deregister_rpcs i p) m q ≡ none
  unfolding deregister_rpcs
  deregister_rpcs-none i p m q k e one = simp (margo.registered-deregister, e) (ground arith)

  pop_finalize-IsRegistered :
      (i : I) (a : Ptr) (p : Provider (Heap J) T)
      → IsRegistered i p
      → IsRegistered (margo.pop_finalize i a) p
  pop_finalize-IsRegistered i a p r = record {
    create = margo.registered-pop_finalize i a _ _ ∙ r.create;
    opened = margo.registered-pop_finalize i a _ _ ∙ r.opened;
    close = margo.registered-pop_finalize i a _ _ ∙ r.close;
    destroy = margo.registered-pop_finalize i a _ _ ∙ r.destroy;
    list = margo.registered-pop_finalize i a _ _ ∙ r.list;
    hello = margo.registered-pop_finalize i a _ _ ∙ r.hello;
    sum = margo.registered-pop_finalize i a _ _ ∙ r.sum;
  }

  deregister_rpcs-IsUnregistered :
      (i : I) (p : Provider (Heap J) T)
      → IsRegistered i p
      → IsUnregistered (deregister_rpcs i p) p.provider_id
  deregister_rpcs-IsUnregistered i p r = (
    deregister_rpcs-none i p _ _ _ r.create (ground arith),
    deregister_rpcs-none i p _ _ _ r.opened (ground arith),
    deregister_rpcs-none i p _ _ _ r.close (ground arith),
    deregister_rpcs-none i p _ _ _ r.destroy (ground arith),
    deregister_rpcs-none i p _ _ _ r.list (ground arith),
    deregister_rpcs-none i p _ _ _ r.hello (ground arith),
    deregister_rpcs-none i p _ _ _ r.sum (ground arith),
  )

  -- soma_finalize_provider of a provider whose server owns its contexts frees them all.
  pub finalize_provider-frees :
      (i : I) (s : Server (Heap J) T)
      → IsOwned s
      → (j : I) × (w : Heap J) × (finalize_provider i s ≡ some (j, w)) × (w.live ≡ [])
  unfolding finalize_provider
  finalize_provider-frees i s v =
      let (t, e, _, _, live, _) = remove_all_collectors-frees s v in
      (deregister_rpcs i s.provider, t.world, ground (arith, e), live)

  -- soma_provider_destroy of a registered provider whose server owns its contexts returns
  -- SOMA_SUCCESS: it meets no undefined behaviour, frees every context, and leaves none of the seven
  -- RPCs registered under the provider's id.
  pub provider_destroy-IsUnregistered :
      (i : I) (address : Ptr) (s : Server (Heap J) T)
      → IsRegistered i s.provider
      → IsOwned s
      → (j : I) × (w : Heap J) × (provider_destroy i address s ≡ some (success, j, w))
        × (w.live ≡ [])
        × IsUnregistered j s.provider.provider_id
  unfolding provider_destroy finalize_provider
  provider_destroy-IsUnregistered i address s r v =
      let (t, e, items, count, live, calls) = remove_all_collectors-frees s v in
      (
        deregister_rpcs (margo.pop_finalize i address) s.provider,
        t.world,
        ground (arith, e),
        live,
        deregister_rpcs-IsUnregistered (margo.pop_finalize i address) s.provider
            (pop_finalize-IsRegistered i address s.provider r),
      )
