-- ===== src/Provider/Lifecycle/Registration.antt =====
-- soma_provider_register of src/provider.c: what it registers, and when it is refused.
use soma_c.Prelude.{
  ℕ, ◌≤◌, ◌≡◌, refl, ap, ◌∙◌, String, str_eq, Bool, true, Option, none, some, [], arith,
  if◌then◌else◌, ◌≢◌,
}
use soma_c.Common.{ReturnCode, success, err_invalid_provider, Ptr}
use soma_c.Foreign.JsonC.{JsonC}
use soma_c.Foreign.UtHash.{UtHash}
use soma_c.Foreign.Margo.{Margo}
use soma_c.Provider.State.{Provider}
use soma_c.Provider.Server.{Server}
use soma_c.Provider.Backends.{add_backend_impl, pointer_size}
use soma_c.Provider.Backends.Lookup.{with_backend}
use soma_c.Provider.Lifecycle.{
  ProviderArgs, Memory, copy_token, args_or_init, register_dummy_backend, register_rpc,
  fill_provider, provider_register,
}
use soma_c.Dummy.{Heap, dummy_backend}
use soma_c.Dummy.Registry.{IsOwned}
use soma_c.Types.Layouts.{Signature}

module _ {I : Type 0} ⦃margo : Margo I⦄ where
  pub registered-register_rpc :
      (i : I) (n m : String) (g : Signature) (p q pool : ℕ) (a : Ptr)
      → margo.registered (register_rpc i n g p pool a).1 m p
        ≡ (if str_eq n m then some (register_rpc i n g p pool a).0 else margo.registered i m p)
  unfolding register_rpc
  registered-register_rpc i n m g p q pool a = ground (
    arith,
    margo.registered-register_data (margo.register i n g p pool).1 (margo.register i n g p pool).0 a
        m p,
    margo.registered-register i n m g p p pool,
  )

module _ {J T : Type 0} where
  -- A server whose backend has allocated nothing yet.
  abbrev pub initial_server : Provider (Heap J) T → (Ptr → Bool) → Server (Heap J) T
  initial_server p grants = record {
    provider = p;
    world = record { next = 1; live = []; grants = grants; stdout = [] };
    calls = [];
  }

module _ {J T : Type 0} ⦃json : JsonC J⦄ ⦃h : UtHash (Heap J) T⦄ where
  initial-IsOwned :
      (p : Provider (Heap J) T) (grants : Ptr → Bool)
      → p.num_backend_types ≡ 0
      → p.backend_types ≡ []
      → p.num_collectors ≡ 0
      → p.collectors ≡ h.empty
      → IsOwned (initial_server (with_backend p dummy_backend) grants)
  initial-IsOwned p grants num types count none_yet =
      let nil : h.items p.collectors ≡ [] = ap h.items none_yet ∙ h.items-empty in
      record {
        well_formed = record {
          counted = rw nil (omega arith);
          keyed = rw nil tt;
          backends = rw types (omega arith);
        };
        backend = rw types refl;
        owns = rw nil tt;
        ascending = omega arith;
      }

module _ {J T I : Type 0} ⦃json : JsonC J⦄ ⦃h : UtHash (Heap J) T⦄ ⦃margo : Margo I⦄ where
  -- The RPCs of a provider are registered under its provider id, with the ids that it holds.
  pub record IsRegistered (i : I) (p : Provider (Heap J) T) : Type 0 where
    pub create :
        margo.registered i "soma_create_collector" p.provider_id ≡ some p.create_collector_id
    pub opened : margo.registered i "soma_open_collector" p.provider_id ≡ some p.open_collector_id
    pub close : margo.registered i "soma_close_collector" p.provider_id ≡ some p.close_collector_id
    pub destroy :
        margo.registered i "soma_destroy_collector" p.provider_id ≡ some p.destroy_collector_id
    pub list : margo.registered i "soma_list_collectors" p.provider_id ≡ some p.list_collectors_id
    pub hello : margo.registered i "soma_hello" p.provider_id ≡ some p.hello_id
    pub sum : margo.registered i "soma_sum" p.provider_id ≡ some p.sum_id

  fill_provider-IsRegistered :
      (mid : Ptr) (i : I) (pid : ℕ) (a : ProviderArgs) (ok : Bool) (address : Ptr)
      → IsRegistered
          (fill_provider {J = J} {T = T} mid i pid a ok address).1
          (fill_provider mid i pid a ok address).0
  unfolding fill_provider
  fill_provider-IsRegistered mid i pid a ok address = record {
    create = simp (registered-register_rpc, margo.registered-disable_response) refl;
    opened = simp (registered-register_rpc, margo.registered-disable_response) refl;
    close = simp (registered-register_rpc, margo.registered-disable_response) refl;
    destroy = simp (registered-register_rpc, margo.registered-disable_response) refl;
    list = simp (registered-register_rpc, margo.registered-disable_response) refl;
    hello = simp (registered-register_rpc, margo.registered-disable_response) refl;
    sum = simp registered-register_rpc refl;
  }

  fill_provider-fields :
      (mid : Ptr) (i : I) (pid : ℕ) (a : ProviderArgs) (ok : Bool) (address : Ptr)
      → let p = (fill_provider {J = J} {T = T} mid i pid a ok address).0 in
        (p.provider_id ≡ pid)
        × (p.token ≡ copy_token ok a.token)
        × (p.num_backend_types ≡ 0)
        × (p.backend_types ≡ [])
        × (p.num_collectors ≡ 0)
        × (p.collectors ≡ h.empty)
        × (margo.is_listening (fill_provider {J = J} {T = T} mid i pid a ok address).1
            ≡ margo.is_listening i)
  unfolding fill_provider register_rpc
  fill_provider-fields mid i pid a ok address = (
    refl,
    refl,
    refl,
    refl,
    refl,
    refl,
    simp
        (margo.listening-register, margo.listening-register_data, margo.listening-disable_response),
  )

  push_finalize-IsRegistered :
      (i : I) (a : Ptr) (p : Provider (Heap J) T)
      → IsRegistered i p
      → IsRegistered (margo.push_finalize i a) p
  push_finalize-IsRegistered i a p r = record {
    create = margo.registered-push_finalize i a _ _ ∙ r.create;
    opened = margo.registered-push_finalize i a _ _ ∙ r.opened;
    close = margo.registered-push_finalize i a _ _ ∙ r.close;
    destroy = margo.registered-push_finalize i a _ _ ∙ r.destroy;
    list = margo.registered-push_finalize i a _ _ ∙ r.list;
    hello = margo.registered-push_finalize i a _ _ ∙ r.hello;
    sum = margo.registered-push_finalize i a _ _ ∙ r.sum;
  }

  -- Adding the backend changes no id.
  with_backend-IsRegistered :
      (i : I) (p : Provider (Heap J) T)
      → IsRegistered i p
      → IsRegistered i (with_backend p dummy_backend)
  with_backend-IsRegistered i p r = record {
    create = r.create;
    opened = r.opened;
    close = r.close;
    destroy = r.destroy;
    list = r.list;
    hello = r.hello;
    sum = r.sum;
  }

  pub provider_register-filled :
      (mid : Ptr) (memory : Memory) (i : I) (pid : ℕ) (args : Option ProviderArgs) (address : Ptr)
      → margo.is_listening i ≡ true
      → margo.registered i "soma_sum" pid ≡ none
      → memory.calloc ≡ some address
      → pointer_size ≤ memory.usable 1
      → let filled =
          fill_provider {J = J} {T = T} mid i pid (args_or_init args) memory.strdup_ok address in
        provider_register mid memory i pid args
        ≡ some (
          success,
          some (with_backend filled.0 dummy_backend),
          margo.push_finalize filled.1 address,
        )
  unfolding provider_register register_dummy_backend add_backend_impl
  provider_register-filled mid memory i pid args address on free room block =
      let (_, _, num, types, _, _, _) =
        fill_provider-fields mid i pid (args_or_init args) memory.strdup_ok address in
      ground arith

  -- On a listening instance with no such provider, with memory for the provider and at least eight
  -- bytes in the block that realloc returns for one byte, soma_provider_register succeeds: all seven
  -- RPCs are registered under the ids that the provider holds, the token is the copied one, and a
  -- server that starts with the provider owns its contexts (there are none).
  pub provider_register-IsRegistered :
      (mid : Ptr) (memory : Memory) (i : I) (pid : ℕ) (args : Option ProviderArgs) (address : Ptr)
      (grants : Ptr → Bool)
      → margo.is_listening i ≡ true
      → margo.registered i "soma_sum" pid ≡ none
      → memory.calloc ≡ some address
      → pointer_size ≤ memory.usable 1
      → (p : Provider (Heap J) T) × (j : I) × (provider_register mid memory i pid args
          ≡ some (success, some p, j))
        × IsRegistered j p
        × (margo.is_listening j ≡ true)
        × (p.provider_id ≡ pid)
        × (p.token ≡ copy_token memory.strdup_ok (args_or_init args).token)
        × IsOwned (initial_server p grants)
  provider_register-IsRegistered mid memory i pid args address grants on free room block =
      let a = args_or_init args in
      let filled = fill_provider {J = J} {T = T} mid i pid a memory.strdup_ok address in
      let (same, token, num, types, count, none_yet, listening) =
        fill_provider-fields mid i pid a memory.strdup_ok address in
      let r = fill_provider-IsRegistered mid i pid a memory.strdup_ok address in
      (
        with_backend filled.0 dummy_backend,
        margo.push_finalize filled.1 address,
        provider_register-filled mid memory i pid args address on free room block,
        push_finalize-IsRegistered filled.1 address _
            (with_backend-IsRegistered filled.1 filled.0 r),
        margo.listening-push_finalize filled.1 address ∙ listening ∙ on,
        same,
        token,
        initial-IsOwned filled.0 grants num types count none_yet,
      )

  -- A registration that does not succeed makes no provider, and changes nothing of the instance.
  pub provider_register-failure :
      (mid : Ptr) (memory : Memory) (i j : I) (pid : ℕ) (args : Option ProviderArgs)
      (ret : ReturnCode) (made : Option (Provider (Heap J) T))
      → provider_register mid memory i pid args ≡ some (ret, made, j)
      → ret ≢ success
      → (made ≡ none) × (j ≡ i)
  unfolding provider_register
  provider_register-failure mid memory i j pid args ret made e ne = ground arith

  -- A second registration under the provider id of a registered provider, on a listening instance,
  -- is refused with SOMA_ERR_INVALID_PROVIDER.
  pub provider_register_twice :
      (mid : Ptr) (memory : Memory) (i : I) (p : Provider (Heap J) T) (args : Option ProviderArgs)
      → IsRegistered i p
      → margo.is_listening i ≡ true
      → provider_register {J = J} {T = T} mid memory i p.provider_id args
        ≡ some (err_invalid_provider, none, i)
  unfolding provider_register
  provider_register_twice mid memory i p args r on = ground (arith, r.sum)
