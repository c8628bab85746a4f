-- ===== src/Provider/Lifecycle.antt =====
-- soma_provider_register, soma_finalize_provider and soma_provider_destroy of src/provider.c, and
-- soma_provider_register_dummy_backend of src/dummy/dummy-backend.c.
pub mod Registration
pub mod Destruction
pub mod Isolation
use soma_c.Prelude.{ℕ, String, str_eq, Bool, Option, none, some, [], if◌then◌else◌}
use soma_c.Common.{ReturnCode, success, err_invalid_args, err_invalid_provider, err_allocation, Ptr}
use soma_c.Types.Layouts.{
  Signature, create_collector_in_t, create_collector_out_t, open_collector_in_t,
  open_collector_out_t, close_collector_in_t, close_collector_out_t, destroy_collector_in_t,
  destroy_collector_out_t, list_collectors_in_t, list_collectors_out_t, hello_in_t, sum_in_t,
  sum_out_t,
}
use soma_c.Backend.{BackendImpl}
use soma_c.Foreign.JsonC.{JsonC}
use soma_c.Foreign.UtHash.{UtHash}
use soma_c.Foreign.Margo.{Margo}
use soma_c.Provider.State.{Provider}
use soma_c.Provider.Server.{Server}
use soma_c.Provider.Backends.{add_backend_impl}
use soma_c.Provider.Collectors.{remove_all_collectors}
use soma_c.Dummy.{Heap, dummy_backend}

-- struct soma_provider_args
pub record ProviderArgs : Type 0 where
  pub token : Option String
  pub config : Option String
  pub pool : ℕ
  pub abtio : ℕ

-- SOMA_PROVIDER_ARGS_INIT
abbrev pub provider_args_init : ProviderArgs
provider_args_init = record { token = none; config = none; pool = 0; abtio = 0 }

-- The memory that a registration is given: the address of the provider, or NULL (`none`); whether
-- strdup succeeds; the bytes of the block that realloc returns for a size.
pub record Memory : Type 0 where
  pub calloc : Option Ptr
  pub strdup_ok : Bool
  pub usable : ℕ → ℕ

-- `(a.token && strlen(a.token)) ? strdup(a.token) : NULL`
abbrev pub copy_token : Bool → Option String → Option String
copy_token strdup_ok none = none
copy_token strdup_ok (some t) = if str_eq t "" then none else (if strdup_ok then some t else none)

abbrev pub args_or_init : Option ProviderArgs → ProviderArgs
args_or_init none = provider_args_init
args_or_init (some a) = a

-- soma_provider_register_backend
unfoldable pub register_backend :
    {W T : Type 0} → (ℕ → ℕ) → Provider W T → BackendImpl W → Option (ReturnCode × Provider W T)
unfolding add_backend_impl
register_backend usable p backend = add_backend_impl usable p backend

module _ {J T : Type 0} ⦃json : JsonC J⦄ where
  unfoldable pub register_dummy_backend :
      (ℕ → ℕ) → Provider (Heap J) T → Option (ReturnCode × Provider (Heap J) T)
  unfolding register_backend
  register_dummy_backend usable p = register_backend usable p dummy_backend

module _ {I : Type 0} ⦃margo : Margo I⦄ where
  -- MARGO_REGISTER_PROVIDER and margo_register_data.
  unfoldable pub register_rpc : I → String → Signature → (provider_id pool : ℕ) → Ptr → ℕ × I
  register_rpc i name types provider_id pool p =
      let (id, j) = margo.register i name types provider_id pool in (id, margo.register_data j id p)

module _ {J T I : Type 0} ⦃json : JsonC J⦄ ⦃h : UtHash (Heap J) T⦄ ⦃margo : Margo I⦄ where
  -- The provider that calloc returned at `address`, filled in, before it has a backend.
  unfoldable pub fill_provider :
      (mid : Ptr) → I → ℕ → ProviderArgs → Bool → (address : Ptr) → Provider (Heap J) T × I
  fill_provider mid i provider_id a strdup_ok address =
      let (id1, i1) =
        register_rpc i "soma_create_collector" (create_collector_in_t, some create_collector_out_t)
          provider_id a.pool address in
      let (id2, i2) =
        register_rpc i1 "soma_open_collector" (open_collector_in_t, some open_collector_out_t)
          provider_id a.pool address in
      let (id3, i3) =
        register_rpc i2 "soma_close_collector" (close_collector_in_t, some close_collector_out_t)
          provider_id a.pool address in
      let (id4, i4) =
        register_rpc i3 "soma_destroy_collector"
          (destroy_collector_in_t, some destroy_collector_out_t) provider_id a.pool address in
      let (id5, i5) =
        register_rpc i4 "soma_list_collectors" (list_collectors_in_t, some list_collectors_out_t)
          provider_id a.pool address in
      let (id6, i6) = register_rpc i5 "soma_hello" (hello_in_t, none) provider_id a.pool address in
      let (id7, i7) =
        register_rpc (margo.disable_response i6 id6) "soma_sum" (sum_in_t, some sum_out_t)
          provider_id a.pool address in
      let p : Provider (Heap J) T = record {
        mid = mid;
        provider_id = provider_id;
        pool = a.pool;
        abtio = a.abtio;
        token = copy_token strdup_ok a.token;
        num_backend_types = 0;
        backend_types = [];
        backend_types_size = 0;
        num_collectors = 0;
        collectors = h.empty;
        create_collector_id = id1;
        open_collector_id = id2;
        close_collector_id = id3;
        destroy_collector_id = id4;
        list_collectors_id = id5;
        hello_id = id6;
        sum_id = id7;
      } in
      (p, i7)

  -- The outer `none` is a fault; the provider is there if the code is SOMA_SUCCESS.
  unfoldable pub provider_register :
      (mid : Ptr)
      → Memory
      → I
      → ℕ
      → Option ProviderArgs
      → Option (ReturnCode × Option (Provider (Heap J) T) × I)
  provider_register mid memory i provider_id args =
      if margo.is_listening i
      then elim (margo.registered i "soma_sum" provider_id) [
        | some id ↦ some (err_invalid_provider, none, i)
        | none ↦ elim memory.calloc [
          | none ↦ some (err_allocation, none, i)
          | some address ↦
              let (p, i7) =
                fill_provider mid i provider_id (args_or_init args) memory.strdup_ok address in
              elim (register_dummy_backend memory.usable p) [
                | none ↦ none
                | some (ret, q) ↦ some (success, some q, margo.push_finalize i7 address)
              ]
        ]
      ]
      else some (err_invalid_args, none, i)

  -- The seven calls of margo_deregister.
  unfoldable pub deregister_rpcs : I → Provider (Heap J) T → I
  deregister_rpcs i p =
      let i1 = margo.deregister i p.create_collector_id in
      let i2 = margo.deregister i1 p.open_collector_id in
      let i3 = margo.deregister i2 p.close_collector_id in
      let i4 = margo.deregister i3 p.destroy_collector_id in
      let i5 = margo.deregister i4 p.list_collectors_id in
      let i6 = margo.deregister i5 p.hello_id in margo.deregister i6 p.sum_id

  -- The instance and the backends' world that are left; the provider is freed.
  unfoldable pub finalize_provider : I → Server (Heap J) T → Option (I × Heap J)
  finalize_provider i s =
      let j = deregister_rpcs i s.provider in
      elim (remove_all_collectors s) [ none ↦ none | some (_, t) ↦ some (j, t.world) ]

  unfoldable pub provider_destroy :
      I → (address : Ptr) → Server (Heap J) T → Option (ReturnCode × I × Heap J)
  provider_destroy i address s = elim (finalize_provider (margo.pop_finalize i address) s) [
    | none ↦ none
    | some (j, w) ↦ some (success, j, w)
  ]
