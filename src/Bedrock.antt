-- ===== src/Bedrock.antt =====
-- src/bedrock-module.c: the functions that Bedrock calls, on a provider, on a client and on a
-- provider handle. What Bedrock passes to them is a parameter.
pub mod Life
use soma_c.Prelude.{
  ℕ, Bool, refl, if◌then◌else◌, ◌≡◌, ◌≢◌, String, true, false, Option, none, some, arith,
}
use soma_c.Common.{ReturnCode, Ptr}
use soma_c.Foreign.JsonC.{JsonC}
use soma_c.Foreign.UtHash.{UtHash}
use soma_c.Foreign.Margo.{Margo}
use soma_c.Provider.State.{Provider}
use soma_c.Provider.Backends.{add_backend_impl}
use soma_c.Provider.Collectors.{check_token}
use soma_c.Provider.Lifecycle.{
  Memory, provider_register, provider_destroy, fill_provider, register_dummy_backend,
}
use soma_c.Client.{Client, Store}
use soma_c.Client.Lifecycle.{client_init, client_finalize}
use soma_c.Foreign.Names.{Names}
use soma_c.Prelude.State.{M}
use soma_c.Provider.Server.{Server}
use soma_c.Dummy.{Heap}

-- What bedrock_args_get_provider_id, _config, _pool and _dependency give.
pub record BedrockArgs : Type 0 where
  pub provider_id : ℕ
  pub config : Option String
  pub pool : ℕ
  pub abtio : ℕ

module _ {J T I : Type 0} ⦃json : JsonC J⦄ ⦃h : UtHash (Heap J) T⦄ ⦃margo : Margo I⦄ where
  -- soma_register_provider: the token stays NULL.
  unfoldable pub register_provider :
      (mid : Ptr)
      → Memory
      → I
      → BedrockArgs
      → Option (ReturnCode × Option (Provider (Heap J) T) × I)
  register_provider mid memory i args =
      provider_register mid memory i args.provider_id
        (some (record { token = none; config = args.config; pool = args.pool; abtio = args.abtio }))

  -- soma_deregister_provider
  unfoldable pub deregister_provider :
      I → (address : Ptr) → Server (Heap J) T → Option (ReturnCode × I × Heap J)
  deregister_provider i address s = provider_destroy i address s

  -- A provider that Bedrock registers accepts every token.
  register_provider-check_token :
      (mid : Ptr) (memory : Memory) (i j : I) (args : BedrockArgs) (ret : ReturnCode)
      (p : Provider (Heap J) T) (token : Option String)
      → register_provider mid memory i args ≡ some (ret, some p, j)
      → check_token p token ≡ some true
  unfolding register_provider provider_register fill_provider register_dummy_backend
      add_backend_impl check_token
  register_provider-check_token mid memory i j args ret p token e = ground arith

-- soma_get_provider_config and soma_get_client_config: `none` is the NULL of strdup.
unfoldable pub get_provider_config : (strdup_ok : Bool) → Option String
get_provider_config strdup_ok = if strdup_ok then some "{}" else none

unfoldable pub get_client_config : (strdup_ok : Bool) → Option String
get_client_config strdup_ok = if strdup_ok then some "{}" else none

module _ {N : Type 0} ⦃names : Names N⦄ where
  -- soma_init_client
  unfoldable pub init_client :
      (mid : Ptr) → (calloc_ok : Bool) → N → Store → (ReturnCode × Option Ptr) × N × Store
  init_client mid calloc_ok i s = client_init mid calloc_ok i s

-- soma_finalize_client, and whether the warning is printed.
unfoldable pub finalize_client : Ptr → M Store (ReturnCode × Bool)
finalize_client client = client_finalize client

-- struct soma_provider_handle
pub record ProviderHandle : Type 0 where
  pub mid : Ptr
  pub addr : Ptr
  pub provider_id : ℕ

-- soma_create_provider_handle: margo_addr_dup is given the client's instance and the address; the handle
-- has the address that it writes (NULL where it fails and writes none). The `mid` stays the NULL of
-- calloc. `none` is the NULL that calloc returns, used as a handle.
unfoldable pub create_provider_handle :
    Client
    → (address : Ptr) → ℕ
    → (calloc_ok : Bool) → (dup : Ptr → Ptr → Option Ptr) → Option ProviderHandle
create_provider_handle c address provider_id calloc_ok dup =
    if calloc_ok
    then some (record {
      mid = 0;
      addr = elim (dup c.mid address) [ none ↦ 0 | some copy ↦ copy ];
      provider_id = provider_id;
    })
    else none

-- soma_destroy_provider_handle: the instance and the address that margo_addr_free is given.
unfoldable pub destroy_provider_handle : ProviderHandle → Ptr × Ptr
destroy_provider_handle ph = (ph.mid, ph.addr)

-- A provider handle whose memory was allocated, and whose address was duplicated on an instance that is
-- not NULL, gives that address back, but on another instance than the client's; without memory, a
-- NULL pointer is written through.
destroy_provider_handle-create_provider_handle :
    (c : Client) (address copy : Ptr) (provider_id : ℕ) (dup : Ptr → Ptr → Option Ptr)
    → c.mid ≢ 0
    → dup c.mid address ≡ some copy
    → ((ph : ProviderHandle) × (create_provider_handle c address provider_id true dup ≡ some ph)
        × ((destroy_provider_handle ph).1 ≡ copy)
        × ((destroy_provider_handle ph).0 ≢ c.mid))
      × (create_provider_handle c address provider_id false dup ≡ none)
unfolding destroy_provider_handle create_provider_handle
destroy_provider_handle-create_provider_handle c address copy provider_id dup there e = (
  (
    record { mid = 0; addr = copy; provider_id = provider_id },
    rw e refl,
    refl,
    λ same. there (ground arith),
  ),
  refl,
)
