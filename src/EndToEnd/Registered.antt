-- ===== src/EndToEnd/Registered.antt =====
-- The types that src/provider.c, src/admin.c and src/client.c register the RPCs with.
use soma_c.Prelude.{
  ℕ, ◌≤◌, ◌≡◌, refl, ◌∙◌, String, str_eq, if◌then◌else◌, Bool, true, false, Option, none, some,
  List, ◌++◌, arith,
}
use soma_c.Common.{success, Ptr}
use soma_c.Types.Layouts.{
  Signature, create_collector_in_t, open_collector_in_t, close_collector_in_t,
  destroy_collector_in_t, list_collectors_in_t, hello_in_t, sum_in_t, sum_out_t, Message,
}
use soma_c.Types.Transmit.{transmit, transmit-received}
use soma_c.Foreign.JsonC.{JsonC}
use soma_c.Foreign.Margo.{Margo}
use soma_c.Foreign.Mercury.{Mercury}
use soma_c.Foreign.Names.{Names}
use soma_c.Foreign.UtHash.{UtHash}
use soma_c.Provider.State.{Provider}
use soma_c.Provider.Backends.Lookup.{with_backend}
use soma_c.Provider.Backends.{pointer_size}
use soma_c.Provider.Server.{Server, HandleCall}
use soma_c.Provider.Serve.{
  Request, create_collector, open_collector, close_collector, destroy_collector, list_collectors,
  hello, sum, handle,
}
use soma_c.Provider.Lifecycle.{
  ProviderArgs, Memory, args_or_init, register_rpc, fill_provider, provider_register,
}
use soma_c.Provider.Lifecycle.Registration.{provider_register-filled}
use soma_c.Dummy.{Heap, dummy_backend}
use soma_c.Admin.Lifecycle.{new_admin, admin_init}
use soma_c.Client.{Store}
use soma_c.Client.Lifecycle.{new_client, client_init}
use soma_c.EndToEnd.Signatures.{rpc_name, signature_of, IsTypedAnswer, handle-IsTypedAnswer}

module _ {I : Type 0} ⦃margo : Margo I⦄ where
  signature-register_rpc :
      (i : I) (n m : String) (g : Signature) (p pool : ℕ) (a : Ptr)
      → margo.signature (register_rpc i n g p pool a).1 m p
        ≡ (if str_eq n m then some g else margo.signature i m p)
  unfolding register_rpc
  signature-register_rpc i n m g p pool a = ground (
    arith,
    margo.signature-register_data (margo.register i n g p pool).1 (margo.register i n g p pool).0 a
        m p,
    margo.signature-register i n m g p p pool,
  )

module _ (J T : Type 0) {I : Type 0} ⦃json : JsonC J⦄ ⦃h : UtHash (Heap J) T⦄
    ⦃margo : Margo I⦄ where
  signature-fill_provider :
      (mid : Ptr) (i : I) (pid : ℕ) (a : ProviderArgs) (ok : Bool) (address : Ptr) (r : Request)
      → margo.signature (fill_provider {J = J} {T = T} mid i pid a ok address).1 (rpc_name r) pid
        ≡ some (signature_of r)
  unfolding fill_provider
  signature-fill_provider mid i pid a ok address (create_collector supply rpc) =
      simp (signature-register_rpc, margo.signature-disable_response) refl
  signature-fill_provider mid i pid a ok address (open_collector supply rpc) =
      simp (signature-register_rpc, margo.signature-disable_response) refl
  signature-fill_provider mid i pid a ok address (close_collector rpc) =
      simp (signature-register_rpc, margo.signature-disable_response) refl
  signature-fill_provider mid i pid a ok address (destroy_collector rpc) =
      simp (signature-register_rpc, margo.signature-disable_response) refl
  signature-fill_provider mid i pid a ok address (list_collectors calloc_ok rpc) =
      simp (signature-register_rpc, margo.signature-disable_response) refl
  signature-fill_provider mid i pid a ok address (hello input) =
      simp (signature-register_rpc, margo.signature-disable_response) refl
  signature-fill_provider mid i pid a ok address (sum rpc) = simp signature-register_rpc refl

abbrev is_admin : Request → Bool
is_admin (hello input) = false
is_admin (sum rpc) = false
is_admin _ = true

module _ {N : Type 0} ⦃names : Names N⦄ where
  -- What an administrator registers, where none did before.
  registered_name-new_admin :
      (mid : Ptr) (n : N)
      → names.registered_name n "soma_create_collector" ≡ none
      → names.registered_name n "soma_sum" ≡ none
      → names.registered_name (new_admin mid n).1 "soma_sum" ≡ none
  unfolding new_admin
  registered_name-new_admin mid n a c =
      rw (a, new_admin) (simp (names.registered_name-register, c) refl)

  signature-new_admin :
      (mid : Ptr) (n : N) (r : Request)
      → names.registered_name n "soma_create_collector" ≡ none
      → is_admin r ≡ true
      → names.signature (new_admin mid n).1 (rpc_name r) ≡ some (signature_of r)
  unfolding new_admin
  signature-new_admin mid n (create_collector supply rpc) a e =
      rw (a, new_admin) (simp names.signature-register refl)
  signature-new_admin mid n (open_collector supply rpc) a e =
      rw (a, new_admin) (simp names.signature-register refl)
  signature-new_admin mid n (close_collector rpc) a e =
      rw (a, new_admin) (simp names.signature-register refl)
  signature-new_admin mid n (destroy_collector rpc) a e =
      rw (a, new_admin) (simp names.signature-register refl)
  signature-new_admin mid n (list_collectors calloc_ok rpc) a e =
      rw (a, new_admin) (simp names.signature-register refl)
  signature-new_admin mid n (hello input) a e = cc
  signature-new_admin mid n (sum rpc) a e = cc

  -- What a client registers besides, where none did before.
  signature-new_client :
      (mid : Ptr) (n : N) (m : String)
      → names.registered_name n "soma_sum" ≡ none
      → names.signature (new_client mid n).1 m ≡ (
          if str_eq "soma_hello" m
          then some (hello_in_t, none)
          else if str_eq "soma_sum" m
          then some (sum_in_t, some sum_out_t)
          else names.signature n m)
  unfolding new_client
  signature-new_client mid n m c =
      rw (c, new_client) (simp (names.signature-disable_response, names.signature-register) refl)

  signature-inits :
      (amid cmid : Ptr) (n : N) (store : Store) (r : Request)
      → names.registered_name n "soma_create_collector" ≡ none
      → names.registered_name n "soma_sum" ≡ none
      → names.signature (client_init cmid true (admin_init amid true n).1 store).1 (rpc_name r)
        ≡ some (signature_of r)
  unfolding client_init admin_init
  signature-inits amid cmid n store r a c =
      let free = registered_name-new_admin amid n a c in
      signature-new_client cmid (new_admin amid n).1 (rpc_name r) free ∙ by_request r
    where
      by_request :
          (r : Request)
          → (if str_eq "soma_hello" (rpc_name r)
              then some (hello_in_t, none)
              else if str_eq "soma_sum" (rpc_name r)
              then some (sum_in_t, some sum_out_t)
              else names.signature (new_admin amid n).1 (rpc_name r))
            ≡ some (signature_of r)
      by_request (hello input) = refl
      by_request (sum rpc) = refl
      by_request (create_collector supply rpc) =
          signature-new_admin amid n (create_collector supply rpc) a refl
      by_request (open_collector supply rpc) =
          signature-new_admin amid n (open_collector supply rpc) a refl
      by_request (close_collector rpc) = signature-new_admin amid n (close_collector rpc) a refl
      by_request (destroy_collector rpc) = signature-new_admin amid n (destroy_collector rpc) a refl
      by_request (list_collectors calloc_ok rpc) =
          signature-new_admin amid n (list_collectors calloc_ok rpc) a refl

module _ (W : Type 0) ⦃mercury : Mercury W⦄ where
  transmit_input :
      (grants : ℕ → Bool) (r : Request) (d junk : Message (signature_of r).0)
      → transmit W grants (signature_of r).0 d junk ≡ some d
  transmit_input grants (create_collector supply rpc) d junk =
      transmit-received W grants create_collector_in_t d junk tt
  transmit_input grants (open_collector supply rpc) d junk =
      transmit-received W grants open_collector_in_t d junk tt
  transmit_input grants (close_collector rpc) d junk =
      transmit-received W grants close_collector_in_t d junk tt
  transmit_input grants (destroy_collector rpc) d junk =
      transmit-received W grants destroy_collector_in_t d junk tt
  transmit_input grants (list_collectors calloc_ok rpc) d junk =
      transmit-received W grants list_collectors_in_t d junk tt
  transmit_input grants (hello input) d junk = transmit-received W grants hello_in_t d junk tt
  transmit_input grants (sum rpc) d junk = transmit-received W grants sum_in_t d junk tt

module _ {J T I N : Type 0} (W : Type 0) ⦃json : JsonC J⦄ ⦃h : UtHash (Heap J) T⦄ ⦃margo : Margo I⦄
    ⦃names : Names N⦄ ⦃mercury : Mercury W⦄ where
  -- A provider is registered on a listening instance, with memory, where no such provider was, and an
  -- administrator and a client are made on an instance, with memory, where neither was: for each
  -- request, the two instances have its RPC with the same types, which are the handler's: a message of
  -- the input type arrives as it was sent, and a handler that does not fault answers with a message of
  -- the output type, hello with none.
  pub signature_of-agrees :
      (mid : Ptr) (memory : Memory) (i : I) (pid : ℕ) (args : Option ProviderArgs) (address : Ptr)
      (amid cmid : Ptr) (n : N) (store : Store) (grants : ℕ → Bool) (r : Request)
      (s t : Server (Heap J) T)
      → margo.is_listening i ≡ true
      → margo.registered i "soma_sum" pid ≡ none
      → memory.calloc ≡ some address
      → pointer_size ≤ memory.usable 1
      → names.registered_name n "soma_create_collector" ≡ none
      → names.registered_name n "soma_sum" ≡ none
      → handle r s ≡ some (tt, t)
      → let n' = (client_init cmid true (admin_init amid true n).1 store).1 in
        (p : Provider (Heap J) T) × (j : I) × (provider_register mid memory i pid args
          ≡ some (success, some p, j))
        × (margo.signature j (rpc_name r) pid ≡ some (signature_of r))
        × (names.signature n' (rpc_name r) ≡ some (signature_of r))
        × ((d junk : Message (signature_of r).0)
            → transmit W grants (signature_of r).0 d junk ≡ some d)
        × ((cs : List HandleCall) × (t.calls ≡ s.calls ++ cs) × IsTypedAnswer (signature_of r).1 cs)
  signature_of-agrees mid memory i pid args address amid cmid n store grants r s t on free room
        block a c ran =
      let filled =
        fill_provider {J = J} {T = T} mid i pid (args_or_init args) memory.strdup_ok address in
      let typed =
        signature-fill_provider J T mid i pid (args_or_init args) memory.strdup_ok address r in
      (
        with_backend filled.0 dummy_backend,
        margo.push_finalize filled.1 address,
        provider_register-filled mid memory i pid args address on free room block,
        margo.signature-push_finalize filled.1 address (rpc_name r) pid ∙ typed,
        signature-inits amid cmid n store r a c,
        transmit_input W grants r,
        handle-IsTypedAnswer r s t ran,
      )
