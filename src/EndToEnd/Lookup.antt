-- ===== src/EndToEnd/Lookup.antt =====
-- How a handler of src/provider.c finds its provider: margo_registered_data of the id of its RPC.
use soma_c.Prelude.{
  ℕ, String, ◌≤◌, ◌≡◌, refl, sym, ap, ◌∙◌, Bool, true, Option, none, some, arith, ◌==◌, ==_refl,
  if◌then◌else◌, Bool-cases, inl, inr,
}
use soma_c.Common.{ReturnCode, success, Ptr}
use soma_c.Types.Layouts.{Signature}
use soma_c.Foreign.JsonC.{JsonC}
use soma_c.Foreign.Margo.{Margo}
use soma_c.Foreign.UtHash.{UtHash}
use soma_c.Provider.State.{Provider}
use soma_c.Provider.Server.{Server}
use soma_c.Provider.Backends.{pointer_size}
use soma_c.Provider.Backends.Lookup.{with_backend}
use soma_c.Provider.Serve.{
  Request, create_collector, open_collector, close_collector, destroy_collector, list_collectors,
  hello, sum, handle,
}
use soma_c.Provider.Dispatch.{rpc_id, reads_provider, dispatch, dispatch-found, dispatch-null}
use soma_c.Provider.Serve.Bodies.{DiffersInCollectors}
use soma_c.Provider.Lifecycle.{
  ProviderArgs, Memory, args_or_init, register_rpc, fill_provider, provider_register,
  deregister_rpcs, provider_destroy,
}
use soma_c.Provider.Lifecycle.Registration.{
  IsRegistered, provider_register-filled, provider_register-IsRegistered,
}
use soma_c.Provider.Lifecycle.Isolation.{provider_destroy-deregister_rpcs}
use soma_c.EndToEnd.Signatures.{rpc_name}
use soma_c.Dummy.{Heap, dummy_backend}

module _ {I : Type 0} ⦃margo : Margo I⦄ where
  -- The data of an id that is registered, and of one that has the data already.
  registered_data-register_rpc :
      (i : I) (n : String) (g : Signature) (p pool : ℕ) (a : Ptr)
      → margo.registered_data (register_rpc i n g p pool a).1 (register_rpc i n g p pool a).0
        ≡ some a
  unfolding register_rpc
  registered_data-register_rpc i n g p pool a =
      let (id, j) = margo.register i n g p pool in
      margo.registered_data-register_data j id a id ∙ rw (==_refl id) refl

  stays :
      (i : I) (n : String) (g : Signature) (p pool : ℕ) (a : Ptr) (k : ℕ)
      → margo.registered_data i k ≡ some a
      → margo.registered_data (register_rpc i n g p pool a).1 k ≡ some a
  unfolding register_rpc
  stays i n g p pool a k e =
      let (id, j) = margo.register i n g p pool in
      elim (Bool-cases (k == id)) [
        | inl same ↦ margo.registered_data-register_data j id a k ∙ rw same refl
        | inr other ↦
            margo.registered_data-register_data j id a k
            ∙ rw other (margo.registered_data-register i n g p pool k other ∙ e)
      ]

  silent :
      (i : I) (id k : ℕ) (a : Ptr)
      → margo.registered_data i k ≡ some a
      → margo.registered_data (margo.disable_response i id) k ≡ some a
  silent i id k a e = margo.registered_data-disable_response i id k ∙ e

ruleset found = (registered_data-register_rpc, stays, silent)

module _ (J T : Type 0) {I : Type 0} ⦃json : JsonC J⦄ ⦃h : UtHash (Heap J) T⦄
    ⦃margo : Margo I⦄ where
  registered_data-fill_provider :
      (mid : Ptr) (i : I) (pid : ℕ) (a : ProviderArgs) (ok : Bool) (address : Ptr) (r : Request)
      → let filled = fill_provider {J = J} {T = T} mid i pid a ok address in
        margo.registered_data filled.1 (rpc_id filled.0 r) ≡ some address
  unfolding fill_provider
  registered_data-fill_provider mid i pid a ok address (create_collector supply rpc) =
      search found depth 9
  registered_data-fill_provider mid i pid a ok address (open_collector supply rpc) =
      search found depth 9
  registered_data-fill_provider mid i pid a ok address (close_collector rpc) = search found depth 9
  registered_data-fill_provider mid i pid a ok address (destroy_collector rpc) =
      search found depth 9
  registered_data-fill_provider mid i pid a ok address (list_collectors calloc_ok rpc) =
      search found depth 9
  registered_data-fill_provider mid i pid a ok address (hello input) = search found depth 9
  registered_data-fill_provider mid i pid a ok address (sum rpc) = search found depth 9

module _ {J T : Type 0} ⦃json : JsonC J⦄ ⦃h : UtHash (Heap J) T⦄ where
  DiffersInCollectors-rpc_id :
      (p q : Provider (Heap J) T) (r : Request) → DiffersInCollectors p q → rpc_id q r ≡ rpc_id p r
  DiffersInCollectors-rpc_id p q (create_collector supply rpc) e =
      ap (λ (x : Provider (Heap J) T). rpc_id x (create_collector supply rpc)) e
  DiffersInCollectors-rpc_id p q (open_collector supply rpc) e =
      ap (λ (x : Provider (Heap J) T). rpc_id x (open_collector supply rpc)) e
  DiffersInCollectors-rpc_id p q (close_collector rpc) e =
      ap (λ (x : Provider (Heap J) T). rpc_id x (close_collector rpc)) e
  DiffersInCollectors-rpc_id p q (destroy_collector rpc) e =
      ap (λ (x : Provider (Heap J) T). rpc_id x (destroy_collector rpc)) e
  DiffersInCollectors-rpc_id p q (list_collectors calloc_ok rpc) e =
      ap (λ (x : Provider (Heap J) T). rpc_id x (list_collectors calloc_ok rpc)) e
  DiffersInCollectors-rpc_id p q (hello input) e =
      ap (λ (x : Provider (Heap J) T). rpc_id x (hello input)) e
  DiffersInCollectors-rpc_id p q (sum rpc) e =
      ap (λ (x : Provider (Heap J) T). rpc_id x (sum rpc)) e

  with_backend-rpc_id :
      (p : Provider (Heap J) T) (r : Request) → rpc_id (with_backend p dummy_backend) r ≡ rpc_id p r
  with_backend-rpc_id p (create_collector supply rpc) = refl
  with_backend-rpc_id p (open_collector supply rpc) = refl
  with_backend-rpc_id p (close_collector rpc) = refl
  with_backend-rpc_id p (destroy_collector rpc) = refl
  with_backend-rpc_id p (list_collectors calloc_ok rpc) = refl
  with_backend-rpc_id p (hello input) = refl
  with_backend-rpc_id p (sum rpc) = refl

module _ {J T I : Type 0} ⦃json : JsonC J⦄ ⦃h : UtHash (Heap J) T⦄ ⦃margo : Margo I⦄ where
  registered_data-deregister_rpcs :
      (i : I) (p : Provider (Heap J) T) (r : Request)
      → margo.registered_data (deregister_rpcs i p) (rpc_id p r) ≡ none
  unfolding deregister_rpcs
  registered_data-deregister_rpcs i p (create_collector supply rpc) =
      simp margo.registered_data-deregister (ground arith)
  registered_data-deregister_rpcs i p (open_collector supply rpc) =
      simp margo.registered_data-deregister (ground arith)
  registered_data-deregister_rpcs i p (close_collector rpc) =
      simp margo.registered_data-deregister (ground arith)
  registered_data-deregister_rpcs i p (destroy_collector rpc) =
      simp margo.registered_data-deregister (ground arith)
  registered_data-deregister_rpcs i p (list_collectors calloc_ok rpc) =
      simp margo.registered_data-deregister (ground arith)
  registered_data-deregister_rpcs i p (hello input) =
      simp margo.registered_data-deregister (ground arith)
  registered_data-deregister_rpcs i p (sum rpc) =
      simp margo.registered_data-deregister (ground arith)

  IsRegistered-rpc_id :
      (i : I) (p : Provider (Heap J) T) (r : Request)
      → IsRegistered i p
      → margo.registered i (rpc_name r) p.provider_id ≡ some (rpc_id p r)
  IsRegistered-rpc_id i p (create_collector supply rpc) v = v.create
  IsRegistered-rpc_id i p (open_collector supply rpc) v = v.opened
  IsRegistered-rpc_id i p (close_collector rpc) v = v.close
  IsRegistered-rpc_id i p (destroy_collector rpc) v = v.destroy
  IsRegistered-rpc_id i p (list_collectors calloc_ok rpc) v = v.list
  IsRegistered-rpc_id i p (hello input) v = v.hello
  IsRegistered-rpc_id i p (sum rpc) v = v.sum

  -- After the registration each RPC has its id, and the id has the provider as its data.
  provider_register-data :
      (mid : Ptr) (memory : Memory) (i j : I) (pid : ℕ) (args : Option ProviderArgs) (address : Ptr)
      (p : Provider (Heap J) T) (r : Request)
      → margo.is_listening i ≡ true
      → margo.registered i "soma_sum" pid ≡ none
      → memory.calloc ≡ some address
      → pointer_size ≤ memory.usable 1
      → provider_register mid memory i pid args ≡ some (success, some p, j)
      → (margo.registered j (rpc_name r) pid ≡ some (rpc_id p r))
        × (margo.registered_data j (rpc_id p r) ≡ some address)
  provider_register-data mid memory i j pid args address p r on free room block made =
      let filled =
        fill_provider {J = J} {T = T} mid i pid (args_or_init args) memory.strdup_ok address in
      let ran =
        provider_register-filled {J = J} {T = T} mid memory i pid args address on free room block in
      let same_p : with_backend filled.0 dummy_backend ≡ p = cc in
      let same_j : margo.push_finalize filled.1 address ≡ j = cc in
      let at =
        registered_data-fill_provider J T mid i pid (args_or_init args) memory.strdup_ok address
          r in
      let there : margo.registered_data (margo.push_finalize filled.1 address)
            (rpc_id (with_backend filled.0 dummy_backend) r)
          ≡ some address =
        margo.registered_data-push_finalize filled.1 address _
        ∙ rw (with_backend-rpc_id filled.0 r) at in
      let (p', j', made', registered, _, own, _, _) =
        provider_register-IsRegistered {J = J} {T = T} mid memory i pid args address (λ a. true) on
          free room block in
      let named : margo.registered j' (rpc_name r) pid ≡ some (rpc_id p' r) =
        rw own at (IsRegistered-rpc_id j' p' r registered) in
      let one_p : p' ≡ p = cc in
      let one_j : j' ≡ j = cc in
      (rw one_j at (rw one_p at named), rw same_j at (rw same_p at there))

  -- A provider is registered on a listening instance, with memory at `address`, where no such provider
  -- was, and destroyed later on an instance, when nothing of it changed but its collectors. For each
  -- request, the RPC has the id that the provider holds for it. After the registration, the handler
  -- that is called with this id works on the provider; after the destruction, it takes NULL for its
  -- provider, which is undefined behaviour if it reads the provider.
  pub provider_register-finds :
      (mid : Ptr) (memory : Memory) (i j l k : I) (pid : ℕ) (args : Option ProviderArgs)
      (address : Ptr) (p : Provider (Heap J) T) (s : Server (Heap J) T) (ret : ReturnCode)
      (w : Heap J) (r : Request) (t u : Server (Heap J) T)
      → margo.is_listening i ≡ true
      → margo.registered i "soma_sum" pid ≡ none
      → memory.calloc ≡ some address
      → pointer_size ≤ memory.usable 1
      → provider_register mid memory i pid args ≡ some (success, some p, j)
      → DiffersInCollectors p s.provider
      → provider_destroy l address s ≡ some (ret, k, w)
      → (margo.registered j (rpc_name r) pid ≡ some (rpc_id p r))
        × (dispatch j address (rpc_id p r) r t ≡ handle r t)
        × (dispatch k address (rpc_id p r) r u ≡ (if reads_provider r then none else handle r u))
  provider_register-finds mid memory i j l k pid args address p s ret w r t u on free room block
        made differs gone =
      let (named, there) =
        provider_register-data mid memory i j pid args address p r on free room block made in
      let left = registered_data-deregister_rpcs (margo.pop_finalize l address) s.provider r in
      let absent : margo.registered_data k (rpc_id p r) ≡ none =
        rw (provider_destroy-deregister_rpcs l k address s ret w gone)
          (rw (sym (DiffersInCollectors-rpc_id p s.provider r differs)) left) in
      (
        named,
        dispatch-found j address (rpc_id p r) r t there,
        dispatch-null k address (rpc_id p r) r u absent,
      )
