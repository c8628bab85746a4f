-- ===== src/Provider/Lifecycle/Isolation.antt =====
-- What the registration and the destruction of a provider leave as it was.
use soma_c.Prelude.{
  ℕ, ◌≡◌, ◌≢◌, refl, ap, sym, ◌∙◌, String, Bool, false, Option, some, ◌∷◌, arith, Option-cases,
  ==_refl, inl, inr,
}
use soma_c.Common.{ReturnCode, Ptr}
use soma_c.Foreign.JsonC.{JsonC}
use soma_c.Foreign.UtHash.{UtHash}
use soma_c.Foreign.Margo.{Margo, without_owner}
use soma_c.Provider.State.{Provider}
use soma_c.Provider.Server.{Server}
use soma_c.Provider.Lifecycle.{
  ProviderArgs, Memory, args_or_init, register_rpc, fill_provider, provider_register,
  deregister_rpcs, finalize_provider, provider_destroy,
}
use soma_c.Provider.Lifecycle.Destruction.{is_rpc_of}
use soma_c.Types.Layouts.{Signature}
use soma_c.Dummy.{Heap}

module _ {I : Type 0} ⦃margo : Margo I⦄ where
  register_rpc_other :
      (i : I) (n m : String) (g : Signature) (p q pool : ℕ) (a : Ptr)
      → q ≢ p
      → margo.registered (register_rpc i n g p pool a).1 m q ≡ margo.registered i m q
  unfolding register_rpc
  register_rpc_other i n m g p q pool a ne = ground (
    arith,
    margo.registered-register_data (margo.register i n g p pool).1 (margo.register i n g p pool).0 a
        m q,
    margo.registered-register i n m g p q pool,
  )

  callbacks-register_rpc :
      (i : I) (n : String) (g : Signature) (p pool : ℕ) (a : Ptr)
      → margo.callbacks (register_rpc i n g p pool a).1 ≡ margo.callbacks i
  unfolding register_rpc
  callbacks-register_rpc i n g p pool a =
      margo.callbacks-register_data _ _ _ ∙ margo.callbacks-register i n g p pool

module _ (J T : Type 0) {I : Type 0} ⦃json : JsonC J⦄ ⦃h : UtHash (Heap J) T⦄
    ⦃margo : Margo I⦄ where
  fill_provider_other :
      (mid : Ptr) (i : I) (pid q : ℕ) (m : String) (a : ProviderArgs) (ok : Bool) (address : Ptr)
      → q ≢ pid
      → margo.registered (fill_provider {J = J} {T = T} mid i pid a ok address).1 m q
        ≡ margo.registered i m q
  unfolding fill_provider
  fill_provider_other mid i pid q m a ok address ne =
      simp
        (
          λ (j : I) (n : String) (g : Signature).
              register_rpc_other j n m g pid q a.pool address ne,
          margo.registered-disable_response,
        )
        refl

  callbacks-fill_provider :
      (mid : Ptr) (i : I) (pid : ℕ) (a : ProviderArgs) (ok : Bool) (address : Ptr)
      → margo.callbacks (fill_provider {J = J} {T = T} mid i pid a ok address).1 ≡ margo.callbacks i
  unfolding fill_provider
  callbacks-fill_provider mid i pid a ok address =
      simp (callbacks-register_rpc, margo.callbacks-disable_response) refl

module _ {J T I : Type 0} ⦃json : JsonC J⦄ ⦃h : UtHash (Heap J) T⦄ ⦃margo : Margo I⦄ where
  deregister_rpcs_other :
      (i : I) (p : Provider (Heap J) T) (m : String) (q : ℕ)
      → ((id : ℕ) → margo.registered i m q ≡ some id → is_rpc_of p id ≡ false)
      → margo.registered (deregister_rpcs i p) m q ≡ margo.registered i m q
  unfolding deregister_rpcs
  deregister_rpcs_other i p m q ne = elim (Option-cases (margo.registered i m q)) [
    | inl e ↦ simp (margo.registered-deregister, e) refl
    | inr (id, e) ↦ let no = ne id e in simp (margo.registered-deregister, e) (ground arith)
  ]

  callbacks-deregister_rpcs :
      (i : I) (p : Provider (Heap J) T) → margo.callbacks (deregister_rpcs i p) ≡ margo.callbacks i
  unfolding deregister_rpcs
  callbacks-deregister_rpcs i p = simp margo.callbacks-deregister refl

  -- A registration in all its exits.
  provider_register_other :
      (mid : Ptr) (memory : Memory) (i j : I) (pid : ℕ) (args : Option ProviderArgs)
      (ret : ReturnCode) (made : Option (Provider (Heap J) T)) (m : String) (q : ℕ)
      → provider_register mid memory i pid args ≡ some (ret, made, j)
      → q ≢ pid
      → margo.registered j m q ≡ margo.registered i m q
  unfolding provider_register
  provider_register_other mid memory i j pid args ret made m q e ne =
      elim (Option-cases memory.calloc) [
        | inl full ↦ ground arith
        | inr (address, room) ↦
            let (p, i7) =
              fill_provider {J = J} {T = T} mid i pid (args_or_init args) memory.strdup_ok
                address in
            ground (
              arith,
              margo.registered-push_finalize i7 address m q,
              fill_provider_other J T mid i pid q m (args_or_init args) memory.strdup_ok address ne,
            )
      ]

  pub provider_register-callbacks :
      (mid : Ptr) (memory : Memory) (i j : I) (pid : ℕ) (args : Option ProviderArgs)
      (ret : ReturnCode) (p : Provider (Heap J) T) (address : Ptr)
      → provider_register mid memory i pid args ≡ some (ret, some p, j)
      → memory.calloc ≡ some address
      → margo.callbacks j ≡ address ∷ margo.callbacks i
  unfolding provider_register
  provider_register-callbacks mid memory i j pid args ret p address e room =
      let (p, i7) =
        fill_provider {J = J} {T = T} mid i pid (args_or_init args) memory.strdup_ok address in
      ground (
        arith,
        margo.callbacks-push_finalize i7 address,
        callbacks-fill_provider J T mid i pid (args_or_init args) memory.strdup_ok address,
      )

  pub provider_destroy-deregister_rpcs :
      (i k : I) (address : Ptr) (s : Server (Heap J) T) (ret : ReturnCode) (w : Heap J)
      → provider_destroy i address s ≡ some (ret, k, w)
      → k ≡ deregister_rpcs (margo.pop_finalize i address) s.provider
  unfolding provider_destroy finalize_provider
  provider_destroy-deregister_rpcs i k address s ret w e = ground arith

  -- A provider is registered, its memory at `address`, and destroyed later; in between, an RPC `m` of
  -- another provider id and the pushed callbacks stay. If the id of that RPC is none of the provider's,
  -- then after the registration and after the destruction the RPC is what it was before; the
  -- registration pushes its callback onto the others, and the destruction leaves the others.
  pub provider_destroy-provider_register :
      (mid : Ptr) (memory : Memory) (i j l k : I) (pid q : ℕ) (args : Option ProviderArgs)
      (ret ret' : ReturnCode) (p : Provider (Heap J) T) (s : Server (Heap J) T) (address : Ptr)
      (w : Heap J) (m : String)
      → provider_register mid memory i pid args ≡ some (ret, some p, j)
      → memory.calloc ≡ some address
      → margo.registered l m q ≡ margo.registered j m q
      → margo.callbacks l ≡ margo.callbacks j
      → provider_destroy l address s ≡ some (ret', k, w)
      → q ≢ pid
      → ((id : ℕ) → margo.registered i m q ≡ some id → is_rpc_of s.provider id ≡ false)
      → (margo.registered j m q ≡ margo.registered i m q)
        × (margo.registered k m q ≡ margo.registered i m q)
        × (margo.callbacks j ≡ address ∷ margo.callbacks i)
        × (margo.callbacks k ≡ margo.callbacks i)
  provider_destroy-provider_register mid memory i j l k pid q args ret ret' p s address w m made
        room same pushed gone ne others =
      let before = provider_register_other mid memory i j pid args ret (some p) m q made ne in
      let on_top = provider_register-callbacks mid memory i j pid args ret p address made room in
      let last = provider_destroy-deregister_rpcs l k address s ret' w gone in
      let popped = margo.registered-pop_finalize l address m q ∙ same ∙ before in
      let kept =
        deregister_rpcs_other (margo.pop_finalize l address) s.provider m q
          (λ id e. others id (sym popped ∙ e)) in
      (
        before,
        ap (λ x. margo.registered x m q) last ∙ kept ∙ popped,
        on_top,
        ap margo.callbacks last
            ∙ callbacks-deregister_rpcs (margo.pop_finalize l address) s.provider
            ∙ margo.callbacks-pop_finalize l address
            ∙ ap (without_owner address) (pushed ∙ on_top)
            ∙ rw (==_refl address) refl,
      )
