-- ===== src/EndToEnd/Life.antt =====
-- The life of a provider: it is registered, serves requests, and is destroyed.
use soma_c.Prelude.{ℕ, String, ◌≡◌, refl, Bool, Option, some, List, [], ◌∷◌, map}
use soma_c.Common.{success, Ptr}
use soma_c.Foreign.JsonC.{JsonC}
use soma_c.Foreign.UtHash.{UtHash}
use soma_c.Foreign.Margo.{Margo}
use soma_c.Provider.State.{Collector, Provider}
use soma_c.Provider.Server.{Server, HandleCall}
use soma_c.Provider.Serve.{Request, serve}
use soma_c.Provider.Serve.Bodies.{DiffersInCollectors}
use soma_c.Provider.Lifecycle.{provider_destroy}
use soma_c.Provider.Lifecycle.Registration.{initial_server, IsRegistered}
use soma_c.Provider.Lifecycle.Destruction.{IsUnregistered}
use soma_c.Dummy.{Heap}
use soma_c.Dummy.Registry.{Registry, reply_of, entries}
use soma_c.Dummy.History.{respond_all}

module _ {I : Type 0} ⦃margo : Margo I⦄ where
  pub IsUnregistered-provider_id :
      (i : I) (p q : ℕ) → p ≡ q → IsUnregistered i p → IsUnregistered i q
  IsUnregistered-provider_id i p q e none_left = rw (← e) none_left

module _ {J : Type 0} ⦃json : JsonC J⦄ where
  pub entries-nil : (cs : List (Collector (Heap J))) → entries {J = J} cs [] ≡ []
  entries-nil [] = refl
  entries-nil (c ∷ cs) = refl

module _ {J T I : Type 0} ⦃json : JsonC J⦄ ⦃h : UtHash (Heap J) T⦄ ⦃margo : Margo I⦄ where
  pub DiffersInCollectors-IsRegistered :
      (i : I) (p q : Provider (Heap J) T)
      → DiffersInCollectors p q
      → IsRegistered i p
      → IsRegistered i q
  DiffersInCollectors-IsRegistered i p q e r = rw e (record {
    create = r.create;
    opened = r.opened;
    close = r.close;
    destroy = r.destroy;
    list = r.list;
    hello = r.hello;
    sum = r.sum;
  })

  -- The service of a history from `p` on, and the end.
  abbrev pub Lives :
      (pid : ℕ) (token : Option String) (j : I) (address : Ptr) (grants : Ptr → Bool)
      (p : Provider (Heap J) T)
      → List Request
      → Type 0
  Lives pid token j address grants p rs =
      (t : Server (Heap J) T) × (css : List (List HandleCall)) × (serve rs (initial_server p grants)
        ≡ some (tt, t))
      × (map reply_of css ≡ (respond_all {J = J} token rs []).0)
      × ((k : I) × (w : Heap J) × (provider_destroy j address t ≡ some (success, k, w))
          × (w.live ≡ [])
          × IsUnregistered k pid)
