-- ===== src/EndToEnd/Shutdown.antt =====
-- The end of a provider whose handlers interleave.
use soma_c.Prelude.{◌≡◌, refl, ap, ◌∙◌, String, Option, some, List, [], map, All}
use soma_c.Common.{success, Ptr}
use soma_c.Foreign.JsonC.{JsonC}
use soma_c.Foreign.Margo.{Margo}
use soma_c.Foreign.UtHash.{UtHash}
use soma_c.Provider.State.{Provider}
use soma_c.Provider.Serve.{Request}
use soma_c.Provider.Serve.Bodies.{DiffersInCollectors}
use soma_c.Provider.Lifecycle.{provider_destroy}
use soma_c.Provider.Lifecycle.Registration.{IsRegistered}
use soma_c.Provider.Lifecycle.Destruction.{IsUnregistered, provider_destroy-IsUnregistered}
use soma_c.Provider.Concurrent.{System, alone, start, enter, call, Reach, here, next}
use soma_c.Provider.Concurrent.Bodies.{handle-body}
use soma_c.Provider.Concurrent.Order.{entered, Reach-IsSerial}
use soma_c.Provider.Concurrent.Progress.{IsDone, entered-IsDone}
use soma_c.Provider.Concurrent.Finish.{HasEntered, finished, finished-IsDone, drain_all}
use soma_c.Dummy.{Heap}
use soma_c.Dummy.Registry.{registry}
use soma_c.Dummy.Concurrent.{IsOwning, AreServableThen, IsAnswered, Reach-IsAnswered}
use soma_c.EndToEnd.Life.{DiffersInCollectors-IsRegistered, IsUnregistered-provider_id}

module _ {W T : Type 0} ⦃h : UtHash W T⦄ where
  -- Handlers change nothing of the provider but its collectors.
  Reach-DiffersInCollectors :
      (p : Provider W T) (w : W) (rs : List Request) {t : System W T}
      → Reach (start p w rs) t
      → DiffersInCollectors p t.provider
  Reach-DiffersInCollectors p w rs here = refl
  Reach-DiffersInCollectors p w rs (next {t = s} reached (enter pre post r o u at ran e)) =
      let before = Reach-DiffersInCollectors p w rs reached in
      let (_, (_, (_, differs))) = handle-body r (alone s.provider s.world) u o ran in
      rw e (
        differs
        ∙ ap
            (λ (q : Provider W T). record q {
              num_collectors = u.provider.num_collectors;
              collectors = u.provider.collectors;
            })
            before)
  Reach-DiffersInCollectors p w rs (next reached (call pre post r made c todo at e)) =
      rw e (Reach-DiffersInCollectors p w rs reached)

module _ {J T I : Type 0} ⦃json : JsonC J⦄ ⦃h : UtHash (Heap J) T⦄ ⦃margo : Margo I⦄ where
  -- Handlers that give way in Margo alone interleave on a registered provider with the dummy backend,
  -- under the conditions of their answers, until none of them waits for its input; then the provider is
  -- destroyed. The destruction meets no undefined behaviour, frees every context, and leaves none of
  -- the provider's RPCs registered; the handlers can make the calls that are left, which change neither
  -- the provider nor the contexts; every request was entered, and they are answered as the registry
  -- answers them in some order.
  pub provider_destroy-Reach :
      (i : I) (address : Ptr) (token : Option String) (p : Provider (Heap J) T) (w : Heap J)
      (rs : List Request) (t : System (Heap J) T)
      → IsRegistered i p
      → IsOwning token (alone p w)
      → AreServableThen p w rs token
      → Reach (start p w rs) t
      → All HasEntered t.threads
      → ((j : I) × (v : Heap J) × (provider_destroy i address (alone t.provider t.world)
            ≡ some (success, j, v))
          × (v.live ≡ [])
          × IsUnregistered j p.provider_id)
        × ((u : System (Heap J) T) × Reach t u
            × All IsDone u.threads
            × (u.provider ≡ t.provider)
            × (u.world ≡ t.world)
            × (map (λ e. e.0) (entered u.threads) ≡ rs)
            × IsAnswered token (registry (alone p w)) u)
  provider_destroy-Reach i address token p w rs t registered v ok reached all =
      let answered = Reach-IsAnswered token p w rs v ok reached in
      let differs = Reach-DiffersInCollectors p w rs reached in
      let (j, x, gone, freed, none_left) =
        provider_destroy-IsUnregistered i address (alone t.provider t.world)
          (DiffersInCollectors-IsRegistered i p t.provider differs registered) answered.owning.0 in
      let u : System (Heap J) T = record t { threads = map finished t.threads } in
      let last : Reach (start p w rs) u = drain_all t [] t.threads reached refl all in
      let done = finished-IsDone t.threads all in
      (
        (
          j,
          x,
          gone,
          freed,
          IsUnregistered-provider_id j _ p.provider_id
              (ap (λ (q : Provider (Heap J) T). q.provider_id) differs) none_left,
        ),
        (
          u,
          drain_all t [] t.threads here refl all,
          done,
          refl,
          refl,
          entered-IsDone (map finished t.threads) done ∙ (Reach-IsSerial p w rs last).requests,
          Reach-IsAnswered token p w rs v ok last,
        ),
      )
