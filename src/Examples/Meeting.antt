-- ===== src/Examples/Meeting.antt =====
-- The three example programs, one after another.
use soma_c.Prelude.{
  suc, ◌≤◌, ◌<◌, ◌≡◌, ◌≢◌, refl, String, Bool, true, none, some, List, [], ◌∷◌, arith, ==_refl,
}
use soma_c.Prelude.Int.{pos}
use soma_c.Common.{Ptr, success}
use soma_c.Common.IdText.{collector_id_to_string}
use soma_c.Foreign.Names.{Names}
use soma_c.Foreign.JsonC.{JsonC}
use soma_c.Foreign.Mercury.{Mercury}
use soma_c.Foreign.UtHash.{UtHash}
use soma_c.Foreign.Margo.{Margo}
use soma_c.Provider.State.{Provider, Collector}
use soma_c.Provider.Server.{Server}
use soma_c.Provider.Backends.{pointer_size}
use soma_c.Provider.Handlers.{uint_mod}
use soma_c.Provider.Collectors.Items.{collectors_of}
use soma_c.Provider.Lifecycle.{Memory, provider_args_init, finalize_provider}
use soma_c.Provider.Lifecycle.Destruction.{finalize_provider-frees}
use soma_c.Provider.Lifecycle.Isolation.{provider_register-callbacks}
use soma_c.Provider.Lifecycle.Registration.{initial_server, provider_register-IsRegistered}
use soma_c.Dummy.{Heap, read_config}
use soma_c.Dummy.Registry.{registry, has_key}
use soma_c.Dummy.Owned.{Owns}
use soma_c.EndToEnd.Life.{entries-nil}
use soma_c.Client.{Store, find_handle}
use soma_c.Client.HandleList.{IsKeyedHandles}
use soma_c.Examples.Process.{Process, returned_ids, id_is, sum_is, done, uint16}
use soma_c.EndToEnd.Link.{Link, linked}
use soma_c.Examples.Serving.{IsServing, IsAnswering, IsNaming}
use soma_c.Examples.Server.{server_main}
use soma_c.Examples.Admin.{admin_main}
use soma_c.Examples.Admin.Run.{admin_main-enters}
use soma_c.Examples.Client.{client_main}
use soma_c.Examples.Client.Run.{client_main-sums}
use soma_c.Examples.Admin
use soma_c.Examples.Client

one_fits : 1 < uint_mod
one_fits = omega arith

-- A program that starts.
abbrev pub begin : {I S : Type 0} → I → Store → S → Process I S
begin names store remote = record { names = names; store = store; remote = remote; log = [] }

module _ {J : Type 0} ⦃json : JsonC J⦄ where
  Owns-nil : (cs : List (Collector (Heap J))) → Owns cs [] → cs ≡ []
  Owns-nil [] o = refl
  Owns-nil (c ∷ cs) o = absurd o

module _ {J T I : Type 0} ⦃json : JsonC J⦄ ⦃h : UtHash (Heap J) T⦄ ⦃margo : Margo I⦄ where
  -- The provider of the example server has no collector.
  server_main-IsServing :
      (mid : Ptr) (memory : Memory) (i : I) (address : Ptr) (grants : Ptr → Bool)
      → margo.is_listening i ≡ true
      → margo.registered i "soma_sum" 42 ≡ none
      → memory.calloc ≡ some address
      → pointer_size ≤ memory.usable 1
      → (sp : Provider (Heap J) T) × (j : I) × (server_main (some mid) memory i
          ≡ some (done (some sp), j))
        × IsServing (initial_server sp grants) 42 []
        × (collectors_of sp ≡ [])
        × (margo.callbacks j ≡ address ∷ margo.callbacks i)
  unfolding server_main
  server_main-IsServing mid memory i address grants on free room block =
      let (sp, j, made, _, _, pid, token, owned) =
        provider_register-IsRegistered {J = J} {T = T} mid memory i 42 (some provider_args_init)
          address grants on free room block in
      (
        sp,
        j,
        rw made refl,
        record {
          owned = owned;
          token = token;
          provider_id = pid;
          view = entries-nil (collectors_of sp);
        },
        Owns-nil (collectors_of sp) owned.owns,
        provider_register-callbacks mid memory i j 42 (some provider_args_init) success sp address
            made room,
      )

module _ {J T I N : Type 0} ⦃json : JsonC J⦄ ⦃h : UtHash (Heap J) T⦄ ⦃margo : Margo I⦄
    ⦃names : Names N⦄ where
  -- The example server on a listening instance without a provider 42, with memory; then the example
  -- administrator with its address and the id 42; then the example client with these and the text of the
  -- new collector's identifier, which libuuid can read back; Margo and memory at hand for both, on
  -- instances where Margo gives names the ids that the provider has them by and none is registered yet:
  -- each returns 0, the administrator prints the identifier alone, and the client prints 68. The server's
  -- callback is pushed onto those of the instance; when Margo runs it at the end, it meets no undefined
  -- behaviour and frees every context.
  pub programs-meet :
      (W : Type 0) ⦃mercury : Mercury W⦄ (mid : Ptr) (memory : Memory) (i : I) (address : Ptr)
      (grants : Ptr → Bool) (link : Link) (alibs : Admin.Libraries) (clibs : Client.Libraries)
      (amid cmid addr addr' copy : Ptr) (name where_to id : String) (config : J) (n m : N)
      (s : Store)
      → margo.is_listening i ≡ true
      → margo.registered i "soma_sum" 42 ≡ none
      → memory.calloc ≡ some address
      → pointer_size ≤ memory.usable 1
      → Admin.IsAtHand alibs where_to amid addr
      → IsAnswering link addr
      → IsNaming link amid "soma_create_collector" n
      → IsNaming link cmid "soma_sum" m
      → grants 1 ≡ true
      → read_config (some "{}") ≡ some config
      → uint16 (alibs.atoi id) ≡ 42
      → let text = collector_id_to_string alibs.uuid link.supply.uuid in
        Client.IsAtHand clibs where_to text cmid addr' copy
        → link.is_address copy ≡ true
        → uint16 (clibs.atoi id) ≡ 42
        → clibs.uuid.parse text ≡ some link.supply.uuid
        → s.next ≢ 0
        → IsKeyedHandles s.handles
        → find_handle (suc s.next) s.handles ≡ none
        → (sp : Provider (Heap J) T) × (j : I) × (server_main (some mid) memory i
            ≡ some (done (some sp), j))
          × (margo.callbacks j ≡ address ∷ margo.callbacks i)
          × ((a : Process N (Server (Heap J) T)) × (admin_main alibs
                  (linked W link)
                  (name ∷ where_to ∷ id ∷ [])
                  (begin n s (initial_server sp grants))
                ≡ some (done (pos 0), a))
              × (a.log ≡ returned_ids 1 ∷ id_is 0 text ∷ [])
              × ((c : Process N (Server (Heap J) T)) × (client_main clibs
                      (linked W link)
                      (name ∷ where_to ∷ id ∷ text ∷ [])
                      (begin m s a.remote)
                    ≡ some (done (pos 0), c))
                  × (c.log ≡ sum_is (pos 68) ∷ [])
                  × (registry c.remote ≡ (link.supply.uuid, config) ∷ [])
                  × ((k : I) × (w : Heap J) × (finalize_provider j c.remote ≡ some (k, w))
                      × (w.live ≡ []))))
  programs-meet W mid memory i address grants link alibs clibs amid cmid addr addr' copy name
        where_to id config n m s on free room block aw l anaming cnaming granted parsed aid cw here
        cid reads there keyed new =
      let (sp, j, served, v, no_collectors, pushed) =
        server_main-IsServing mid memory i address grants on free room block in
      let (a, ran, v1, alog, _) =
        admin_main-enters W alibs link amid addr name where_to id [] config
          (begin n s (initial_server sp grants)) aw l anaming (rw aid v) one_fits granted
          (rw no_collectors refl) parsed in
      let (c, ran2, clog, _, v2) =
        client_main-sums W clibs link cmid addr' copy name where_to id
          (collector_id_to_string alibs.uuid link.supply.uuid) link.supply.uuid
          ((link.supply.uuid, config) ∷ []) (begin m s a.remote) cw reads here cnaming
          (rw cid (rw aid at v1)) there keyed new in
      let has : has_key link.supply.uuid ((link.supply.uuid, config) ∷ []) ≡ true =
        rw (==_refl link.supply.uuid) refl in
      (
        sp,
        j,
        served,
        pushed,
        (
          a,
          ran,
          alog,
          (c, rw has at ran2, rw has at clog, v2.view, finalize_provider-frees j c.remote v2.owned),
        ),
      )
