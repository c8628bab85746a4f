-- ===== src/Examples/Requests.antt =====
-- The requests of the example programs, against a provider with the dummy backend.
use soma_c.Prelude.{
  ℕ, ◌<◌, ◌≤◌, ◌≡◌, refl, sym, ap, ◌∙◌, true, none, some, List, [], ◌∷◌, ◌++◌, arith, if◌then◌else◌,
  length, take,
}
use soma_c.Prelude.Int.{ℤ, ◌+ℤ◌, fits_int32}
use soma_c.Common.{Ptr, CollectorId, success, err_invalid_collector}
use soma_c.Types.{CreateCollectorIn, ListCollectorsIn, HelloIn, SumIn}
use soma_c.Types.Layouts.{hello_in_t}
use soma_c.Types.Transmit.{transmit-received}
use soma_c.Foreign.Mercury.{Mercury}
use soma_c.Foreign.JsonC.{JsonC}
use soma_c.Foreign.UtHash.{UtHash, find_id}
use soma_c.Provider.Server.{Server, list_out}
use soma_c.Provider.Handlers.{uint_mod}
use soma_c.Provider.Collectors.Items.{collectors_of}
use soma_c.Provider.Serve.{Request, handle}
use soma_c.Provider.Serve.Auth.{answer, called}
use soma_c.Dummy.{Heap, read_config}
use soma_c.Dummy.Registry.{Registry, IsServable, registry, has_key, keys, made, respond_to}
use soma_c.Dummy.Serve.{handle-Serves}
use soma_c.Stub.{Target, Outcome, created, forwarded, destroyed, absent, moves}
use soma_c.Client.{Client, CollectorHandle}
use soma_c.Client.Rpc.{say_hello, compute_sum}
use soma_c.EndToEnd.{status}
use soma_c.EndToEnd.Link.{Link, delivered, linked, exchange-some, fresh, fresh-IsOwned}
use soma_c.EndToEnd.Create.{create_collector-registry}
use soma_c.EndToEnd.Calls.{compute_sum-addition}
use soma_c.EndToEnd.Listing.{list_collectors-registry}
use soma_c.Admin.Lifecycle.{Admin}
use soma_c.Admin.Balance.{create_collector-moves, list_collectors-moves}
use soma_c.Examples.Serving.{
  IsServing, handle-IsServing, sent-none, IsServing-IsTarget, view-IsServing, collectors-lt,
}
use soma_c.Admin

module _ {J T : Type 0} ⦃json : JsonC J⦄ ⦃h : UtHash (Heap J) T⦄ (W : Type 0) ⦃m : Mercury W⦄
    (link : Link) where
  -- soma_create_collector for a dummy collector with the configuration "{}".
  pub create-enters :
      (admin : Admin) (addr : Ptr) (pid : ℕ) (s : Server (Heap J) T) (reg : Registry J) (config : J)
      → IsServing s pid reg
      → link.is_address addr ≡ true
      → admin.create_collector_id ≡ link.id_of admin.mid "soma_create_collector"
      → link.supply.calloc_ok ≡ true
      → s.world.grants s.world.next ≡ true
      → find_id link.supply.uuid (collectors_of s.provider) ≡ none
      → read_config (some "{}") ≡ some config
      → (call : Outcome CreateCollectorIn CollectorId) × (t : Server (Heap J) T)
        × (Admin.create_collector (linked W link) admin addr pid none (some "dummy") (some "{}") s
            ≡ (call, t))
        × (moves absent call.calls ≡ absent)
        × (call.ret ≡ success)
        × IsServing t pid (reg ++ (link.supply.uuid, config) ∷ [])
  create-enters admin addr pid s reg config v here known calloc room new parsed =
      let input : CreateCollectorIn = record {
        type = some "dummy";
        config = some "{}";
        token = none;
      } in
      let target : Target = record {
        mid = admin.mid;
        address = addr;
        rpc_id = admin.create_collector_id;
      } in
      let r =
        Request.create_collector link.supply
          (record { input = some input; out = link.create_junk }) in
      let ok : IsServable s r = (sent-none s v.token, ("dummy", refl), calloc, room, new) in
      let (call, t, o, came, ran, _, left, ret, _) =
        create_collector-registry W link admin addr pid none (some "dummy") (some "{}") s v.owned
          (IsServing-IsTarget s link target pid "soma_create_collector" reg v here known) ok in
      let serving = handle-IsServing r s t pid reg v ok ran in
      let spec : respond_to s.provider.token r (registry s)
          ≡ (made link.supply.uuid, reg ++ (link.supply.uuid, config) ∷ []) =
        rw (v.token, v.view) (ground (arith, parsed)) in
      (
        call,
        t,
        came,
        ap (λ x. moves absent x.0.calls) (sym came)
            ∙ create_collector-moves (linked W link) admin addr pid none (some "dummy") (some "{}")
                s,
        ret ∙ ap (λ x. status x.0) spec,
        view-IsServing t pid (registry t) (reg ++ (link.supply.uuid, config) ∷ [])
            (left ∙ ap (λ x. x.1) spec) serving,
      )

  -- soma_list_collectors with room for four ids.
  pub list-copies :
      (admin : Admin) (addr : Ptr) (pid : ℕ) (s : Server (Heap J) T) (reg : Registry J)
      → IsServing s pid reg
      → link.is_address addr ≡ true
      → admin.list_collectors_id ≡ link.id_of admin.mid "soma_list_collectors"
      → link.calloc_ok ≡ true
      → length reg < uint_mod
      → ((n : ℕ) → n ≤ 4 → link.grants n ≡ true)
      → (call : Outcome ListCollectorsIn (ℕ × List CollectorId)) × (t : Server (Heap J) T)
        × (Admin.list_collectors (linked W link) admin addr pid none 4 s ≡ some (call, t))
        × (moves absent call.calls ≡ absent)
        × (call.ret ≡ success)
        × (call.written ≡ some (length (take 4 (keys reg)), take 4 (keys reg)))
        × IsServing t pid reg
  list-copies admin addr pid s reg v here known calloc few memory =
      let small = collectors-lt s pid reg v few in
      let input : ListCollectorsIn = record { token = none; max_ids = 4 } in
      let target : Target = record {
        mid = admin.mid;
        address = addr;
        rpc_id = admin.list_collectors_id;
      } in
      let r = Request.list_collectors true (record { input = some input; out = link.list_junk }) in
      let sendable = sent-none s v.token in
      let (o, call, came, ran, ret, written) =
        list_collectors-registry W link admin addr pid none 4 s v.owned
          (IsServing-IsTarget s link target pid "soma_list_collectors" reg v here known) calloc
          small sendable (rw v.token refl) memory in
      let u : Server (Heap J) T = called (fresh s) (answer (list_out o)) in
      (
        call,
        u,
        came,
        list_collectors-moves (linked W link) admin addr pid none 4 s u call came,
        ret,
        written ∙ ap (λ r. some (length (take 4 (keys r)), take 4 (keys r))) v.view,
        view-IsServing u pid (registry u) reg v.view
            (handle-IsServing r s u pid reg v (sendable, refl, small) ran),
      )

  -- soma_say_hello sends its request.
  pub hello-reaches :
      (client : Client) (rh : CollectorHandle) (s : Server (Heap J) T) (reg : Registry J)
      → IsServing s rh.provider_id reg
      → link.is_address rh.addr ≡ true
      → client.hello_id ≡ link.id_of client.mid "soma_hello"
      → (call : Outcome HelloIn (Unit {0})) × (t : Server (Heap J) T) × (say_hello
            (linked W link)
            client
            rh
            s
          ≡ (call, t))
        × (handle (Request.hello (some (record { collector_id = rh.collector_id }))) (fresh s)
            ≡ some (tt, t))
        × (moves absent call.calls ≡ absent)
        × (call.ret ≡ success)
        × IsServing t rh.provider_id reg
  unfolding say_hello
  hello-reaches client rh s reg v here known =
      let target : Target = record {
        mid = client.mid;
        address = rh.addr;
        rpc_id = client.hello_id;
      } in
      let input : HelloIn = record { collector_id = rh.collector_id } in
      let r = Request.hello (some input) in
      let at = IsServing-IsTarget s link target rh.provider_id "soma_hello" reg v here known in
      let (t, cs, ran, _, _, reply, _) = handle-Serves r (fresh s) (fresh-IsOwned s v.owned) tt in
      let asked : (linked W link).ask (hello_in_t, none) target rh.provider_id input s
          ≡ (delivered (some tt), t) =
        rw (transmit-received W link.grants hello_in_t input (link.junk hello_in_t) tt)
          (exchange-some link target rh.provider_id r (λ cs. delivered (some tt)) s t at ran) in
      (
        record {
          ret = success;
          written = none;
          calls = created target ∷ forwarded rh.provider_id input ∷ destroyed ∷ [];
        },
        t,
        rw asked refl,
        ran,
        refl,
        refl,
        view-IsServing t rh.provider_id (registry t) reg (ap (λ x. x.1) reply ∙ v.view)
            (handle-IsServing r s t rh.provider_id reg v tt ran),
      )

  -- soma_compute_sum of numbers whose sum fits.
  pub sum-adds :
      (client : Client) (rh : CollectorHandle) (x y : ℤ) (s : Server (Heap J) T) (reg : Registry J)
      → IsServing s rh.provider_id reg
      → link.is_address rh.addr ≡ true
      → client.sum_id ≡ link.id_of client.mid "soma_sum"
      → fits_int32 (x +ℤ y) ≡ true
      → (call : Outcome SumIn ℤ) × (t : Server (Heap J) T) × (compute_sum
            (linked W link)
            client
            rh
            x
            y
            s
          ≡ (call, t))
        × (moves absent call.calls ≡ absent)
        × (call.ret ≡ (if has_key rh.collector_id reg then success else err_invalid_collector))
        × (call.written ≡ (if has_key rh.collector_id reg then some (x +ℤ y) else none))
        × IsServing t rh.provider_id reg
  sum-adds client rh x y s reg v here known fits =
      let target : Target = record {
        mid = client.mid;
        address = rh.addr;
        rpc_id = client.sum_id;
      } in
      let input : SumIn = record { collector_id = rh.collector_id; x = x; y = y } in
      let r = Request.sum (record { input = some input; out = link.sum_junk }) in
      let (call, t, o, came, ran, _, moved, ret, written, left) =
        compute_sum-addition W link client rh x y s v.owned
          (IsServing-IsTarget s link target rh.provider_id "soma_sum" reg v here known) fits in
      (
        call,
        t,
        came,
        moved,
        rw v.view at ret ∙ ground arith,
        rw v.view at written ∙ ground arith,
        view-IsServing t rh.provider_id (registry t) reg (left ∙ v.view)
            (handle-IsServing r s t rh.provider_id reg v fits ran),
      )
