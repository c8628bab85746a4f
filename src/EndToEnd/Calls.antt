-- ===== src/EndToEnd/Calls.antt =====
-- soma_destroy_collector and soma_close_collector of src/admin.c and soma_compute_sum of src/client.c
-- against a provider with the dummy backend.
use soma_c.Prelude.{ℕ, ◌≡◌, refl, ap, ◌∙◌, String, true, Option, none, some, arith, if◌then◌else◌}
use soma_c.Prelude.Int.{ℤ, ◌+ℤ◌, fits_int32}
use soma_c.Common.{CollectorId, is_success, Ptr}
use soma_c.Types.{CloseCollectorIn, CloseCollectorOut, SumIn, SumOut}
use soma_c.Types.Layouts.{
  close_collector_in_t, close_collector_out_t, destroy_collector_in_t, destroy_collector_out_t,
  sum_in_t, sum_out_t,
}
use soma_c.Types.Transmit.{transmit-received}
use soma_c.Foreign.JsonC.{JsonC}
use soma_c.Foreign.Mercury.{Mercury}
use soma_c.Foreign.UtHash.{UtHash}
use soma_c.Provider.Server.{Server, close_out, sum_out}
use soma_c.Provider.Handlers.{close_collector_ult, destroy_collector_ult, sum_ult}
use soma_c.Provider.Serve.{Request, handle}
use soma_c.Provider.Serve.Auth.{answer, called, finish-answer}
use soma_c.Dummy.{Heap}
use soma_c.Dummy.Registry.{
  Registry, Reply, total, code, registry, removal, addition, IsOwned, IsSendable, reply_of,
}
use soma_c.Dummy.Concurrent.{same_calls-IsOwned}
use soma_c.Dummy.Observe.{sum_body-Refines}
use soma_c.Dummy.Remove.{close_body-Removes, destroy_body-Removes}
use soma_c.Stub.{Target, Outcome, remote_call, absent, moves}
use soma_c.Client.{Client, CollectorHandle}
use soma_c.Client.Rpc.{compute_sum, sum_call}
use soma_c.Admin.Lifecycle.{Admin}
use soma_c.EndToEnd.{status}
use soma_c.EndToEnd.Link.{
  Link, delivered, sent, linked, exchange-some, IsTarget, fresh, fresh-IsOwned,
}
use soma_c.Admin

-- The number that a reply gives.
abbrev pub total_of : Reply → Option ℤ
total_of (total z) = some z
total_of _ = none

status-sum_out :
    (o : SumOut)
    → (o.ret ≡ status (reply_of (answer (sum_out o))))
      × ((if is_success o.ret then some o.result else none)
          ≡ total_of (reply_of (answer (sum_out o))))
status-sum_out o = ground arith

module _ {J T : Type 0} ⦃json : JsonC J⦄ ⦃h : UtHash (Heap J) T⦄ where
  -- What a call that removes a collector comes to: the handler got the request `r` and answered once,
  -- the call returned the code of the registry's removal, the registry became what is left, and the
  -- provider owns its contexts.
  abbrev pub IsRemoved :
      Outcome CloseCollectorIn (Unit {0}) × Server (Heap J) T
      → Request
      → Reply × Registry J
      → Server (Heap J) T
      → Type 0
  IsRemoved call r spec s =
      (o : CloseCollectorOut) × (handle r (fresh s) ≡ some (tt, call.1))
      × (call.1.calls ≡ answer (close_out o))
      × (code call.0.ret ≡ spec.0)
      × (registry call.1 ≡ spec.1)
      × IsOwned call.1

  -- soma_close_collector.
  close_collector-removal :
      (W : Type 0) ⦃m : Mercury W⦄ (link : Link) (admin : Admin) (address : Ptr) (pid : ℕ)
      (token : Option String) (id : CollectorId) (s : Server (Heap J) T)
      → let target : Target = record {
        mid = admin.mid;
        address = address;
        rpc_id = admin.close_collector_id;
      } in
        let input : CloseCollectorIn = record { token = token; id = id } in
        IsOwned s
        → IsTarget link target pid "soma_close_collector" s
        → IsSendable s.provider.token token
        → IsRemoved
            (Admin.close_collector (linked W link) admin address pid token id s)
            (Request.close_collector (record { input = some input; out = link.close_junk }))
            (removal s.provider.token (some input) (registry s))
            s
  unfolding handle close_collector_ult Admin.close_collector remote_call
  close_collector-removal W link admin address pid token id s v at ok =
      let target : Target = record {
        mid = admin.mid;
        address = address;
        rpc_id = admin.close_collector_id;
      } in
      let input : CloseCollectorIn = record { token = token; id = id } in
      let r = Request.close_collector (record { input = some input; out = link.close_junk }) in
      let (ret, t, e, ref) = close_body-Removes (some input) (fresh s) (fresh-IsOwned s v) ok in
      let o : CloseCollectorOut = record { ret = ret } in
      let u : Server (Heap J) T = called t (answer (close_out o)) in
      let ran : handle r (fresh s) ≡ some (tt, u) = ground (arith, finish-answer t (close_out o)) in
      let calls : u.calls ≡ answer (close_out o) = rw ref.calls refl in
      let asked : (linked W link).ask (close_collector_in_t, some close_collector_out_t) target pid
            input s
          ≡ (delivered (sent W link close_collector_out_t o), u) =
        rw
          (transmit-received W link.grants close_collector_in_t input
            (link.junk close_collector_in_t) tt)
          (exchange-some link target pid r _ s u at ran ∙ rw calls refl) in
      let back =
        transmit-received W link.grants close_collector_out_t o (link.junk close_collector_out_t)
          tt in
      (
        o,
        rw asked ran,
        rw asked calls,
        rw (asked, back) ref.reply,
        rw asked ref.view,
        rw asked (same_calls-IsOwned t u.calls ref.owned),
      )

  -- soma_destroy_collector.
  destroy_collector-removal :
      (W : Type 0) ⦃m : Mercury W⦄ (link : Link) (admin : Admin) (address : Ptr) (pid : ℕ)
      (token : Option String) (id : CollectorId) (s : Server (Heap J) T)
      → let target : Target = record {
        mid = admin.mid;
        address = address;
        rpc_id = admin.destroy_collector_id;
      } in
        let input : CloseCollectorIn = record { token = token; id = id } in
        IsOwned s
        → IsTarget link target pid "soma_destroy_collector" s
        → IsSendable s.provider.token token
        → IsRemoved
            (Admin.destroy_collector (linked W link) admin address pid token id s)
            (Request.destroy_collector (record { input = some input; out = link.close_junk }))
            (removal s.provider.token (some input) (registry s))
            s
  unfolding handle destroy_collector_ult Admin.destroy_collector remote_call
  destroy_collector-removal W link admin address pid token id s v at ok =
      let target : Target = record {
        mid = admin.mid;
        address = address;
        rpc_id = admin.destroy_collector_id;
      } in
      let input : CloseCollectorIn = record { token = token; id = id } in
      let r = Request.destroy_collector (record { input = some input; out = link.close_junk }) in
      let (ret, t, e, ref) = destroy_body-Removes (some input) (fresh s) (fresh-IsOwned s v) ok in
      let o : CloseCollectorOut = record { ret = ret } in
      let u : Server (Heap J) T = called t (answer (close_out o)) in
      let ran : handle r (fresh s) ≡ some (tt, u) = ground (arith, finish-answer t (close_out o)) in
      let calls : u.calls ≡ answer (close_out o) = rw ref.calls refl in
      let asked : (linked W link).ask (destroy_collector_in_t, some destroy_collector_out_t) target
            pid input s
          ≡ (delivered (sent W link destroy_collector_out_t o), u) =
        rw
          (transmit-received W link.grants destroy_collector_in_t input
            (link.junk destroy_collector_in_t) tt)
          (exchange-some link target pid r _ s u at ran ∙ rw calls refl) in
      let back =
        transmit-received W link.grants destroy_collector_out_t o
          (link.junk destroy_collector_out_t) tt in
      (
        o,
        rw asked ran,
        rw asked calls,
        rw (asked, back) ref.reply,
        rw asked ref.view,
        rw asked (same_calls-IsOwned t u.calls ref.owned),
      )

  -- soma_close_collector and soma_destroy_collector, to the address and the provider id of a provider
  -- that owns its contexts, by an administrator that knows the RPCs, with a token where the provider has
  -- one and their messages serialized: the handler of each gets the token and the id that the call was
  -- given, and answers once; both return the code of the registry's removal, the registry becomes what
  -- is left, and the provider owns its contexts again.
  pub remove_collector-removal :
      (W : Type 0) ⦃m : Mercury W⦄ (link : Link) (admin : Admin) (address : Ptr) (pid : ℕ)
      (token : Option String) (id : CollectorId) (s : Server (Heap J) T)
      → let close : Target = record {
        mid = admin.mid;
        address = address;
        rpc_id = admin.close_collector_id;
      } in
        let destroy : Target = record {
          mid = admin.mid;
          address = address;
          rpc_id = admin.destroy_collector_id;
        } in
        let input : CloseCollectorIn = record { token = token; id = id } in
        let spec = removal s.provider.token (some input) (registry s) in
        IsOwned s
        → IsTarget link close pid "soma_close_collector" s
        → IsTarget link destroy pid "soma_destroy_collector" s
        → IsSendable s.provider.token token
        → IsRemoved
            (Admin.close_collector (linked W link) admin address pid token id s)
            (Request.close_collector (record { input = some input; out = link.close_junk }))
            spec
            s
          × IsRemoved
              (Admin.destroy_collector (linked W link) admin address pid token id s)
              (Request.destroy_collector (record { input = some input; out = link.close_junk }))
              spec
              s
  remove_collector-removal W link admin address pid token id s v close destroy ok = (
    close_collector-removal W link admin address pid token id s v close ok,
    destroy_collector-removal W link admin address pid token id s v destroy ok,
  )

  -- soma_compute_sum of numbers whose sum fits an int32_t, its messages serialized, on a handle with the
  -- address and the provider id of a provider that owns its contexts, whose client knows the RPC: the
  -- handler gets the handle's collector and the two numbers, and answers once; the call uses its RPC handle as
  -- its state allows, returns the code of the registry's reply, writes the sum exactly if the collector
  -- is in the registry, and leaves the registry as it was.
  pub compute_sum-addition :
      (W : Type 0) ⦃m : Mercury W⦄ (link : Link) (client : Client) (rh : CollectorHandle) (x y : ℤ)
      (s : Server (Heap J) T)
      → let target : Target = record {
        mid = client.mid;
        address = rh.addr;
        rpc_id = client.sum_id;
      } in
        let input : SumIn = record { collector_id = rh.collector_id; x = x; y = y } in
        let r = Request.sum (record { input = some input; out = link.sum_junk }) in
        let spec = addition (some input) (registry s) in
        IsOwned s
        → IsTarget link target rh.provider_id "soma_sum" s
        → fits_int32 (x +ℤ y) ≡ true
        → (call : Outcome SumIn ℤ) × (t : Server (Heap J) T) × (o : SumOut) × (compute_sum
              (linked W link)
              client
              rh
              x
              y
              s
            ≡ (call, t))
          × (handle r (fresh s) ≡ some (tt, t))
          × (t.calls ≡ answer (sum_out o))
          × (moves absent call.calls ≡ absent)
          × (call.ret ≡ status spec)
          × (call.written ≡ total_of spec)
          × (registry t ≡ registry s)
  unfolding handle sum_ult compute_sum sum_call
  compute_sum-addition W link client rh x y s v at ok =
      let target : Target = record {
        mid = client.mid;
        address = rh.addr;
        rpc_id = client.sum_id;
      } in
      let input : SumIn = record { collector_id = rh.collector_id; x = x; y = y } in
      let r = Request.sum (record { input = some input; out = link.sum_junk }) in
      let (o, t, e, ref) =
        sum_body-Refines link.sum_junk (some input) (fresh s) (fresh-IsOwned s v) ok in
      let u : Server (Heap J) T = called t (answer (sum_out o)) in
      let ran : handle r (fresh s) ≡ some (tt, u) = ground (arith, finish-answer t (sum_out o)) in
      let calls : u.calls ≡ answer (sum_out o) = rw ref.calls refl in
      let asked : (linked W link).ask (sum_in_t, some sum_out_t) target rh.provider_id input s
          ≡ (delivered (sent W link sum_out_t o), u) =
        rw (transmit-received W link.grants sum_in_t input (link.junk sum_in_t) tt)
          (exchange-some link target rh.provider_id r _ s u at ran ∙ rw calls refl) in
      let read = status-sum_out o in
      let back = transmit-received W link.grants sum_out_t o (link.junk sum_out_t) tt in
      (
        sum_call (delivered (sent W link sum_out_t o)) target rh.provider_id input,
        u,
        o,
        rw asked refl,
        ran,
        calls,
        rw back refl,
        rw back (read.0 ∙ ap status ref.reply),
        rw back (read.1 ∙ ap total_of ref.reply),
        ref.view,
      )
