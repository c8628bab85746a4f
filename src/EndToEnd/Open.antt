-- ===== src/EndToEnd/Open.antt =====
-- soma_open_collector of src/admin.c against a provider with the dummy backend.
use soma_c.EndToEnd.{status, made_id, status-reply_of}
use soma_c.EndToEnd.Link.{
  Link, delivered, sent, linked, exchange-some, IsTarget, fresh, fresh-IsOwned,
}
use soma_c.Prelude.{ℕ, ◌≡◌, refl, ap, ◌∙◌, String, Option, some, arith}
use soma_c.Common.{Ptr, CollectorId}
use soma_c.Types.{CreateCollectorIn, CreateCollectorOut}
use soma_c.Types.Layouts.{open_collector_in_t, open_collector_out_t}
use soma_c.Types.Transmit.{transmit-received}
use soma_c.Foreign.JsonC.{JsonC}
use soma_c.Foreign.Mercury.{Mercury}
use soma_c.Foreign.UtHash.{UtHash}
use soma_c.Provider.Server.{Server, create_out}
use soma_c.Provider.Handlers.{open_collector_ult}
use soma_c.Provider.Serve.{Request, handle}
use soma_c.Provider.Serve.Auth.{answer, called, finish-answer}
use soma_c.Dummy.{Heap}
use soma_c.Dummy.Registry.{registry, IsOwned, IsServable, respond_to}
use soma_c.Dummy.Serve.{opened}
use soma_c.Dummy.Create.{make_collector-Creates}
use soma_c.Stub.{Target, Outcome, remote_call}
use soma_c.Admin.Lifecycle.{Admin}
use soma_c.Admin

module _ {J T : Type 0} ⦃json : JsonC J⦄ ⦃h : UtHash (Heap J) T⦄ where
  -- soma_open_collector, to the address and the provider id of a provider that owns its contexts, by an
  -- administrator that knows the RPC, its request servable and its messages serialized: the handler
  -- gets the token, the type and the configuration that the call was given, and answers once; this
  -- leaves the registry's next state, and the call returns the code of the registry's reply, and writes
  -- an id exactly if the registry entered one, that id.
  pub open_collector-registry :
      (W : Type 0) ⦃m : Mercury W⦄ (link : Link) (admin : Admin) (address : Ptr) (pid : ℕ)
      (token type config : Option String) (s : Server (Heap J) T)
      → let target : Target = record {
        mid = admin.mid;
        address = address;
        rpc_id = admin.open_collector_id;
      } in
        let input : CreateCollectorIn = record { type = type; config = config; token = token } in
        let r =
          Request.open_collector link.supply
            (record { input = some input; out = link.create_junk }) in
        let spec = respond_to s.provider.token r (registry s) in
        IsOwned s
        → IsTarget link target pid "soma_open_collector" s
        → IsServable s r
        → (call : Outcome CreateCollectorIn CollectorId) × (t : Server (Heap J) T)
          × (o : CreateCollectorOut) × (Admin.open_collector
                (linked W link)
                admin
                address
                pid
                token
                type
                config
                s
              ≡ (call, t))
          × (handle r (fresh s) ≡ some (tt, t))
          × (t.calls ≡ answer (create_out o))
          × (registry t ≡ spec.1)
          × (call.ret ≡ status spec.0)
          × (call.written ≡ made_id spec.0)
  unfolding handle open_collector_ult Admin.open_collector remote_call
  open_collector-registry W link admin address pid token type config s v at ok =
      let input : CreateCollectorIn = record { type = type; config = config; token = token } in
      let target : Target = record {
        mid = admin.mid;
        address = address;
        rpc_id = admin.open_collector_id;
      } in
      let r : Request =
        Request.open_collector link.supply
          (record { input = some input; out = link.create_junk }) in
      let (o, t, e, ref) =
        make_collector-Creates (λ b. b.open_collector) opened link.supply link.create_junk
          (some input) (fresh s) (fresh-IsOwned s v) ok in
      let u : Server (Heap J) T = called t (answer (create_out o)) in
      let ran : handle r (fresh s) ≡ some (tt, u) =
        ground (arith, finish-answer t (create_out o)) in
      let calls : u.calls ≡ answer (create_out o) = rw ref.calls refl in
      let asked : (linked W link).ask (open_collector_in_t, some open_collector_out_t) target pid
            input s
          ≡ (delivered (sent W link open_collector_out_t o), u) =
        rw
          (transmit-received W link.grants open_collector_in_t input (link.junk open_collector_in_t)
            tt)
          (exchange-some link target pid r _ s u at ran ∙ rw calls refl) in
      let read = status-reply_of o in
      let back =
        transmit-received W link.grants open_collector_out_t o (link.junk open_collector_out_t)
          tt in
      (
        remote_call (delivered (sent W link open_collector_out_t o)) target pid input Admin.read_id,
        u,
        o,
        rw asked refl,
        ran,
        calls,
        ref.view,
        rw back (read.0 ∙ ap status ref.reply),
        rw back (read.1 ∙ ap made_id ref.reply),
      )
