-- ===== src/EndToEnd/Listing.antt =====
-- soma_list_collectors of src/admin.c against a provider, with its messages serialized by the code of
-- src/types.h.
use soma_c.Prelude.{
  ℕ, zero, suc, ◌≤◌, ◌<◌, ◌≡◌, ◌≢◌, refl, ap, ◌∙◌, sym, String, Bool, true, Option, none, some,
  List, [], ◌∷◌, arith, take, length, length-take, length-map, subst,
}
use soma_c.Common.{success, CollectorId, Ptr, err_from_mercury, err_invalid_token}
use soma_c.Types.{ListCollectorsIn, ListCollectorsOut}
use soma_c.Types.Layouts.{list_collectors_in_t, list_collectors_out_t}
use soma_c.Types.Serialize.{hg_proc}
use soma_c.Types.Transmit.{
  writing, reading, null_travels, transmit-received, transmit_array, transmit_null,
}
use soma_c.Foreign.Mercury.{Mercury, coded, failed}
use soma_c.Foreign.JsonC.{JsonC}
use soma_c.Foreign.UtHash.{UtHash}
use soma_c.Provider.State.{Collector}
use soma_c.Provider.Server.{Server, list_out}
use soma_c.Provider.Collectors.Items.{collectors_of}
use soma_c.Provider.Handlers.{uint_mod, list_collectors_ult}
use soma_c.Provider.Serve.{Request, handle}
use soma_c.Provider.Serve.Auth.{answer, called, finish-answer, handle-wrong_token}
use soma_c.Provider.Serve.Listing.{id_list, list_body-id_list}
use soma_c.Dummy.{Heap}
use soma_c.Dummy.Registry.{registry, IsOwned, IsSendable, accepts, keys}
use soma_c.Dummy.Create.{check_token-accepts}
use soma_c.Dummy.Entries.{keys-entries}
use soma_c.Stub.{Target, Outcome, remote_call}
use soma_c.Admin.Lifecycle.{Admin}
use soma_c.EndToEnd.Link.{Link, delivered, sent, linked, exchange-some, IsTarget, fresh}
use soma_c.Admin

take_twice : {A : Type 0} (n : ℕ) (xs : List A) → take n (take n xs) ≡ take n xs
take_twice zero xs = refl
take_twice (suc n) [] = refl
take_twice (suc n) (x ∷ xs) = ap (λ l. x ∷ l) (take_twice n xs)

-- What the call does with an answer that holds enough ids and no more than there is room for.
list_call-copies :
    (target : Target) (pid : ℕ) (o : ListCollectorsOut) (ids : List CollectorId) (room : ℕ)
    (input : ListCollectorsIn)
    → o.ret ≡ success
    → o.count ≤ room
    → o.count ≤ length ids
    → (outcome : Outcome ListCollectorsIn (ℕ × List CollectorId)) × (Admin.list_call
          (delivered (some (record o { ids = some (take o.count ids) })))
          target
          pid
          room
          input
        ≡ some outcome)
      × (outcome.ret ≡ success)
      × (outcome.written ≡ some (o.count, take o.count ids))
unfolding Admin.list_call remote_call
list_call-copies target pid o ids room input good fits enough =
    let received : ListCollectorsOut = record o { ids = some (take o.count ids) } in
    (
      remote_call (delivered (some received)) target pid input
          (λ out. (o.ret, some (o.count, take o.count ids))),
      ground (arith, length-take o.count ids, take_twice o.count ids),
      good,
      refl,
    )

module _ {J T : Type 0} ⦃json : JsonC J⦄ ⦃h : UtHash (Heap J) T⦄ where
  -- soma_list_collectors, its messages serialized, to the address and the provider id of a provider that
  -- owns its contexts, has fewer than 2^32 collectors, accepts the token and has memory, by an
  -- administrator that knows the RPC, with memory for `room` ids at the caller's end: the handler gets
  -- the token and `room`, and answers once, and nothing else of the server changes; the call succeeds
  -- and copies the first `room` ids of the registry, oldest first, with their number.
  pub list_collectors-registry :
      (W : Type 0) ⦃m : Mercury W⦄ (link : Link) (admin : Admin) (address : Ptr) (pid : ℕ)
      (token : Option String) (room : ℕ) (s : Server (Heap J) T)
      → let target : Target = record {
        mid = admin.mid;
        address = address;
        rpc_id = admin.list_collectors_id;
      } in
        let input : ListCollectorsIn = record { token = token; max_ids = room } in
        let r =
          Request.list_collectors true (record { input = some input; out = link.list_junk }) in
        IsOwned s
        → IsTarget link target pid "soma_list_collectors" s
        → link.calloc_ok ≡ true
        → length (collectors_of s.provider) < uint_mod
        → IsSendable s.provider.token token
        → accepts s.provider.token token ≡ true
        → ((n : ℕ) → n ≤ room → link.grants n ≡ true)
        → (o : ListCollectorsOut) × (outcome : Outcome ListCollectorsIn (ℕ × List CollectorId))
          × (Admin.list_collectors (linked W link) admin address pid token room s
              ≡ some (outcome, called (fresh s) (answer (list_out o))))
          × (handle r (fresh s) ≡ some (tt, called (fresh s) (answer (list_out o))))
          × (outcome.ret ≡ success)
          × (outcome.written
              ≡ some (length (take room (keys (registry s))), take room (keys (registry s))))
  unfolding handle list_collectors_ult Admin.list_collectors
  list_collectors-registry W link admin address pid token room s v at calloc small sendable accepted
        memory =
      let ids = id_list (collectors_of s.provider) in
      let target : Target = record {
        mid = admin.mid;
        address = address;
        rpc_id = admin.list_collectors_id;
      } in
      let input : ListCollectorsIn = record { token = token; max_ids = room } in
      let request : Bool → Request =
        λ b. Request.list_collectors b (record { input = some input; out = link.list_junk }) in
      let checked = check_token-accepts s.provider token sendable ∙ ap some accepted in
      let (o, e, good, held, fits, enough, same) =
        list_body-id_list link.list_junk input (fresh s) v.well_formed small checked in
      let u : Server (Heap J) T = called (fresh s) (answer (list_out o)) in
      let enough' : o.count ≤ length ids =
        rw (length-map {0, 0} (λ (c : Collector (Heap J)). c.id) (collectors_of s.provider))
          enough in
      let ran : handle (request true) (fresh s) ≡ some (tt, u) =
        ground (arith, finish-answer (fresh s) (list_out o)) in
      let ran_with : handle (request link.calloc_ok) (fresh s) ≡ some (tt, u) =
        subst (λ b. handle (request b) (fresh s) ≡ some (tt, u)) (sym calloc) ran in
      let asked : (linked W link).ask (list_collectors_in_t, some list_collectors_out_t) target pid
            input s
          ≡ (delivered (sent W link list_collectors_out_t o), u) =
        rw
          (transmit-received W link.grants list_collectors_in_t input
            (link.junk list_collectors_in_t) tt)
          (exchange-some link target pid (request link.calloc_ok) _ s u at ran_with) in
      let read : sent W link list_collectors_out_t o
          ≡ some (record o { ids = some (take o.count ids) }) =
        transmit_array W link.grants o (link.junk list_collectors_out_t) ids held enough'
          (memory o.count fits) in
      let (outcome, did, ret, written) =
        list_call-copies target pid o ids room input good fits enough' in
      let view : take o.count ids ≡ take room (keys (registry s)) =
        same ∙ ap (take room) (sym (keys-entries (collectors_of s.provider) s.world.live v.owns)) in
      (
        o,
        outcome,
        rw (asked, read, did) refl,
        ran,
        ret,
        written ∙ ground (arith, length-take o.count ids),
      )

module _ {W' T : Type 0} ⦃h : UtHash W' T⦄ where
  -- A caller of soma_list_collectors whose request reaches the provider, with a wrong token, does not
  -- learn so: where the `count` that the handler leaves uninitialised is not 0, and small enough for calloc, its answer cannot be read
  -- back, and the call returns SOMA_ERR_FROM_MERCURY in place of the SOMA_ERR_INVALID_TOKEN that was
  -- sent; the array that was allocated for the ids is left when the reading of the answer fails.
  pub list_collectors-refused :
      (W : Type 0) ⦃m : Mercury W⦄ (link : Link) (admin : Admin) (address : Ptr) (pid : ℕ)
      (secret token : String) (room : ℕ) (s : Server W' T)
      → let target : Target = record {
        mid = admin.mid;
        address = address;
        rpc_id = admin.list_collectors_id;
      } in
        let out = link.list_junk in
        let junk = link.junk list_collectors_out_t in
        let sent : ListCollectorsOut = record out { ret = err_invalid_token; ids = none } in
        let input : ListCollectorsIn = record { token = some token; max_ids = room } in
        let r = Request.list_collectors link.calloc_ok (record { input = some input; out = out }) in
        IsTarget link target pid "soma_list_collectors" s
        → s.provider.token ≡ some secret
        → token ≢ secret
        → 0 < out.count
        → link.grants out.count ≡ true
        → (outcome : Outcome ListCollectorsIn (ℕ × List CollectorId)) × (Admin.list_collectors
              (linked W link)
              admin
              address
              pid
              (some token)
              room
              s
            ≡ some (outcome, called (fresh s) (answer (list_out sent))))
          × (handle r (fresh s) ≡ some (tt, called (fresh s) (answer (list_out sent))))
          × (outcome.ret ≡ err_from_mercury)
          × (outcome.written ≡ none)
          × ((units : List W) × (hg_proc link.grants list_collectors_out_t sent writing
                ≡ coded sent (record writing { units = units }))
              × (hg_proc link.grants list_collectors_out_t junk (reading units)
                  ≡ failed (record (reading []) { blocks = 1 })))
  unfolding Admin.list_collectors Admin.list_call remote_call
  list_collectors-refused W link admin address pid secret token room s at e ne more memory =
      let out = link.list_junk in
      let junk = link.junk list_collectors_out_t in
      let sent : ListCollectorsOut = record out { ret = err_invalid_token; ids = none } in
      let target : Target = record {
        mid = admin.mid;
        address = address;
        rpc_id = admin.list_collectors_id;
      } in
      let input : ListCollectorsIn = record { token = some token; max_ids = room } in
      let r : Request =
        Request.list_collectors link.calloc_ok (record { input = some input; out = out }) in
      let u : Server W' T = called (fresh s) (answer (list_out sent)) in
      let ran : handle r (fresh s) ≡ some (tt, u) =
        handle-wrong_token (fresh s) r secret token e refl ne in
      let asked : (linked W link).ask (list_collectors_in_t, some list_collectors_out_t) target pid
            input s
          ≡ (delivered none, u) =
        rw
          (transmit-received W link.grants list_collectors_in_t input
            (link.junk list_collectors_in_t) tt)
          (exchange-some link target pid r _ s u at ran
            ∙ rw (transmit_null W link.grants sent junk refl more memory) refl) in
      (
        remote_call (delivered none) target pid input (λ (o : ListCollectorsOut). (o.ret, none)),
        rw asked refl,
        ran,
        refl,
        refl,
        null_travels W link.grants sent junk refl more memory,
      )
