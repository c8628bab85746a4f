-- ===== src/Dummy/Observe.antt =====
-- The list, the sum and the hello of a provider with the dummy backend, against the registry.
use soma_c.Prelude.{
  ◌≡◌, refl, ap, ◌∙◌, sym, Bool, Option, none, some, [], ◌∷◌, ◌++◌, arith, Bool-cases, Option-cases,
  inl, inr,
}
use soma_c.Prelude.Int.{◌+ℤ◌}
use soma_c.Common.{success, err_invalid_token, err_invalid_collector, err_from_mercury}
use soma_c.Types.{ListCollectorsIn, ListCollectorsOut, HelloIn, SumIn, SumOut}
use soma_c.Foreign.JsonC.{JsonC}
use soma_c.Foreign.UtHash.{UtHash}
use soma_c.Provider.Server.{Server, list_out, sum_out}
use soma_c.Provider.Collectors.{find_collector}
use soma_c.Provider.Collectors.Items.{collectors_of, find_collector-find_id}
use soma_c.Provider.Handlers.{list_body, hello_body, sum_body}
use soma_c.Provider.Serve.{list_collectors, sum}
use soma_c.Provider.Serve.Auth.{answer}
use soma_c.Provider.Serve.Listing.{list_body-id_list}
use soma_c.Dummy.{Heap, dummy_backend, dummy_say_hello, dummy_compute_sum}
use soma_c.Dummy.Owned.{Owns-find}
use soma_c.Dummy.Registry.{
  silent, listed, reply_of, accepts, listing, addition, registry, IsOwned, IsServable,
}
use soma_c.Dummy.Entries.{keys-entries}
use soma_c.Dummy.Create.{Refines, check_token-accepts, unchanged, unchanged_as}
use soma_c.Dummy.Remove.{has_key-registry}

module _ {J T : Type 0} ⦃json : JsonC J⦄ ⦃h : UtHash (Heap J) T⦄ where
  pub list_body-Refines :
      (calloc_ok : Bool) (out : ListCollectorsOut) (input : Option ListCollectorsIn)
      (s : Server (Heap J) T)
      → IsOwned s
      → IsServable s (list_collectors calloc_ok (record { input = input; out = out }))
      → (o : ListCollectorsOut) × (t : Server (Heap J) T) × (list_body calloc_ok out input s
          ≡ some (o, t))
        × Refines s t
            (reply_of (answer (list_out o)))
            (listing s.provider.token input (registry s), registry s)
  list_body-Refines calloc_ok out none s v ok = (
    record out { ret = err_from_mercury; ids = none },
    s,
    unfold list_body in refl,
    unchanged s _ v,
  )
  list_body-Refines calloc_ok out (some i) s v (ok, room, small) =
      let checked = check_token-accepts s.provider i.token ok in
      elim (Bool-cases (accepts s.provider.token i.token)) [
        | inr denied ↦ rw denied (
          record out { ret = err_invalid_token; ids = none },
          s,
          unfold list_body in ground arith,
          unchanged s _ v,
        )
        | inl allowed ↦
            let (o, e, ret, ids, _, _, taken) =
              list_body-id_list out i s v.well_formed small (ground arith) in
            let all = keys-entries (collectors_of s.provider) s.world.live v.owns in
            rw (allowed, room) (o, s, e, unchanged_as s (rw (ret, ids, all) (ap listed taken)) v)
      ]

  pub sum_body-Refines :
      (out : SumOut) (input : Option SumIn) (s : Server (Heap J) T)
      → IsOwned s
      → IsServable s (sum (record { input = input; out = out }))
      → (o : SumOut) × (t : Server (Heap J) T) × (sum_body out input s ≡ some (o, t))
        × Refines s t (reply_of (answer (sum_out o))) (addition input (registry s), registry s)
  unfolding sum_body dummy_backend dummy_compute_sum
  sum_body-Refines out none s v ok =
      (record out { ret = err_from_mercury }, s, refl, unchanged s _ v)
  sum_body-Refines out (some i) s v ok =
      let has = has_key-registry s i.collector_id v in
      elim (Option-cases (find_collector s.provider i.collector_id)) [
        | inl missing ↦
            rw (has, missing)
              (record out { ret = err_invalid_collector }, s, ground arith, unchanged s _ v)
        | inr (c, found) ↦
            let (fn, _, _) =
              Owns-find 1 s.world.next (collectors_of s.provider) s.world.live i.collector_id c
                v.owns v.ascending
                (sym (find_collector-find_id s.provider i.collector_id) ∙ found) in
            rw (has, found)
              (
                record { result = i.x +ℤ i.y; ret = success },
                s,
                ground (arith, ap (λ f. f.sum c.ctx i.x i.y s.world) fn),
                unchanged s _ v,
              )
      ]

  pub hello_body-Refines :
      (input : Option HelloIn) (s : Server (Heap J) T)
      → IsOwned s
      → (t : Server (Heap J) T) × (hello_body input s ≡ some (tt, t))
        × Refines s t silent (silent, registry s)
  unfolding hello_body dummy_backend dummy_say_hello
  hello_body-Refines none s v = (s, refl, unchanged s _ v)
  hello_body-Refines (some i) s v = elim (Option-cases (find_collector s.provider i.collector_id)) [
    | inl missing ↦ (s, ground arith, unchanged s _ v)
    | inr (c, found) ↦
        let (fn, _, _) =
          Owns-find 1 s.world.next (collectors_of s.provider) s.world.live i.collector_id c v.owns
            v.ascending (sym (find_collector-find_id s.provider i.collector_id) ∙ found) in
        let printed : Heap J = record s.world {
          stdout = s.world.stdout ++ "Hello World from Dummy collector\n" ∷ [];
        } in
        (
          record s { world = printed },
          ground (arith, ap (λ f. f.hello c.ctx s.world) fn),
          record {
            calls = refl;
            token = refl;
            reply = refl;
            view = refl;
            owned = record {
              well_formed = v.well_formed;
              backend = v.backend;
              owns = v.owns;
              ascending = v.ascending;
            };
          },
        )
  ]
