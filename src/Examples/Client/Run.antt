-- ===== src/Examples/Client/Run.antt =====
-- src/examples/client.c against a provider with the dummy backend.
use soma_c.Prelude.{
  ℕ, suc, ◌≡◌, ◌≢◌, refl, ap, sym, subst, String, true, false, none, some, [], ◌∷◌, ◌++◌, arith,
  if◌then◌else◌, Bool-cases, inl, inr,
}
use soma_c.Prelude.Int.{pos, negsuc, ◌+ℤ◌}
use soma_c.Common.{success, Ptr, CollectorId}
use soma_c.Common.IdText.{collector_id_from_string-some}
use soma_c.Foreign.Names.{Names}
use soma_c.Foreign.JsonC.{JsonC}
use soma_c.Foreign.Mercury.{Mercury}
use soma_c.Foreign.UtHash.{UtHash}
use soma_c.Provider.Server.{Server}
use soma_c.Dummy.{Heap}
use soma_c.Dummy.Registry.{Registry, has_key}
use soma_c.Client.{
  Client, CollectorHandle, Store, find_handle, handle_create, handle_release, incr64,
}
use soma_c.Client.HandleList.{IsKeyedHandles}
use soma_c.Client.Lifecycle.{new_client, client_init, client_finalize}
use soma_c.Client.Session.{client_finalize-client_init}
use soma_c.Client.Release.{ref_incr_times, release_times}
use soma_c.Examples.Process.{Process, sum_is, done, exited, uint16, ◌>>=◌, on_store, on_remote}
use soma_c.EndToEnd.Link.{Link, linked}
use soma_c.Examples.Serving.{IsServing, IsNaming}
use soma_c.Examples.Requests.{hello-reaches, sum-adds}
use soma_c.Examples.Client.{Libraries, IsAtHand, deref, client_run, client_main}

module _ {I : Type 0} ⦃names : Names I⦄ where
  -- A new client has the ids that Margo gives the names.
  new_client-ids :
      (link : Link) (mid : Ptr) (i : I)
      → IsNaming link mid "soma_sum" i
      → let c = (new_client mid i).0 in
        (c.hello_id ≡ link.id_of c.mid "soma_hello") × (c.sum_id ≡ link.id_of c.mid "soma_sum")
  unfolding new_client
  new_client-ids link mid i v = rw (new_client, v.missing) (v.registers _ _ _, v.registers _ _ _)

  -- The client of a session with one handle.
  abbrev pub with_handle : Ptr → I → Client
  with_handle mid i =
      let c = (new_client mid i).0 in
      record c { num_collector_handles = incr64 c.num_collector_handles }

  -- The handle of the session, its release, and the end of its client.
  pub session :
      (mid addr copy : Ptr) (pid : ℕ) (id : CollectorId) (i : I) (s : Store)
      → s.next ≢ 0
      → IsKeyedHandles s.handles
      → find_handle (suc s.next) s.handles ≡ none
      → (s2 s3 s4 : Store) × (handle_create s.next addr pid id true
            (some copy)
            (client_init mid true i s).2
          ≡ some ((success, some (suc s.next)), s2))
        × (find_handle (suc s.next) s2.handles
            ≡ some (record {
              client = s.next;
              addr = copy;
              provider_id = pid;
              refcount = 1;
              collector_id = id;
            }))
        × (s2.clients s.next ≡ some (with_handle mid i))
        × (s2.addrs ≡ suc s.addrs)
        × (handle_release (suc s.next) s2 ≡ some (success, s3))
        × (client_finalize s.next s3 ≡ some ((success, false), s4))
        × (s4.addrs ≡ s.addrs)
  unfolding client_init handle_create ref_incr_times release_times
  session mid addr copy pid id i s there keyed new =
      let (j, s1, s2, s3, s4, inited, made, released, ended, _, balanced) =
        client_finalize-client_init 0 mid addr copy pid id i s there keyed new (omega arith) in
      let same : (client_init mid true i s).2 ≡ s1 = ap (λ x. x.2) inited in
      let made' : handle_create s.next addr pid id true (some copy) (client_init mid true i s).2
          ≡ some ((success, some (suc s.next)), s2) =
        subst
          (λ t.
            handle_create s.next addr pid id true (some copy) t
            ≡ some ((success, some (suc s.next)), s2))
          (sym same) made in
      (s2, s3, s4, made', ground arith, ground arith, ground arith, released, ended, balanced)

module _ {J T I : Type 0} ⦃json : JsonC J⦄ ⦃h : UtHash (Heap J) T⦄ ⦃names : Names I⦄ where
  -- The example client, where Margo and memory are at hand, with the address and the provider id of a
  -- provider without a token that owns its contexts, and the text of an identifier, on an instance where
  -- Margo gives names the ids that the provider has them by and none is registered yet: if the collector is
  -- in the registry, the client prints 68 and returns 0, and holds no more addresses than before; if
  -- not, it exits with -1 and prints no sum. The registry stays as it was.
  pub client_main-sums :
      (W : Type 0) ⦃m : Mercury W⦄ (libs : Libraries) (link : Link) (mid addr copy : Ptr)
      (name address id text : String) (cid : CollectorId) (reg : Registry J)
      (p : Process I (Server (Heap J) T))
      → IsAtHand libs address text mid addr copy
      → libs.uuid.parse text ≡ some cid
      → link.is_address copy ≡ true
      → IsNaming link mid "soma_sum" p.names
      → IsServing p.remote (uint16 (libs.atoi id)) reg
      → p.store.next ≢ 0
      → IsKeyedHandles p.store.handles
      → find_handle (suc p.store.next) p.store.handles ≡ none
      → (q : Process I (Server (Heap J) T)) × (client_main libs
            (linked W link)
            (name ∷ address ∷ id ∷ text ∷ [])
            p
          ≡ some (if has_key cid reg then done (pos 0) else exited (negsuc 0), q))
        × (q.log ≡ (if has_key cid reg then p.log ++ sum_is (pos 68) ∷ [] else p.log))
        × (q.store.addrs ≡ (if has_key cid reg then p.store.addrs else suc p.store.addrs))
        × IsServing q.remote (uint16 (libs.atoi id)) reg
  unfolding client_main client_run client_init ◌+ℤ◌
  client_main-sums W libs link mid addr copy name address id text cid reg p w parsed here naming v
        there keyed new =
      let pid = uint16 (libs.atoi id) in
      let written_id = collector_id_from_string-some libs.uuid text libs.junk cid parsed in
      let (s2, s3, s4, made, found, owner, held, released, ended, balanced) =
        session mid addr copy pid cid p.names p.store there keyed new in
      let rh : CollectorHandle = record {
        client = p.store.next;
        addr = copy;
        provider_id = pid;
        refcount = 1;
        collector_id = cid;
      } in
      let c = with_handle mid p.names in
      let (hello_id, sum_id) = new_client-ids link mid p.names naming in
      let (call, t, hello, _, moved1, good1, v1) =
        hello-reaches W link c rh p.remote reg v here hello_id in
      let (sum, u, summed, moved2, ret, written, v2) =
        sum-adds W link c rh (pos 45) (pos 23) t reg v1 here sum_id refl in
      let n = (client_init mid true p.names p.store).1 in
      elim (Bool-cases (has_key cid reg)) [
        | inl has ↦
            let good = rw has at ret in
            let total = rw has at written in
            let q = record p {
              names = n;
              store = s4;
              remote = u;
              log = p.log ++ sum_is (pos 68) ∷ [];
            } in
            let ran : client_main libs (linked W link) (name ∷ address ∷ id ∷ text ∷ []) p
                ≡ some (done (pos 0), q) =
              rw
                (w.long, w.inited, w.looked, w.client_calloc, written_id, w.handle_calloc, w.copied)
                (rw (made, ◌>>=◌, on_store)
                  (rw (found, owner, ◌>>=◌, deref)
                    (rw (hello, ◌>>=◌, on_remote)
                      (rw (moved1, good1, ◌>>=◌)
                        (rw (summed, ◌>>=◌, on_remote)
                          (rw (moved2, good, total)
                            (rw (released, ◌>>=◌, on_store)
                              (rw (ended, ◌>>=◌, on_store) (rw w.freed refl))))))))) in
            (q, rw has ran, rw has refl, rw has balanced, v2)
        | inr missing ↦
            let bad = rw missing at ret in
            let q = record p { names = n; store = s2; remote = u } in
            let ran : client_main libs (linked W link) (name ∷ address ∷ id ∷ text ∷ []) p
                ≡ some (exited (negsuc 0), q) =
              rw
                (w.long, w.inited, w.looked, w.client_calloc, written_id, w.handle_calloc, w.copied)
                (rw (made, ◌>>=◌, on_store)
                  (rw (found, owner, ◌>>=◌, deref)
                    (rw (hello, ◌>>=◌, on_remote)
                      (rw (moved1, good1, ◌>>=◌)
                        (rw (summed, ◌>>=◌, on_remote) (rw (moved2, bad) refl)))))) in
            (q, rw missing ran, rw missing refl, rw missing held, v2)
      ]
