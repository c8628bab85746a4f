-- ===== src/Client/Session.antt =====
-- A session of a client of src/client.c: it is initialized, makes a handle, shares it, releases every
-- reference, and is finalized.
use soma_c.Prelude.{
  ℕ, suc, ◌+◌, ◌-◌, ◌∙◌, ◌<◌, ◌^◌, ◌≡◌, ◌≢◌, refl, true, false, none, some, ◌∷◌, arith,
}
use soma_c.Prelude.State.{◌>>◌}
use soma_c.Common.{success, CollectorId, Ptr}
use soma_c.Foreign.Names.{Names}
use soma_c.Client.{
  Client, CollectorHandle, Store, find_handle, set_client, handle_create, handle_release, incr64,
  decr64,
}
use soma_c.Client.HandleList.{IsKeyedHandles}
use soma_c.Client.Release.{ref_incr_times, release_times, release_last}
use soma_c.Client.Lifecycle.{client_init, clear_client, client_finalize, new_client}

abbrev cleared : Store → Ptr → Store
cleared s client = record s { clients = clear_client s.clients client }

client_finalize-last :
    (client : Ptr) (c : Client) (s : Store)
    → c.num_collector_handles ≡ 0
    → s.clients client
      ≡ some (record c { num_collector_handles = decr64 (incr64 c.num_collector_handles) })
    → client_finalize client s ≡ some ((success, false), cleared s client)
unfolding client_finalize
client_finalize-last client c s z e = ground arith

suc_sub : (n : ℕ) → suc n - 1 ≡ n
suc_sub n = omega arith

module _ {I : Type 0} ⦃names : Names I⦄ where
  num-new_client : (mid : Ptr) (i : I) → (new_client mid i).0.num_collector_handles ≡ 0
  unfolding new_client
  num-new_client mid i = ground arith

  -- A session with memory: the client and its handle are made, n references are added, without an
  -- overflow, all n + 1 are released, and the client is finalized. No call faults, each returns
  -- SOMA_SUCCESS, the handle is gone, no address is held that was not before, and no warning is printed.
  pub client_finalize-client_init :
      (n : ℕ) (mid addr copy : Ptr) (pid : ℕ) (id : CollectorId) (i : I) (s : Store)
      → s.next ≢ 0
      → IsKeyedHandles s.handles
      → find_handle (suc s.next) s.handles ≡ none
      → 1 + n < 2 ^ 64
      → let handle = suc s.next in
        (j : I) × (s1 s2 s3 s4 : Store) × (client_init mid true i s
          ≡ ((success, some s.next), j, s1))
        × (handle_create s.next addr pid id true (some copy) s1 ≡ some ((success, some handle), s2))
        × ((ref_incr_times n handle >> (release_times n handle >> handle_release handle)) s2
            ≡ some (success, s3))
        × (client_finalize s.next s3 ≡ some ((success, false), s4))
        × (find_handle handle s4.handles ≡ none)
        × (s4.addrs ≡ s.addrs)
  unfolding client_init handle_create
  client_finalize-client_init n mid addr copy pid id i s there keyed new small =
      let c : Client = (new_client mid i).0 in
      let counted : Client = record c { num_collector_handles = incr64 c.num_collector_handles } in
      let rh : CollectorHandle = record {
        client = s.next;
        addr = copy;
        provider_id = pid;
        refcount = 1;
        collector_id = id;
      } in
      let s1 : Store = record s { next = suc s.next; clients = set_client s.clients s.next c } in
      let s2 : Store = record {
        next = suc (suc s.next);
        clients = set_client (set_client s.clients s.next c) s.next counted;
        handles = (suc s.next, rh) ∷ s.handles;
        addrs = suc s.addrs;
      } in
      let (s3, _, ran, (gone, left, held, _)) =
        release_last n (suc s.next) rh counted s2 (ground arith) (ground arith) (new, keyed)
          (ground arith) refl small in
      (
        (new_client mid i).1,
        s1,
        s2,
        s3,
        cleared s3 s.next,
        refl,
        ground arith,
        ran,
        client_finalize-last s.next c s3 (num-new_client mid i) left,
        gone,
        held ∙ suc_sub s.addrs,
      )
