-- ===== src/Tests/Handles.antt =====
-- Runs of a client on its handles.
use soma_c.Prelude.{◌≡◌, refl, true, false, none, some, [], ◌∷◌, arith, ◌==◌, if◌then◌else◌}
use soma_c.Prelude.Int.{pos}
use soma_c.Prelude.State.{◌>>◌}
use soma_c.Common.{success}
use soma_c.Stub.{Remote, absent, misused, moves}
use soma_c.Client.{
  handle_create, find_handle, Client, CollectorHandle, Store, HandleOp, step, handle_release,
  handle_ref_incr,
}
use soma_c.Client.Counting.{IsCounting, step-IsCounting}
use soma_c.Client.Release.{ref_incr_times, release_times, IsFreed, release_last}
use soma_c.Client.Lifecycle.{client_init, client_finalize, client_finalize-early}
use soma_c.Client.Session.{client_finalize-client_init}
use soma_c.Client.Rpc.{say_hello, compute_sum, client-moves}
use soma_c.Tests.Instances.{NameTable, table_names, no_names}

abbrev client : Client
client = record { mid = 5; hello_id = 6; sum_id = 7; num_collector_handles = 1 }

abbrev handle : CollectorHandle
handle = record { client = 1; addr = 3; provider_id = 42; refcount = 1; collector_id = 9 }

-- One client at 1, and its handle at 2.
abbrev store : Store
store = record {
  next = 4;
  clients = λ p. if p == 1 then some client else none;
  handles = (2, handle) ∷ [];
  addrs = 1;
}

store-IsCounting : IsCounting store
store-IsCounting = record {
  counted = λ p c at. ground arith;
  referenced = (omega arith, tt);
  addresses = refl;
}

-- The store with another reference of the handle.
abbrev raised : Store
raised = record store { handles = (2, record handle { refcount = 2 }) ∷ [] }

step-raised : step (HandleOp.ref_incr 2) store ≡ some raised
unfolding step handle_ref_incr
step-raised = refl

step-IsCounting_example : IsCounting raised
step-IsCounting_example =
    step-IsCounting (HandleOp.ref_incr 2) store raised step-raised (omega arith) store-IsCounting

release_last_example :
    (t : Store) × ((ref_incr_times 3 2 >> release_times 3 2) store ≡ some (tt, store))
    × ((ref_incr_times 3 2 >> (release_times 3 2 >> handle_release 2)) store ≡ some (success, t))
    × IsFreed 2 1 client store t
release_last_example =
    release_last 3 2 handle client store (ground arith) refl (refl, tt) refl refl (omega arith)

-- A store with a client at 1 that has no handle.
abbrev idle : Store
idle = record {
  next = 2;
  clients = λ p. if p == 1 then some (record client { num_collector_handles = 0 }) else none;
  handles = [];
  addrs = 0;
}

client_finalize-early_example :
    (t : Store) × (client_finalize 1 store ≡ some ((success, true), t))
    × (handle_release 2 t ≡ none)
client_finalize-early_example =
    client_finalize-early 1 2 handle client store store-IsCounting (omega arith) refl (ground arith)
      refl refl refl

client_finalize-client_init_example :
    (j : NameTable) × (s1 s2 s3 s4 : Store) × (client_init 5 true no_names idle
      ≡ ((success, some 2), j, s1))
    × (handle_create 2 7 42 9 true (some 8) s1 ≡ some ((success, some 3), s2))
    × ((ref_incr_times 2 3 >> (release_times 2 3 >> handle_release 3)) s2 ≡ some (success, s3))
    × (client_finalize 2 s3 ≡ some ((success, false), s4))
    × (find_handle 3 s4.handles ≡ none)
    × (s4.addrs ≡ 0)
client_finalize-client_init_example =
    client_finalize-client_init 2 5 7 8 42 9 no_names idle (ground arith) tt refl (omega arith)

-- Another end that nothing reaches.
abbrev lost : Remote (Unit {0})
lost = record {
  ask = λ g target pid input s. (record { create_ok = true; forward_ok = false; output = none }, s);
}

client-moves_example :
    (moves absent (say_hello lost client handle tt).0.calls ≡ absent)
    × (moves absent (compute_sum lost client handle (pos 3) (pos 4) tt).0.calls ≡ misused)
client-moves_example = client-moves lost client handle (pos 3) (pos 4) tt
