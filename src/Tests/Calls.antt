-- ===== src/Tests/Calls.antt =====
-- Remote calls that close and destroy a collector of the provider of `Tests.Servers`, and let it sum.
use soma_c.Prelude.{◌≡◌, refl, some, []}
use soma_c.Prelude.Int.{ℤ, pos, ◌+ℤ◌}
use soma_c.Common.{success}
use soma_c.Types.{SumIn, SumOut}
use soma_c.Provider.Server.{Server, sum_out}
use soma_c.Provider.Serve.{Request, handle}
use soma_c.Provider.Serve.Auth.{answer}
use soma_c.Dummy.Registry.{registry, code}
use soma_c.Stub.{Outcome, absent, moves}
use soma_c.Client.{CollectorHandle}
use soma_c.Client.Rpc.{compute_sum}
use soma_c.EndToEnd.Link.{linked, fresh}
use soma_c.EndToEnd.Calls.{IsRemoved, remove_collector-removal, compute_sum-addition}
use soma_c.Tests.Wire.{Item, items}
use soma_c.Tests.Instances.{list_hash, text_json}
use soma_c.Tests.Servers.{World, Collectors, server, server-IsOwned}
use soma_c.Tests.Links.{link, admin, client}
use soma_c.Admin

remove_collector-removal_example :
    IsRemoved
      (Admin.close_collector (linked Item link) admin 11 42 (some "secret") 7 server)
      (Request.close_collector
        (record { input = some (record { token = some "secret"; id = 7 }); out = link.close_junk }))
      (code success, [])
      server
    × IsRemoved
        (Admin.destroy_collector (linked Item link) admin 11 42 (some "secret") 7 server)
        (Request.destroy_collector (record {
          input = some (record { token = some "secret"; id = 7 });
          out = link.close_junk;
        }))
        (code success, [])
        server
remove_collector-removal_example =
    remove_collector-removal Item link admin 11 42 (some "secret") 7 server server-IsOwned
      (record { address = refl; provider_id = refl; rpc_id = refl })
      (record { address = refl; provider_id = refl; rpc_id = refl }) tt

abbrev rh : CollectorHandle
rh = record { client = 1; addr = 11; provider_id = 42; refcount = 1; collector_id = 7 }

compute_sum-addition_example :
    (call : Outcome SumIn ℤ) × (t : Server World Collectors) × (o : SumOut) × (compute_sum
        (linked Item link)
        client
        rh
        (pos 3)
        (pos 4)
        server
      ≡ (call, t))
    × (handle
          (Request.sum (record {
            input = some (record { collector_id = 7; x = pos 3; y = pos 4 });
            out = link.sum_junk;
          }))
          (fresh server)
        ≡ some (tt, t))
    × (t.calls ≡ answer (sum_out o))
    × (moves absent call.calls ≡ absent)
    × (call.ret ≡ success)
    × (call.written ≡ some (pos 7))
    × (registry t ≡ registry server)
unfolding ◌+ℤ◌
compute_sum-addition_example =
    compute_sum-addition Item link client rh (pos 3) (pos 4) server server-IsOwned
      (record { address = refl; provider_id = refl; rpc_id = refl }) refl
