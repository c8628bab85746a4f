-- ===== src/Tests/Messages.antt =====
-- Runs of the messages, and of remote calls against the provider of `Tests.Servers`.
use soma_c.Prelude.{
  ℕ, ◌≡◌, ◌≤◌, refl, true, false, Option, none, some, List, [], ◌∷◌, arith, eq_iff, take,
}
use soma_c.Common.{success, err_other, err_from_mercury, err_invalid_token, CollectorId}
use soma_c.Types.{CreateCollectorIn, ListCollectorsIn, ListCollectorsOut, CreateCollectorOut}
use soma_c.Types.Layouts.{MessageType, list_collectors_out_t}
use soma_c.Types.Serialize.{hg_proc}
use soma_c.Types.RoundTrip.{IsWhole, Travels, hg_proc-Travels}
use soma_c.Types.Transmit.{writing, reading}
use soma_c.Foreign.Mercury.{coded, failed}
use soma_c.Tests.Wire.{Item, items, junk}
use soma_c.Provider.Server.{Server, create_out, list_out}
use soma_c.Provider.Collectors.{check_token}
use soma_c.Provider.Handlers.{list_body}
use soma_c.Provider.Serve.{Request, handle}
use soma_c.Provider.Serve.Auth.{answer, called}
use soma_c.Provider.Serve.Listing.{list_body-id_list}
use soma_c.Dummy.Registry.{registry}
use soma_c.Stub.{Exchange, Outcome, Answer, Remote, absent, moves}
use soma_c.Admin.Balance.{admin-moves}
use soma_c.EndToEnd.Link.{delivered, linked, fresh}
use soma_c.EndToEnd.Create.{create_collector-registry}
use soma_c.EndToEnd.Open.{open_collector-registry}
use soma_c.EndToEnd.Listing.{list_collectors-registry, list_collectors-refused}
use soma_c.Tests.Instances.{list_hash, text_json}
use soma_c.Tests.Servers.{World, Collectors, server, server-IsOwned, supply}
use soma_c.Tests.Links.{link, admin}
use soma_c.Admin
use soma_c.Stub

abbrev listed : ListCollectorsOut
listed = record { ret = success; count = 2; ids = some (7 ∷ 9 ∷ 0 ∷ []) }

listed-IsWhole : IsWhole (λ n. true) list_collectors_out_t listed
listed-IsWhole = ((7 ∷ 9 ∷ 0 ∷ [], refl, omega arith), refl)

hg_proc-Travels_example :
    Travels
      (hg_proc {W = Item} (λ n. true) list_collectors_out_t)
      listed
      (record listed { ids = some (7 ∷ 9 ∷ []) })
hg_proc-Travels_example = hg_proc-Travels (λ n. true) list_collectors_out_t listed listed-IsWhole

-- The `out` of a handler that has set nothing but an error.
abbrev left_over : ListCollectorsOut
left_over = record { ret = err_other; count = 3; ids = none }

list_body-id_list_example :
    (o : ListCollectorsOut) × (list_body true left_over
        (some (record { token = some "secret"; max_ids = 4 }))
        server
      ≡ some (o, server))
    × (o.ret ≡ success)
    × (o.ids ≡ some (7 ∷ []))
    × (o.count ≤ 4)
    × (o.count ≤ 1)
    × (take {A = CollectorId} o.count (7 ∷ []) ≡ 7 ∷ [])
unfolding check_token
list_body-id_list_example =
    list_body-id_list left_over (record { token = some "secret"; max_ids = 4 }) server
      server-IsOwned.well_formed (omega arith) refl

abbrev createing : Request
createing = Request.create_collector supply (record {
  input = some (record { type = some "dummy"; config = some "{}"; token = some "secret" });
  out = link.create_junk;
})

create_collector-registry_example :
    (call : Outcome CreateCollectorIn CollectorId) × (t : Server World Collectors)
    × (o : CreateCollectorOut) × (Admin.create_collector
          (linked Item link)
          admin
          11
          42
          (some "secret")
          (some "dummy")
          (some "{}")
          server
        ≡ (call, t))
    × (handle createing (fresh server) ≡ some (tt, t))
    × (t.calls ≡ answer (create_out o))
    × (registry t ≡ (7, "{}") ∷ (9, "{}") ∷ [])
    × (call.ret ≡ success)
    × (call.written ≡ some 9)
create_collector-registry_example =
    create_collector-registry Item link admin 11 42 (some "secret") (some "dummy") (some "{}")
      server server-IsOwned (record { address = refl; provider_id = refl; rpc_id = refl })
      (tt, ("dummy", refl), refl, refl, refl)

abbrev opening : Request
opening = Request.open_collector supply (record {
  input = some (record { type = some "dummy"; config = some "{}"; token = some "secret" });
  out = link.create_junk;
})

open_collector-registry_example :
    (call : Outcome CreateCollectorIn CollectorId) × (t : Server World Collectors)
    × (o : CreateCollectorOut) × (Admin.open_collector
          (linked Item link)
          admin
          11
          42
          (some "secret")
          (some "dummy")
          (some "{}")
          server
        ≡ (call, t))
    × (handle opening (fresh server) ≡ some (tt, t))
    × (t.calls ≡ answer (create_out o))
    × (registry t ≡ (7, "{}") ∷ (9, "{}") ∷ [])
    × (call.ret ≡ success)
    × (call.written ≡ some 9)
open_collector-registry_example =
    open_collector-registry Item link admin 11 42 (some "secret") (some "dummy") (some "{}") server
      server-IsOwned (record { address = refl; provider_id = refl; rpc_id = refl })
      (tt, ("dummy", refl), refl, refl, refl)

list_collectors-registry_example :
    (o : ListCollectorsOut) × (outcome : Outcome ListCollectorsIn (ℕ × List CollectorId))
    × (Admin.list_collectors (linked Item link) admin 11 42 (some "secret") 4 server
        ≡ some (outcome, called (fresh server) (answer (list_out o))))
    × (handle
          (Request.list_collectors true (record {
            input = some (record { token = some "secret"; max_ids = 4 });
            out = left_over;
          }))
          (fresh server)
        ≡ some (tt, called (fresh server) (answer (list_out o))))
    × (outcome.ret ≡ success)
    × (outcome.written ≡ some (1, 7 ∷ []))
list_collectors-registry_example =
    list_collectors-registry Item link admin 11 42 (some "secret") 4 server server-IsOwned
      (record { address = refl; provider_id = refl; rpc_id = refl }) refl (omega arith) tt refl
      (λ n le. refl)

list_collectors-refused_example :
    let sent : ListCollectorsOut = record left_over { ret = err_invalid_token } in
    (outcome : Outcome ListCollectorsIn (ℕ × List CollectorId)) × (Admin.list_collectors
        (linked Item link)
        admin
        11
        42
        (some "guess")
        4
        server
      ≡ some (outcome, called (fresh server) (answer (list_out sent))))
    × (handle
          (Request.list_collectors true (record {
            input = some (record { token = some "guess"; max_ids = 4 });
            out = left_over;
          }))
          (fresh server)
        ≡ some (tt, called (fresh server) (answer (list_out sent))))
    × (outcome.ret ≡ err_from_mercury)
    × (outcome.written ≡ none)
    × ((units : List Item) × (hg_proc (λ n. true) list_collectors_out_t sent writing
          ≡ coded sent (record writing { units = units }))
        × (hg_proc (λ n. true) list_collectors_out_t (junk list_collectors_out_t) (reading units)
            ≡ failed (record (reading []) { blocks = 1 })))
list_collectors-refused_example =
    list_collectors-refused Item link admin 11 42 "secret" "guess" 4 server
      (record { address = refl; provider_id = refl; rpc_id = refl }) refl
      (ground (arith, eq_iff "guess" "secret")) (omega arith) refl

-- Another end that answers a list with two identifiers.
abbrev received : (t : Option MessageType) → Exchange (Answer t)
received (some list_collectors_out_t) = delivered (some listed)
received _ = record { create_ok = true; forward_ok = false; output = none }

abbrev listing : Remote (Unit {0})
listing = record { ask = λ g target pid input s. (received g.1, s) }

abbrev received_outcome : Outcome ListCollectorsIn (ℕ × List CollectorId)
received_outcome =
    Stub.remote_call (received (some list_collectors_out_t))
      (record { mid = 5; address = 11; rpc_id = 5 }) 42
      (record { token = some "secret"; max_ids = 4 }) (λ o. (success, some (2, 7 ∷ 9 ∷ [])))

received-list_collectors :
    Admin.list_collectors listing admin 11 42 (some "secret") 4 tt ≡ some (received_outcome, tt)
unfolding Admin.list_collectors Admin.list_call
received-list_collectors = refl

admin-moves_example :
    (moves absent (Admin.create_collector listing admin 11 42 (some "secret") none none tt).0.calls
      ≡ absent)
    × (moves absent (Admin.open_collector listing admin 11 42 (some "secret") none none tt).0.calls
        ≡ absent)
    × (moves absent (Admin.close_collector listing admin 11 42 (some "secret") 7 tt).0.calls
        ≡ absent)
    × (moves absent (Admin.destroy_collector listing admin 11 42 (some "secret") 7 tt).0.calls
        ≡ absent)
    × (moves absent received_outcome.calls ≡ absent)
admin-moves_example =
    admin-moves listing admin 11 42 (some "secret") none none 7 4 tt tt received_outcome
      received-list_collectors
