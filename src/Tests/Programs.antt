-- ===== src/Tests/Programs.antt =====
-- Runs of the example programs.
use Prim.Native.String.{count}
use soma_c.Prelude.{
  ◌==◌, ◌≡◌, refl, String, str_eq, Option, true, false, none, some, [], ◌∷◌, arith, if◌then◌else◌,
}
use soma_c.Prelude.Int.{pos}
use soma_c.Common.IdText.{collector_id_to_string}
use soma_c.Foreign.LibUuid.{LibUuid}
use soma_c.Provider.State.{Provider}
use soma_c.Provider.Server.{Server}
use soma_c.Provider.Lifecycle.{finalize_provider}
use soma_c.Provider.Lifecycle.Registration.{initial_server}
use soma_c.Dummy.{dummy_backend}
use soma_c.Dummy.Registry.{registry}
use soma_c.Client.{Store}
use soma_c.Examples.Process.{Process, returned_ids, id_is, sum_is, done}
use soma_c.Types.Layouts.{MessageType}
use soma_c.Stub.{Remote, Answer}
use soma_c.EndToEnd.Link.{delivered, linked}
use soma_c.Examples.Serving.{IsServing, IsAnswering, IsNaming}
use soma_c.Tests.Links.{link}
use soma_c.Examples.Server.{server_main}
use soma_c.Examples.Admin.{admin_main}
use soma_c.Examples.Client.{client_main}
use soma_c.Examples.Client.Run.{client_main-sums}
use soma_c.Examples.Client.Total.{client_main-runs}
use soma_c.Client.Lifecycle.{is_fault}
use soma_c.Examples.Meeting.{begin, programs-meet}
use soma_c.Examples.Admin
use soma_c.Examples.Client
use soma_c.Tests.Wire.{Item, items, junk}
use soma_c.Tests.Instances.{
  list_hash, text_json, Table, table_margo, empty_table, NameTable, table_names, no_names,
}
use soma_c.Tests.Servers.{World, Collectors, provider, server}
use soma_c.Tests.Lifecycle.{memory}

abbrev text : String
text = "00000000-0000-0000-0000-000000000009"

-- The identifier 9 alone has a text.
abbrev nine : LibUuid
nine = record {
  unparse = λ id. if id == 9 then text else "";
  parse = λ t. if str_eq t text then some 9 else none;
}

abbrev alibs : Admin.Libraries
alibs = record {
  mid = some 3;
  lookup = λ a. some 11;
  calloc_ok = true;
  addr_free_ok = true;
  atoi = λ t. pos 42;
  uuid = nine;
}

abbrev clibs : Client.Libraries
clibs = record {
  mid = some 3;
  lookup = λ a. some 11;
  client_calloc_ok = true;
  handle_calloc_ok = true;
  dup = λ a. some 12;
  addr_free_ok = true;
  atoi = λ t. pos 42;
  strlen = count;
  uuid = nine;
  junk = 0;
}

abbrev empty_store : Store
empty_store = record { next = 1; clients = λ p. none; handles = []; addrs = 0 }

alibs-IsAtHand : Admin.IsAtHand alibs "tcp://server" 3 11
alibs-IsAtHand = record { inited = refl; looked = refl; calloc = refl; freed = refl }

clibs-IsAtHand : Client.IsAtHand clibs "tcp://server" text 3 11 12
clibs-IsAtHand = record {
  inited = refl;
  looked = refl;
  client_calloc = refl;
  handle_calloc = refl;
  copied = refl;
  freed = refl;
  long = refl;
}

admin-IsNaming : IsNaming link 3 "soma_create_collector" no_names
admin-IsNaming = record { registers = λ j n g. refl; missing = refl }

client-IsNaming : IsNaming link 3 "soma_sum" no_names
client-IsNaming = record { registers = λ j n g. refl; missing = refl }

link-IsAnswering : IsAnswering link 11
link-IsAnswering = record { here = refl; supplied = refl; calloc = refl; memory = λ n le. refl }

abbrev collector_9 : Server World Collectors
collector_9 = record server {
  provider = record provider {
    token = none;
    collectors = record { fn = dummy_backend; ctx = 1; id = 9 } ∷ [];
  };
}

collector_9-IsServing : IsServing collector_9 42 ((9, "{}") ∷ [])
collector_9-IsServing = record {
  owned = record {
    well_formed = record { counted = refl; keyed = (refl, tt); backends = refl };
    backend = refl;
    owns = (refl, refl, tt);
    ascending = (omega arith, omega arith);
  };
  token = refl;
  provider_id = refl;
  view = refl;
}

abbrev no_collectors : Server World Collectors
no_collectors = record collector_9 {
  provider = record collector_9.provider { num_collectors = 0; collectors = [] };
  world = record { next = 1; live = []; grants = λ p. true; stdout = [] };
}

client_main-sums_example :
    (q : Process NameTable (Server World Collectors)) × (client_main clibs
        (linked Item link)
        ("client" ∷ "tcp://server" ∷ "42" ∷ text ∷ [])
        (begin no_names empty_store collector_9)
      ≡ some (done (pos 0), q))
    × (q.log ≡ sum_is (pos 68) ∷ [])
    × (q.store.addrs ≡ 0)
    × IsServing q.remote 42 ((9, "{}") ∷ [])
client_main-sums_example =
    client_main-sums Item clibs link 3 11 12 "client" "tcp://server" "42" text 9 ((9, "{}") ∷ [])
      (begin no_names empty_store collector_9) clibs-IsAtHand refl refl client-IsNaming
      collector_9-IsServing (omega arith) tt refl

programs-meet_example :
    (sp : Provider World Collectors) × (j : Table) × (server_main (some 5) memory empty_table
      ≡ some (done (some sp), j))
    × (table_margo.callbacks j ≡ 8 ∷ [])
    × ((a : Process NameTable (Server World Collectors)) × (admin_main alibs
            (linked Item link)
            ("main" ∷ "tcp://server" ∷ "42" ∷ [])
            (begin no_names empty_store (initial_server sp (λ p. true)))
          ≡ some (done (pos 0), a))
        × (a.log ≡ returned_ids 1 ∷ id_is 0 text ∷ [])
        × ((c : Process NameTable (Server World Collectors)) × (client_main clibs
                (linked Item link)
                ("main" ∷ "tcp://server" ∷ "42" ∷ text ∷ [])
                (begin no_names empty_store a.remote)
              ≡ some (done (pos 0), c))
            × (c.log ≡ sum_is (pos 68) ∷ [])
            × (registry c.remote ≡ (9, "{}") ∷ [])
            × ((k : Table) × (w : World) × (finalize_provider j c.remote ≡ some (k, w))
                × (w.live ≡ []))))
unfolding collector_id_to_string
programs-meet_example =
    programs-meet Item 5 memory empty_table 8 (λ p. true) link alibs clibs 3 3 11 11 12 "main"
      "tcp://server" "42" "{}" no_names no_names empty_store refl refl refl (omega arith)
      alibs-IsAtHand link-IsAnswering admin-IsNaming client-IsNaming refl refl refl clibs-IsAtHand
      refl refl refl (omega arith) tt refl

-- Another end that always answers.
abbrev anything : (t : Option MessageType) → Answer t
anything none = tt
anything (some t) = junk t

abbrev answering : Remote (Server World Collectors)
answering = record { ask = λ g target pid input s. (delivered (some (anything g.1)), s) }

client_main-runs_example :
    is_fault (
      client_main clibs answering
        ("client" ∷ "tcp://server" ∷ "42" ∷ text ∷ [])
        (begin no_names empty_store collector_9))
    ≡ false
client_main-runs_example =
    client_main-runs clibs answering ("client" ∷ "tcp://server" ∷ "42" ∷ text ∷ [])
      (begin no_names empty_store collector_9) (λ target pid input s. refl) (omega arith) tt refl
