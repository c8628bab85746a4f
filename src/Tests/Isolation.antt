-- ===== src/Tests/Isolation.antt =====
-- A provider comes and goes beside another.
use soma_c.Prelude.{◌≡◌, refl, str_eq, true, ◌&&◌, ◌==◌, none, some, [], ◌∷◌, arith, if◌then◌else◌}
use soma_c.Common.{success}
use soma_c.Provider.State.{Provider}
use soma_c.Provider.Backends.{add_backend_impl}
use soma_c.Provider.Backends.Lookup.{with_backend}
use soma_c.Provider.Collectors.{remove_all_collectors, close_each}
use soma_c.Provider.Lifecycle.{
  provider_register, fill_provider, register_dummy_backend, register_backend, register_rpc,
  provider_destroy, finalize_provider, deregister_rpcs,
}
use soma_c.Provider.Lifecycle.Registration.{initial_server}
use soma_c.Provider.Lifecycle.Isolation.{provider_destroy-provider_register}
use soma_c.Provider.Server.{Server}
use soma_c.Provider.Serve.{Request, hello, handle}
use soma_c.Provider.Dispatch.{dispatch}
use soma_c.EndToEnd.Lookup.{provider_register-finds}
use soma_c.Dummy.{dummy_backend}
use soma_c.Types.Layouts.{sum_in_t, sum_out_t}
use soma_c.Tests.Instances.{list_hash, text_json, Table, table_margo}
use soma_c.Tests.Servers.{World, Collectors}
use soma_c.Tests.Lifecycle.{memory, args}

-- An instance with the RPC soma_sum of provider 43.
abbrev neighbour : Table
neighbour = record {
  next = 2;
  rpcs = λ name q. if str_eq name "soma_sum" && (q == 43) then some 1 else none;
  types = λ name q.
      if str_eq name "soma_sum" && (q == 43) then some (sum_in_t, some sum_out_t) else none;
  data_of = λ k. some 7;
  callbacks = 7 ∷ [];
}

abbrev filled : Provider World Collectors × Table
filled = fill_provider 5 neighbour 42 args true 8

abbrev registered : Provider World Collectors
registered = with_backend filled.0 dummy_backend

abbrev registered_table : Table
registered_table = record filled.1 { callbacks = 8 ∷ 7 ∷ [] }

abbrev left_table : Table
left_table = deregister_rpcs (record filled.1 { callbacks = 7 ∷ [] }) registered

registered-provider_register :
    provider_register 5 memory neighbour 42 (some args)
    ≡ some (success, some registered, registered_table)
unfolding provider_register fill_provider register_dummy_backend register_backend add_backend_impl
    register_rpc
registered-provider_register = refl

left-provider_destroy :
    provider_destroy registered_table 8 (initial_server registered (λ a. true))
    ≡ some (success, left_table, (initial_server registered (λ a. true)).world)
unfolding provider_destroy finalize_provider deregister_rpcs remove_all_collectors close_each
    fill_provider register_rpc
left-provider_destroy = refl

provider_destroy-provider_register_example :
    (registered_table.rpcs "soma_sum" 43 ≡ some 1)
    × (left_table.rpcs "soma_sum" 43 ≡ some 1)
    × (registered_table.callbacks ≡ 8 ∷ 7 ∷ [])
    × (left_table.callbacks ≡ 7 ∷ [])
unfolding fill_provider register_rpc
provider_destroy-provider_register_example =
    provider_destroy-provider_register 5 memory neighbour registered_table registered_table
      left_table 42 43 (some args) success success registered
      (initial_server registered (λ a. true)) 8 (initial_server registered (λ a. true)).world
      "soma_sum" registered-provider_register refl refl refl left-provider_destroy (ground arith)
      (λ id e. ground arith)

-- A greeting whose input can be read.
abbrev greeting : Request
greeting = hello (some (record { collector_id = 3 }))

abbrev now : Server World Collectors
now = initial_server registered (λ a. true)

provider_register-finds_example :
    (registered_table.rpcs "soma_hello" 42 ≡ some registered.hello_id)
    × (dispatch registered_table 8 registered.hello_id greeting now ≡ handle greeting now)
    × (dispatch left_table 8 registered.hello_id greeting now ≡ none)
provider_register-finds_example =
    provider_register-finds 5 memory neighbour registered_table registered_table left_table 42
      (some args) 8 registered now success now.world greeting now now refl refl refl (omega arith)
      registered-provider_register refl left-provider_destroy
