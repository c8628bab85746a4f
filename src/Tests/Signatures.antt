-- ===== src/Tests/Signatures.antt =====
-- The types of the RPCs, for the instances of `Tests.Instances`.
use soma_c.Prelude.{◌≡◌, refl, true, none, some, List, [], ◌++◌, arith}
use soma_c.Prelude.Int.{pos}
use soma_c.Common.{success, err_other, err_invalid_collector}
use soma_c.Types.{SumIn}
use soma_c.Types.Layouts.{sum_in_t, sum_out_t}
use soma_c.Types.Transmit.{transmit}
use soma_c.Client.{Store}
use soma_c.Client.Lifecycle.{client_init}
use soma_c.Admin.Lifecycle.{admin_init}
use soma_c.Provider.State.{Provider}
use soma_c.Provider.Collectors.{find_collector}
use soma_c.Provider.Handlers.{sum_ult, sum_body}
use soma_c.Provider.Server.{Server, HandleCall, sum_out}
use soma_c.Provider.Serve.{Request, handle}
use soma_c.Provider.Serve.Auth.{answer, called}
use soma_c.Provider.Lifecycle.{provider_register}
use soma_c.EndToEnd.Signatures.{IsTypedAnswer}
use soma_c.EndToEnd.Registered.{signature_of-agrees}
use soma_c.Tests.Instances.{
  list_hash, text_json, Table, table_margo, empty_table, table_names, no_names,
}
use soma_c.Tests.Lifecycle.{memory}
use soma_c.Tests.Servers.{World, Collectors, server}
use soma_c.Tests.Wire.{Item, items}

-- A sum of a collector that is not there.
abbrev summing : Request
summing = Request.sum (record {
  input = some (record { collector_id = 8; x = pos 3; y = pos 4 });
  out = record { result = pos 0; ret = err_other };
})

abbrev summed : Server World Collectors
summed = called server (answer (sum_out (record { result = pos 0; ret = err_invalid_collector })))

summing-handle : handle summing server ≡ some (tt, summed)
unfolding handle sum_ult sum_body find_collector
summing-handle = refl

abbrev empty_store : Store
empty_store = record { next = 1; clients = λ p. none; handles = []; addrs = 0 }

signature_of-agrees_example :
    let n' = (client_init 4 true (admin_init 3 true no_names).1 empty_store).1 in
    (p : Provider World Collectors) × (j : Table) × (provider_register 5 memory empty_table 42 none
      ≡ some (success, some p, j))
    × (table_margo.signature j "soma_sum" 42 ≡ some (sum_in_t, some sum_out_t))
    × (table_names.signature n' "soma_sum" ≡ some (sum_in_t, some sum_out_t))
    × ((d junk : SumIn) → transmit Item (λ n. true) sum_in_t d junk ≡ some d)
    × ((cs : List HandleCall) × (summed.calls ≡ server.calls ++ cs)
        × IsTypedAnswer (some sum_out_t) cs)
signature_of-agrees_example =
    signature_of-agrees Item 5 memory empty_table 42 none 8 3 4 no_names empty_store (λ n. true)
      summing server summed refl refl refl (omega arith) refl refl summing-handle
