-- ===== src/Examples/Server.antt =====
-- src/examples/server.c
use soma_c.Prelude.{Option, none, some}
use soma_c.Common.{Ptr}
use soma_c.Foreign.JsonC.{JsonC}
use soma_c.Foreign.UtHash.{UtHash}
use soma_c.Foreign.Margo.{Margo}
use soma_c.Provider.State.{Provider}
use soma_c.Provider.Lifecycle.{Memory, provider_args_init, provider_register}
use soma_c.Dummy.{Heap}
use soma_c.Examples.Process.{Ending, done, aborted}

abbrev ready : {C P I : Type 0} → Option (C × Option P × I) → Option (Ending (Option P) × I)
ready none = none
ready (some (ret, p, i)) = some (done p, i)

module _ {J T I : Type 0} ⦃json : JsonC J⦄ ⦃h : UtHash (Heap J) T⦄ ⦃margo : Margo I⦄ where
  -- The program up to margo_wait_for_finalize, with what margo_init gives; the provider that serves
  -- requests from there, if there is one. The result of soma_provider_register is dropped.
  unfoldable pub server_main :
      Option Ptr → Memory → I → Option (Ending (Option (Provider (Heap J) T)) × I)
  server_main none memory i = some (aborted, i)
  server_main (some mid) memory i =
      ready (provider_register mid memory i 42 (some provider_args_init))
