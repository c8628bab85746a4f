-- ===== src/Provider/State.antt =====
-- src/provider.h: a collector, and the provider.
use soma_c.Prelude.{ℕ, String, Option, List}
use soma_c.Common.{CollectorId, Ptr}
use soma_c.Backend.{BackendImpl}

-- struct soma_collector, without its uthash handle: `W` is the world of the backends.
pub record Collector (W : Type 0) : Type 0 where
  pub fn : BackendImpl W
  pub ctx : Ptr
  pub id : CollectorId

-- struct soma_provider. The hash of the collectors is a value of `T`, a type that the interface
-- `Foreign.UtHash` speaks of. `backend_types` are the pointers that the array holds, and
-- `backend_types_size` is the size in bytes that was asked of `realloc` for it.
pub record Provider (W T : Type 0) : Type 0 where
  pub mid : Ptr
  pub provider_id : ℕ
  pub pool : ℕ
  pub abtio : ℕ
  pub token : Option String
  pub num_backend_types : ℕ
  pub backend_types : List (BackendImpl W)
  pub backend_types_size : ℕ
  pub num_collectors : ℕ
  pub collectors : T
  pub create_collector_id : ℕ
  pub open_collector_id : ℕ
  pub close_collector_id : ℕ
  pub destroy_collector_id : ℕ
  pub list_collectors_id : ℕ
  pub hello_id : ℕ
  pub sum_id : ℕ
