-- ===== src/Tests/Life.antt =====
-- The life of a provider of the dummy backend.
use soma_c.Prelude.{true, [], ◌∷◌}
use soma_c.Provider.State.{Provider}
use soma_c.Provider.Backends.Lookup.{with_backend}
use soma_c.Provider.Lifecycle.{fill_provider}
use soma_c.Dummy.{dummy_backend}
use soma_c.Tests.Instances.{list_hash, text_json, Table, table_margo, empty_table}
use soma_c.Tests.Servers.{World, Collectors}
use soma_c.Tests.Lifecycle.{args}

abbrev filled : Provider World Collectors × Table
filled = fill_provider 5 empty_table 42 args true 8

-- The callback is pushed.
abbrev filled_table : Table
filled_table = record filled.1 { callbacks = 8 ∷ [] }

abbrev registered : Provider World Collectors
registered = with_backend filled.0 dummy_backend
