-- ===== src/Tests/Modules.antt =====
-- The life of a provider through the functions of the Bedrock module.
use soma_c.Provider.State.{Provider}
use soma_c.Provider.Server.{Server}
use soma_c.Provider.Backends.Lookup.{with_backend}
use soma_c.Dummy.{dummy_backend}
use soma_c.Tests.Instances.{list_hash, text_json, table_margo}
use soma_c.Tests.Servers.{World, Collectors}
use soma_c.Tests.Lifecycle.{bedrock_filled}

abbrev registered : Provider World Collectors
registered = with_backend bedrock_filled.0 dummy_backend
