-- ===== src/Bedrock/Life.antt =====
-- A provider and a client from beginning to end, through the functions of src/bedrock-module.c.
use soma_c.Foreign.JsonC.{JsonC}
use soma_c.Foreign.UtHash.{UtHash}
use soma_c.Foreign.Margo.{Margo}
use soma_c.Provider.State.{Provider}
use soma_c.Provider.Server.{Server}
