-- ===== src/Foreign/LibUuid.antt =====
-- libuuid, as include/soma/soma-common.h uses it.
use soma_c.Prelude.{String, Option}
use soma_c.Common.{CollectorId}

pub record LibUuid : Type 0 where
  -- uuid_unparse
  pub unparse : CollectorId → String
  -- uuid_parse: `none` where it returns -1; it then writes nothing.
  pub parse : String → Option CollectorId
