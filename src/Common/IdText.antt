-- ===== src/Common/IdText.antt =====
-- The conversions of identifiers of include/soma/soma-common.h.
use soma_c.Prelude.{◌≡◌, arith, String, none, some}
use soma_c.Common.{CollectorId}
use soma_c.Foreign.LibUuid.{LibUuid}

-- soma_collector_id_to_string
unfoldable pub collector_id_to_string : LibUuid → CollectorId → String
collector_id_to_string uuid id = uuid.unparse id

-- soma_collector_id_from_string; `id` is what the variable held before.
unfoldable pub collector_id_from_string : LibUuid → String → CollectorId → CollectorId
collector_id_from_string uuid text id = elim (uuid.parse text) [ none ↦ id | some read ↦ read ]

pub collector_id_from_string-some :
    (uuid : LibUuid) (text : String) (id read : CollectorId)
    → uuid.parse text ≡ some read
    → collector_id_from_string uuid text id ≡ read
unfolding collector_id_from_string
collector_id_from_string-some uuid text id read e = ground arith
