-- ===== src/Types.antt =====
-- src/types.h: the messages of the RPCs. A `hg_string_t` may be NULL; an `int32_t ret` holds a
-- return code.
pub mod Coders
pub mod Fields
pub mod ListOut
pub mod Layouts
pub mod Messages
pub mod RoundTrip
pub mod Serialize
pub mod Transmit
use soma_c.Prelude.{ℕ, String, Option, List}
use soma_c.Prelude.Int.{ℤ}
use soma_c.Common.{ReturnCode, CollectorId}

-- create_collector_in_t and open_collector_in_t
pub record CreateCollectorIn : Type 0 where
  pub type : Option String
  pub config : Option String
  pub token : Option String

-- create_collector_out_t and open_collector_out_t
pub record CreateCollectorOut : Type 0 where
  pub ret : ReturnCode
  pub id : CollectorId

-- close_collector_in_t and destroy_collector_in_t
pub record CloseCollectorIn : Type 0 where
  pub token : Option String
  pub id : CollectorId

-- close_collector_out_t and destroy_collector_out_t
pub record CloseCollectorOut : Type 0 where
  pub ret : ReturnCode

-- list_collectors_in_t
pub record ListCollectorsIn : Type 0 where
  pub token : Option String
  pub max_ids : ℕ

-- list_collectors_out_t; `ids` is NULL or an array.
pub record ListCollectorsOut : Type 0 where
  pub ret : ReturnCode
  pub count : ℕ
  pub ids : Option (List CollectorId)

-- hello_in_t
pub record HelloIn : Type 0 where
  pub collector_id : CollectorId

-- sum_in_t
pub record SumIn : Type 0 where
  pub collector_id : CollectorId
  pub x : ℤ
  pub y : ℤ

-- sum_out_t
pub record SumOut : Type 0 where
  pub result : ℤ
  pub ret : ReturnCode
