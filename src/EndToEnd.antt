-- ===== src/EndToEnd.antt =====
-- Remote calls of src/admin.c and src/client.c whose requests are delivered to a provider with the dummy
-- backend, and whose answers are delivered back.
pub mod Link
pub mod Create
pub mod Calls
pub mod Open
pub mod Listing
pub mod Life
pub mod Lookup
pub mod Shutdown
pub mod Signatures
pub mod Registered
use soma_c.Prelude.{◌≡◌, Option, none, some, arith, if◌then◌else◌}
use soma_c.Common.{ReturnCode, success, is_success, CollectorId}
use soma_c.Types.{CreateCollectorOut}
use soma_c.Provider.Server.{create_out}
use soma_c.Provider.Serve.Auth.{answer}
use soma_c.Dummy.Registry.{Reply, made, code, reply_of}

-- The code that a reply stands for, and the id that it gives.
abbrev pub status : Reply → ReturnCode
status (code c) = c
status _ = success

abbrev pub made_id : Reply → Option CollectorId
made_id (made id) = some id
made_id _ = none

pub status-reply_of :
    (o : CreateCollectorOut)
    → (o.ret ≡ status (reply_of (answer (create_out o))))
      × ((if is_success o.ret then some o.id else none)
          ≡ made_id (reply_of (answer (create_out o))))
status-reply_of o = ground arith
