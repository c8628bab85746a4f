-- ===== src/Tests/Links.antt =====
-- A provider at the other end of remote calls.
use soma_c.Prelude.{true, none}
use soma_c.Prelude.Int.{pos}
use soma_c.Common.{err_other}
use soma_c.EndToEnd.Link.{Link}
use soma_c.Admin.Lifecycle.{Admin}
use soma_c.Client.{Client}
use soma_c.Tests.Wire.{junk}
use soma_c.Tests.Instances.{name_id}
use soma_c.Tests.Servers.{supply, create_out}

-- The `out` of a handler that has set nothing but an error holds a `count` of 3.
abbrev pub link : Link
link = record {
  is_address = λ a. true;
  id_of = λ mid. name_id;
  supply = supply;
  create_junk = create_out;
  close_junk = record { ret = err_other };
  list_junk = record { ret = err_other; count = 3; ids = none };
  sum_junk = record { result = pos 0; ret = err_other };
  junk = junk;
  calloc_ok = true;
  grants = λ n. true;
}

abbrev pub admin : Admin
admin = record {
  mid = 5;
  create_collector_id = 1;
  open_collector_id = 2;
  close_collector_id = 3;
  destroy_collector_id = 4;
  list_collectors_id = 5;
}

abbrev pub client : Client
client = record { mid = 5; hello_id = 6; sum_id = 7; num_collector_handles = 1 }
