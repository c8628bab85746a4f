-- ===== src/Provider/Serve/Collision.antt =====
-- What create and open of src/provider.c do with a uuid that a collector has already.
use soma_c.Prelude.{◌≡◌, true, some, arith}
use soma_c.Common.{success, Ptr}
use soma_c.Backend.{BackendImpl}
use soma_c.Foreign.UtHash.{UtHash}
use soma_c.Provider.State.{Collector}
use soma_c.Provider.Server.{Server}
use soma_c.Provider.Collectors.{find_collector}
use soma_c.Provider.Collectors.Items.{add_collector-old}
use soma_c.Provider.Handlers.{Supply, install}

module _ {W T : Type 0} ⦃h : UtHash W T⦄ where
  -- When a collector has the new uuid already, add_collector refuses the new collector, but the
  -- answer is SOMA_SUCCESS all the same, with the id of the old one; the new context is in no table.
  install-collision :
      (supply : Supply) (backend : BackendImpl W) (context : Ptr) (s : Server W T)
      (old : Collector W)
      → supply.calloc_ok ≡ true
      → find_collector s.provider supply.uuid ≡ some old
      → install supply backend context s ≡ some (record { ret = success; id = supply.uuid }, s)
  unfolding install
  install-collision supply backend context s old room found =
      let c : Collector W = record { fn = backend; ctx = context; id = supply.uuid } in
      ground (arith, add_collector-old s.provider c old found)
