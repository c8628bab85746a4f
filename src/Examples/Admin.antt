-- ===== src/Examples/Admin.antt =====
-- src/examples/admin.c
pub mod Run
use soma_c.Prelude.{
  ◌≡◌, true, ℕ, zero, suc, ◌+◌, String, Bool, Option, none, some, List, [], ◌∷◌, get_elem?,
}
use soma_c.Prelude.Int.{ℤ, pos}
use soma_c.Common.{is_success, Ptr, CollectorId}
use soma_c.Common.IdText.{collector_id_to_string}
use soma_c.Foreign.LibUuid.{LibUuid}
use soma_c.Foreign.Names.{Names}
use soma_c.Stub.{Remote}
use soma_c.Admin
use soma_c.Admin.Lifecycle.{admin_init, admin_finalize}
use soma_c.Examples.Process.{
  Program, ◌>>=◌, ◌>>◌, pure, exit, or_fatal, given, asserted, read, on_names, on_remote,
  on_remote_or_fault, say, uint16, returned_ids, id_is,
}

-- What the libraries give: margo_init, margo_addr_lookup, the calloc of soma_admin_init,
-- margo_addr_free, atoi and libuuid.
pub record Libraries : Type 0 where
  pub mid : Option Ptr
  pub lookup : String → Option Ptr
  pub calloc_ok : Bool
  pub addr_free_ok : Bool
  pub atoi : String → ℤ
  pub uuid : LibUuid

-- Margo and memory are at hand, and the address is known.
pub record IsAtHand (libs : Libraries) (address : String) (mid addr : Ptr) : Type 0 where
  pub inited : libs.mid ≡ some mid
  pub looked : libs.lookup address ≡ some addr
  pub calloc : libs.calloc_ok ≡ true
  pub freed : libs.addr_free_ok ≡ true

module _ {I S : Type 0} where
  -- The loop over `ids`, with the rounds that are left.
  unfoldable pub print_ids : LibUuid → (rounds i : ℕ) → List CollectorId → Program I S (Unit {0})
  print_ids uuid zero i ids = pure tt
  print_ids uuid (suc n) i ids = do
    id ← read (get_elem? ids i)
    say (id_is i (collector_id_to_string uuid id))
    print_ids uuid n (i + 1) ids

module _ {I S : Type 0} ⦃names : Names I⦄ where
  unfoldable pub admin_run : Libraries → Remote S → (address id : String) → Program I S ℤ
  admin_run libs net address id = do
    mid ← asserted libs.mid
    svr_addr ← given (libs.lookup address)
    (ret, admin) ← on_names (admin_init mid libs.calloc_ok)
    or_fatal (is_success ret)
    admin ← read admin
    created ← on_remote (
        Admin.create_collector net admin svr_addr (uint16 (libs.atoi id)) none (some "dummy")
          (some "{}"))
    or_fatal (is_success created.ret)
    listed ←
        on_remote_or_fault (Admin.list_collectors net admin svr_addr (uint16 (libs.atoi id)) none 4)
    or_fatal (is_success listed.ret)
    (count, ids) ← read listed.written
    say (returned_ids count)
    print_ids libs.uuid count 0 ids
    or_fatal (is_success admin_finalize)
    or_fatal libs.addr_free_ok
    pure (pos 0)

  -- main, with its arguments.
  unfoldable pub admin_main : Libraries → Remote S → List String → Program I S ℤ
  admin_main libs net (name ∷ address ∷ id ∷ []) = admin_run libs net address id
  admin_main libs net _ = exit (pos 0)
