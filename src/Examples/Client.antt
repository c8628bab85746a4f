-- ===== src/Examples/Client.antt =====
-- src/examples/client.c
pub mod Run
pub mod Total
use soma_c.Prelude.{◌≡◌, true, ℕ, String, Bool, Option, none, some, List, [], ◌∷◌, ◌==◌}
use soma_c.Prelude.Int.{ℤ, pos, negsuc}
use soma_c.Common.{ReturnCode, is_success, Ptr, CollectorId}
use soma_c.Common.IdText.{collector_id_from_string}
use soma_c.Foreign.LibUuid.{LibUuid}
use soma_c.Foreign.Names.{Names}
use soma_c.Client.{Client, CollectorHandle, find_handle, handle_create, handle_release}
use soma_c.Stub.{Remote}
use soma_c.Client.Rpc.{say_hello, compute_sum}
use soma_c.Client.Lifecycle.{client_init, client_finalize}
use soma_c.Examples.Process.{
  Program, ◌>>=◌, ◌>>◌, pure, exit, or_fatal, given, asserted, read, on_store, on_remote, say,
  uint16, sum_is, done,
}

-- What the libraries give: margo_init, margo_addr_lookup, the callocs of soma_client_init and
-- soma_collector_handle_create, margo_addr_dup, margo_addr_free, atoi, strlen, libuuid; and what
-- `collector_id` holds at first.
pub record Libraries : Type 0 where
  pub mid : Option Ptr
  pub lookup : String → Option Ptr
  pub client_calloc_ok : Bool
  pub handle_calloc_ok : Bool
  pub dup : Ptr → Option Ptr
  pub addr_free_ok : Bool
  pub atoi : String → ℤ
  pub strlen : String → ℕ
  pub uuid : LibUuid
  pub junk : CollectorId

-- Margo and memory are at hand, the address is known and has a copy, and the text is of 36 characters.
pub record IsAtHand (libs : Libraries) (address text : String) (mid addr copy : Ptr) : Type 0 where
  pub inited : libs.mid ≡ some mid
  pub looked : libs.lookup address ≡ some addr
  pub client_calloc : libs.client_calloc_ok ≡ true
  pub handle_calloc : libs.handle_calloc_ok ≡ true
  pub copied : libs.dup addr ≡ some copy
  pub freed : libs.addr_free_ok ≡ true
  pub long : libs.strlen text ≡ 36

module _ {I S : Type 0} where
  -- soma_client_init in this process.
  abbrev pub init : ⦃names : Names I⦄ → Ptr → Bool → Program I S (ReturnCode × Option Ptr)
  init mid calloc_ok p =
      let (r, j, t) = client_init mid calloc_ok p.names p.store in
      some (done r, record p { names = j; store = t })

  -- The handle that a pointer points to, and the client that the handle points to.
  abbrev pub deref : Ptr → Program I S (Client × CollectorHandle)
  deref handle p = elim (find_handle handle p.store.handles) [
    | none ↦ none
    | some rh ↦ elim (p.store.clients rh.client) [ none ↦ none | some c ↦ some (done (c, rh), p) ]
  ]

module _ {I S : Type 0} ⦃names : Names I⦄ where
  unfoldable pub client_run : Libraries → Remote S → (address id text : String) → Program I S ℤ
  client_run libs net address id text = do
    or_fatal (libs.strlen text == 36)
    mid ← asserted libs.mid
    svr_addr ← given (libs.lookup address)
    (ret, client) ← init mid libs.client_calloc_ok
    or_fatal (is_success ret)
    soma_clt ← read client
    (ret, handle) ← on_store (
        handle_create soma_clt svr_addr (uint16 (libs.atoi id))
          (collector_id_from_string libs.uuid text libs.junk) libs.handle_calloc_ok
          (libs.dup svr_addr))
    or_fatal (is_success ret)
    soma_rh ← read handle
    (c, rh) ← deref soma_rh
    hello ← on_remote (say_hello net c rh)
    or_fatal (is_success hello.ret)
    sum ← on_remote (compute_sum net c rh (pos 45) (pos 23))
    or_fatal (is_success sum.ret)
    result ← read sum.written
    say (sum_is result)
    ret ← on_store (handle_release soma_rh)
    or_fatal (is_success ret)
    (ret, warned) ← on_store (client_finalize soma_clt)
    or_fatal (is_success ret)
    or_fatal libs.addr_free_ok
    pure (pos 0)

  -- main, with its arguments.
  unfoldable pub client_main : Libraries → Remote S → List String → Program I S ℤ
  client_main libs net (name ∷ address ∷ id ∷ text ∷ []) = client_run libs net address id text
  client_main libs net _ = exit (negsuc 0)
