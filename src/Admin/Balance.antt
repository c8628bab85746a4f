-- ===== src/Admin/Balance.antt =====
-- The handles and outputs of the remote calls of src/admin.c.
use soma_c.Prelude.{ℕ, String, ◌≡◌, refl, Option, some, List, arith}
use soma_c.Common.{ReturnCode, CollectorId, Ptr}
use soma_c.Types.{ListCollectorsIn, ListCollectorsOut}
use soma_c.Types.Layouts.{list_collectors_in_t, list_collectors_out_t}
use soma_c.Admin.Lifecycle.{Admin}
use soma_c.Stub.{Exchange, Remote, Target, Outcome, remote_call, absent, moves}
use soma_c.Admin.{
  create_collector, open_collector, close_collector, destroy_collector, list_call, list_collectors,
}

remote_call-moves :
    {In Out R : Type 0} (x : Exchange Out) (target : Target) (pid : ℕ) (input : In)
    (read : Out → ReturnCode × Option R)
    → moves absent (remote_call x target pid input read).calls ≡ absent
unfolding remote_call
remote_call-moves x target pid input read = ground arith

list_call-moves :
    (x : Exchange ListCollectorsOut) (target : Target) (pid room : ℕ) (input : ListCollectorsIn)
    (o : Outcome ListCollectorsIn (ℕ × List CollectorId))
    → list_call x target pid room input ≡ some o
    → moves absent o.calls ≡ absent
unfolding list_call remote_call
list_call-moves x target pid room input o e = ground arith

module _ {S : Type 0} (net : Remote S) (admin : Admin) (address : Ptr) (pid : ℕ)
    (token : Option String) where
  pub create_collector-moves :
      (type config : Option String) (s : S)
      → moves absent (create_collector net admin address pid token type config s).0.calls ≡ absent
  unfolding create_collector
  create_collector-moves type config s = simp remote_call-moves refl

  pub list_collectors-moves :
      (room : ℕ) (s t : S) (o : Outcome ListCollectorsIn (ℕ × List CollectorId))
      → list_collectors net admin address pid token room s ≡ some (o, t)
      → moves absent o.calls ≡ absent
  unfolding list_collectors
  list_collectors-moves room s t o e =
      let input : ListCollectorsIn = record { token = token; max_ids = room } in
      let target : Target = record {
        mid = admin.mid;
        address = address;
        rpc_id = admin.list_collectors_id;
      } in
      let x = (net.ask (list_collectors_in_t, some list_collectors_out_t) target pid input s).0 in
      list_call-moves x target pid room input o (ground arith)

  -- Whatever Mercury does, the calls that create, open, close and destroy a collector use their handle
  -- as its state allows, free each output that they got, and leave no handle behind; so does the call
  -- that lists collectors, when it does not overrun an array.
  pub admin-moves :
      (type config : Option String) (id : CollectorId) (room : ℕ) (s t : S)
      (o : Outcome ListCollectorsIn (ℕ × List CollectorId))
      → list_collectors net admin address pid token room s ≡ some (o, t)
      → (moves absent (create_collector net admin address pid token type config s).0.calls ≡ absent)
        × (moves absent (open_collector net admin address pid token type config s).0.calls ≡ absent)
        × (moves absent (close_collector net admin address pid token id s).0.calls ≡ absent)
        × (moves absent (destroy_collector net admin address pid token id s).0.calls ≡ absent)
        × (moves absent o.calls ≡ absent)
  unfolding open_collector close_collector destroy_collector
  admin-moves type config id room s t o e = (
    create_collector-moves type config s,
    simp remote_call-moves refl,
    simp remote_call-moves refl,
    simp remote_call-moves refl,
    list_collectors-moves room s t o e,
  )
