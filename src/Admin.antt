-- ===== src/Admin.antt =====
-- The remote calls of src/admin.c.
pub mod Balance
pub mod Lifecycle
use soma_c.Prelude.{ℕ, String, Option, none, some, List, [], leb, if◌then◌else◌, take, length, ◌&&◌}
use soma_c.Common.{ReturnCode, is_success, CollectorId, Ptr}
use soma_c.Types.{
  CreateCollectorIn, CreateCollectorOut, CloseCollectorIn, CloseCollectorOut, ListCollectorsIn,
  ListCollectorsOut,
}
use soma_c.Types.Layouts.{
  create_collector_in_t, create_collector_out_t, open_collector_in_t, open_collector_out_t,
  close_collector_in_t, close_collector_out_t, destroy_collector_in_t, destroy_collector_out_t,
  list_collectors_in_t, list_collectors_out_t,
}
use soma_c.Stub.{Exchange, Remote, Target, Outcome, remote_call}
use soma_c.Admin.Lifecycle.{Admin}

-- `id` is written only if the provider returned SOMA_SUCCESS.
abbrev pub read_id : CreateCollectorOut → ReturnCode × Option CollectorId
read_id out = (out.ret, if is_success out.ret then some out.id else none)

module _ {S : Type 0} where
  -- soma_create_collector
  unfoldable pub create_collector :
      Remote S
      → Admin
      → (address : Ptr) → (provider_id : ℕ) → (token type config : Option String) → S
      → Outcome CreateCollectorIn CollectorId × S
  unfolding remote_call
  create_collector net admin address provider_id token type config s =
      let input : CreateCollectorIn = record { type = type; config = config; token = token } in
      let target : Target = record {
        mid = admin.mid;
        address = address;
        rpc_id = admin.create_collector_id;
      } in
      let (x, t) =
        net.ask (create_collector_in_t, some create_collector_out_t) target provider_id input s in
      (remote_call x target provider_id input read_id, t)

  -- soma_open_collector
  unfoldable pub open_collector :
      Remote S
      → Admin
      → (address : Ptr) → (provider_id : ℕ) → (token type config : Option String) → S
      → Outcome CreateCollectorIn CollectorId × S
  unfolding remote_call
  open_collector net admin address provider_id token type config s =
      let input : CreateCollectorIn = record { type = type; config = config; token = token } in
      let target : Target = record {
        mid = admin.mid;
        address = address;
        rpc_id = admin.open_collector_id;
      } in
      let (x, t) =
        net.ask (open_collector_in_t, some open_collector_out_t) target provider_id input s in
      (remote_call x target provider_id input read_id, t)

  -- soma_close_collector
  unfoldable pub close_collector :
      Remote S
      → Admin
      → (address : Ptr) → (provider_id : ℕ) → (token : Option String) → CollectorId
      → S
      → Outcome CloseCollectorIn (Unit {0}) × S
  unfolding remote_call
  close_collector net admin address provider_id token id s =
      let input : CloseCollectorIn = record { token = token; id = id } in
      let target : Target = record {
        mid = admin.mid;
        address = address;
        rpc_id = admin.close_collector_id;
      } in
      let (x, t) =
        net.ask (close_collector_in_t, some close_collector_out_t) target provider_id input s in
      (remote_call x target provider_id input (λ out. (out.ret, none)), t)

  -- soma_destroy_collector
  unfoldable pub destroy_collector :
      Remote S
      → Admin
      → (address : Ptr) → (provider_id : ℕ) → (token : Option String) → CollectorId
      → S
      → Outcome CloseCollectorIn (Unit {0}) × S
  unfolding remote_call
  destroy_collector net admin address provider_id token id s =
      let input : CloseCollectorIn = record { token = token; id = id } in
      let target : Target = record {
        mid = admin.mid;
        address = address;
        rpc_id = admin.destroy_collector_id;
      } in
      let (x, t) =
        net.ask (destroy_collector_in_t, some destroy_collector_out_t) target provider_id input s in
      (remote_call x target provider_id input (λ out. (out.ret, none)), t)

-- The `memcpy` of `count` ids into an array with room for `room` of them; `none` is a fault, a write
-- or a read outside of an array.
abbrev pub copy_ids : (room count : ℕ) → Option (List CollectorId) → Option (List CollectorId)
copy_ids room count none = if leb count 0 then some [] else none
copy_ids room count (some ids) =
    if leb count room && leb count (length ids) then some (take count ids) else none

abbrev copied :
    ListCollectorsOut
    → Option (List CollectorId)
    → Option (ReturnCode × Option (ℕ × List CollectorId))
copied out none = none
copied out (some ids) = some (out.ret, some (out.count, ids))

-- What soma_list_collectors takes from the output: the count and the copied ids.
abbrev read_list : ℕ → ListCollectorsOut → Option (ReturnCode × Option (ℕ × List CollectorId))
read_list room out =
    if is_success out.ret
    then copied out (copy_ids room out.count out.ids)
    else some (out.ret, none)

-- The end of soma_list_collectors, with what the exchange gave.
unfoldable pub list_call :
    Exchange ListCollectorsOut
    → Target
    → ℕ
    → (room : ℕ) → ListCollectorsIn
    → Option (Outcome ListCollectorsIn (ℕ × List CollectorId))
unfolding remote_call
list_call x target provider_id room input = elim x.output [
  | none ↦ some (remote_call x target provider_id input (λ out. (out.ret, none)))
  | some out ↦ elim (read_list room out) [
    | none ↦
        if x.create_ok && x.forward_ok
        then none
        else some (remote_call x target provider_id input (λ o. (o.ret, none)))
    | some read ↦ some (remote_call x target provider_id input (λ o. read))
  ]
]

abbrev beside : {A S : Type 0} → S → Option A → Option (A × S)
beside t none = none
beside t (some a) = some (a, t)

-- soma_list_collectors; `room` is the caller's `*count`, the size of its array.
unfoldable pub list_collectors :
    {S : Type 0}
    → Remote S
    → Admin
    → (address : Ptr) → (provider_id : ℕ) → (token : Option String) → (room : ℕ) → S
    → Option (Outcome ListCollectorsIn (ℕ × List CollectorId) × S)
unfolding list_call
list_collectors net admin address provider_id token room s =
    let input : ListCollectorsIn = record { token = token; max_ids = room } in
    let target : Target = record {
      mid = admin.mid;
      address = address;
      rpc_id = admin.list_collectors_id;
    } in
    let (x, t) =
      net.ask (list_collectors_in_t, some list_collectors_out_t) target provider_id input s in
    beside t (list_call x target provider_id room input)
