-- ===== src/Client.antt =====
-- src/client.h and the functions of src/client.c on collector handles. Clients and handles live on a
-- heap; a read through a dangling pointer is a fault.
pub mod Counting
pub mod Rpc
pub mod HandleList
pub mod Release
pub mod Lifecycle
pub mod Session
use soma_c.Prelude.{
  ℕ, suc, ◌+◌, ◌-◌, ◌%◌, ◌^◌, Bool, Option, none, some, List, [], ◌∷◌, ◌==◌, if◌then◌else◌,
}
use soma_c.Prelude.State.{M}
use soma_c.Common.{
  ReturnCode, success, err_allocation, err_invalid_args, err_from_mercury, CollectorId, Ptr,
}

-- A uint64_t plus one and minus one.
abbrev pub incr64 : ℕ → ℕ
incr64 n = (n + 1) % 2 ^ 64

abbrev pub decr64 : ℕ → ℕ
decr64 n = (n + (2 ^ 64 - 1)) % 2 ^ 64

-- struct soma_client
pub record Client : Type 0 where
  pub mid : Ptr
  pub hello_id : ℕ
  pub sum_id : ℕ
  pub num_collector_handles : ℕ

-- struct soma_collector_handle
pub record CollectorHandle : Type 0 where
  pub client : Ptr
  pub addr : Ptr
  pub provider_id : ℕ
  pub refcount : ℕ
  pub collector_id : CollectorId

-- `next` is the address that the next calloc returns when it succeeds; `addrs` counts the addresses
-- that margo_addr_dup gave and margo_addr_free has not taken back.
pub record Store : Type 0 where
  pub next : Ptr
  pub clients : Ptr → Option Client
  pub handles : List (Ptr × CollectorHandle)
  pub addrs : ℕ

abbrev pub find_handle : Ptr → List (Ptr × CollectorHandle) → Option CollectorHandle
find_handle p [] = none
find_handle p ((q, rh) ∷ hs) = if q == p then some rh else find_handle p hs

abbrev pub put_handle :
    Ptr → CollectorHandle → List (Ptr × CollectorHandle) → List (Ptr × CollectorHandle)
put_handle p new [] = []
put_handle p new ((q, rh) ∷ hs) = if q == p then (q, new) ∷ hs else (q, rh) ∷ put_handle p new hs

abbrev pub erase_handle : Ptr → List (Ptr × CollectorHandle) → List (Ptr × CollectorHandle)
erase_handle p [] = []
erase_handle p ((q, rh) ∷ hs) = if q == p then hs else (q, rh) ∷ erase_handle p hs

abbrev pub set_client : (Ptr → Option Client) → Ptr → Client → Ptr → Option Client
set_client clients p c q = if p == q then some c else clients q

-- soma_collector_handle_create: `calloc_ok` and `dup` are what calloc and margo_addr_dup give; the
-- handle that is written through the pointer is returned, if one is.
unfoldable pub handle_create :
    (client addr : Ptr) (provider_id : ℕ)
    → CollectorId
    → (calloc_ok : Bool) → (dup : Option Ptr) → M Store (ReturnCode × Option Ptr)
handle_create client addr provider_id id calloc_ok dup s =
    if client == 0
    then some ((err_invalid_args, none), s)
    else (if calloc_ok
        then elim (s.clients client) [
          | none ↦ none
          | some c ↦ elim dup [
            | none ↦ some ((err_from_mercury, none), s)
            | some copy ↦ some (
              (success, some s.next),
              record s {
                next = suc s.next;
                clients =
                    set_client s.clients client
                      (record c { num_collector_handles = incr64 c.num_collector_handles });
                handles =
                    (
                      s.next,
                      record {
                        client = client;
                        addr = copy;
                        provider_id = provider_id;
                        refcount = 1;
                        collector_id = id;
                      },
                    )
                    ∷ s.handles;
                addrs = suc s.addrs;
              },
            )
          ]
        ]
        else some ((err_allocation, none), s))

-- soma_collector_handle_ref_incr
unfoldable pub handle_ref_incr : Ptr → M Store ReturnCode
handle_ref_incr handle s =
    if handle == 0 then some (err_invalid_args, s) else elim (find_handle handle s.handles) [
      | none ↦ none
      | some rh ↦ some (
        success,
        record s {
          handles = put_handle handle (record rh { refcount = incr64 rh.refcount }) s.handles;
        },
      )
    ]

-- The last release: the address and the handle are freed, and the client counts one less.
unfoldable pub drop_handle : Ptr → CollectorHandle → M Store ReturnCode
drop_handle handle rh s = elim (s.clients rh.client) [
  | none ↦ none
  | some c ↦ some (
    success,
    record s {
      clients =
          set_client s.clients rh.client
            (record c { num_collector_handles = decr64 c.num_collector_handles });
      handles = erase_handle handle s.handles;
      addrs = s.addrs - 1;
    },
  )
]

-- soma_collector_handle_release
unfoldable pub handle_release : Ptr → M Store ReturnCode
handle_release handle s =
    if handle == 0 then some (err_invalid_args, s) else elim (find_handle handle s.handles) [
      | none ↦ none
      | some rh ↦
          let less = decr64 rh.refcount in
          if less == 0
          then drop_handle handle (record rh { refcount = 0 }) s
          else some (
            success,
            record s { handles = put_handle handle (record rh { refcount = less }) s.handles },
          )
    ]

-- A client's calls on its handles.
pub data HandleOp : Type 0 where
  create : (client addr : Ptr) (provider_id : ℕ) → CollectorId → Bool → Option Ptr → HandleOp
  ref_incr : Ptr → HandleOp
  release : Ptr → HandleOp

abbrev forget : {A : Type 0} → Option (A × Store) → Option Store
forget none = none
forget (some (a, s)) = some s

unfoldable pub step : HandleOp → Store → Option Store
step (create client addr provider_id id calloc_ok dup) s =
    forget (handle_create client addr provider_id id calloc_ok dup s)
step (ref_incr handle) s = forget (handle_ref_incr handle s)
step (release handle) s = forget (handle_release handle s)
