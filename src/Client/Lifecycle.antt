-- ===== src/Client/Lifecycle.antt =====
-- soma_client_init and soma_client_finalize of src/client.c.
use soma_c.Prelude.{
  ℕ, suc, ◌<◌, ◌^◌, ◌≡◌, ◌≢◌, ap, Bool, true, false, not, Option, none, some, List, [], ◌∷◌, arith,
  ◌==◌, if◌then◌else◌, Option-cases, inl, inr,
}
use soma_c.Prelude.State.{M}
use soma_c.Common.{ReturnCode, success, err_allocation, Ptr}
use soma_c.Types.Layouts.{hello_in_t, sum_in_t, sum_out_t}
use soma_c.Foreign.Names.{Names}
use soma_c.Client.{
  Client, CollectorHandle, Store, find_handle, set_client, handle_release, drop_handle,
}
use soma_c.Client.Counting.{IsCounting, count_of}

-- The id of a name, which stays the 0 of calloc where there is none.
abbrev pub id_or_zero : Option ℕ → ℕ
id_or_zero none = 0
id_or_zero (some id) = id

module _ {I : Type 0} ⦃names : Names I⦄ where
  -- What soma_client_init fills in, and what it registers.
  unfoldable pub new_client : (mid : Ptr) → I → Client × I
  new_client mid i = elim (names.registered_name i "soma_sum") [
    | some id ↦ (
      record {
        mid = mid;
        hello_id = id_or_zero (names.registered_name i "soma_hello");
        sum_id = id;
        num_collector_handles = 0;
      },
      i,
    )
    | none ↦
        let (sum_id, i1) = names.register i "soma_sum" (sum_in_t, some sum_out_t) in
        let (hello_id, i2) = names.register i1 "soma_hello" (hello_in_t, none) in
        (
          record { mid = mid; hello_id = hello_id; sum_id = sum_id; num_collector_handles = 0 },
          names.disable_response i2 hello_id,
        )
  ]

  -- soma_client_init: the client that is written through the pointer is returned, if one is.
  unfoldable pub client_init :
      (mid : Ptr) → (calloc_ok : Bool) → I → Store → (ReturnCode × Option Ptr) × I × Store
  client_init mid calloc_ok i s =
      if calloc_ok
      then (let (c, j) = new_client mid i in
          (
            (success, some s.next),
            j,
            record s { next = suc s.next; clients = set_client s.clients s.next c },
          ))
      else ((err_allocation, none), i, s)

abbrev pub clear_client : (Ptr → Option Client) → Ptr → Ptr → Option Client
clear_client clients p q = if p == q then none else clients q

-- soma_client_finalize: the code, and whether the warning is printed.
unfoldable pub client_finalize : Ptr → M Store (ReturnCode × Bool)
client_finalize client s = elim (s.clients client) [
  | none ↦ none
  | some c ↦ some (
    (success, not (c.num_collector_handles == 0)),
    record s { clients = clear_client s.clients client },
  )
]

module _ {I : Type 0} ⦃names : Names I⦄ where
  -- The RPCs of a client are registered together, or soma_sum is not.
  abbrev pub IsPaired : I → Type 0
  IsPaired i = elim (names.registered_name i "soma_sum") [
    | none ↦ Unit
    | some id ↦ (k : ℕ) × (names.registered_name i "soma_hello" ≡ some k)
  ]

  new_client-registered :
      (mid : Ptr) (i : I)
      → IsPaired i
      → (names.registered_name (new_client mid i).1 "soma_sum" ≡ some (new_client mid i).0.sum_id)
        × (names.registered_name (new_client mid i).1 "soma_hello"
            ≡ some (new_client mid i).0.hello_id)
        × ((new_client mid i).0.mid ≡ mid)
        × ((new_client mid i).0.num_collector_handles ≡ 0)
  unfolding new_client
  new_client-registered mid i both =
      let (_, i1) = names.register i "soma_sum" (sum_in_t, some sum_out_t) in
      let (id, i2) = names.register i1 "soma_hello" (hello_in_t, none) in
      ground (
        arith,
        names.registered_name-register i "soma_sum" "soma_sum" (sum_in_t, some sum_out_t),
        names.registered_name-register i1 "soma_hello" "soma_sum" (hello_in_t, none),
        names.registered_name-register i1 "soma_hello" "soma_hello" (hello_in_t, none),
        names.registered_name-disable_response i2 id "soma_sum",
        names.registered_name-disable_response i2 id "soma_hello",
      )

  new_client_again :
      (mid : Ptr) (j : I) (c : Client)
      → names.registered_name j "soma_sum" ≡ some c.sum_id
      → names.registered_name j "soma_hello" ≡ some c.hello_id
      → c.mid ≡ mid
      → c.num_collector_handles ≡ 0
      → new_client mid j ≡ (c, j)
  unfolding new_client
  new_client_again mid j c sum hello m z = ground arith

  -- On an instance where soma_hello is registered if soma_sum is, soma_client_init gives the new
  -- client the ids of the two RPCs, both of them registered then; another initialization registers
  -- nothing, and makes an equal client.
  pub client_init_again :
      (mid : Ptr) (i : I) (s : Store)
      → IsPaired i
      → let (_, j, t) = client_init mid true i s in
        let (_, k, u) = client_init mid true j t in
        (c : Client) × (t.clients s.next ≡ some c)
        × (names.registered_name j "soma_sum" ≡ some c.sum_id)
        × (names.registered_name j "soma_hello" ≡ some c.hello_id)
        × (k ≡ j)
        × (u.clients (suc s.next) ≡ some c)
  unfolding client_init
  client_init_again mid i s both =
      let (sum, hello, m, z) = new_client-registered mid i both in
      let again = new_client_again mid (new_client mid i).1 (new_client mid i).0 sum hello m z in
      ((new_client mid i).0, ground arith, sum, hello, ap (λ r. r.1) again, rw again (ground arith))

count_of-found :
    (p q : Ptr) (rh : CollectorHandle) (hs : List (Ptr × CollectorHandle))
    → find_handle p hs ≡ some rh
    → count_of q hs ≡ 0
    → (rh.client == q) ≡ false
count_of-found p q rh [] e z = cc
count_of-found p q rh ((k, d) ∷ hs) e z = ground (arith, count_of-found p q rh hs)

abbrev pub is_fault : {A : Type 0} → Option A → Bool
is_fault none = true
is_fault (some a) = false

-- A client of a counting store with fewer than 2^64 handles: if soma_client_finalize prints no
-- warning, then it makes no release of any handle a fault that was none before.
pub client_finalize-quiet :
    (client p : Ptr) (s t : Store) (ret : ReturnCode)
    → IsCounting s
    → count_of client s.handles < 2 ^ 64
    → client_finalize client s ≡ some ((ret, false), t)
    → is_fault (handle_release p t) ≡ is_fault (handle_release p s)
unfolding client_finalize handle_release drop_handle
client_finalize-quiet client p s t ret v small e = elim (Option-cases (s.clients client)) [
  | inl gone ↦ ground arith
  | inr (c, here) ↦
      let none_left : count_of client s.handles ≡ 0 = ground (arith, v.counted client c here) in
      elim (Option-cases (find_handle p s.handles)) [
        | inl missing ↦ ground arith
        | inr (rh, found) ↦ ground (arith, count_of-found p client rh s.handles found none_left)
      ]
]

-- A client of a counting store with fewer than 2^64 handles that is finalized before the last
-- release of one of its handles: soma_client_finalize prints its warning, frees the client all the
-- same, and that release reads the freed client.
pub client_finalize-early :
    (client p : Ptr) (rh : CollectorHandle) (c : Client) (s : Store)
    → IsCounting s
    → count_of client s.handles < 2 ^ 64
    → s.clients client ≡ some c
    → p ≢ 0
    → find_handle p s.handles ≡ some rh
    → rh.client ≡ client
    → rh.refcount ≡ 1
    → (t : Store) × (client_finalize client s ≡ some ((success, true), t))
      × (handle_release p t ≡ none)
unfolding client_finalize handle_release drop_handle
client_finalize-early client p rh c s v small here ne found owner single = (
  record s { clients = clear_client s.clients client },
  ground (arith, v.counted client c here, count_of-found p client rh s.handles found),
  ground arith,
)
