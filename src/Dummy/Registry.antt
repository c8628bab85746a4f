-- ===== src/Dummy/Registry.antt =====
-- What a provider with the dummy backend promises: a registry of configurations by collector id.
-- The view of a server forgets pointers, contexts and uninitialised memory.
use soma_c.Prelude.{
  ◌<◌, ◌≡◌, String, str_eq, Bool, true, false, Option, none, some, List, [], ◌∷◌, ◌++◌, map, ◌==◌,
  if◌then◌else◌, take, length,
}
use soma_c.Prelude.Int.{ℤ, ◌+ℤ◌, fits_int32}
use soma_c.Common.{
  ReturnCode, success, err_invalid_collector, err_invalid_backend, err_invalid_token,
  err_invalid_config, err_from_mercury, CollectorId, Ptr, is_success,
}
use soma_c.Types.{CreateCollectorIn, CloseCollectorIn, ListCollectorsIn, SumIn}
use soma_c.Foreign.JsonC.{JsonC}
use soma_c.Foreign.UtHash.{UtHash, find_id}
use soma_c.Provider.State.{Collector}
use soma_c.Provider.Server.{
  Server, create_out, close_out, list_out, sum_out, HandleCall, respond, free_input, destroy,
}
use soma_c.Provider.Collectors.Items.{IsWellFormed, collectors_of}
use soma_c.Provider.Handlers.{Supply, uint_mod}
use soma_c.Provider.Serve.{
  Request, create_collector, open_collector, close_collector, destroy_collector, list_collectors,
  hello, sum,
}
use soma_c.Dummy.{Heap, read_config, dummy_backend}
use soma_c.Dummy.Owned.{Owns, IsAscending}

-- Ids and configurations, the oldest first.
abbrev pub Registry : Type 0 → Type 0
Registry J = List (CollectorId × J)

-- What a client learns from an answer.
pub data Reply : Type 0 where
  silent : Reply
  made : CollectorId → Reply
  code : ReturnCode → Reply
  listed : List CollectorId → Reply
  total : ℤ → Reply

abbrev pub ids_of : Option (List CollectorId) → List CollectorId
ids_of none = []
ids_of (some ids) = ids

abbrev pub reply_of : List HandleCall → Reply
reply_of (respond (create_out o) ∷ cs) = if is_success o.ret then made o.id else code o.ret
reply_of (respond (close_out o) ∷ cs) = code o.ret
reply_of (respond (list_out o) ∷ cs) =
    if is_success o.ret then listed (take o.count (ids_of o.ids)) else code o.ret
reply_of (respond (sum_out o) ∷ cs) = if is_success o.ret then total o.result else code o.ret
reply_of (free_input ∷ cs) = silent
reply_of (destroy ∷ cs) = silent
reply_of [] = silent

-- A token is accepted if it is the secret, or if there is no secret.
abbrev pub accepts : Option String → Option String → Bool
accepts none token = true
accepts (some secret) none = false
accepts (some secret) (some token) = str_eq token secret

abbrev pub is_dummy : Option String → Bool
is_dummy none = false
is_dummy (some name) = str_eq name "dummy"

-- strcmp is given no NULL token.
abbrev pub IsSendable : Option String → Option String → Type 0
IsSendable none token = Unit
IsSendable (some secret) none = ⊥
IsSendable (some secret) (some token) = Unit

module _ {J : Type 0} where
  abbrev pub has_key : CollectorId → Registry J → Bool
  has_key id [] = false
  has_key id ((k, j) ∷ r) = if k == id then true else has_key id r

  abbrev pub without : CollectorId → Registry J → Registry J
  without id [] = []
  without id ((k, j) ∷ r) = if k == id then r else (k, j) ∷ without id r

  abbrev pub keys : Registry J → List CollectorId
  keys = map λ e. e.0

  -- Close and destroy.
  abbrev pub removal : Option String → Option CloseCollectorIn → Registry J → Reply × Registry J
  removal secret none r = (code err_from_mercury, r)
  removal secret (some i) r =
      if accepts secret i.token
      then (if has_key i.id r
          then (code success, without i.id r)
          else (code err_invalid_collector, r))
      else (code err_invalid_token, r)

  abbrev pub listing : Option String → Option ListCollectorsIn → Registry J → Reply
  listing secret none r = code err_from_mercury
  listing secret (some i) r =
      if accepts secret i.token then listed (take i.max_ids (keys r)) else code err_invalid_token

  abbrev pub addition : Option SumIn → Registry J → Reply
  addition none r = code err_from_mercury
  addition (some i) r =
      if has_key i.collector_id r then total (i.x +ℤ i.y) else code err_invalid_collector

module _ {J : Type 0} ⦃json : JsonC J⦄ where
  abbrev pub enter : CollectorId → Option J → Registry J → Reply × Registry J
  enter uuid none r = (code err_invalid_config, r)
  enter uuid (some j) r = (made uuid, r ++ (uuid, j) ∷ [])

  -- Create and open, with the uuid that was generated.
  abbrev pub creation :
      Option String → CollectorId → Option CreateCollectorIn → Registry J → Reply × Registry J
  creation secret uuid none r = (code err_from_mercury, r)
  creation secret uuid (some i) r =
      if accepts secret i.token
      then (if is_dummy i.type
          then enter uuid (read_config i.config) r
          else (code err_invalid_backend, r))
      else (code err_invalid_token, r)

  -- The reply to a request, and the registry after it.
  abbrev pub respond_to : Option String → Request → Registry J → Reply × Registry J
  respond_to secret (create_collector supply rpc) r = creation secret supply.uuid rpc.input r
  respond_to secret (open_collector supply rpc) r = creation secret supply.uuid rpc.input r
  respond_to secret (close_collector rpc) r = removal secret rpc.input r
  respond_to secret (destroy_collector rpc) r = removal secret rpc.input r
  respond_to secret (list_collectors calloc_ok rpc) r = (listing secret rpc.input r, r)
  respond_to secret (hello input) r = (silent, r)
  respond_to secret (sum rpc) r = (addition rpc.input r, r)

  -- The registry that collectors and allocated contexts stand for.
  abbrev pub entries : List (Collector (Heap J)) → List (Ptr × J) → Registry J
  entries [] ls = []
  entries (c ∷ cs) [] = []
  entries (c ∷ cs) ((p, j) ∷ ls) = (c.id, j) ∷ entries cs ls

module _ {J T : Type 0} ⦃json : JsonC J⦄ ⦃h : UtHash (Heap J) T⦄ where
  abbrev pub registry : Server (Heap J) T → Registry J
  registry s = entries (collectors_of s.provider) s.world.live

  -- The provider is well-formed and has the dummy backend alone; the allocated contexts are those of
  -- its collectors, each of one collector.
  pub record IsOwned (s : Server (Heap J) T) : Type 0 where
    pub well_formed : IsWellFormed s.provider
    pub backend : s.provider.backend_types ≡ dummy_backend ∷ []
    pub owns : Owns (collectors_of s.provider) s.world.live
    pub ascending : IsAscending 1 s.world.next s.world.live

  -- Create and open: the strings that are compared are not NULL, allocation succeeds, and the uuid
  -- is new.
  abbrev pub IsCreatable : Server (Heap J) T → Supply → Option CreateCollectorIn → Type 0
  IsCreatable s supply none = Unit
  IsCreatable s supply (some i) =
      IsSendable s.provider.token i.token
      × ((name : String) × (i.type ≡ some name))
      × (supply.calloc_ok ≡ true)
      × (s.world.grants s.world.next ≡ true)
      × (find_id supply.uuid (collectors_of s.provider) ≡ none)

  -- What a request has to fulfil to be served without undefined behaviour.
  abbrev pub IsServable : Server (Heap J) T → Request → Type 0
  IsServable s (create_collector supply rpc) = IsCreatable s supply rpc.input
  IsServable s (open_collector supply rpc) = IsCreatable s supply rpc.input
  IsServable s (close_collector rpc) = elim rpc.input [
    | none ↦ Unit
    | some i ↦ IsSendable s.provider.token i.token
  ]
  IsServable s (destroy_collector rpc) = elim rpc.input [
    | none ↦ Unit
    | some i ↦ IsSendable s.provider.token i.token
  ]
  IsServable s (list_collectors calloc_ok rpc) = elim rpc.input [
    | none ↦ Unit
    | some i ↦
        IsSendable s.provider.token i.token
        × (calloc_ok ≡ true)
        × (length (collectors_of s.provider) < uint_mod)
  ]
  IsServable s (hello input) = Unit
  IsServable s (sum rpc) = elim rpc.input [ none ↦ Unit | some i ↦ fits_int32 (i.x +ℤ i.y) ≡ true ]
