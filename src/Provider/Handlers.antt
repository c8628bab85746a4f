-- ===== src/Provider/Handlers.antt =====
-- The RPC handlers of src/provider.c. A handler is started with what margo_get_input gives (`none`
-- when the input cannot be deserialized) and with what its uninitialised variable `out` holds.
use soma_c.Prelude.{
  ℕ, ◌+◌, ◌%◌, ◌^◌, Bool, true, false, not, Option, none, some, List, [], ◌∷◌, String, ltb,
  if◌then◌else◌, set, length, replicate,
}
use soma_c.Prelude.State.{M, pure, fault, gets, lift, ◌>>=◌, ◌>>◌}
use soma_c.Common.{
  ReturnCode, success, err_invalid_collector, err_invalid_backend, err_invalid_token,
  err_from_mercury, is_success, CollectorId, Ptr,
}
use soma_c.Types.{
  CreateCollectorIn, CreateCollectorOut, CloseCollectorIn, CloseCollectorOut, ListCollectorsIn,
  ListCollectorsOut, HelloIn, SumIn, SumOut,
}
use soma_c.Backend.{BackendImpl}
use soma_c.Foreign.UtHash.{UtHash}
use soma_c.Provider.State.{Collector}
use soma_c.Provider.Server.{
  Server, Response, create_out, close_out, list_out, sum_out, respond, free_input, destroy,
  in_world, call, set_provider,
}
use soma_c.Provider.Backends.{find_backend_impl}
use soma_c.Provider.Collectors.{check_token, find_collector, add_collector, remove_collector}

pub record Rpc (In Out : Type 0) : Type 0 where
  pub input : Option In
  pub out : Out

-- What create and open take from outside: the uuid that uuid_generate makes, and whether the
-- calloc of the collector succeeds.
pub record Supply : Type 0 where
  pub uuid : CollectorId
  pub calloc_ok : Bool

-- The label `finish`.
abbrev pub finish : {W T : Type 0} → Response → M (Server W T) (Unit {0})
finish out = do call (respond out); call free_input; call destroy

module _ {W T : Type 0} ⦃h : UtHash W T⦄ where
  -- A collector is allocated, set up and added; the result of add_collector is dropped.
  unfoldable pub install : Supply → BackendImpl W → Ptr → M (Server W T) CreateCollectorOut
  install supply backend context =
      if supply.calloc_ok
      then (do
        p ← gets (λ s. s.provider)
        set_provider (add_collector p (record { fn = backend; ctx = context; id = supply.uuid })).1
        pure (record { ret = success; id = supply.uuid }))
      else fault

  -- The common text of create and open, for the function `make` of the backend.
  unfoldable pub make_collector :
      (BackendImpl W → Option String → M W (ReturnCode × Ptr))
      → Supply
      → CreateCollectorOut
      → Option CreateCollectorIn
      → M (Server W T) CreateCollectorOut
  make_collector make supply out none = pure (record out { ret = err_from_mercury })
  make_collector make supply out (some input) = do
    p ← gets (λ s. s.provider)
    valid ← lift (check_token p input.token)
    if not valid then pure (record out { ret = err_invalid_token }) else do
      found ← lift (find_backend_impl p input.type)
      elim found [
        | none ↦ pure (record out { ret = err_invalid_backend })
        | some backend ↦ do
          (ret, context) ← in_world (make backend input.config)
          if is_success ret then install supply backend context else pure (record out { ret = ret })
      ]

  unfoldable pub create_collector_ult :
      Supply → Rpc CreateCollectorIn CreateCollectorOut → M (Server W T) (Unit {0})
  create_collector_ult supply rpc = do
    out ← make_collector (λ b. b.create_collector) supply rpc.out rpc.input
    finish (create_out out)

  unfoldable pub open_collector_ult :
      Supply → Rpc CreateCollectorIn CreateCollectorOut → M (Server W T) (Unit {0})
  open_collector_ult supply rpc = do
    out ← make_collector (λ b. b.open_collector) supply rpc.out rpc.input
    finish (create_out out)

  unfoldable pub close_body : Option CloseCollectorIn → M (Server W T) ReturnCode
  close_body none = pure err_from_mercury
  close_body (some input) = do
    p ← gets (λ s. s.provider)
    valid ← lift (check_token p input.token)
    if not valid then pure err_invalid_token else remove_collector input.id true

  unfoldable pub close_collector_ult :
      Rpc CloseCollectorIn CloseCollectorOut → M (Server W T) (Unit {0})
  close_collector_ult rpc = do ret ← close_body rpc.input; finish (close_out (record { ret = ret }))

  unfoldable pub destroy_body : Option CloseCollectorIn → M (Server W T) ReturnCode
  destroy_body none = pure err_from_mercury
  destroy_body (some input) = do
    p ← gets (λ s. s.provider)
    valid ← lift (check_token p input.token)
    if not valid then pure err_invalid_token else elim (find_collector p input.id) [
      | none ↦ pure err_invalid_collector
      | some c ↦ do ret ← in_world (c.fn.destroy_collector c.ctx); remove_collector input.id false
    ]

  unfoldable pub destroy_collector_ult :
      Rpc CloseCollectorIn CloseCollectorOut → M (Server W T) (Unit {0})
  destroy_collector_ult rpc = do
    ret ← destroy_body rpc.input
    finish (close_out (record { ret = ret }))

  unfoldable pub hello_body : Option HelloIn → M (Server W T) (Unit {0})
  hello_body none = pure tt
  hello_body (some input) = do
    p ← gets (λ s. s.provider)
    elim (find_collector p input.collector_id) [
      | none ↦ pure tt
      | some c ↦ in_world (c.fn.hello c.ctx)
    ]

  -- This handler neither responds nor frees its input.
  unfoldable pub hello_ult : Option HelloIn → M (Server W T) (Unit {0})
  hello_ult input = hello_body input >> call destroy

  unfoldable pub sum_body : SumOut → Option SumIn → M (Server W T) SumOut
  sum_body out none = pure (record out { ret = err_from_mercury })
  sum_body out (some input) = do
    p ← gets (λ s. s.provider)
    elim (find_collector p input.collector_id) [
      | none ↦ pure (record out { ret = err_invalid_collector })
      | some c ↦ do
        result ← in_world (c.fn.sum c.ctx input.x input.y)
        pure (record { result = result; ret = success })
    ]

  unfoldable pub sum_ult : Rpc SumIn SumOut → M (Server W T) (Unit {0})
  sum_ult rpc = do out ← sum_body rpc.out rpc.input; finish (sum_out out)

-- An `unsigned` plus one.
abbrev pub uint_mod : ℕ
uint_mod = 2 ^ 32

abbrev pub incr_uint : ℕ → ℕ
incr_uint n = (n + 1) % uint_mod

-- `out.ids[i++] = r->id` for each item: a write outside of the array is a fault.
unfoldable pub fill_ids :
    {W : Type 0} → List CollectorId → ℕ → List (Collector W) → Option (List CollectorId)
fill_ids ids i [] = some ids
fill_ids ids i (r ∷ rs) =
    let rest = fill_ids (set ids i r.id) (incr_uint i) rs in
    if ltb i (length ids) then rest else none

-- The same through the pointer that `calloc` returned, which may be NULL.
unfoldable pub fill_array :
    {W : Type 0}
    → Option (List CollectorId)
    → List (Collector W)
    → Option (Option (List CollectorId))
fill_array none [] = some none
fill_array none (r ∷ rs) = none
fill_array (some ids) rs = elim (fill_ids ids 0 rs) [
  | none ↦ none
  | some filled ↦ some (some filled)
]

module _ {W T : Type 0} ⦃h : UtHash W T⦄ where
  unfoldable pub list_body :
      (calloc_ok : Bool)
      → ListCollectorsOut
      → Option ListCollectorsIn
      → M (Server W T) ListCollectorsOut
  list_body calloc_ok out none = pure (record out { ret = err_from_mercury; ids = none })
  list_body calloc_ok out (some input) = do
    p ← gets (λ s. s.provider)
    valid ← lift (check_token p input.token)
    if not valid then pure (record out { ret = err_invalid_token; ids = none }) else do
      let count = if ltb p.num_collectors input.max_ids then p.num_collectors else input.max_ids
      let array = if calloc_ok then some (replicate p.num_collectors 0) else none
      ids ← lift (fill_array array (h.items p.collectors))
      pure (record { ret = success; count = count; ids = ids })

  unfoldable pub list_collectors_ult :
      (calloc_ok : Bool) → Rpc ListCollectorsIn ListCollectorsOut → M (Server W T) (Unit {0})
  list_collectors_ult calloc_ok rpc = do
    out ← list_body calloc_ok rpc.out rpc.input
    finish (list_out out)
