-- ===== src/Provider/Serve/Bodies.antt =====
-- What the bodies of the handlers of src/provider.c keep, whatever the backends do.
use soma_c.Prelude.{
  ◌≡◌, refl, Bool, true, false, Option, none, some, arith, inl, inr, Option-cases, String,
}
use soma_c.Prelude.State.{M, ◌>>=◌}
use soma_c.Common.{ReturnCode, CollectorId, Ptr}
use soma_c.Types.{
  CreateCollectorIn, CreateCollectorOut, CloseCollectorIn, HelloIn, SumIn, SumOut, ListCollectorsIn,
  ListCollectorsOut,
}
use soma_c.Backend.{BackendImpl}
use soma_c.Provider.State.{Collector, Provider}
use soma_c.Foreign.UtHash.{UtHash}
use soma_c.Provider.Server.{Server, Response}
use soma_c.Provider.Collectors.{add_collector, unlink_collector, find_collector, remove_collector}
use soma_c.Provider.Collectors.Items.{
  IsWellFormed, add_collector-IsWellFormed, unlink_collector-IsWellFormed,
}
use soma_c.Provider.Backends.{find_backend_impl}
use soma_c.Provider.Handlers.{
  finish, Supply, install, make_collector, close_body, destroy_body, list_body, hello_body,
  sum_body,
}
use soma_c.Provider.Serve.Auth.{answer, called, finish-answer}

module _ {W T : Type 0} ⦃h : UtHash W T⦄ where
  -- The collectors and their number are all that differs.
  abbrev pub DiffersInCollectors : Provider W T → Provider W T → Type 0
  DiffersInCollectors p q =
      q ≡ record p { num_collectors = q.num_collectors; collectors = q.collectors }

  -- From `s` to `t` the provider stays well-formed, nothing but its collectors changes, and nothing
  -- is called on the handle.
  abbrev pub Keeps : Server W T → Server W T → Type 0
  Keeps s t =
      (IsWellFormed s.provider → IsWellFormed t.provider)
      × ((t.calls ≡ s.calls) × DiffersInCollectors s.provider t.provider)

  add_collector-DiffersInCollectors :
      (p : Provider W T) (c : Collector W) → DiffersInCollectors p (add_collector p c).1
  unfolding add_collector
  add_collector-DiffersInCollectors p c = elim (Option-cases (find_collector p c.id)) [
    | inl missing ↦ rw (add_collector, missing) refl
    | inr (d, found) ↦ rw (add_collector, found) refl
  ]

  unlink_collector-DiffersInCollectors :
      (p : Provider W T) (c : Collector W) → DiffersInCollectors p (unlink_collector p c)
  unfolding unlink_collector
  unlink_collector-DiffersInCollectors p c = refl

  install-Keeps :
      (supply : Supply) (b : BackendImpl W) (ctx : Ptr) (s t : Server W T) (o : CreateCollectorOut)
      → install supply b ctx s ≡ some (o, t)
      → Keeps s t
  unfolding install
  install-Keeps supply b ctx s t o e =
      let c : Collector W = record { fn = b; ctx = ctx; id = supply.uuid } in
      let same : t ≡ record s { provider = (add_collector s.provider c).1 } = ground arith in
      rw same (
        λ v. add_collector-IsWellFormed s.provider c v,
        (refl, add_collector-DiffersInCollectors s.provider c),
      )

  pub make_collector-Keeps :
      (make : BackendImpl W → Option String → M W (ReturnCode × Ptr)) (supply : Supply)
      (out o : CreateCollectorOut) (input : Option CreateCollectorIn) (s t : Server W T)
      → make_collector make supply out input s ≡ some (o, t)
      → Keeps s t
  unfolding make_collector
  make_collector-Keeps make supply out o none s t e = (λ v. ground arith, ground arith)
  make_collector-Keeps make supply out o (some input) s t e =
      elim (Option-cases (find_backend_impl s.provider input.type)) [
        | inl e1 ↦ (λ v. ground arith, ground arith)
        | inr (none, e1) ↦ (λ v. ground arith, ground arith)
        | inr (some b, e1) ↦ elim (Option-cases (make b input.config s.world)) [
          | inl e2 ↦ (λ v. ground arith, ground arith)
          | inr (((ret, ctx), w), e2) ↦
              let kept = install-Keeps supply b ctx (record s { world = w }) t o in
              (
                λ v. ground (
                  arith,
                  λ (p : install supply b ctx (record s { world = w }) ≡ some (o, t)). (kept p).0 v,
                ),
                ground (
                  arith,
                  λ (p : install supply b ctx (record s { world = w }) ≡ some (o, t)). (kept p).1,
                ),
              )
        ]
      ]

  remove_collector-Keeps :
      (id : CollectorId) (close : Bool) (s t : Server W T) (ret : ReturnCode)
      → remove_collector id close s ≡ some (ret, t)
      → Keeps s t
  unfolding remove_collector
  remove_collector-Keeps id close s t ret e = elim (Option-cases (find_collector s.provider id)) [
    | inl missing ↦ (ground arith, ground arith)
    | inr (c, found) ↦
        let same : t ≡ record s { provider = unlink_collector s.provider c; world = t.world } =
          ground arith in
        rw same (
          λ v. unlink_collector-IsWellFormed s.provider id c v found,
          (refl, unlink_collector-DiffersInCollectors s.provider c),
        )
  ]

  pub close_body-Keeps :
      (input : Option CloseCollectorIn) (s t : Server W T) (ret : ReturnCode)
      → close_body input s ≡ some (ret, t)
      → Keeps s t
  unfolding close_body
  close_body-Keeps none s t ret e = (λ v. ground arith, ground arith)
  close_body-Keeps (some input) s t ret e =
      let kept = remove_collector-Keeps input.id true s t ret in
      (
        λ v. ground (arith, λ (p : remove_collector input.id true s ≡ some (ret, t)). (kept p).0 v),
        ground (arith, λ (p : remove_collector input.id true s ≡ some (ret, t)). (kept p).1),
      )

  pub destroy_body-Keeps :
      (input : Option CloseCollectorIn) (s t : Server W T) (ret : ReturnCode)
      → destroy_body input s ≡ some (ret, t)
      → Keeps s t
  unfolding destroy_body
  destroy_body-Keeps none s t ret e = (λ v. ground arith, ground arith)
  destroy_body-Keeps (some input) s t ret e =
      elim (Option-cases (find_collector s.provider input.id)) [
        | inl e1 ↦ (λ v. ground arith, ground arith)
        | inr (c, e1) ↦ elim (Option-cases (c.fn.destroy_collector c.ctx s.world)) [
          | inl e2 ↦ (λ v. ground arith, ground arith)
          | inr ((code, w), e2) ↦
              let u : Server W T = record s { world = w } in
              let kept = remove_collector-Keeps input.id false u t ret in
              (
                λ v. ground (
                  arith,
                  λ (p : remove_collector input.id false u ≡ some (ret, t)). (kept p).0 v,
                ),
                ground
                    (arith, λ (p : remove_collector input.id false u ≡ some (ret, t)). (kept p).1),
              )
        ]
      ]

  pub hello_body-Keeps :
      (input : Option HelloIn) (s t : Server W T) → hello_body input s ≡ some (tt, t) → Keeps s t
  unfolding hello_body
  hello_body-Keeps none s t e = (λ v. ground arith, ground arith)
  hello_body-Keeps (some input) s t e = (λ v. ground arith, ground arith)

  pub sum_body-Keeps :
      (out o : SumOut) (input : Option SumIn) (s t : Server W T)
      → sum_body out input s ≡ some (o, t)
      → Keeps s t
  unfolding sum_body
  sum_body-Keeps out o none s t e = (λ v. ground arith, ground arith)
  sum_body-Keeps out o (some input) s t e = (λ v. ground arith, ground arith)

  pub list_body-Keeps :
      (calloc_ok : Bool) (out o : ListCollectorsOut) (input : Option ListCollectorsIn)
      (s t : Server W T)
      → list_body calloc_ok out input s ≡ some (o, t)
      → Keeps s t
  unfolding list_body
  list_body-Keeps calloc_ok out o none s t e = (λ v. ground arith, ground arith)
  list_body-Keeps calloc_ok out o (some input) s t e = (λ v. ground arith, ground arith)

  pub finish-inv :
      {A : Type 0} (f : A → Response) (m : M (Server W T) A) (s t : Server W T)
      → (m >>= λ o. finish (f o)) s ≡ some (tt, t)
      → (o : A) × (u : Server W T) × (m s ≡ some (o, u)) × (t ≡ called u (answer (f o)))
  finish-inv f m s t e = elim (Option-cases (m s)) [
    | inl e1 ↦ ground arith
    | inr ((o, u), e1) ↦ (o, u, e1, ground (arith, finish-answer u (f o)))
  ]
